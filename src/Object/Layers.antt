-- ===== src/Object/Layers.antt =====
-- The page store of crates/storage/src/object/mod.rs: the memtable, the delta layers, the image
-- layer, reads over them, flush, compaction and garbage collection.
use bydesigns_db.Base.{
  ℕ, ◌+◌, Bool, false, ◌&&◌, ◌||◌, ◌==◌, ltb, leb, if◌then◌else◌, Option, none, some, List, [], ◌∷◌,
  ◌++◌,
}
use bydesigns_db.Types.{not_found, corruption, Result, Page, from_slice}
use bydesigns_db.Codec.{PageRecord, encode_delta, decode_delta, encode_image, decode_image}
use bydesigns_db.Object.Client.{Key, delta, image, all_deltas, all_images, key_eq, ObjectStore}
use bydesigns_db.Object.State.{
  DeltaMeta, ImageMeta, Action, pure, fail, lift, or_fail, ◌>>=◌, ◌>>◌, state, set_state, fail_if,
  call, obj_get, obj_put, obj_delete, obj_list,
}

-- The greatest version of a page at or below an LSN, the last one of equals.
unfoldable pub later : Option PageRecord → Option PageRecord → Option PageRecord
later a none = a
later none (some b) = some b
later (some a) (some b) = if leb a.lsn b.lsn then some b else some a

unfoldable pub best_in : List PageRecord → ℕ → ℕ → Option PageRecord
unfolding later
best_in [] page_id query = none
best_in (r ∷ recs) page_id query =
    let rest = best_in recs page_id query in
    if r.page_id == page_id && leb r.lsn query then later (some r) rest else rest

-- `memtable.insert`.
unfoldable pub memtable_insert : PageRecord → List PageRecord → List PageRecord
memtable_insert r [] = r ∷ []
memtable_insert r (x ∷ xs) =
    let rest = memtable_insert r xs in
    if ltb r.page_id x.page_id || (r.page_id == x.page_id && ltb r.lsn x.lsn)
    then r ∷ (x ∷ xs)
    else if r.page_id == x.page_id && r.lsn == x.lsn
    then r ∷ xs
    else x ∷ rest

unfoldable pub insert_desc : DeltaMeta → List DeltaMeta → List DeltaMeta
insert_desc d [] = d ∷ []
insert_desc d (c ∷ cs) =
    let rest = insert_desc d cs in if ltb d.hi c.hi then c ∷ rest else d ∷ (c ∷ cs)

-- `sort_by_key(|d| Reverse(d.hi))`, a stable sort.
unfoldable pub sort_desc : List DeltaMeta → List DeltaMeta
unfolding insert_desc
sort_desc [] = []
sort_desc (d ∷ ds) = insert_desc d (sort_desc ds)

unfoldable pub cached : Key → List (Key × List PageRecord) → Option (List PageRecord)
cached k [] = none
cached k ((j, recs) ∷ m) = if key_eq j k then some recs else cached k m

unfoldable pub uncache : Key → List (Key × List PageRecord) → List (Key × List PageRecord)
uncache k [] = []
uncache k ((j, recs) ∷ m) = let rest = uncache k m in if key_eq j k then rest else (j, recs) ∷ rest

-- `key.contains("/image/")`.
unfoldable pub decode_layer_at : Key → List ℕ → Result (List PageRecord)
decode_layer_at (image n) bytes = decode_image bytes
decode_layer_at k bytes = decode_delta bytes

-- `merge_keep_greatest`, on the records of a map from pages, in the order of the pages.
unfoldable pub merge_keep_greatest : PageRecord → List PageRecord → List PageRecord
merge_keep_greatest r [] = r ∷ []
merge_keep_greatest r (x ∷ xs) =
    let rest = merge_keep_greatest r xs in
    if ltb r.page_id x.page_id
    then r ∷ (x ∷ xs)
    else if r.page_id == x.page_id
    then (if leb x.lsn r.lsn then r ∷ xs else x ∷ xs)
    else x ∷ rest

-- The records of a layer at or below the floor, merged in order.
unfoldable pub merge_layer : ℕ → List PageRecord → List PageRecord → List PageRecord
unfolding merge_keep_greatest
merge_layer floor [] merged = merged
merge_layer floor (r ∷ recs) merged =
    merge_layer floor recs (if leb r.lsn floor then merge_keep_greatest r merged else merged)

unfoldable pub retain_above : ℕ → List DeltaMeta → List DeltaMeta
retain_above floor [] = []
retain_above floor (d ∷ ds) =
    let rest = retain_above floor ds in if ltb floor d.hi then d ∷ rest else rest

-- Whether a key is of a live layer.
unfoldable pub is_live : Key → List DeltaMeta → Option ImageMeta → Bool
is_live k [] none = false
is_live k [] (some i) = key_eq i.key k
is_live k (d ∷ ds) i = key_eq d.key k || is_live k ds i

unfoldable pub victims_of : List Key → List DeltaMeta → Option ImageMeta → List Key
unfolding is_live
victims_of [] ds i = []
victims_of (k ∷ ks) ds i =
    let rest = victims_of ks ds i in if is_live k ds i then rest else k ∷ rest

module _ {S : Type 0} (store : ObjectStore S) where
  -- `load_layer`, where the cache misses.
  unfoldable pub fetch_layer : Key → Action S (List PageRecord)
  unfolding decode_layer_at
  fetch_layer k = do
    found ← obj_get store k
    got ← or_fail found corruption
    recs ← lift (decode_layer_at k got.bytes)
    (λ d. (Result.ok recs, record d { cache = (k, recs) ∷ d.cache }))

  unfoldable pub load_hit : Option (List PageRecord) → Key → Action S (List PageRecord)
  unfolding fetch_layer
  load_hit none k = fetch_layer k
  load_hit (some recs) k = pure recs

  unfoldable pub load_layer : Key → Action S (List PageRecord)
  unfolding load_hit cached
  load_layer k d = load_hit (cached k d.cache) k d

  -- The version found, or what comes next.
  abbrev pub or_else :
      Option PageRecord → Action S (Option PageRecord) → Action S (Option PageRecord)
  or_else (some b) next = pure (some b)
  or_else none next = next

  unfoldable pub find_in_deltas : List DeltaMeta → ℕ → ℕ → Action S (Option PageRecord)
  unfolding load_layer best_in
  find_in_deltas [] page_id query = pure none
  find_in_deltas (d ∷ ds) page_id query =
      let rest = find_in_deltas ds page_id query in
      if ltb query d.lo
      then rest
      else (do recs ← load_layer d.key; or_else (best_in recs page_id query) rest)

  unfoldable pub find_in_image : Option ImageMeta → ℕ → ℕ → Action S (Option PageRecord)
  unfolding load_layer best_in
  find_in_image none page_id query = pure none
  find_in_image (some i) page_id query =
      if leb i.image_lsn query
      then (do recs ← load_layer i.key; pure (best_in recs page_id query))
      else pure none

  abbrev pub page_of : ℕ → Option PageRecord → Action S Page
  page_of page_id none = fail not_found
  page_of page_id (some b) = pure (from_slice page_id b.lsn b.image)

  unfoldable pub get_page : ℕ → ℕ → Action S Page
  unfolding best_in find_in_deltas find_in_image sort_desc
  get_page page_id query = do
    g ← state
    fail_if (ltb query g.retention_floor) not_found
    in_layers ←
        or_else (best_in g.memtable page_id query)
          (find_in_deltas (sort_desc g.deltas) page_id query)
    found ← or_else in_layers (find_in_image g.image page_id query)
    page_of page_id found

  unfoldable pub flush_records : List PageRecord → Action S (Unit {0})
  flush_records [] = pure tt
  flush_records (r ∷ records) = do
    g ← state
    put ←
        call store (
          store.put_if_absent (delta (g.flushed_hw + 1) g.durable_lsn) (encode_delta (r ∷ records)))
    set_state (record g {
      deltas =
          g.deltas
          ++ (record {
            lo = g.flushed_hw + 1;
            hi = g.durable_lsn;
            key = delta (g.flushed_hw + 1) g.durable_lsn;
          }
              ∷ []);
      flushed_hw = g.durable_lsn;
      memtable = [];
      memtable_bytes = 0;
    })

  -- `flush_locked`.
  unfoldable pub flush : Action S (Unit {0})
  unfolding flush_records
  flush = do g ← state; flush_records g.memtable

  unfoldable pub merge_deltas : ℕ → List DeltaMeta → List PageRecord → Action S (List PageRecord)
  unfolding load_layer merge_layer
  merge_deltas floor [] merged = pure merged
  merge_deltas floor (d ∷ ds) merged = do
    recs ← load_layer d.key
    merge_deltas floor ds (merge_layer floor recs merged)

  unfoldable pub merge_image : ℕ → Option ImageMeta → Action S (List PageRecord)
  unfolding load_layer merge_layer
  merge_image floor none = pure []
  merge_image floor (some i) = do recs ← load_layer i.key; pure (merge_layer floor recs [])

  unfoldable pub compact_at : ℕ → Action S (Unit {0})
  unfolding merge_deltas merge_image retain_above
  compact_at image_lsn = do
    g ← state
    base ← merge_image image_lsn g.image
    records ← merge_deltas image_lsn g.deltas base
    put ← obj_put store (image image_lsn) (encode_image records)
    set_state (record g {
      deltas = retain_above image_lsn g.deltas;
      image = some (record { image_lsn = image_lsn; key = image image_lsn });
    })

  unfoldable pub compact : Action S (Unit {0})
  unfolding flush compact_at
  compact = do
    flush
    g ← state
    if g.retention_floor == 0 then pure tt else compact_at g.retention_floor

  unfoldable pub delete_all : List Key → Action S (Unit {0})
  unfolding uncache
  delete_all [] = pure tt
  delete_all (k ∷ ks) = do
    obj_delete store k
    (λ d. (Result.ok tt, record d { cache = uncache k d.cache }))
    delete_all ks

  unfoldable pub gc : Action S (Unit {0})
  unfolding victims_of delete_all
  gc = do
    g ← state
    deltas ← obj_list store all_deltas
    images ← obj_list store all_images
    delete_all (victims_of deltas g.deltas g.image ++ victims_of images g.deltas g.image)
