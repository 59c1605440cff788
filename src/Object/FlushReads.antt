-- ===== src/Object/FlushReads.antt =====
-- A flush of crates/storage/src/object/mod.rs changes no read.
use bydesigns_db.Base.{
  ℕ, ◌+◌, ◌≤◌, ◌<◌, ◌≡◌, refl, sym, ap, subst, ◌∙◌, false, ltb, Bool-cases, inl, inr, Option, none,
  some, Option-cases, List, [], ◌∷◌, length, All, arith,
}
use bydesigns_db.Base.Bytes.{IsU32}
use bydesigns_db.Types.{ok, err, corruption}
use bydesigns_db.Codec.{PageRecord, encode_delta, decode_delta}
use bydesigns_db.Codec.RoundTrip.{FitsRecord, decode_layers-encode_layers}
use bydesigns_db.Object.Client.{
  Key, delta, image, key_eq, GetResult, MemStore, mem_store, find, store_at, write, write_if_absent,
  keys_under, all_deltas, all_images, all_logs,
}
use bydesigns_db.Object.State.{DeltaMeta, ImageMeta, Inner, Db}
use bydesigns_db.Object.Layers.{
  best_in, cached, sort_desc, decode_layer_at, get_page, flush, flush_records,
}
use bydesigns_db.Object.Recover.{no_replay}
use bydesigns_db.Object.Keys.{key_eq_refl}
use bydesigns_db.Object.MemLaws.{find-store_at_new}
use bydesigns_db.Object.Synced.{Map, IsSynced, replay_of}
use bydesigns_db.Object.Log.{sorted_seqs}
use bydesigns_db.Object.Flush.{flushed, free, meta, same_find}
use bydesigns_db.Object.Reads.{
  layer_in, layer_of, IsCoherent, look_in_deltas, look_in_image, look, get_page-Reads,
}
use bydesigns_db.Object.Spans.{
  IsKeyed, IsImage, deltas_of-IsKeyed, image_of-IsImage, spans_below, sort_desc-snoc, sort_desc-All,
  best_in_above, replay_map-IsAbove,
}

-- The state and the bucket after a flush of records that the layer gives back.
module _ (g : Inner) (m : Map) (v : GetResult) (h : IsSynced g m)
    (unflushed : g.flushed_hw < g.durable_lsn)
    (decoded : decode_delta v.bytes ≡ ok g.memtable) where
  abbrev layer : Key
  layer = delta (g.flushed_hw + 1) g.durable_lsn

  layer_there : find layer (store_at layer v m) ≡ some v
  layer_there =
      rw
        (
          find-store_at_new layer layer v m (free g m v h unflushed),
          free g m v h unflushed,
          key_eq_refl layer,
        )
        refl

  layer_back : layer_of layer (store_at layer v m) ≡ ok g.memtable
  unfolding decode_layer_at
  layer_back = rw (layer_there) decoded

  look_in_deltas_same :
      (ds : List DeltaMeta) (page_id query : ℕ)
      → All IsKeyed ds
      → All (λ d. d.hi ≤ g.flushed_hw) ds
      → look_in_deltas ds page_id query (store_at layer v m) ≡ look_in_deltas ds page_id query m
  unfolding look_in_deltas
  look_in_deltas_same [] page_id query ks below = refl
  look_in_deltas_same (d ∷ ds) page_id query (keyed, ks) (low, below) =
      let other : key_eq layer (delta d.lo d.hi) ≡ false = ground arith in
      let same : layer_of d.key (store_at layer v m) ≡ layer_of d.key m =
        rw keyed
          (ap (layer_in (delta d.lo d.hi)) (same_find g m v h unflushed (delta d.lo d.hi) other)) in
      rw (same, look_in_deltas_same ds page_id query ks below) refl

  look_in_image_same :
      (i : Option ImageMeta) (page_id query : ℕ)
      → IsImage i
      → look_in_image i page_id query (store_at layer v m) ≡ look_in_image i page_id query m
  unfolding look_in_image
  look_in_image_same none page_id query k = refl
  look_in_image_same (some i) page_id query k =
      let same : layer_of i.key (store_at layer v m) ≡ layer_of i.key m = rw k (
        ap (layer_in (image i.image_lsn)) (same_find g m v h unflushed (image i.image_lsn) refl)) in
      rw same refl

  deltas-IsKeyed : All IsKeyed g.deltas
  deltas-IsKeyed = subst (All IsKeyed) h.deltas_eq (deltas_of-IsKeyed (keys_under all_deltas m))

  image-IsImage : IsImage g.image
  image-IsImage = subst IsImage h.image_eq (image_of-IsImage (keys_under all_images m) none tt)

  deltas_below : All (λ d. d.hi ≤ g.flushed_hw) g.deltas
  deltas_below = let hw_eq = h.hw_eq in spans_below g.deltas g.image g.flushed_hw (omega arith)

  memtable-IsAbove : All (λ x. g.flushed_hw < x.lsn) g.memtable
  memtable-IsAbove =
      replay_map-IsAbove g.flushed_hw (sorted_seqs (keys_under all_logs m)) no_replay (replay_of g)
        m tt h.log_eq

  -- The layers below the new one, and those with it, as a reader sees them.
  look-flushed :
      (page_id query : ℕ)
      → look (flushed g) page_id query (store_at layer v m) ≡ look g page_id query m
  unfolding look look_in_deltas best_in
  look-flushed page_id query =
      rw
        (
          sort_desc-snoc g.deltas (meta (g.flushed_hw + 1) g.durable_lsn) g.flushed_hw deltas_below
              unflushed,
          layer_back,
          look_in_deltas_same (sort_desc g.deltas) page_id query
              (sort_desc-All IsKeyed g.deltas deltas-IsKeyed)
              (sort_desc-All (λ d. d.hi ≤ g.flushed_hw) g.deltas deltas_below),
          look_in_image_same g.image page_id query image-IsImage,
        )
        (elim (Bool-cases (ltb query (g.flushed_hw + 1))) [
          | inl below ↦
              rw
                (
                  below,
                  best_in_above g.memtable page_id query g.flushed_hw memtable-IsAbove
                      (ground arith),
                )
                refl
          | inr above ↦ rw above refl
        ])

  coherent-store_at :
      (c : Db MemStore)
      → c.objects.map ≡ m
      → IsCoherent c
      → (k : Key) (recs : List PageRecord) → cached k c.cache ≡ some recs
      → layer_of k (store_at layer v m) ≡ ok recs
  coherent-store_at c same coherent k recs hit =
      let was : layer_of k m ≡ ok recs =
        subst (λ x. layer_of k x ≡ ok recs) same (coherent k recs hit) in
      elim (Option-cases (find k m)) [
        | inl gone ↦ let no : err corruption ≡ ok recs = rw gone at was in cc
        | inr (got, there) ↦
            rw (find-store_at_new layer k v m (free g m v h unflushed), there) (rw there at was)
      ]

-- The layer that a flush writes, and the state that it leaves.
abbrev layer_object : PageRecord → List PageRecord → Db MemStore → GetResult
layer_object r records d = record { bytes = encode_delta (r ∷ records); etag = d.objects.etag_seq }

abbrev after_flush : PageRecord → List PageRecord → Db MemStore → Db MemStore
after_flush r records d = record d {
  inner = flushed d.inner;
  objects = record {
    map =
        store_at (delta (d.inner.flushed_hw + 1) d.inner.durable_lsn) (layer_object r records d)
          d.objects.map;
    etag_seq = d.objects.etag_seq + 1;
  };
}

flush_lem :
    (r : PageRecord) (records : List PageRecord) (d : Db MemStore)
    → IsSynced d.inner d.objects.map
    → d.inner.memtable ≡ r ∷ records
    → d.inner.flushed_hw < d.inner.durable_lsn
    → (flush mem_store d).1 ≡ after_flush r records d
unfolding flush flush_records mem_store write_if_absent write
flush_lem r records d h filled unflushed =
    rw (filled, free d.inner d.objects.map (layer_object r records d) h unflushed) refl

-- A flush of a state that is what its bucket gives, and whose cache is what its bucket has, changes
-- no read: every page reads the same at every LSN, the errors of the read included.
pub get_page-flush :
    (r : PageRecord) (records : List PageRecord) (page_id query : ℕ) (d : Db MemStore)
    → IsSynced d.inner d.objects.map
    → IsCoherent d
    → d.inner.memtable ≡ r ∷ records
    → d.inner.flushed_hw < d.inner.durable_lsn
    → IsU32 (length (r ∷ records))
    → All FitsRecord (r ∷ records)
    → (get_page mem_store page_id query (flush mem_store d).1).0
      ≡ (get_page mem_store page_id query d).0
get_page-flush r records page_id query d h coherent filled unflushed short fits =
    let v = layer_object r records d in
    let decoded : decode_delta v.bytes ≡ ok d.inner.memtable =
      rw filled (decode_layers-encode_layers (r ∷ records) short fits).0 in
    ap (λ d'. (get_page mem_store page_id query d').0) (flush_lem r records d h filled unflushed)
    ∙ (get_page-Reads page_id query (after_flush r records d)
        (coherent-store_at d.inner d.objects.map v h unflushed decoded d refl coherent)).answer_eq
    ∙ look-flushed d.inner d.objects.map v h unflushed decoded page_id query
    ∙ sym (get_page-Reads page_id query d coherent).answer_eq
