-- ===== src/Object/Reads.antt =====
-- What reads of pages in crates/storage/src/object/mod.rs return, from the memtable and the layers
-- of the bucket, and that a flush changes none of them.
use bydesigns_db.Base.{
  ℕ, ◌≡◌, refl, sym, ap, subst, ◌∙◌, if◌then◌else◌, ltb, leb, Bool-cases, inl, inr, Option, none,
  some, Option-cases, List, [], ◌∷◌,
}
use bydesigns_db.Types.{
  Result, Result-cases, ok, err, not_found, corruption, Page, from_slice, ◌>>=◌,
}
use bydesigns_db.Codec.{PageRecord}
use bydesigns_db.Object.Client.{Key, key_eq, GetResult, MemStore, mem_store, find}
use bydesigns_db.Object.State.{DeltaMeta, ImageMeta, Inner, Db, Action, then_do}
use bydesigns_db.Object.Layers.{
  best_in, sort_desc, cached, decode_layer_at, fetch_layer, load_hit, load_layer, find_in_deltas,
  find_in_image, page_of, or_else, get_page,
}
use bydesigns_db.Object.Keys.{key_eq→eq}
use bydesigns_db.Object.Synced.{Map}

-- The layer of a key, as the bucket has it.
abbrev pub layer_in : Key → Option GetResult → Result (List PageRecord)
layer_in k none = err corruption
layer_in k (some g) = decode_layer_at k g.bytes

abbrev pub layer_of : Key → Map → Result (List PageRecord)
layer_of k m = layer_in k (find k m)

-- The cache holds only what the bucket has.
abbrev pub IsCoherent : Db MemStore → Type 0
IsCoherent d =
    (k : Key) (recs : List PageRecord)
    → cached k d.cache ≡ some recs
    → layer_of k d.objects.map ≡ ok recs

abbrev pub or_then : Option PageRecord → Result (Option PageRecord) → Result (Option PageRecord)
or_then (some b) next = ok (some b)
or_then none next = next

unfoldable pub look_in_deltas : List DeltaMeta → ℕ → ℕ → Map → Result (Option PageRecord)
look_in_deltas [] page_id query m = ok none
look_in_deltas (d ∷ ds) page_id query m =
    let rest = look_in_deltas ds page_id query m in
    if ltb query d.lo
    then rest
    else (layer_of d.key m >>= λ recs. or_then (best_in recs page_id query) rest)

unfoldable pub look_in_image : Option ImageMeta → ℕ → ℕ → Map → Result (Option PageRecord)
look_in_image none page_id query m = ok none
look_in_image (some i) page_id query m =
    if leb i.image_lsn query
    then (layer_of i.key m >>= λ recs. ok (best_in recs page_id query))
    else ok none

abbrev pub shown : ℕ → Option PageRecord → Result Page
shown page_id none = err not_found
shown page_id (some b) = ok (from_slice page_id b.lsn b.image)

-- A read on the bucket alone.
unfoldable pub look : Inner → ℕ → ℕ → Map → Result Page
unfolding look_in_deltas look_in_image
look g page_id query m =
    if ltb query g.retention_floor
    then err not_found
    else or_then (best_in g.memtable page_id query)
        (look_in_deltas (sort_desc g.deltas) page_id query m)
      >>= λ b. (or_then b (look_in_image g.image page_id query m) >>= shown page_id)

-- An action that only reads: its answer, and a state with the same bucket and a coherent cache.
pub record Reads {A : Type 0} (answer : Result A) (d : Db MemStore) (out : Result A × Db MemStore)
    : Type 0 where
  pub answer_eq : out.0 ≡ answer
  pub inner_eq : out.1.inner ≡ d.inner
  pub objects_eq : out.1.objects ≡ d.objects
  pub coherent : IsCoherent out.1

Reads-then :
    {A B : Type 0} (answer : Result A) (d : Db MemStore) (out : Result A × Db MemStore)
    (f : A → Result B) (k : A → Action MemStore B)
    → Reads answer d out
    → ((a : A) (d1 : Db MemStore)
        → IsCoherent d1
        → d1.objects ≡ d.objects
        → Reads (f a) d1 (k a d1))
    → Reads (answer >>= f) d (then_do out k)
Reads-then answer d (ok a, d1) f k r next =
    let more = next a d1 r.coherent r.objects_eq in
    rw (sym r.answer_eq) (record {
      answer_eq = more.answer_eq;
      inner_eq = more.inner_eq ∙ r.inner_eq;
      objects_eq = more.objects_eq ∙ r.objects_eq;
      coherent = more.coherent;
    })
Reads-then answer d (err e, d1) f k r next = rw (sym r.answer_eq) (record {
  answer_eq = refl;
  inner_eq = r.inner_eq;
  objects_eq = r.objects_eq;
  coherent = r.coherent;
})

Reads-pure :
    {A : Type 0} (answer : Result A) (d : Db MemStore) → IsCoherent d → Reads answer d (answer, d)
Reads-pure answer d c = record {
  answer_eq = refl;
  inner_eq = refl;
  objects_eq = refl;
  coherent = c;
}

cache-IsCoherent :
    (k : Key) (recs : List PageRecord) (d : Db MemStore)
    → IsCoherent d
    → layer_of k d.objects.map ≡ ok recs
    → IsCoherent (record d { cache = (k, recs) ∷ d.cache })
unfolding cached
cache-IsCoherent k recs d c e j recs' hit = elim (Bool-cases (key_eq k j)) [
  | inl same ↦
      let got : some recs ≡ some recs' = rw same at hit in
      subst (λ x. layer_of x d.objects.map ≡ ok recs') (key_eq→eq k j same)
        (e ∙ ap ok (some_inj got))
  | inr other ↦ c j recs' (rw other at hit)
]
  where
    some_inj : {A : Type 0} {a b : A} → some a ≡ some b → a ≡ b
    some_inj h = cc

load_layer-Reads :
    (k : Key) (d : Db MemStore)
    → IsCoherent d
    → Reads (layer_of k d.objects.map) d (load_layer mem_store k d)
unfolding load_layer load_hit fetch_layer mem_store
load_layer-Reads k d c = elim (Option-cases (cached k d.cache)) [
  | inr (recs, hit) ↦
      rw hit (record {
        answer_eq = sym (c k recs hit);
        inner_eq = refl;
        objects_eq = refl;
        coherent = c;
      })
  | inl miss ↦ rw miss (elim (Option-cases (find k d.objects.map)) [
    | inl gone ↦ rw gone (Reads-pure (err corruption) d c)
    | inr (g, there) ↦ elim (Result-cases (decode_layer_at k g.bytes)) [
      | inl (recs, good) ↦
          let known : layer_of k d.objects.map ≡ ok recs = rw (there, good) refl in
          rw (there, good)
            (record {
              answer_eq = refl;
              inner_eq = refl;
              objects_eq = refl;
              coherent = cache-IsCoherent k recs d c known;
            })
      | inr (e, bad) ↦ rw (there, bad) (Reads-pure (err e) d c)
    ]
  ])
]

find_in_deltas-Reads :
    (ds : List DeltaMeta) (page_id query : ℕ) (d : Db MemStore)
    → IsCoherent d
    → Reads
        (look_in_deltas ds page_id query d.objects.map)
        d
        (find_in_deltas mem_store ds page_id query d)
unfolding find_in_deltas look_in_deltas
find_in_deltas-Reads [] page_id query d c = Reads-pure (ok none) d c
find_in_deltas-Reads (x ∷ ds) page_id query d c = elim (Bool-cases (ltb query x.lo)) [
  | inl skip ↦ rw skip (find_in_deltas-Reads ds page_id query d c)
  | inr in_span ↦ rw in_span (
      Reads-then (layer_of x.key d.objects.map) d (load_layer mem_store x.key d) _ _
        (load_layer-Reads x.key d c)
        (λ recs d1 c1 same. elim (Option-cases (best_in recs page_id query)) [
          | inl nothing ↦ rw nothing (
              subst
                (λ o.
                  Reads (look_in_deltas ds page_id query o.map) d1
                    (find_in_deltas mem_store ds page_id query d1))
                same (find_in_deltas-Reads ds page_id query d1 c1))
          | inr (b, best) ↦ rw best (Reads-pure (ok (some b)) d1 c1)
        ]))
]

find_in_image-Reads :
    (i : Option ImageMeta) (page_id query : ℕ) (d : Db MemStore)
    → IsCoherent d
    → Reads
        (look_in_image i page_id query d.objects.map)
        d
        (find_in_image mem_store i page_id query d)
unfolding find_in_image look_in_image
find_in_image-Reads none page_id query d c = Reads-pure (ok none) d c
find_in_image-Reads (some i) page_id query d c = elim (Bool-cases (leb i.image_lsn query)) [
  | inl covered ↦ rw covered (
      Reads-then (layer_of i.key d.objects.map) d (load_layer mem_store i.key d) _ _
        (load_layer-Reads i.key d c)
        (λ recs d1 c1 same. Reads-pure (ok (best_in recs page_id query)) d1 c1))
  | inr later_image ↦ rw later_image (Reads-pure (ok none) d c)
]

page_of-Reads :
    (page_id : ℕ) (b : Option PageRecord) (d : Db MemStore)
    → IsCoherent d
    → Reads (shown page_id b) d (page_of mem_store page_id b d)
page_of-Reads page_id none d c = Reads-pure (err not_found) d c
page_of-Reads page_id (some b) d c = Reads-pure _ d c

or_else-Reads :
    (b : Option PageRecord) (answer : Result (Option PageRecord)) (d : Db MemStore)
    (next : Action MemStore (Option PageRecord))
    → IsCoherent d
    → Reads answer d (next d)
    → Reads (or_then b answer) d (or_else mem_store b next d)
or_else-Reads none answer d next c r = r
or_else-Reads (some b) answer d next c r = Reads-pure (ok (some b)) d c

-- Reads go by the memtable and the bucket, not by the cache, which they keep coherent.
pub get_page-Reads :
    (page_id query : ℕ) (d : Db MemStore)
    → IsCoherent d
    → Reads (look d.inner page_id query d.objects.map) d (get_page mem_store page_id query d)
unfolding get_page look
get_page-Reads page_id query d c = elim (Bool-cases (ltb query d.inner.retention_floor)) [
  | inl below ↦ rw below (Reads-pure (err not_found) d c)
  | inr kept ↦ rw kept (
      Reads-then _ d _ _ _
        (or_else-Reads (best_in d.inner.memtable page_id query) _ d _ c
          (find_in_deltas-Reads (sort_desc d.inner.deltas) page_id query d c))
        (λ b d1 c1 same.
          Reads-then _ d1 _ _ _
            (or_else-Reads b (look_in_image d.inner.image page_id query d.objects.map) d1
              (find_in_image mem_store d.inner.image page_id query) c1
              (subst
                (λ o.
                  Reads (look_in_image d.inner.image page_id query o.map) d1
                    (find_in_image mem_store d.inner.image page_id query d1))
                same (find_in_image-Reads d.inner.image page_id query d1 c1)))
            (λ b2 d2 c2 same2. page_of-Reads page_id b2 d2 c2)))
]
