-- ===== src/Object/Spans.antt =====
-- The spans of the layers and of the memtable of crates/storage/src/object/mod.rs: what is flushed ends
-- below what is not.
use bydesigns_db.Base.{
  All-if, ℕ, ◌≤◌, ◌<◌, ◌≡◌, refl, subst, Bool, true, false, ◌&&◌, ◌||◌, if◌then◌else◌, ltb, leb,
  ◌==◌, Bool-cases, inl, inr, Option, none, some, List, [], ◌∷◌, ◌++◌, All, arith,
}
use bydesigns_db.Types.{Result-cases, ok, err}
use bydesigns_db.Codec.{PageRecord, LogItem, wal, page}
use bydesigns_db.Object.Client.{Key, lease, retention, log, delta, image, branch_ptr, overlay, find}
use bydesigns_db.Object.State.{DeltaMeta, ImageMeta}
use bydesigns_db.Object.Layers.{best_in, memtable_insert, insert_desc, sort_desc}
use bydesigns_db.Object.Recover.{
  insert_asc, deltas_of, Replay, replay_items, replay_segment, image_of, newer_image, flushed_of,
}
use bydesigns_db.Object.Synced.{Map, replay_map, segment_of}
use bydesigns_db.Object.Replaying.{ok_inj}

-- A delta's key names its span; an image's key names its LSN.
abbrev pub IsKeyed : DeltaMeta → Type 0
IsKeyed d = d.key ≡ delta d.lo d.hi

abbrev pub IsImage : Option ImageMeta → Type 0
IsImage none = Unit {0}
IsImage (some i) = i.key ≡ image i.image_lsn

insert_asc-IsKeyed :
    (d : DeltaMeta) (ds : List DeltaMeta)
    → IsKeyed d
    → All IsKeyed ds
    → All IsKeyed (insert_asc d ds)
unfolding insert_asc
insert_asc-IsKeyed d [] k ks = (k, ks)
insert_asc-IsKeyed d (c ∷ ds) k (here, ks) =
    All-if IsKeyed (ltb c.hi d.hi) _ _ (here, insert_asc-IsKeyed d ds k ks) (k, (here, ks))

pub deltas_of-IsKeyed : (ks : List Key) → All IsKeyed (deltas_of ks)
unfolding deltas_of
deltas_of-IsKeyed [] = tt
deltas_of-IsKeyed (delta lo hi ∷ ks) =
    insert_asc-IsKeyed (record { lo = lo; hi = hi; key = delta lo hi }) (deltas_of ks) refl
      (deltas_of-IsKeyed ks)
deltas_of-IsKeyed (lease ∷ ks) = deltas_of-IsKeyed ks
deltas_of-IsKeyed (retention ∷ ks) = deltas_of-IsKeyed ks
deltas_of-IsKeyed (log n ∷ ks) = deltas_of-IsKeyed ks
deltas_of-IsKeyed (image n ∷ ks) = deltas_of-IsKeyed ks
deltas_of-IsKeyed (branch_ptr n ∷ ks) = deltas_of-IsKeyed ks
deltas_of-IsKeyed (overlay n xs ∷ ks) = deltas_of-IsKeyed ks

pick-IsImage :
    (b : Bool) (n : ℕ) (best : Option ImageMeta)
    → IsImage best
    → IsImage (if b then some (record { image_lsn = n; key = image n }) else best)
pick-IsImage true n best h = refl
pick-IsImage false n best h = h

pub image_of-IsImage :
    (ks : List Key) (best : Option ImageMeta) → IsImage best → IsImage (image_of ks best)
unfolding image_of
image_of-IsImage [] best h = h
image_of-IsImage (image n ∷ ks) best h =
    image_of-IsImage ks _ (pick-IsImage (newer_image n best) n best h)
image_of-IsImage (lease ∷ ks) best h = image_of-IsImage ks best h
image_of-IsImage (retention ∷ ks) best h = image_of-IsImage ks best h
image_of-IsImage (log n ∷ ks) best h = image_of-IsImage ks best h
image_of-IsImage (delta lo hi ∷ ks) best h = image_of-IsImage ks best h
image_of-IsImage (branch_ptr n ∷ ks) best h = image_of-IsImage ks best h
image_of-IsImage (overlay n xs ∷ ks) best h = image_of-IsImage ks best h

-- Every span ends at or below the flushed mark.
pub spans_below :
    (ds : List DeltaMeta) (top : Option ImageMeta) (hw : ℕ)
    → flushed_of ds top ≤ hw
    → All (λ d. d.hi ≤ hw) ds
unfolding flushed_of
spans_below [] top hw h = tt
spans_below (d ∷ ds) top hw h = (omega arith, spans_below ds top hw (omega arith))

insert_desc-head :
    (d new : DeltaMeta) (ds : List DeltaMeta)
    → d.hi < new.hi
    → insert_desc d (new ∷ ds) ≡ new ∷ insert_desc d ds
unfolding insert_desc
insert_desc-head d new ds h = let below : ltb d.hi new.hi ≡ true = ground arith in rw below refl

pub sort_desc-snoc :
    (ds : List DeltaMeta) (new : DeltaMeta) (hw : ℕ)
    → All (λ d. d.hi ≤ hw) ds
    → hw < new.hi
    → sort_desc (ds ++ (new ∷ [])) ≡ new ∷ sort_desc ds
unfolding sort_desc insert_desc
sort_desc-snoc [] new hw all h = refl
sort_desc-snoc (d ∷ ds) new hw (here, all) h =
    rw (sort_desc-snoc ds new hw all h) (insert_desc-head d new (sort_desc ds) (omega arith))

insert_desc-All :
    (P : DeltaMeta → Type 0) (d : DeltaMeta) (ds : List DeltaMeta)
    → P d
    → All P ds
    → All P (insert_desc d ds)
unfolding insert_desc
insert_desc-All P d [] p ps = (p, ps)
insert_desc-All P d (c ∷ ds) p (here, ps) =
    All-if P (ltb d.hi c.hi) _ _ (here, insert_desc-All P d ds p ps) (p, (here, ps))

pub sort_desc-All : (P : DeltaMeta → Type 0) (ds : List DeltaMeta) → All P ds → All P (sort_desc ds)
unfolding sort_desc
sort_desc-All P [] h = h
sort_desc-All P (d ∷ ds) (here, h) = insert_desc-All P d (sort_desc ds) here (sort_desc-All P ds h)

-- Nothing above the LSN of a query is found.
pub best_in_above :
    (recs : List PageRecord) (page_id query hw : ℕ)
    → All (λ r. hw < r.lsn) recs
    → query ≤ hw
    → best_in recs page_id query ≡ none
unfolding best_in
best_in_above [] page_id query hw all h = refl
best_in_above (r ∷ recs) page_id query hw (here, all) h =
    let above : leb r.lsn query ≡ false = ground arith in
    rw (best_in_above recs page_id query hw all h) (none_if (r.page_id == page_id) _ above)
  where
    none_if :
        {A : Type 0} (b : Bool) {c : Bool} (a : Option A)
        → c ≡ false
        → (if b && c then a else none) ≡ none
    none_if true a e = rw e refl
    none_if false a e = refl

memtable_insert-All :
    (P : PageRecord → Type 0) (r : PageRecord) (recs : List PageRecord)
    → P r
    → All P recs
    → All P (memtable_insert r recs)
unfolding memtable_insert
memtable_insert-All P r [] p ps = (p, ps)
memtable_insert-All P r (x ∷ xs) p (here, ps) =
    All-if P (ltb r.page_id x.page_id || (r.page_id == x.page_id && ltb r.lsn x.lsn)) (r ∷ (x ∷ xs))
      _ (p, (here, ps))
      (All-if P (r.page_id == x.page_id && r.lsn == x.lsn) (r ∷ xs) _ (p, ps)
        (here, memtable_insert-All P r xs p ps))

-- What the replay keeps for the memtable is above the flushed mark.
abbrev pub IsAbove : ℕ → Replay → Type 0
IsAbove hw r = All (λ x. hw < x.lsn) r.memtable

replay_items-IsAbove :
    (hw : ℕ) (items : List LogItem) (r : Replay)
    → IsAbove hw r
    → IsAbove hw (replay_items hw items r)
unfolding replay_items
replay_items-IsAbove hw [] r h = h
replay_items-IsAbove hw (wal bytes ∷ items) r h = replay_items-IsAbove hw items _ h
replay_items-IsAbove hw (page page_id bytes ∷ items) r h =
    replay_items-IsAbove hw items _ (elim (Bool-cases (ltb hw r.next_lsn)) [
      | inl above ↦ rw above (memtable_insert-All (λ x. hw < x.lsn) _ r.memtable (ground arith) h)
      | inr below ↦ rw below h
    ])

pub replay_map-IsAbove :
    (hw : ℕ) (seqs : List ℕ) (r r' : Replay) (m : Map)
    → IsAbove hw r
    → replay_map hw seqs r m ≡ ok r'
    → IsAbove hw r'
unfolding replay_map replay_segment
replay_map-IsAbove hw [] r r' m h e = subst (IsAbove hw) (ok_inj e) h
replay_map-IsAbove hw (seq ∷ seqs) r r' m h e =
    elim (Result-cases (segment_of (find (log seq) m))) [
      | inl (items, good) ↦
          replay_map-IsAbove hw seqs _ r' m (replay_items-IsAbove hw items r h) (rw good at e)
      | inr (w, bad) ↦ let no : err w ≡ ok r' = rw bad at e in cc
    ]
