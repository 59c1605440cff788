-- ===== src/Object/Replaying.antt =====
-- The replay of a log in crates/storage/src/object/mod.rs when a segment is added behind it.
use bydesigns_db.Base.{
  ℕ, ◌+◌, ◌-◌, ◌<◌, ◌≡◌, refl, ap, subst, true, ltb, inl, inr, some, Option-cases, List, [], ◌∷◌,
  ◌++◌, arith,
}
use bydesigns_db.Types.{corruption, Result-cases, ok, err}
use bydesigns_db.Codec.{LogItem, wal, page, decode_segment}
use bydesigns_db.Object.Client.{
  Key, lease, retention, log, delta, image, branch_ptr, overlay, GetResult, find,
}
use bydesigns_db.Object.State.{Inner}
use bydesigns_db.Object.Log.{max_seq, insert_seq, sorted_seqs, apply_items, after_segment}
use bydesigns_db.Object.Recover.{Replay, no_replay, replay_items, replay_segment}
use bydesigns_db.Object.Synced.{Map, segment_of, replay_map, replay_of, IsSynced}

insert_seq-snoc :
    (m n : ℕ) (ms : List ℕ) → m < n → insert_seq m (ms ++ (n ∷ [])) ≡ insert_seq m ms ++ (n ∷ [])
unfolding insert_seq
insert_seq-snoc m n [] h = ground arith
insert_seq-snoc m n (x ∷ ms) h = let ih = insert_seq-snoc m n ms h in ground arith

-- A slot above all the others is the last.
pub sorted_seqs-snoc :
    (ks : List Key) (n : ℕ)
    → max_seq ks < n
    → sorted_seqs (ks ++ (log n ∷ [])) ≡ sorted_seqs ks ++ (n ∷ [])
unfolding sorted_seqs max_seq insert_seq
sorted_seqs-snoc [] n h = refl
sorted_seqs-snoc (log m ∷ ks) n h =
    rw (sorted_seqs-snoc ks n (omega arith)) (insert_seq-snoc m n (sorted_seqs ks) (omega arith))
sorted_seqs-snoc (lease ∷ ks) n h = sorted_seqs-snoc ks n h
sorted_seqs-snoc (retention ∷ ks) n h = sorted_seqs-snoc ks n h
sorted_seqs-snoc (delta lo hi ∷ ks) n h = sorted_seqs-snoc ks n h
sorted_seqs-snoc (image m ∷ ks) n h = sorted_seqs-snoc ks n h
sorted_seqs-snoc (branch_ptr m ∷ ks) n h = sorted_seqs-snoc ks n h
sorted_seqs-snoc (overlay m xs ∷ ks) n h = sorted_seqs-snoc ks n h

pub max_seq-snoc : (ks : List Key) (n : ℕ) → max_seq ks < n → max_seq (ks ++ (log n ∷ [])) ≡ n
unfolding max_seq
max_seq-snoc [] n h = omega arith
max_seq-snoc (log m ∷ ks) n h = let ih = max_seq-snoc ks n (omega arith) in omega arith
max_seq-snoc (lease ∷ ks) n h = max_seq-snoc ks n h
max_seq-snoc (retention ∷ ks) n h = max_seq-snoc ks n h
max_seq-snoc (delta lo hi ∷ ks) n h = max_seq-snoc ks n h
max_seq-snoc (image m ∷ ks) n h = max_seq-snoc ks n h
max_seq-snoc (branch_ptr m ∷ ks) n h = max_seq-snoc ks n h
max_seq-snoc (overlay m xs ∷ ks) n h = max_seq-snoc ks n h

-- A bucket that has all that another has replays alike.
abbrev pub Extends : Map → Map → Type 0
Extends m m' = (seq : ℕ) (g : GetResult) → find (log seq) m ≡ some g → find (log seq) m' ≡ some g

pub replay_map-Extends :
    (hw : ℕ) (seqs : List ℕ) (r r' : Replay) (m m' : Map)
    → Extends m m'
    → replay_map hw seqs r m ≡ ok r'
    → replay_map hw seqs r m' ≡ ok r'
unfolding replay_map
replay_map-Extends hw [] r r' m m' ext h = h
replay_map-Extends hw (seq ∷ seqs) r r' m m' ext h = elim (Option-cases (find (log seq) m)) [
  | inl gone ↦ let no : err corruption ≡ ok r' = rw gone at h in cc
  | inr (g, there) ↦ rw (ext seq g there) (elim (Result-cases (decode_segment g.bytes)) [
    | inl (items, good) ↦ rw good (replay_map-Extends hw seqs _ r' m m' ext (rw (there, good) at h))
    | inr (e, bad) ↦ let no : err e ≡ ok r' = rw (there, bad) at h in cc
  ])
]

pub ok_inj : {A : Type 0} {a b : A} → ok a ≡ ok b → a ≡ b
ok_inj h = cc

pub replay_map-append :
    (hw : ℕ) (xs ys : List ℕ) (r r' : Replay) (m : Map)
    → replay_map hw xs r m ≡ ok r'
    → replay_map hw (xs ++ ys) r m ≡ replay_map hw ys r' m
unfolding replay_map
replay_map-append hw [] ys r r' m h = ap (λ r1. replay_map hw ys r1 m) (ok_inj h)
replay_map-append hw (seq ∷ seqs) ys r r' m h =
    elim (Result-cases (segment_of (find (log seq) m))) [
      | inl (items, good) ↦ rw good (replay_map-append hw seqs ys _ r' m (rw good at h))
      | inr (e, bad) ↦ let no : err e ≡ ok r' = rw bad at h in cc
    ]

-- The state and the replay agree, and the replay has counted every item.
record Same (r : Replay) (g : Inner) : Type 0 where
  next_eq : r.next_lsn ≡ g.next_lsn
  memtable_eq : r.memtable ≡ g.memtable
  bytes_eq : r.memtable_bytes ≡ g.memtable_bytes
  commit_eq : r.commit_lsn ≡ g.commit_lsn
  counted : r.next_lsn ≡ r.durable_lsn + 1

apply_items-Same :
    (hw : ℕ) (items : List LogItem) (r : Replay) (g : Inner)
    → hw < r.next_lsn
    → Same r g
    → Same (replay_items hw items r) (apply_items items g)
unfolding replay_items apply_items
apply_items-Same hw [] r g h same = same
apply_items-Same hw (wal bytes ∷ items) r g h same =
    apply_items-Same hw items _ _ (omega arith) (record {
      next_eq = ap (λ n. n + 1) same.next_eq;
      memtable_eq = same.memtable_eq;
      bytes_eq = same.bytes_eq;
      commit_eq = same.commit_eq;
      counted = refl;
    })
apply_items-Same hw (page page_id bytes ∷ items) r g h same =
    let next_eq = same.next_eq in
    let memtable_eq = same.memtable_eq in
    let bytes_eq = same.bytes_eq in
    let newer : ltb hw r.next_lsn ≡ true = ground arith in
    apply_items-Same hw items _ _ (omega arith) (record {
      next_eq = ap (λ n. n + 1) same.next_eq;
      memtable_eq = rw (newer, next_eq, memtable_eq) refl;
      bytes_eq = rw (newer, bytes_eq) refl;
      commit_eq = same.commit_eq;
      counted = refl;
    })

-- The replay of a segment on the state before it is the state after it.
pub replay_segment-after_segment :
    (hw : ℕ) (items : List LogItem) (g : Inner)
    → hw < g.next_lsn
    → g.next_lsn ≡ g.durable_lsn + 1
    → replay_segment hw items (replay_of g) ≡ replay_of (after_segment items g)
unfolding replay_segment after_segment
replay_segment-after_segment hw items g h counted =
    let start : Same (replay_of g) g = record {
      next_eq = refl;
      memtable_eq = refl;
      bytes_eq = refl;
      commit_eq = refl;
      counted = counted;
    } in
    joined hw items g (apply_items-Same hw items (replay_of g) g h start)
  where
    joined :
        (hw : ℕ) (items : List LogItem) (g : Inner)
        → Same (replay_items hw items (replay_of g)) (apply_items items g)
        → replay_segment hw items (replay_of g) ≡ replay_of (after_segment items g)
    joined hw items g same =
        let next_eq = same.next_eq in
        let memtable_eq = same.memtable_eq in
        let bytes_eq = same.bytes_eq in
        let commit_eq = same.commit_eq in
        let counted = same.counted in
        let durable_eq : (replay_items hw items (replay_of g)).durable_lsn
            ≡ (apply_items items g).next_lsn - 1 =
          omega arith in
        rw (next_eq, memtable_eq, bytes_eq, commit_eq, durable_eq) refl

replay_items-counted :
    (hw : ℕ) (items : List LogItem) (r : Replay)
    → r.next_lsn ≡ r.durable_lsn + 1
    → (replay_items hw items r).next_lsn ≡ (replay_items hw items r).durable_lsn + 1
unfolding replay_items
replay_items-counted hw [] r h = h
replay_items-counted hw (wal bytes ∷ items) r h = replay_items-counted hw items _ refl
replay_items-counted hw (page page_id bytes ∷ items) r h = replay_items-counted hw items _ refl

pub replay_map-counted :
    (hw : ℕ) (seqs : List ℕ) (r r' : Replay) (m : Map)
    → r.next_lsn ≡ r.durable_lsn + 1
    → replay_map hw seqs r m ≡ ok r'
    → r'.next_lsn ≡ r'.durable_lsn + 1
unfolding replay_map replay_segment
replay_map-counted hw [] r r' m h e = subst (λ r1. r1.next_lsn ≡ r1.durable_lsn + 1) (ok_inj e) h
replay_map-counted hw (seq ∷ seqs) r r' m h e =
    elim (Result-cases (segment_of (find (log seq) m))) [
      | inl (items, good) ↦
          replay_map-counted hw seqs _ r' m (replay_items-counted hw items r h) (rw good at e)
      | inr (w, bad) ↦ let no : err w ≡ ok r' = rw bad at e in cc
    ]

pub IsSynced-counted : (g : Inner) (m : Map) → IsSynced g m → g.next_lsn ≡ g.durable_lsn + 1
IsSynced-counted g m h = replay_map-counted g.flushed_hw _ no_replay (replay_of g) m refl h.log_eq
