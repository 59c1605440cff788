-- ===== src/Group/Resolving.antt =====
-- What `resolve` of crates/engine/src/group_commit.rs makes of the members of a batch.
use bydesigns_db.Base.{
  ℕ, ◌+◌, ◌-◌, ◌≡◌, refl, ap, sym, ◌∙◌, Bool, true, false, ◌||◌, Bool-cases, ◌==◌, ◌⊎◌, inl, inr,
  Option, none, some, List, [], ◌∷◌, ◌++◌, arith,
}
use bydesigns_db.Base.Assoc.{Assoc, get, get-insert}
use bydesigns_db.Mvcc.{Table, contains, finalize_owner}
use Prim.Native.String.{String}
use bydesigns_db.Group.{
  Member, Slice, Outcome, slices_of, resolve, resolve_one, all_committed, all_failed, stamp,
  EngineStatus,
}
use bydesigns_db.Group.Interleave.{ids_of}

pub contains-append :
    (xs ys : List ℕ) (id : ℕ) → contains (xs ++ ys) id ≡ (contains xs id || contains ys id)
unfolding contains
contains-append [] ys id = refl
contains-append (x ∷ xs) ys id = let ih = contains-append xs ys id in ground arith

pub ids_of-slices_of : (ms : Assoc Member) (batch : List ℕ) → ids_of (slices_of ms batch) ≡ batch
unfolding slices_of
ids_of-slices_of ms [] = refl
ids_of-slices_of ms (id ∷ batch) = rw (ids_of-slices_of ms batch) refl

abbrev pub resolved_ids : List (ℕ × Outcome) → List ℕ
resolved_ids [] = []
resolved_ids ((id, r) ∷ results) = id ∷ resolved_ids results

pub committed_ids :
    {V : Type 0} (first acc : ℕ) (slices : List Slice) (tables : List (String × Table V))
    → resolved_ids (all_committed (stamp first acc slices tables).1) ≡ ids_of slices
unfolding all_committed stamp
committed_ids first acc [] tables = refl
committed_ids first acc (s ∷ slices) tables =
    ap (λ ids. s.id ∷ ids)
      (committed_ids first (acc + s.count) slices
        (finalize_owner s.owner (first + (acc + s.count) - 1) tables).0)

pub failed_ids :
    (e : EngineStatus) (slices : List Slice) → resolved_ids (all_failed e slices) ≡ ids_of slices
unfolding all_failed
failed_ids e [] = refl
failed_ids e (s ∷ slices) = ap (λ ids. s.id ∷ ids) (failed_ids e slices)

abbrev done_of : Option Member → Bool
done_of none = true
done_of (some m) = m.is_done

-- A member after its turn in `resolve`: done, or another one, as it was.
resolve_one-done :
    (found : Option Member) (j id : ℕ) (r : Outcome) (m : Member) (ms : Assoc Member)
    → get ms j ≡ found
    → get (resolve_one found j r ms) id ≡ some m
    → (m.is_done ≡ true) ⊎ (((j == id) ≡ false) × (get ms id ≡ some m))
unfolding resolve_one
resolve_one-done none j id r m ms missing there = elim (Bool-cases (j == id)) [
  | inl same ↦
      let equal : j ≡ id = ground arith in
      let no : none ≡ some m = sym missing ∙ ap (get ms) equal ∙ there in cc
  | inr other ↦ inr (other, there)
]
resolve_one-done (some m0) j id r m ms found there =
    let seen = get-insert ms j id (record m0 { result = some r; is_done = true }) in
    elim (Bool-cases (j == id)) [
      | inl same ↦
          let now : some (record m0 { result = some r; is_done = true }) ≡ some m =
            sym (seen ∙ rw same refl) ∙ there in
          inl (sym (ap done_of now))
      | inr other ↦ inr (other, sym (seen ∙ rw other refl) ∙ there)
    ]

resolve-done :
    (results : List (ℕ × Outcome)) (id : ℕ) (m : Member) (ms : Assoc Member)
    → get (resolve results ms) id ≡ some m
    → (m.is_done ≡ true) ⊎ ((contains (resolved_ids results) id ≡ false) × (get ms id ≡ some m))
unfolding resolve contains
resolve-done [] id m ms there = inr (refl, there)
resolve-done ((j, r) ∷ results) id m ms there =
    elim (resolve-done results id m (resolve_one (get ms j) j r ms) there) [
      | inl done ↦ inl done
      | inr (absent_later, before) ↦ elim (resolve_one-done (get ms j) j id r m ms refl before) [
        | inl done ↦ inl done
        | inr (other, was) ↦ inr (rw (other, absent_later) refl, was)
      ]
    ]

-- Resolving the members in flight leaves none that is not done outside the queue.
pub resolve-covered :
    (results : List (ℕ × Outcome)) (queue : List ℕ) (id : ℕ) (m : Member) (ms : Assoc Member)
    → (get ms id ≡ some m
        → (m.is_done ≡ true) ⊎ (contains (resolved_ids results ++ queue) id ≡ true))
    → get (resolve results ms) id ≡ some m
    → (m.is_done ≡ true) ⊎ (contains queue id ≡ true)
resolve-covered results queue id m ms covered there = elim (resolve-done results id m ms there) [
  | inl done ↦ inl done
  | inr (resolved, was) ↦ elim (covered was) [
    | inl done ↦ inl done
    | inr found ↦ inr (rw (contains-append (resolved_ids results) queue id, resolved) at found)
  ]
]
