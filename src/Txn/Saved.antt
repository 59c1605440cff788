-- ===== src/Txn/Saved.antt =====
-- The savepoints of a transaction of crates/engine/src/conn.rs, and what they keep of its log.
use bydesigns_db.Base.{
  ℕ, zero, suc, ◌≤◌, ◌≡◌, refl, ap, subst, ◌∙◌, Bool, true, false, Option, none, some, List, [],
  ◌∷◌, ◌++◌, length, take, length-append, length-take, take-take, take_prefix, take_all, arith,
}
use bydesigns_db.Mvcc.{RowVersion, RowOp, pending_rows}
use bydesigns_db.Txn.{new_savepoint}
use bydesigns_db.Txn.Names.{Text, Savepoint, eq_ignore_ascii_case, found_behind, last_named}
use bydesigns_db.Txn.Pending.{live}

-- ROLLBACK TO the savepoint at a position: it and the older ones.
abbrev pub At : ℕ → Savepoint → List Savepoint → Type 0
At i sp [] = ⊥
At zero sp (s ∷ savepoints) = s ≡ sp
At (suc i) sp (s ∷ savepoints) = At i sp savepoints

module _ {V : Type 0} where
  -- A savepoint tells of the rows after the part of the log that it keeps.
  abbrev pub Marks : ℕ → List (RowOp V) → List (RowVersion V) → Savepoint → Type 0
  Marks owner ops start s =
      pending_rows owner (live owner (take s.wal_len ops) start) ([], []) ≡ (s.inserted, s.deleted)

  -- The savepoints, the oldest first, keep ever more of the log.
  abbrev pub AreSaved : ℕ → List (RowOp V) → List (RowVersion V) → ℕ → List Savepoint → Type 0
  AreSaved owner ops start low [] = low ≤ length ops
  AreSaved owner ops start low (s ∷ savepoints) =
      (low ≤ s.wal_len) × Marks owner ops start s × AreSaved owner ops start s.wal_len savepoints

  pub AreSaved-low :
      (owner : ℕ) (ops : List (RowOp V)) (start : List (RowVersion V)) (low : ℕ)
      (savepoints : List Savepoint)
      → AreSaved owner ops start low savepoints
      → low ≤ length ops
  AreSaved-low owner ops start low [] h = h
  AreSaved-low owner ops start low (s ∷ savepoints) (le, marks, h) =
      let ih = AreSaved-low owner ops start s.wal_len savepoints h in omega arith

  -- More of the log.
  pub AreSaved-append :
      (owner : ℕ) (ops more : List (RowOp V)) (start : List (RowVersion V)) (low : ℕ)
      (savepoints : List Savepoint)
      → AreSaved owner ops start low savepoints
      → AreSaved owner (ops ++ more) start low savepoints
  AreSaved-append owner ops more start low [] h = omega (arith, length-append ops more)
  AreSaved-append owner ops more start low (s ∷ savepoints) (le, marks, h) =
      let short = AreSaved-low owner ops start s.wal_len savepoints h in
      (
        le,
        ap (λ part. pending_rows owner (live owner part start) ([], []))
              (take_prefix s.wal_len ops more short)
            ∙ marks,
        AreSaved-append owner ops more start s.wal_len savepoints h,
      )

  -- SAVEPOINT.
  pub AreSaved-new :
      (owner : ℕ) (ops : List (RowOp V)) (start : List (RowVersion V)) (low : ℕ) (name : Text)
      (savepoints : List Savepoint)
      → AreSaved owner ops start low savepoints
      → AreSaved owner ops start low
          (savepoints ++ (new_savepoint name owner (live owner ops start) ops ∷ []))
  unfolding new_savepoint
  AreSaved-new owner ops start low name [] h = (
    h,
    ap (λ part. pending_rows owner (live owner part start) ([], []))
        (take_all (length ops) ops (omega arith)),
    omega arith,
  )
  AreSaved-new owner ops start low name (s ∷ savepoints) (le, marks, h) =
      (le, marks, AreSaved-new owner ops start s.wal_len name savepoints h)

  -- RELEASE: the oldest `n`.
  pub AreSaved-take :
      (owner : ℕ) (ops : List (RowOp V)) (start : List (RowVersion V)) (low n : ℕ)
      (savepoints : List Savepoint)
      → AreSaved owner ops start low savepoints
      → AreSaved owner ops start low (take n savepoints)
  AreSaved-take owner ops start low zero savepoints h =
      AreSaved-low owner ops start low savepoints h
  AreSaved-take owner ops start low (suc n) [] h = h
  AreSaved-take owner ops start low (suc n) (s ∷ savepoints) (le, marks, h) =
      (le, marks, AreSaved-take owner ops start s.wal_len n savepoints h)

  pub AreSaved-back :
      (owner : ℕ) (ops : List (RowOp V)) (start : List (RowVersion V)) (low i : ℕ) (sp : Savepoint)
      (savepoints : List Savepoint)
      → At i sp savepoints
      → AreSaved owner ops start low savepoints
      → (low ≤ sp.wal_len)
        × (sp.wal_len ≤ length ops)
        × Marks owner ops start sp
        × AreSaved owner (take sp.wal_len ops) start low (take (suc i) savepoints)
  AreSaved-back owner ops start low i sp [] at h = elim at [ ]
  AreSaved-back owner ops start low zero sp (s ∷ savepoints) at (le, marks, h) =
      let short = AreSaved-low owner ops start s.wal_len savepoints h in
      subst
        (λ x.
          (low ≤ x.wal_len)
          × (x.wal_len ≤ length ops)
          × Marks owner ops start x
          × AreSaved owner (take x.wal_len ops) start low (s ∷ []))
        at
        (
          le,
          short,
          marks,
          (
            le,
            ap (λ part. pending_rows owner (live owner part start) ([], []))
                  (take-take s.wal_len s.wal_len ops (omega arith))
                ∙ marks,
            omega (arith, length-take s.wal_len ops),
          ),
        )
  AreSaved-back owner ops start low (suc i) sp (s ∷ savepoints) at (le, marks, h) =
      let (lower, short, its, saved) =
        AreSaved-back owner ops start s.wal_len i sp savepoints at h in
      (
        omega arith,
        short,
        its,
        (
          le,
          ap (λ part. pending_rows owner (live owner part start) ([], []))
                (take-take s.wal_len sp.wal_len ops lower)
              ∙ marks,
          saved,
        ),
      )

found_behind-At :
    (same : Bool) (s : Savepoint) (savepoints : List Savepoint) (o : Option (ℕ × Savepoint))
    (at : ℕ × Savepoint)
    → ((p : ℕ × Savepoint) → o ≡ some p → At p.0 p.1 savepoints)
    → found_behind same s o ≡ some at
    → At at.0 at.1 (s ∷ savepoints)
unfolding found_behind
found_behind-At same s savepoints (some (j, found)) at h e =
    let same : (suc j, found) ≡ at = cc in
    subst (λ p. At p.0 p.1 (s ∷ savepoints)) same (h (j, found) refl)
found_behind-At true s savepoints none at h e =
    let same : (zero, s) ≡ at = cc in subst (λ p. At p.0 p.1 (s ∷ savepoints)) same refl
found_behind-At false s savepoints none at h e = absurd (cc)

pub last_named-At :
    (name : Text) (savepoints : List Savepoint) (at : ℕ × Savepoint)
    → last_named name savepoints ≡ some at
    → At at.0 at.1 savepoints
unfolding last_named
last_named-At name [] at e = absurd (cc)
last_named-At name (s ∷ savepoints) at e =
    found_behind-At (eq_ignore_ascii_case s.name name) s savepoints (last_named name savepoints) at
      (last_named-At name savepoints) e
