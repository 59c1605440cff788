-- ===== src/Group/Stamp.antt =====
-- The LSNs that a batch of crates/engine/src/group_commit.rs gives its members.
use bydesigns_db.Base.{ℕ, max, ◌-◌, ◌≤◌, List, [], ◌∷◌}
use bydesigns_db.Base.Assoc.{Assoc}
use bydesigns_db.Group.{Slice, total_of, Outcome, committed, failed, commit_error}
use bydesigns_db.Types.{Result, ok, err}
use Prim.Native.String.{String}

-- The LSN of the last record of each member, counted from the end of the batch.
abbrev pub last_lsns : ℕ → List Slice → List (ℕ × ℕ)
last_lsns last [] = []
last_lsns last (s ∷ slices) = (s.id, last - total_of slices) ∷ last_lsns last slices

-- The results of a batch, each by the members behind it.
abbrev results_by : (List ℕ → Outcome) → List ℕ → List (ℕ × Outcome)
results_by f [] = []
results_by f (id ∷ batch) = (id, f batch) ∷ results_by f batch

-- What the answer of the storage makes of a commit, by the records behind its own.
abbrev pub outcome_of : Result ℕ → ℕ → Outcome
outcome_of (ok last) later_records = committed (last - later_records)
outcome_of (err e) later_records = failed (commit_error e)

abbrev pub mark_of : Result ℕ → ℕ → ℕ
mark_of (ok last) mark = max mark last
mark_of (err e) mark = mark

-- An answer that is an LSN leaves room below it for so many records.
abbrev pub HasRoom : Result ℕ → ℕ → Type 0
HasRoom (ok last) n = n ≤ last
HasRoom (err e) n = Unit {0}
