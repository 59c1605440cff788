-- ===== src/Truth/Runs.antt =====
-- Runs of the three-valued logic of crates/engine/src/exec.rs. A number is compared as its bits, and an
-- expression is its value.
use Prim.Native.Nat.{compare, Ordering}
use bydesigns_db.Base.{ℕ, ◌/◌, ◌*◌, ◌≡◌, refl, true, Option, some, inr, [], ◌∷◌, map}
use bydesigns_db.Wal.{null, int}
use bydesigns_db.Truth.{truth_value, sql_eq, eval_in_list}
use bydesigns_db.Truth.Listed.{any_of, not_if, eval_in_list-any_of}

abbrev same_bits : ℕ → ℕ
same_bits n = n

abbrev cmp_bits : ℕ → ℕ → Option Ordering
cmp_bits a b = some (compare a b)

eval_in_list-any_of_example :
    eval_in_list same_bits same_bits cmp_bits inr (int 3) (int 4 ∷ null ∷ []) true
    ≡ inr (
        truth_value (
          not_if true
            (any_of (map (sql_eq same_bits same_bits cmp_bits (int 3)) (int 4 ∷ null ∷ [])))))
eval_in_list-any_of_example =
    eval_in_list-any_of same_bits same_bits cmp_bits inr true (int 3) (int 4) (null ∷ []) (int 3)
      (int 4) (null ∷ []) refl (refl, (refl, tt))

not_in_null_run :
    eval_in_list same_bits same_bits cmp_bits inr (int 3) (int 4 ∷ null ∷ []) true ≡ inr null
unfolding eval_in_list
not_in_null_run = refl

-- A conversion that rounds down to an even number, as f64 does behind 2^53: two integers that differ
-- are equal.
abbrev to_even : ℕ → ℕ
to_even n = n / 2 * 2

rounded_equal_run :
    sql_eq to_even same_bits cmp_bits (int 9007199254740993) (int 9007199254740992) ≡ some true
unfolding sql_eq
rounded_equal_run = refl
