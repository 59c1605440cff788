-- ===== src/Truth.antt =====
-- The three-valued logic of crates/engine/src/exec.rs over the values of crates/engine/src/value.rs. An
-- expression is of any type, and its evaluation is given to the functions that evaluate their parts.
-- So are the conversion to and the comparison of floating-point numbers. An integer and a real are
-- their bits.
pub mod Listed
mod Runs
use Prim.Native.Nat.{compare, Ordering}
use bydesigns_db.Base.{
  ℕ, Bool, true, false, not, ◌&&◌, ◌||◌, ◌==◌, if◌then◌else◌, bytes_eq, Option, none, some, ◌⊎◌,
  inl, inr, List, [], ◌∷◌,
}
use bydesigns_db.Group.{EngineStatus}
use bydesigns_db.Wal.{Value, null, int, real, text, blob, vector}

-- `Ord` of strings and of byte vectors.
unfoldable pub bytes_cmp : List ℕ → List ℕ → Ordering
bytes_cmp [] [] = Ordering.eq
bytes_cmp [] (y ∷ ys) = Ordering.lt
bytes_cmp (x ∷ xs) [] = Ordering.gt
bytes_cmp (x ∷ xs) (y ∷ ys) =
    let rest = bytes_cmp xs ys in
    elim (compare x y) [
      | Ordering.lt ↦ Ordering.lt
      | Ordering.eq ↦ rest
      | Ordering.gt ↦ Ordering.gt
    ]

abbrev pub is_nil : List ℕ → Bool
is_nil [] = true
is_nil (x ∷ xs) = false

-- A real that is not zero: neither of the two zeros.
abbrev pub real_set : ℕ → Bool
real_set bits = not (bits == 0 || bits == 9223372036854775808)

unfoldable pub as_bool : Value → Option Bool
as_bool null = none
as_bool (int i) = some (not (i == 0))
as_bool (real r) = some (real_set r)
as_bool (text s) = some (not (is_nil s) && not (bytes_eq s (b'0' ∷ [])))
as_bool (blob b) = some (not (is_nil b))
as_bool (vector v) = some (not (is_nil v))

abbrev pub bool_int : Bool → Value
bool_int true = int 1
bool_int false = int 0

-- NULL for an unknown, and the integer of a Boolean.
abbrev pub truth_value : Option Bool → Value
truth_value none = null
truth_value (some b) = bool_int b

unfoldable pub three_valued_and : Option Bool → Option Bool → Value
three_valued_and (some false) b = int 0
three_valued_and (some true) (some false) = int 0
three_valued_and none (some false) = int 0
three_valued_and (some true) (some true) = int 1
three_valued_and (some true) none = null
three_valued_and none (some true) = null
three_valued_and none none = null

unfoldable pub three_valued_or : Option Bool → Option Bool → Value
three_valued_or (some true) b = int 1
three_valued_or (some false) (some true) = int 1
three_valued_or none (some true) = int 1
three_valued_or (some false) (some false) = int 0
three_valued_or (some false) none = null
three_valued_or none (some false) = null
three_valued_or none none = null

-- `NOT`.
unfoldable pub negate : Value → Value
unfolding as_bool
negate v = elim (as_bool v) [ none ↦ null | some b ↦ bool_int (not b) ]

abbrev pub Evaluated : Type 0
Evaluated = EngineStatus ⊎ Value

-- `>=` and `<=` of a comparison.
abbrev pub at_least : Option Ordering → Option Bool
at_least none = none
at_least (some Ordering.lt) = some false
at_least (some Ordering.eq) = some true
at_least (some Ordering.gt) = some true

abbrev pub at_most : Option Ordering → Option Bool
at_most none = none
at_most (some Ordering.lt) = some true
at_most (some Ordering.eq) = some true
at_most (some Ordering.gt) = some false

module _ {F : Type 0} (of_int of_real : ℕ → F) (partial_cmp : F → F → Option Ordering) where
  unfoldable pub numeric : Value → Option F
  numeric (int i) = some (of_int i)
  numeric (real r) = some (of_real r)
  numeric null = none
  numeric (text s) = none
  numeric (blob b) = none
  numeric (vector v) = none

  abbrev pub same_kind_cmp : Value → Value → Option Ordering
  same_kind_cmp (text a) (text b) = some (bytes_cmp a b)
  same_kind_cmp (blob a) (blob b) = some (bytes_cmp a b)
  same_kind_cmp _ _ = none

  abbrev pub number_cmp : Option F → Option F → Value → Value → Option Ordering
  number_cmp (some a) (some b) v w = partial_cmp a b
  number_cmp (some a) none v w = same_kind_cmp v w
  number_cmp none b v w = same_kind_cmp v w

  -- A NULL is not numeric and of no kind, so that it compares to nothing.
  unfoldable pub sql_cmp : Value → Value → Option Ordering
  unfolding numeric bytes_cmp
  sql_cmp v w = number_cmp (numeric v) (numeric w) v w

  abbrev pub is_equal : Option Ordering → Bool
  is_equal (some Ordering.eq) = true
  is_equal (some Ordering.lt) = false
  is_equal (some Ordering.gt) = false
  is_equal none = false

  unfoldable pub sql_eq : Value → Value → Option Bool
  unfolding sql_cmp
  sql_eq null w = none
  sql_eq v null = none
  sql_eq v w = some (is_equal (sql_cmp v w))

  module _ {E : Type 0} (eval : E → Evaluated) where
    -- The loop of `eval_in_list` after the comparison with an item; `rest` is the loop behind it,
    -- with `saw_null` as it stands.
    abbrev pub in_step : Bool → (Bool → Evaluated) → Bool → Option Bool → Evaluated
    in_step negated rest saw_null (some true) = inr (bool_int (not negated))
    in_step negated rest saw_null (some false) = rest saw_null
    in_step negated rest saw_null none = rest true

    abbrev pub in_item : Bool → Value → (Bool → Evaluated) → Bool → Evaluated → Evaluated
    in_item negated v rest saw_null (inl e) = inl e
    in_item negated v rest saw_null (inr w) = in_step negated rest saw_null (sql_eq v w)

    unfoldable pub in_loop : Bool → Value → List E → Bool → Evaluated
    unfolding sql_eq
    in_loop negated v [] saw_null = inr (if saw_null then null else bool_int negated)
    in_loop negated v (item ∷ list) saw_null =
        in_item negated v (in_loop negated v list) saw_null (eval item)

    abbrev pub in_values : Bool → List E → Evaluated → Evaluated
    in_values negated list (inl e) = inl e
    in_values negated list (inr null) = inr null
    in_values negated list (inr v) = in_loop negated v list false

    unfoldable pub eval_in_list : E → List E → Bool → Evaluated
    unfolding in_loop
    eval_in_list e list negated = in_values negated list (eval e)

    abbrev pub and_then : Evaluated → (Value → Evaluated) → Evaluated
    and_then (inl e) f = inl e
    and_then (inr v) f = f v

    -- `expr [NOT] BETWEEN low AND high` of the values, and of the expressions.
    unfoldable pub between_values : Bool → Value → Value → Value → Value
    unfolding sql_cmp three_valued_and negate
    between_values negated v low high =
        let within = three_valued_and (at_least (sql_cmp v low)) (at_most (sql_cmp v high)) in
        if negated then negate within else within

    unfoldable pub eval_between : E → E → E → Bool → Evaluated
    unfolding between_values
    eval_between e low high negated = and_then (eval e) (λ v.
        and_then (eval low) (λ l. and_then (eval high) (λ h. inr (between_values negated v l h))))
