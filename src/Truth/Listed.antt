-- ===== src/Truth/Listed.antt =====
-- IN and NOT IN of crates/engine/src/exec.rs against the disjunction of the comparisons.
use Prim.Native.Nat.{Ordering}
use bydesigns_db.Base.{
  ℕ, ◌≡◌, refl, ap, ◌∙◌, Bool, true, false, not, Option, none, some, inr, List, [], ◌∷◌, map,
}
use bydesigns_db.Wal.{Value, null, int, real, text, blob, vector}
use bydesigns_db.Truth.{
  as_bool, truth_value, three_valued_or, Evaluated, sql_eq, in_step, in_loop, in_values,
  eval_in_list,
}

-- The OR of the language on truths, and the truth of any of some comparisons by it.
unfoldable pub or3 : Option Bool → Option Bool → Option Bool
unfolding three_valued_or as_bool
or3 x y = as_bool (three_valued_or x y)

unfoldable pub any_of : List (Option Bool) → Option Bool
unfolding or3
any_of [] = some false
any_of (x ∷ xs) = or3 x (any_of xs)

-- NOT of a truth, if the list is negated.
abbrev pub not_if : Bool → Option Bool → Option Bool
not_if false x = x
not_if true none = none
not_if true (some b) = some (not b)

-- What the comparisons before have left: unknown, or false.
abbrev seen : Bool → Option Bool
seen true = none
seen false = some false

or3-true : (saw : Bool) (r : Option Bool) → or3 (seen saw) (or3 (some true) r) ≡ some true
unfolding or3
or3-true true r = refl
or3-true false r = refl

or3-false : (r : Option Bool) → or3 (some false) r ≡ r
unfolding or3
or3-false none = refl
or3-false (some true) = refl
or3-false (some false) = refl

or3-none : (saw : Bool) (r : Option Bool) → or3 (seen saw) (or3 none r) ≡ or3 none r
unfolding or3
or3-none true none = refl
or3-none true (some true) = refl
or3-none true (some false) = refl
or3-none false none = refl
or3-none false (some true) = refl
or3-none false (some false) = refl

module _ {F : Type 0} (of_int of_real : ℕ → F) (partial_cmp : F → F → Option Ordering) where
  module _ {E : Type 0} (eval : E → Evaluated) where
    -- The items evaluate to the values.
    abbrev pub Evaluate : List E → List Value → Type 0
    Evaluate [] [] = Unit {0}
    Evaluate [] (v ∷ vs) = ⊥
    Evaluate (item ∷ list) [] = ⊥
    Evaluate (item ∷ list) (v ∷ vs) = (eval item ≡ inr v) × Evaluate list vs

    step_holds :
        (negated saw_null : Bool) (rest : Bool → Evaluated) (q r : Option Bool)
        → ((saw : Bool) → rest saw ≡ inr (truth_value (not_if negated (or3 (seen saw) r))))
        → in_step of_int of_real partial_cmp eval negated rest saw_null q
          ≡ inr (truth_value (not_if negated (or3 (seen saw_null) (or3 q r))))
    step_holds true saw rest (some true) r h = rw (or3-true saw r) refl
    step_holds false saw rest (some true) r h = rw (or3-true saw r) refl
    step_holds negated saw rest (some false) r h = rw (or3-false r) (h saw)
    step_holds negated saw rest none r h = rw (or3-none saw r) (h true)

    in_loop-any_of :
        (negated saw_null : Bool) (v : Value) (list : List E) (vs : List Value)
        → Evaluate list vs
        → in_loop of_int of_real partial_cmp eval negated v list saw_null
          ≡ inr (
              truth_value (
                not_if negated
                  (or3 (seen saw_null) (any_of (map (sql_eq of_int of_real partial_cmp v) vs)))))
    unfolding in_loop any_of or3
    in_loop-any_of true true v [] [] h = refl
    in_loop-any_of true false v [] [] h = refl
    in_loop-any_of false true v [] [] h = refl
    in_loop-any_of false false v [] [] h = refl
    in_loop-any_of negated saw_null v [] (w ∷ vs) h = absurd h
    in_loop-any_of negated saw_null v (item ∷ list) [] h = absurd h
    in_loop-any_of negated saw_null v (item ∷ list) (w ∷ vs) (here, h) = rw here (
        step_holds negated saw_null (in_loop of_int of_real partial_cmp eval negated v list)
          (sql_eq of_int of_real partial_cmp v w)
          (any_of (map (sql_eq of_int of_real partial_cmp v) vs))
          (λ saw. in_loop-any_of negated saw v list vs h))

    null_any_of :
        (w : Value) (vs : List Value)
        → any_of (map (sql_eq of_int of_real partial_cmp null) (w ∷ vs)) ≡ none
    unfolding any_of sql_eq or3
    null_any_of w [] = refl
    null_any_of w (x ∷ vs) = rw (null_any_of x vs) refl

    plain_holds :
        (negated : Bool) (item : E) (list : List E) (v w : Value) (vs : List Value)
        → Evaluate (item ∷ list) (w ∷ vs)
        → in_loop of_int of_real partial_cmp eval negated v (item ∷ list) false
          ≡ inr (
              truth_value
                (not_if negated (any_of (map (sql_eq of_int of_real partial_cmp v) (w ∷ vs)))))
    plain_holds negated item list v w vs h =
        in_loop-any_of negated false v (item ∷ list) (w ∷ vs) h
        ∙ ap (λ x. inr (truth_value (not_if negated x)))
            (or3-false (any_of (map (sql_eq of_int of_real partial_cmp v) (w ∷ vs))))

    values_hold :
        (negated : Bool) (item : E) (list : List E) (v w : Value) (vs : List Value)
        → Evaluate (item ∷ list) (w ∷ vs)
        → in_values of_int of_real partial_cmp eval negated (item ∷ list) (inr v)
          ≡ inr (
              truth_value
                (not_if negated (any_of (map (sql_eq of_int of_real partial_cmp v) (w ∷ vs)))))
    values_hold true item list null w vs h = rw (null_any_of w vs) refl
    values_hold false item list null w vs h = rw (null_any_of w vs) refl
    values_hold negated item list (int i) w vs h = plain_holds negated item list (int i) w vs h
    values_hold negated item list (real r) w vs h = plain_holds negated item list (real r) w vs h
    values_hold negated item list (text x) w vs h = plain_holds negated item list (text x) w vs h
    values_hold negated item list (blob x) w vs h = plain_holds negated item list (blob x) w vs h
    values_hold negated item list (vector x) w vs h =
        plain_holds negated item list (vector x) w vs h

    -- An IN list that is not empty and whose parts all evaluate: IN is the OR of the comparisons of
    -- the value with the items, in three-valued logic, so NULL if none is true and some is unknown;
    -- NOT IN is the NOT of that. This holds of the value NULL too, and the evaluation gives no error.
    pub eval_in_list-any_of :
        (negated : Bool) (e item : E) (list : List E) (v w : Value) (vs : List Value)
        → eval e ≡ inr v
        → Evaluate (item ∷ list) (w ∷ vs)
        → eval_in_list of_int of_real partial_cmp eval e (item ∷ list) negated
          ≡ inr (
              truth_value
                (not_if negated (any_of (map (sql_eq of_int of_real partial_cmp v) (w ∷ vs)))))
    unfolding eval_in_list
    eval_in_list-any_of negated e item list v w vs is h =
        rw is (values_hold negated item list v w vs h)
