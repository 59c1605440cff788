-- ===== src/Base/Selects.antt =====
-- The elements of a list that have a property, in order: a relation, apart from any function that
-- filters.
use mathlib.Core.Path.{◌≡◌, refl, ap}
use mathlib.Core.List.{List, [], ◌∷◌}

pub data Selects {A : Type 0} (P : A → Type 0) : List A → List A → Type 0 where
  selects_none : Selects P [] []
  selects_this : {x : A} {xs ys : List A} → P x → Selects P xs ys → Selects P (x ∷ xs) (x ∷ ys)
  selects_past : {x : A} {xs ys : List A} → ¬ P x → Selects P xs ys → Selects P (x ∷ xs) ys

module _ {A : Type 0} {P : A → Type 0} where
  pub Selects-unique : (xs ys zs : List A) → Selects P xs ys → Selects P xs zs → ys ≡ zs
  Selects-unique xs ys zs selects_none selects_none = refl
  Selects-unique xs ys zs (selects_this {x} {xs = r} {ys = s} p h) (selects_this {ys = t} q k) =
      ap (λ l. x ∷ l) (Selects-unique r s t h k)
  Selects-unique xs ys zs (selects_this p h) (selects_past q k) = absurd (q p)
  Selects-unique xs ys zs (selects_past p h) (selects_this q k) = absurd (p q)
  Selects-unique xs ys zs (selects_past {x} {xs = r} {ys = s} p h) (selects_past {ys = t} q k) =
      Selects-unique r s t h k
