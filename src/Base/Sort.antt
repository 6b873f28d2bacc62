-- ===== src/Base/Sort.antt =====
-- Go's sort.Slice by a function that compares two elements. The order of elements that neither
-- precedes is left open by the documentation; here the later one comes first.
use mathlib.Core.Logic.{◌↔◌}
use mathlib.Core.Bool.{Bool}
use mathlib.Core.List.{List, [], ◌∷◌}
use native.Mathlib.Omega.{arith}
use yanet_operator.Base.Equality.{if◌then◌else◌}
use yanet_operator.Base.Lists.{All}

module _ {ℓ} {A : Type ℓ} (less : A → A → Bool) where
  abbrev place : A → List A → List A
  place x [] = x ∷ []
  place x (y ∷ ys) = if less y x then y ∷ place x ys else x ∷ y ∷ ys

  unfoldable pub sort_by : List A → List A
  sort_by [] = []
  sort_by (x ∷ xs) = place x (sort_by xs)

  All-place : (P : A → Type 0) (x : A) (ys : List A) → All P (place x ys) ↔ (P x × All P ys)
  All-place P x [] = ground arith
  All-place P x (y ∷ ys) = ground (arith, All-place P x ys)

  -- A sorted list has the same elements.
  pub All-sort_by : (P : A → Type 0) (xs : List A) → All P (sort_by xs) ↔ All P xs
  unfolding sort_by
  All-sort_by P [] = ground arith
  All-sort_by P (x ∷ xs) = ground (arith, All-place P x (sort_by xs), All-sort_by P xs)
