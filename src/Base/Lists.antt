-- ===== src/Base/Lists.antt =====
-- Lists measured and indexed by native numbers, predicates by recursion on a list, and the loop
-- that keeps a set of the names seen so far.
use Prim.Native.Nat.{ℕ, zero, suc}
use mathlib.Core.Path.{◌≡◌, subst}
use mathlib.Core.Logic.{◌⊎◌, inl, inr, ◌↔◌}
use mathlib.Core.Bool.{Bool, true, false}
use mathlib.Core.List.{List, [], ◌∷◌, ◌++◌}
use mathlib.Core.Option.{Option, none, some, some-injective}
use native.Mathlib.Omega.{arith}
use yanet_operator.Base.Equality.{Eq, contains}

module _ {ℓ} {A : Type ℓ} where
  abbrev pub length : List A → ℕ
  length [] = 0
  length (x ∷ xs) = suc (length xs)

  -- len(xs) == 0
  abbrev pub is_empty : List A → Bool
  is_empty [] = true
  is_empty (x ∷ xs) = false

  abbrev pub get_elem? : List A → ℕ → Option A
  get_elem? [] i = none
  get_elem? (x ∷ xs) zero = some x
  get_elem? (x ∷ xs) (suc i) = get_elem? xs i

module _ {ℓ κ} {A : Type ℓ} where
  abbrev pub All : (A → Type κ) → List A → Type κ
  All P [] = Unit
  All P (x ∷ xs) = P x × All P xs

module _ {ℓ} {A : Type ℓ} ⦃e : Eq A⦄ where
  -- No element stands twice.
  abbrev pub Distinct : List A → Type 0
  Distinct [] = Unit
  Distinct (x ∷ xs) = (contains xs x ≡ false) × Distinct xs

  -- What a loop checks that refuses an element of the set `seen` and adds the others to it.
  abbrev pub DistinctFrom : List A → List A → Type 0
  DistinctFrom seen [] = Unit
  DistinctFrom seen (x ∷ xs) = (contains seen x ≡ false) × DistinctFrom (x ∷ seen) xs

  -- No element stands in the other list.
  abbrev pub Disjoint : List A → List A → Type 0
  Disjoint seen [] = Unit
  Disjoint seen (x ∷ xs) = (contains seen x ≡ false) × Disjoint seen xs

  pub Disjoint-cons :
      (a : A) (seen xs : List A)
      → Disjoint (a ∷ seen) xs ↔ ((contains xs a ≡ false) × Disjoint seen xs)
  Disjoint-cons a seen [] = ground arith
  Disjoint-cons a seen (x ∷ xs) = ground (arith, Disjoint-cons a seen xs)

  pub DistinctFrom-iff :
      (seen xs : List A) → DistinctFrom seen xs ↔ (Distinct xs × Disjoint seen xs)
  DistinctFrom-iff seen [] = ground arith
  DistinctFrom-iff seen (x ∷ xs) =
      ground (arith, DistinctFrom-iff (x ∷ seen) xs, Disjoint-cons x seen xs)

  pub Disjoint-nil : (xs : List A) → Disjoint [] xs
  Disjoint-nil [] = tt
  Disjoint-nil (x ∷ xs) = ground (arith, Disjoint-nil xs)

  pub DistinctFrom-nil : (xs : List A) → DistinctFrom [] xs ↔ Distinct xs
  DistinctFrom-nil xs = ground (arith, DistinctFrom-iff [] xs, Disjoint-nil xs)

module _ {ℓ κ} {A : Type ℓ} where
  -- Each element stands in the relation to every later one.
  abbrev pub Pairs : (A → A → Type κ) → List A → Type κ
  Pairs R [] = Unit
  Pairs R (x ∷ xs) = All (R x) xs × Pairs R xs

module _ {ℓ κ} {A : Type ℓ} where
  pub All-append :
      (P : A → Type κ) (front back : List A) → All P front → All P back → All P (front ++ back)
  All-append P [] back none_left there = there
  All-append P (a ∷ front) back here there = (here.0, All-append P front back here.1 there)

  pub All-get_elem? :
      (P : A → Type κ) (xs : List A) (i : ℕ) (x : A) → All P xs → get_elem? xs i ≡ some x → P x
  All-get_elem? P [] i x hs h = cc
  All-get_elem? P (y ∷ ys) zero x hs h = subst P (some-injective y x h) hs.0
  All-get_elem? P (y ∷ ys) (suc i) x hs h = All-get_elem? P ys i x hs.1 h

module _ {ℓ κ μ} {A : Type ℓ} {P : A → Type κ} {Q : A → Type μ} where
  pub All-weaken : ((x : A) → P x → Q x) → (xs : List A) → All P xs → All Q xs
  All-weaken f [] none_left = tt
  All-weaken f (x ∷ xs) hs = (f x hs.0, All-weaken f xs hs.1)

module _ {ℓ} {A : Type ℓ} where
  -- One of the elements has the property.
  abbrev pub Some : (A → Type 0) → List A → Type 0
  Some P [] = ⊥
  Some P (x ∷ xs) = P x ⊎ Some P xs

  pub Some-append_right : (P : A → Type 0) (xs ys : List A) → Some P ys → Some P (xs ++ ys)
  Some-append_right P [] ys h = h
  Some-append_right P (x ∷ xs) ys h = inr (Some-append_right P xs ys h)

  pub Some-weaken :
      {P Q : A → Type 0} → ((x : A) → P x → Q x) → (xs : List A) → Some P xs → Some Q xs
  Some-weaken f [] h = absurd h
  Some-weaken f (x ∷ xs) (inl h) = inl (f x h)
  Some-weaken f (x ∷ xs) (inr h) = inr (Some-weaken f xs h)
