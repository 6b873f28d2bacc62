-- ===== src/Base/Fallible.antt =====
-- Go's pair of a value and an `error`, of which exactly one is meant.
use mathlib.Core.Path.{◌≡◌, refl, ap}
use mathlib.Core.Logic.{◌⊎◌, inl, inr}
use mathlib.Core.Bool.{Bool, true, false}

pub data Result {ℓ κ} (E : Type ℓ) (A : Type κ) : Type (ℓ ⊔ κ) where
  ok : A → Result E A
  err : E → Result E A

-- `if b { return e }`
abbrev pub fail_if {ℓ} : {E : Type ℓ} → Bool → E → Result E (Unit {0})
fail_if true failure = err failure
fail_if false failure = ok tt

module _ {ℓ κ} {E : Type ℓ} {B : Type κ} where
  infixl 5 ◌>>=◌ ◌>>◌
  abbrev pub ◌>>=◌ {μ} : {A : Type μ} → Result E A → (A → Result E B) → Result E B
  err failure >>= next = err failure
  ok value >>= next = next value

  -- `if err := check; err != nil { return err }`, and then what follows.
  abbrev pub ◌>>◌ : Result E (Unit {0}) → Result E B → Result E B
  check >> following = check >>= λ done. following

  -- Inversion of a successful bind, for proofs where the parts stay shut.
  pub >>=-eq-ok {μ} :
      {A : Type μ} (first : Result E A) (next : A → Result E B) {result : B}
      → (first >>= next) ≡ ok result
      → (value : A) × (first ≡ ok value) × (next value ≡ ok result)
  >>=-eq-ok (err failure) next h = cc
  >>=-eq-ok (ok value) next h = (value, refl, h)

module _ {ℓ κ} {E : Type ℓ} {A : Type κ} where
  -- To split on the outcome of a call and keep the equation.
  pub Result-cases :
      (outcome : Result E A)
      → ((value : A) × (outcome ≡ ok value)) ⊎ ((failure : E) × (outcome ≡ err failure))
  Result-cases (err failure) = inr (failure, refl)
  Result-cases (ok value) = inl (value, refl)

  pub ok_inj : {a b : A} → (let x : Result E A = ok a in x ≡ ok b) → a ≡ b
  ok_inj {a = a} h = ap (λ r. elim r [ ok x ↦ x | err _ ↦ a ]) h
