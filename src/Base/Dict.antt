-- ===== src/Base/Dict.antt =====
-- Go's maps as association lists: a lookup takes the first entry of a key, and a `range` loop
-- visits the entries in the list's order. A statement about every list covers every order.
use yanet_operator.Base.Equality.{Eq, ◌==◌, contains, if◌then◌else◌}
use mathlib.Core.Path.{◌≡◌, refl}
use mathlib.Core.Logic.{◌≢◌, ◌↔◌}
use mathlib.Core.Bool.{Bool, true, false, not, ◌&&◌, ◌||◌}
use mathlib.Core.Option.{Option, none, some}
use mathlib.Core.List.{List, [], ◌∷◌}
use yanet_operator.Base.Lists.{Distinct}
use native.Mathlib.Omega.{arith}

abbrev pub Dict {ℓ κ} : Type ℓ → Type κ → Type (ℓ ⊔ κ)
Dict K V = List (K × V)

abbrev pub keys {ℓ κ} : {K : Type ℓ} {V : Type κ} → Dict K V → List K
keys [] = []
keys ((k, v) ∷ d) = k ∷ keys d

abbrev pub values {ℓ κ} : {K : Type ℓ} {V : Type κ} → Dict K V → List V
values [] = []
values ((k, v) ∷ d) = v ∷ values d

module _ {ℓ κ} {K : Type ℓ} {V : Type κ} ⦃e : Eq K⦄ where
  -- `v, ok := d[k]`
  abbrev pub lookup : K → Dict K V → Option V
  lookup k [] = none
  lookup k ((j, v) ∷ d) = if k == j then some v else lookup k d

  -- `_, ok := d[k]`
  abbrev pub has : K → Dict K V → Bool
  has k d = contains (keys d) k

  -- `d[k] = v`
  unfoldable pub insert : K → V → Dict K V → Dict K V
  insert k v [] = (k, v) ∷ []
  insert k v ((j, w) ∷ d) = if k == j then (k, v) ∷ d else (j, w) ∷ insert k v d

  -- `delete(d, k)`
  unfoldable pub erase : K → Dict K V → Dict K V
  erase k [] = []
  erase k ((j, w) ∷ d) = let rest = erase k d in if k == j then rest else (j, w) ∷ rest

  pub lookup-insert :
      (j k : K) (v : V) (d : Dict K V)
      → lookup j (insert k v d) ≡ (if j == k then some v else lookup j d)
  unfolding insert
  lookup-insert j k v [] = refl
  lookup-insert j k v (_ ∷ d) = ground (arith, lookup-insert j k v d)

  pub lookup-erase :
      (j k : K) (d : Dict K V) → lookup j (erase k d) ≡ (if j == k then none else lookup j d)
  unfolding erase
  lookup-erase j k [] = ground arith
  lookup-erase j k (_ ∷ d) = ground (arith, lookup-erase j k d)

  pub has-lookup : (k : K) (d : Dict K V) → (has k d ≡ true) ↔ (lookup k d ≢ none)
  has-lookup k [] = (λ h. cc, λ h. absurd (h refl))
  has-lookup k (_ ∷ d) = ground (arith, has-lookup k d)

module _ {ℓ κ} {K : Type ℓ} {V : Type κ} ⦃e : Eq K⦄ where
  -- A Go map has one entry for a key.
  abbrev pub IsMap : Dict K V → Type 0
  IsMap d = Distinct (keys d)

  -- `for k, v := range d { out[k] = v }`
  unfoldable pub put_all : Dict K V → Dict K V → Dict K V
  put_all [] out = out
  put_all ((k, v) ∷ d) out = put_all d (insert k v out)

  pub lookup-of_not_has : (k : K) (d : Dict K V) → contains (keys d) k ≡ false → lookup k d ≡ none
  lookup-of_not_has k [] h = refl
  lookup-of_not_has k (_ ∷ d) h = ground (arith, lookup-of_not_has k d)

  pub lookup-put_all :
      (j : K) (d out : Dict K V)
      → IsMap d
      → lookup j (put_all d out) ≡ (if has j d then lookup j d else lookup j out)
  unfolding put_all
  lookup-put_all j [] out h = refl
  lookup-put_all j ((k, v) ∷ d) out h =
      ground (arith, lookup-put_all j d (insert k v out), lookup-insert j k v out)

-- The operations keep one entry for a key.
module _ {ℓ κ} {K : Type ℓ} {V : Type κ} ⦃e : Eq K⦄ where
  pub has-insert : (j k : K) (v : V) (d : Dict K V) → has j (insert k v d) ≡ (j == k || has j d)
  unfolding insert
  has-insert j k v [] = refl
  has-insert j k v (_ ∷ d) = ground (arith, has-insert j k v d)

  pub has-erase : (j k : K) (d : Dict K V) → has j (erase k d) ≡ (not (j == k) && has j d)
  unfolding erase
  has-erase j k [] = ground arith
  has-erase j k (_ ∷ d) = ground (arith, has-erase j k d)

  pub insert-IsMap : (k : K) (v : V) (d : Dict K V) → IsMap d → IsMap (insert k v d)
  unfolding insert
  insert-IsMap k v [] h = ground arith
  insert-IsMap k v ((j, w) ∷ d) h = ground (arith, insert-IsMap k v d h.1, has-insert j k v d)

  pub erase-IsMap : (k : K) (d : Dict K V) → IsMap d → IsMap (erase k d)
  unfolding erase
  erase-IsMap k [] h = tt
  erase-IsMap k ((j, w) ∷ d) h = ground (arith, erase-IsMap k d h.1, has-erase j k d)

  pub put_all-IsMap : (d out : Dict K V) → IsMap out → IsMap (put_all d out)
  unfolding put_all
  put_all-IsMap [] out h = h
  put_all-IsMap ((k, v) ∷ d) out h = put_all-IsMap d (insert k v out) (insert-IsMap k v out h)
