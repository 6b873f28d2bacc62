-- ===== src/Controller/Exclusive/Winner.antt =====
-- Of the installations that compete for a node one passes the check.
use yanet_operator.Base.{
  ◌≡◌, refl, ◌≢◌, ◌⊎◌, inl, inr, ℕ, suc, Bool, true, false, some, List, [], ◌∷◌, arith, String,
  nat_eq, string_eq, int_eq, option_eq, ok, All, get_elem?, Bool-cases,
}
use yanet_operator.Base.{All-get_elem?, subst}
use yanet_operator.Base.Dict.{Dict}
use yanet_operator.Base.Text.{text_lt_trans}
use yanet_operator.Kube.{ObjectMeta, Node}
use yanet_operator.Controller.Ownership.{Yanet}
use yanet_operator.Controller.Exclusive.{
  yanet_key, yanet_precedes, same_yanet, Found, nothing_found, current_wins, check_node,
  check_nodes, check_installations, decide_nodes, validate_exclusive_nodes,
}
use yanet_operator.Controller.Exclusive.Mutual.{current_wins-swap}

yanet_precedes_trans :
    (a b c : Yanet)
    → yanet_precedes a b ≡ true
    → yanet_precedes b c ≡ true
    → yanet_precedes a c ≡ true
unfolding yanet_precedes
yanet_precedes_trans a b c h k =
    ground (arith, text_lt_trans (yanet_key a) (yanet_key b) (yanet_key c))

module _ (matches : Dict String String → Dict String String → Bool) (ds : List ObjectMeta)
    (node : Node) where
  abbrev Wins : Yanet → Yanet → Type 0
  Wins a b = current_wins matches ds a b node ≡ true

  Wins-trans : (a b c : Yanet) → Wins a b → Wins b c → Wins a c
  unfolding current_wins
  Wins-trans a b c h k = ground (arith, yanet_precedes_trans a b c)

  -- The installation is the other one, or wins against it.
  abbrev IsFirst : Yanet → Yanet → Type 0
  IsFirst w other = (w ≡ other) ⊎ Wins w other

  abbrev Apart : Yanet → List Yanet → Type 0
  Apart y ys = All (λ other. yanet_key y ≢ yanet_key other) ys

  abbrev pub AllApart : List Yanet → Type 0
  AllApart [] = Unit
  AllApart (y ∷ ys) = Apart y ys × AllApart ys

  IsFirst-through :
      (y w : Yanet) (ys : List Yanet) → Wins y w → All (IsFirst w) ys → All (IsFirst y) ys
  IsFirst-through y w [] h f = tt
  IsFirst-through y w (o ∷ ys) h (inl same, f) =
      (inr (subst (Wins y) same h), IsFirst-through y w ys h f)
  IsFirst-through y w (o ∷ ys) h (inr wins, f) =
      (inr (Wins-trans y w o h wins), IsFirst-through y w ys h f)

  exists-IsFirst :
      (y : Yanet) (ys : List Yanet)
      → AllApart (y ∷ ys)
      → (k : ℕ) × (w : Yanet) × (get_elem? (y ∷ ys) k ≡ some w) × All (IsFirst w) (y ∷ ys)
  exists-IsFirst y [] h = (0, y, refl, (inl refl, tt))
  exists-IsFirst y (z ∷ ys) h =
      let (k, w, e, f) = exists-IsFirst z ys h.1 in
      let differ : yanet_key y ≢ yanet_key w = All-get_elem? _ (z ∷ ys) k w h.0 e in
      elim (Bool-cases (current_wins matches ds y w node)) [
        | inl wins ↦ (0, y, refl, (inl refl, IsFirst-through y w (z ∷ ys) wins f))
        | inr loses ↦
            (suc k, w, e, (inr (ground (arith, current_wins-swap matches ds y w node differ)), f))
      ]

  same_yanet_self : (a : Yanet) → same_yanet a a ≡ true
  same_yanet_self a = ground arith

  skips :
      (w : Yanet) (ys : List Yanet)
      → All (IsFirst w) ys
      → All (λ o. o.meta.deleting ≡ false) ys
      → check_installations matches ds w (node ∷ []) ys nothing_found ≡ nothing_found
  unfolding check_installations check_nodes check_node
  skips w [] f h = refl
  skips w (o ∷ ys) (inl same, f) h = ground (arith, skips w ys f h.1, same_yanet_self o, same)
  skips w (o ∷ ys) (inr wins, f) h = ground (arith, skips w ys f h.1, wins, h.0)

  -- Of listed installations with different keys, none of which is being deleted, some one passes the
  -- check for the node: they do not all wait for one another.
  pub validate_exclusive_nodes-winner :
      (y : Yanet) (ys : List Yanet)
      → AllApart (y ∷ ys)
      → All (λ o. o.meta.deleting ≡ false) (y ∷ ys)
      → (k : ℕ) × (w : Yanet) × (get_elem? (y ∷ ys) k ≡ some w)
        × (validate_exclusive_nodes matches (ok (y ∷ ys)) (ok ds) w (node ∷ []) ≡ ok tt)
  unfolding validate_exclusive_nodes decide_nodes
  validate_exclusive_nodes-winner y ys h live =
      let (k, w, e, f) = exists-IsFirst y ys h in
      (
        k,
        w,
        e,
        passes w (check_installations matches ds w (node ∷ []) (y ∷ ys) nothing_found)
            (skips w (y ∷ ys) f live),
      )
    where
      passes :
          (w : Yanet) (found : Found)
          → found ≡ nothing_found
          → decide_nodes ds w (node ∷ []) found ≡ ok tt
      passes w found same = rw same refl
