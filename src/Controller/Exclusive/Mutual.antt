-- ===== src/Controller/Exclusive/Mutual.antt =====
-- One live installation at most holds a node.
use yanet_operator.Base.{
  ◌≡◌, refl, sym, ◌≢◌, inl, inr, ℕ, Bool, true, false, not, some, List, [], ◌∷◌, ◌++◌, arith,
  String, if◌then◌else◌, nat_eq, string_eq, int_eq, option_eq, ok, All, get_elem?, Bool-cases,
  is_empty,
}
use yanet_operator.Base.{All-get_elem?}
use yanet_operator.Base.Dict.{Dict}
use yanet_operator.Base.Text.{text_lt_total}
use yanet_operator.Kube.{ObjectMeta, Node}
use yanet_operator.Controller.Ownership.{Yanet}
use yanet_operator.Controller.Exclusive.{
  yanet_key, message, yanet_precedes, same_yanet, Found, nothing_found, claims, current_wins,
  check_node, check_nodes, check_installations, decide_nodes, validate_exclusive_nodes,
}

yanet_precedes_total :
    (a b : Yanet) → yanet_key a ≢ yanet_key b → yanet_precedes a b ≡ not (yanet_precedes b a)
unfolding yanet_precedes
yanet_precedes_total a b h = ground (arith, text_lt_total (yanet_key a) (yanet_key b))

module _ (matches : Dict String String → Dict String String → Bool) (ds : List ObjectMeta) where
  pub current_wins-swap :
      (a b : Yanet) (node : Node)
      → yanet_key a ≢ yanet_key b
      → current_wins matches ds a b node ≡ not (current_wins matches ds b a node)
  unfolding current_wins
  current_wins-swap a b node h = ground (arith, yanet_precedes_total a b h)

  -- What the inner loop accepts.
  abbrev IsFree : Yanet → Yanet → Node → Type 0
  IsFree a other node =
      claims matches ds a other node ≡ true
      → (current_wins matches ds a other node ≡ true) × (other.meta.deleting ≡ false)

  is_empty-append : (xs : List String) (x : String) → is_empty (xs ++ (x ∷ [])) ≡ false
  is_empty-append [] x = refl
  is_empty-append (y ∷ ys) x = refl

  check_node-IsFree :
      (a other : Yanet) (node : Node) (found : Found)
      → is_empty (check_node matches ds a other node found).conflicts ≡ true
      → (is_empty found.conflicts ≡ true) × IsFree a other node
  unfolding check_node
  check_node-IsFree a other node found h =
      ground (arith, is_empty-append found.conflicts (message other node))

  check_nodes-IsFree :
      (a other : Yanet) (nodes : List Node) (found : Found)
      → is_empty (check_nodes matches ds a other nodes found).conflicts ≡ true
      → (is_empty found.conflicts ≡ true) × All (IsFree a other) nodes
  unfolding check_nodes
  check_nodes-IsFree a other [] found h = (h, tt)
  check_nodes-IsFree a other (n ∷ ns) found h =
      let (e, rest) = check_nodes-IsFree a other ns (check_node matches ds a other n found) h in
      let (e', here) = check_node-IsFree a other n found e in (e', (here, rest))

  abbrev IsFreeOf : Yanet → List Node → Yanet → Type 0
  IsFreeOf a nodes other = same_yanet other a ≡ false → All (IsFree a other) nodes

  check_installations-free :
      (a : Yanet) (nodes : List Node) (ys : List Yanet) (found : Found)
      → is_empty (check_installations matches ds a nodes ys found).conflicts ≡ true
      → (is_empty found.conflicts ≡ true) × All (IsFreeOf a nodes) ys
  unfolding check_installations
  check_installations-free a nodes [] found h = (h, tt)
  check_installations-free a nodes (y ∷ ys) found h =
      let (e, rest) =
        check_installations-free a nodes ys
          (if same_yanet y a then found else check_nodes matches ds a y nodes found) h in
      elim (Bool-cases (same_yanet y a)) [
        | inl same ↦ ground (arith, same)
        | inr other ↦ ground (arith, other, check_nodes-IsFree a y nodes found)
      ]

  same_yanet-key : (a b : Yanet) → yanet_key a ≢ yanet_key b → same_yanet b a ≡ false
  same_yanet-key a b h = ground arith

  IsFreeOf-nil : (a : Yanet) (ys : List Yanet) → All (IsFreeOf a []) ys
  IsFreeOf-nil a [] = tt
  IsFreeOf-nil a (y ∷ ys) = (λ h. tt, IsFreeOf-nil a ys)

  decide_nodes-ok :
      (a : Yanet) (nodes : List Node) (found : Found)
      → decide_nodes ds a nodes found ≡ ok tt
      → is_empty found.conflicts ≡ true
  unfolding decide_nodes
  decide_nodes-ok a nodes found h = ground arith

  accepted-IsFreeOf :
      (ys : List Yanet) (a : Yanet) (nodes : List Node)
      → validate_exclusive_nodes matches (ok ys) (ok ds) a nodes ≡ ok tt
      → All (IsFreeOf a nodes) ys
  unfolding validate_exclusive_nodes
  accepted-IsFreeOf ys a [] h = IsFreeOf-nil a ys
  accepted-IsFreeOf ys a (n ∷ ns) h =
      (check_installations-free a (n ∷ ns) ys nothing_found (decide_nodes-ok a (n ∷ ns) _ h)).1

-- Of two listed installations with different keys (namespace and name), both of which select a node
-- among the nodes that they check, at most one passes the check on the same cluster state.
pub validate_exclusive_nodes-exclusive :
    (matches : Dict String String → Dict String String → Bool) (ds : List ObjectMeta)
    (ys : List Yanet) (a b : Yanet) (i j : ℕ)
    → get_elem? ys i ≡ some a
    → get_elem? ys j ≡ some b
    → yanet_key a ≢ yanet_key b
    → (node : Node) (na nb : List Node) (k l : ℕ) → get_elem? na k ≡ some node
    → get_elem? nb l ≡ some node
    → matches a.spec.node_selector node.labels ≡ true
    → matches b.spec.node_selector node.labels ≡ true
    → validate_exclusive_nodes matches (ok ys) (ok ds) a na ≡ ok tt
    → validate_exclusive_nodes matches (ok ys) (ok ds) b nb ≢ ok tt
validate_exclusive_nodes-exclusive matches ds ys a b i j ai bj key node na nb k l ak bl ma mb ha
      hb =
    let b_free =
      All-get_elem? _ na k node
        (All-get_elem? _ ys j b (accepted-IsFreeOf matches ds ys a na ha) bj
          (same_yanet-key matches ds a b key))
        ak in
    let a_free =
      All-get_elem? _ nb l node
        (All-get_elem? _ ys i a (accepted-IsFreeOf matches ds ys b nb hb) ai
          (same_yanet-key matches ds b a (λ e. key (sym e))))
        bl in
    ground (arith, current_wins-swap matches ds a b node key, b_free, a_free)
