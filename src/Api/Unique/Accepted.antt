-- ===== src/Api/Unique/Accepted.antt =====
-- Which palettes pass the uniqueness checks.
use yanet_operator.Base.{
  ◌≡◌, ◌↔◌, ℕ, suc, ◌≤◌, true, false, List, [], ◌∷◌, arith, String, ◌==◌, contains, nat_eq,
  string_eq, int_eq, option_eq, ok, All, Distinct, DistinctFrom, DistinctFrom-nil, Disjoint, length,
}
use yanet_operator.Base.{DistinctFrom-iff}
use yanet_operator.Api.Names.{NameRules}
use yanet_operator.Api.Listeners.{
  max_dataplane_sidecars, validate_listeners, validate_operator_listeners,
}
use yanet_operator.Api.Types.{
  NamedPatch, OperatorSpec, OperatorContainer, SidecarSpec, ComponentsSpec,
}
use yanet_operator.Api.Unique.{
  reserved_names, containers_loop, operators_loop, validate_operator_uniqueness, sidecars_loop,
  role_names, validate_sidecar_uniqueness,
}

abbrev pub patch_names : List NamedPatch → List String
patch_names [] = []
patch_names (p ∷ ps) = p.name ∷ patch_names ps

abbrev pub operator_names : List OperatorSpec → List String
operator_names [] = []
operator_names (o ∷ os) = o.name ∷ operator_names os

abbrev pub container_names : List OperatorContainer → List String
container_names [] = []
container_names (c ∷ cs) = c.name ∷ container_names cs

abbrev pub sidecar_names : List SidecarSpec → List String
sidecar_names [] = []
sidecar_names (s ∷ ss) = s.name ∷ sidecar_names ss

module _ (rules : NameRules) where
  -- A name that is not empty and fits a DNS label.
  abbrev pub IsLabel : String → Type 0
  IsLabel n = ((n == "") ≡ false) × (rules.is_dns1123_label n ≡ true)

  containers_loop_iff :
      (j : ℕ) (seen : List String) (cs : List OperatorContainer)
      → (containers_loop rules j seen cs ≡ ok tt)
        ↔ (All IsLabel (container_names cs) × DistinctFrom seen (container_names cs))
  unfolding containers_loop
  containers_loop_iff j seen [] = ground arith
  containers_loop_iff j seen (c ∷ cs) =
      ground (arith, containers_loop_iff (suc j) (c.name ∷ seen) cs)

  -- One operator by itself: its name, its listeners, and its containers.
  abbrev pub IsOperator : OperatorSpec → Type 0
  IsOperator o =
      IsLabel o.name
      × (contains reserved_names o.name ≡ false)
      × (validate_operator_listeners o ≡ ok tt)
      × (1 ≤ length o.containers)
      × (length o.containers ≤ 8)
      × All IsLabel (container_names o.containers)
      × Distinct (container_names o.containers)

  operators_loop_iff :
      (i : ℕ) (seen : List String) (os : List OperatorSpec)
      → (operators_loop rules i seen os ≡ ok tt)
        ↔ (All IsOperator os × DistinctFrom seen (operator_names os))
  unfolding operators_loop
  operators_loop_iff i seen [] = ground arith
  operators_loop_iff i seen (o ∷ os) = ground (
    arith,
    operators_loop_iff (suc i) (o.name ∷ seen) os,
    containers_loop_iff 0 [] o.containers,
    DistinctFrom-nil (container_names o.containers),
  )

  -- The operators are accepted exactly when each has an unreserved label for a name, accepted
  -- listeners and 1 to 8 containers with distinct labels for names, and no two share a name.
  pub validate_operator_uniqueness_iff :
      (os : List OperatorSpec)
      → (validate_operator_uniqueness rules os ≡ ok tt)
        ↔ (All IsOperator os × Distinct (operator_names os))
  unfolding validate_operator_uniqueness
  validate_operator_uniqueness_iff os =
      ground (arith, operators_loop_iff 0 [] os, DistinctFrom-nil (operator_names os))

  abbrev pub IsSidecar : SidecarSpec → Type 0
  IsSidecar s =
      (rules.is_dns1123_label s.name ≡ true) × (validate_listeners s.name s.listeners ≡ ok tt)

  sidecars_loop_iff :
      (seen : List String) (ss : List SidecarSpec)
      → (sidecars_loop rules seen ss ≡ ok tt)
        ↔ (All IsSidecar ss × DistinctFrom seen (sidecar_names ss))
  unfolding sidecars_loop
  sidecars_loop_iff seen [] = ground arith
  sidecars_loop_iff seen (s ∷ ss) = ground (arith, sidecars_loop_iff (s.name ∷ seen) ss)

  -- The sidecars are accepted exactly when the port range holds them, each has a label for a name
  -- and accepted listeners, no two share a name, and none has the name of an operator or a
  -- reserved one.
  pub validate_sidecar_uniqueness_iff :
      (c : ComponentsSpec)
      → (validate_sidecar_uniqueness rules c ≡ ok tt) ↔ (
          (length c.dataplane.sidecars ≤ max_dataplane_sidecars)
          × All IsSidecar c.dataplane.sidecars
          × Distinct (sidecar_names c.dataplane.sidecars)
          × Disjoint (role_names c.operators reserved_names) (sidecar_names c.dataplane.sidecars))
  unfolding validate_sidecar_uniqueness
  validate_sidecar_uniqueness_iff c =
      let names = role_names c.operators reserved_names in
      ground (
        arith,
        sidecars_loop_iff names c.dataplane.sidecars,
        DistinctFrom-iff names (sidecar_names c.dataplane.sidecars),
      )
