-- ===== src/Api/Overrides/Effective.antt =====
-- Overrides that have become stale do not stand in the way of the others.
use yanet_operator.Base.{
  ◌≡◌, refl, inl, inr, true, false, Option, none, some, List, [], ◌∷◌, arith, String, ◌==◌,
  contains, nat_eq, string_eq, int_eq, option_eq, ok, All, Distinct, Bool-cases,
}
use yanet_operator.Base.Dict.{Dict, keys, has}
use yanet_operator.Api.Names.{NameRules}
use yanet_operator.Api.Hugepages.{Quantity}
use yanet_operator.Api.Unique.Accepted.{operator_names}
use yanet_operator.Api.Types.{
  OperatorContainer, OperatorSpec, SidecarSpec, DataplaneSpec, ComponentsSpec, BirdAdapterComp,
  BoxComponent, BoxDataplane, BoxOperator, BoxType, YanetContainerOverride, YanetComponentOverride,
  YanetDataplaneOverride, YanetComponentsOverride,
}
use yanet_operator.Api.Overrides.{
  is_set, validate_shape, declares_sidecar, override_sidecars, validate_dataplane_override,
  validate_bird_adapter_override, declared_operator, override_containers, override_operator,
  override_operators, validate_yanet_component_overrides, keep_sidecars, effective_dataplane,
  if_wired, keep_containers, first_operator, effective_operator, effective_operators,
  effective_overrides, validate_effective_yanet_component_overrides,
}
use yanet_operator.Api.Overrides.Shape.{effective_overrides-shape}

-- What the wired names of a box need.
All-contains :
    (known : List String) (xs : List String) (n : String)
    → All (λ x. contains known x ≡ true) xs
    → contains xs n ≡ true
    → contains known n ≡ true
All-contains known [] n h m = cc
All-contains known (x ∷ xs) n h m = ground (arith, All-contains known xs n h.1)

All-declares_sidecar :
    (ss : List SidecarSpec) (xs : List String) (n : String)
    → All (λ x. declares_sidecar ss x ≡ true) xs
    → contains xs n ≡ true
    → declares_sidecar ss n ≡ true
All-declares_sidecar ss [] n h m = cc
All-declares_sidecar ss (x ∷ xs) n h m = ground (arith, All-declares_sidecar ss xs n h.1)

keep_sidecars-accepted :
    (ss : List SidecarSpec) (slot : BoxDataplane) (os : Dict String YanetContainerOverride)
    → All (λ x. declares_sidecar ss x ≡ true) (keys slot.sidecars)
    → override_sidecars ss (some slot) (keys (keep_sidecars slot os)) ≡ ok tt
unfolding override_sidecars keep_sidecars
keep_sidecars-accepted ss slot [] h = refl
keep_sidecars-accepted ss slot ((n, o) ∷ os) h =
    ground
      (arith, keep_sidecars-accepted ss slot os h, All-declares_sidecar ss (keys slot.sidecars) n h)

keep_containers-accepted :
    (name : String) (declared : List OperatorContainer) (cs : Dict String YanetContainerOverride)
    → override_containers name declared (keys (keep_containers declared cs)) ≡ ok tt
unfolding override_containers keep_containers
keep_containers-accepted name declared [] = refl
keep_containers-accepted name declared (c ∷ cs) =
    ground (arith, keep_containers-accepted name declared cs)

-- With distinct names the first operator of a name is the last.
absent-operator :
    (os : List OperatorSpec) (name : String)
    → contains (operator_names os) name ≡ false
    → declared_operator os name ≡ none
unfolding declared_operator
absent-operator [] name h = refl
absent-operator (o ∷ os) name h = ground (arith, absent-operator os name)

declared-first :
    (os : List OperatorSpec) (name : String)
    → Distinct (operator_names os)
    → declared_operator os name ≡ first_operator os name
unfolding declared_operator first_operator
declared-first [] name d = refl
declared-first (o ∷ os) name d = ground (arith, declared-first os name d.1, absent-operator os name)

found-first :
    (os : List OperatorSpec) (name : String)
    → contains (operator_names os) name ≡ true
    → (op : OperatorSpec) × (first_operator os name ≡ some op)
unfolding first_operator
found-first [] name h = cc
found-first (o ∷ os) name h = elim (Bool-cases (o.name == name)) [
  | inl here ↦ (o, ground (arith, here))
  | inr later ↦
      let (op, q) = found-first os name (ground (arith, later)) in (op, ground (arith, later, q))
]

one_operator-accepted :
    (declared : List OperatorSpec) (slots : Dict String BoxOperator) (name : String)
    (o : YanetComponentOverride)
    → Distinct (operator_names declared)
    → All (λ n. contains (operator_names declared) n ≡ true) (keys slots)
    → has name slots ≡ true
    → override_operator
        (declared_operator declared name)
        slots
        name
        (effective_operator (first_operator declared name) o)
      ≡ ok tt
one_operator-accepted declared slots name o d h w =
    let (op, q) =
      found-first declared name (All-contains (operator_names declared) (keys slots) name h w) in
    rw (declared-first declared name d, q)
      (rw w (keep_containers-accepted name op.containers o.containers))

effective_operators-accepted :
    (declared : List OperatorSpec) (slots : Dict String BoxOperator)
    (os : Dict String YanetComponentOverride)
    → Distinct (operator_names declared)
    → All (λ n. contains (operator_names declared) n ≡ true) (keys slots)
    → override_operators declared slots (effective_operators declared slots os) ≡ ok tt
unfolding override_operators effective_operators
effective_operators-accepted declared slots [] d h = refl
effective_operators-accepted declared slots ((name, o) ∷ os) d h =
    elim (Bool-cases (has name slots)) [
      | inl w ↦ ground (
        arith,
        w,
        one_operator-accepted declared slots name o d h w,
        effective_operators-accepted declared slots os d h,
      )
      | inr w ↦ ground (arith, w, effective_operators-accepted declared slots os d h)
    ]

abbrev pub SidecarsWired : List SidecarSpec → Option BoxDataplane → Type 0
SidecarsWired declared none = Unit
SidecarsWired declared (some slot) =
    All (λ n. declares_sidecar declared n ≡ true) (keys slot.sidecars)

-- The names that the box wires are declared in the palette.
abbrev pub IsWired : ComponentsSpec → BoxType → Type 0
IsWired declared box =
    All (λ n. contains (operator_names declared.operators) n ≡ true) (keys box.operators)
    × SidecarsWired declared.dataplane.sidecars box.components.dataplane
    × (is_set box.components.bird_adapter ≡ true → is_set declared.bird_adapter ≡ true)

effective_dataplane-accepted :
    (declared : DataplaneSpec) (slot : Option BoxDataplane) (o : Option YanetDataplaneOverride)
    → SidecarsWired declared.sidecars slot
    → validate_dataplane_override (effective_dataplane slot o) declared slot ≡ ok tt
unfolding validate_dataplane_override
effective_dataplane-accepted declared none o h = refl
effective_dataplane-accepted declared (some slot) none h = refl
effective_dataplane-accepted declared (some slot) (some o) h =
    keep_sidecars-accepted declared.sidecars slot o.sidecars h

effective_bird_adapter-accepted :
    (declared : Option BirdAdapterComp) (slot : Option BoxComponent)
    (o : Option YanetComponentOverride)
    → (is_set slot ≡ true → is_set declared ≡ true)
    → validate_bird_adapter_override (if_wired slot o) declared slot ≡ ok tt
unfolding validate_bird_adapter_override
effective_bird_adapter-accepted declared none o h = refl
effective_bird_adapter-accepted declared (some slot) none h = refl
effective_bird_adapter-accepted declared (some slot) (some o) h = rw (h refl) refl

module _ (rules : NameRules) (parse : String → Option Quantity) where
  -- Well-shaped overrides pass the check of the reconciler whatever they refer to, if the palette's
  -- operators have distinct names and it declares what the box wires: overrides that the box no longer
  -- wires, or whose containers are gone, do not stand in the way.
  pub validate_effective_yanet_component_overrides-stale :
      (declared : ComponentsSpec) (box : BoxType) (o : YanetComponentsOverride)
      → Distinct (operator_names declared.operators)
      → IsWired declared box
      → validate_shape rules parse (some o) ≡ ok tt
      → validate_effective_yanet_component_overrides rules parse (some o) declared box ≡ ok tt
  unfolding validate_effective_yanet_component_overrides validate_yanet_component_overrides
      effective_overrides
  validate_effective_yanet_component_overrides-stale declared box o d w h =
      rw
        (
          effective_overrides-shape rules parse declared box o h,
          effective_dataplane-accepted declared.dataplane box.components.dataplane o.dataplane w.1,
          effective_bird_adapter-accepted declared.bird_adapter box.components.bird_adapter
              o.bird_adapter w.2,
        )
        (effective_operators-accepted declared.operators box.operators o.operators d w.0)
