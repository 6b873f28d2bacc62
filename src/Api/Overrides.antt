-- ===== src/Api/Overrides.antt =====
-- The checks of an installation's overrides (api/v1alpha1/yanet_webhook.go). A palette or a box that
-- is nil does not reach them.
pub mod Shape
pub mod Effective
use yanet_operator.Base.{
  Bool, true, false, not, ◌||◌, Option, none, some, List, [], ◌∷◌, String, ◌==◌, if◌then◌else◌,
  nat_eq, string_eq, int_eq, option_eq, ok, err, ◌>>=◌, ◌>>◌, fail_if, ℤ,
}
use yanet_operator.Base.Dict.{Dict, keys, has}
use yanet_operator.Api.Errors.{Check, Error}
use yanet_operator.Api.Names.{NameRules}
use yanet_operator.Api.Numa.{validate_override_disabled_numa}
use yanet_operator.Api.Networks.{validate_network_attachments}
use yanet_operator.Api.Hugepages.{Quantity, validate_hugepages}
use yanet_operator.Api.Types.{
  OperatorContainer, OperatorSpec, SidecarSpec, DataplaneSpec, ComponentsSpec, BirdAdapterComp,
  BoxComponent, BoxDataplane, BoxOperator, BoxType, YanetContainerOverride, YanetComponentOverride,
  YanetControlplaneOverride, YanetDataplaneOverride, YanetComponentsOverride, NetworkAttachment,
}

abbrev pub is_set {ℓ} : {A : Type ℓ} → Option A → Bool
is_set none = false
is_set (some a) = true

-- The loop over the container keys of a fixed workload.
unfoldable pub hardcoded_loop : String → Dict String YanetContainerOverride → Check
hardcoded_loop container_name [] = ok tt
hardcoded_loop container_name ((k, c) ∷ cs) =
    fail_if (not (k == container_name)) (Error.container_key_refused k)
    >> (fail_if (is_set c.enabled) (Error.container_enabled_refused k)
        >> hardcoded_loop container_name cs)

unfoldable pub validate_hardcoded_container_keys : String → Option YanetComponentOverride → Check
unfolding hardcoded_loop
validate_hardcoded_container_keys container_name none = ok tt
validate_hardcoded_container_keys container_name (some o) =
    hardcoded_loop container_name o.containers

unfoldable pub operator_containers_shape : Dict String YanetContainerOverride → Check
operator_containers_shape [] = ok tt
operator_containers_shape ((k, c) ∷ cs) =
    fail_if (is_set c.enabled) (Error.container_enabled_refused k) >> operator_containers_shape cs

unfoldable pub operators_shape : Dict String YanetComponentOverride → Check
unfolding operator_containers_shape
operators_shape [] = ok tt
operators_shape ((name, o) ∷ os) = operator_containers_shape o.containers >> operators_shape os

abbrev pub attachments : Option (List NetworkAttachment) → List NetworkAttachment
attachments none = []
attachments (some ns) = ns

module _ (rules : NameRules) (parse_quantity : String → Option Quantity) where
  unfoldable pub sidecar_names_shape : List String → Check
  sidecar_names_shape [] = ok tt
  sidecar_names_shape (n ∷ ns) =
      fail_if (not (rules.is_dns1123_label n)) (Error.name_invalid n) >> sidecar_names_shape ns

  unfoldable pub validate_dataplane_override_shape : Option YanetDataplaneOverride → Check
  unfolding validate_hardcoded_container_keys validate_network_attachments validate_hugepages
      sidecar_names_shape
  validate_dataplane_override_shape none = ok tt
  validate_dataplane_override_shape (some o) =
      validate_hardcoded_container_keys "dataplane" (some o.component)
      >> (validate_network_attachments rules (attachments o.networks)
          >> (validate_hugepages parse_quantity o.hugepages
              >> sidecar_names_shape (keys o.sidecars)))

  unfoldable pub controlplane_shape : Option YanetControlplaneOverride → Check
  unfolding validate_hardcoded_container_keys validate_override_disabled_numa
  controlplane_shape none = ok tt
  controlplane_shape (some o) =
      validate_hardcoded_container_keys "controlplane" (some o.component)
      >> validate_override_disabled_numa (attachments_or_none o.disabled_numa)
    where
      attachments_or_none : Option (List ℤ) → List ℤ
      attachments_or_none none = []
      attachments_or_none (some ns) = ns

  unfoldable pub validate_shape : Option YanetComponentsOverride → Check
  unfolding controlplane_shape validate_dataplane_override_shape validate_hardcoded_container_keys
      operators_shape
  validate_shape none = ok tt
  validate_shape (some o) =
      controlplane_shape o.controlplane
      >> (validate_dataplane_override_shape o.dataplane
          >> (validate_hardcoded_container_keys "bird-adapter" o.bird_adapter
              >> operators_shape o.operators))

abbrev pub declares_sidecar : List SidecarSpec → String → Bool
declares_sidecar [] n = false
declares_sidecar (s ∷ ss) n = s.name == n || declares_sidecar ss n

abbrev pub wires : Option BoxDataplane → String → Bool
wires none n = false
wires (some slot) n = has n slot.sidecars

unfoldable pub override_sidecars : List SidecarSpec → Option BoxDataplane → List String → Check
override_sidecars declared box [] = ok tt
override_sidecars declared box (n ∷ ns) =
    fail_if (not (declares_sidecar declared n)) (Error.sidecar_undeclared n)
    >> (fail_if (not (wires box n)) (Error.sidecar_not_wired n)
        >> override_sidecars declared box ns)

unfoldable pub validate_dataplane_override :
    Option YanetDataplaneOverride → DataplaneSpec → Option BoxDataplane → Check
unfolding override_sidecars
validate_dataplane_override none declared box = ok tt
validate_dataplane_override (some o) declared box =
    override_sidecars declared.sidecars box (keys o.sidecars)

unfoldable pub validate_bird_adapter_override :
    Option YanetComponentOverride → Option BirdAdapterComp → Option BoxComponent → Check
validate_bird_adapter_override none declared slot = ok tt
validate_bird_adapter_override (some o) declared slot =
    fail_if (not (is_set declared)) Error.bird_adapter_undefined
    >> fail_if (not (is_set slot)) Error.bird_adapter_not_wired

-- The map of the declared operators: the last of a name stays.
unfoldable pub declared_operator : List OperatorSpec → String → Option OperatorSpec
declared_operator [] name = none
declared_operator (o ∷ os) name =
    let rest = declared_operator os name in
    elim rest [ some found ↦ some found | none ↦ if o.name == name then some o else none ]

abbrev pub declares_container : List OperatorContainer → String → Bool
declares_container [] n = false
declares_container (c ∷ cs) n = c.name == n || declares_container cs n

unfoldable pub override_containers : String → List OperatorContainer → List String → Check
override_containers operator declared [] = ok tt
override_containers operator declared (n ∷ ns) =
    fail_if (not (declares_container declared n)) (Error.container_undeclared operator n)
    >> override_containers operator declared ns

abbrev pub override_operator :
    Option OperatorSpec → Dict String BoxOperator → String → YanetComponentOverride → Check
override_operator none slots name o = err (Error.operator_undeclared name)
override_operator (some op) slots name o =
    fail_if (not (has name slots)) (Error.operator_not_wired name)
    >> override_containers name op.containers (keys o.containers)

unfoldable pub override_operators :
    List OperatorSpec → Dict String BoxOperator → Dict String YanetComponentOverride → Check
unfolding declared_operator override_containers
override_operators declared slots [] = ok tt
override_operators declared slots ((name, o) ∷ os) =
    override_operator (declared_operator declared name) slots name o
    >> override_operators declared slots os

module _ (rules : NameRules) (parse_quantity : String → Option Quantity) where
  abbrev pub validate_references : Option YanetComponentsOverride → ComponentsSpec → BoxType → Check
  validate_references none declared box = ok tt
  validate_references (some o) declared box =
      validate_dataplane_override o.dataplane declared.dataplane box.components.dataplane
      >> (validate_bird_adapter_override o.bird_adapter declared.bird_adapter
            box.components.bird_adapter
          >> override_operators declared.operators box.operators o.operators)

  unfoldable pub validate_yanet_component_overrides :
      Option YanetComponentsOverride → ComponentsSpec → BoxType → Check
  unfolding validate_shape validate_dataplane_override validate_bird_adapter_override
      override_operators
  validate_yanet_component_overrides overrides declared box =
      validate_shape rules parse_quantity overrides >> validate_references overrides declared box

-- The overrides that matter to a box: those of what it does not wire, and those of containers that
-- the palette does not declare, are dropped.
unfoldable pub keep_sidecars :
    BoxDataplane → Dict String YanetContainerOverride → Dict String YanetContainerOverride
keep_sidecars slot [] = []
keep_sidecars slot ((n, o) ∷ os) =
    let rest = keep_sidecars slot os in if has n slot.sidecars then (n, o) ∷ rest else rest

abbrev pub effective_dataplane :
    Option BoxDataplane → Option YanetDataplaneOverride → Option YanetDataplaneOverride
effective_dataplane none o = none
effective_dataplane (some slot) none = none
effective_dataplane (some slot) (some o) =
    some (record o { sidecars = keep_sidecars slot o.sidecars })

abbrev pub if_wired {ℓ κ} : {A : Type ℓ} {B : Type κ} → Option B → Option A → Option A
if_wired none o = none
if_wired (some slot) o = o

unfoldable pub keep_containers :
    List OperatorContainer → Dict String YanetContainerOverride → Dict String YanetContainerOverride
keep_containers declared [] = []
keep_containers declared ((n, o) ∷ os) =
    let rest = keep_containers declared os in
    if declares_container declared n then (n, o) ∷ rest else rest

unfoldable pub first_operator : List OperatorSpec → String → Option OperatorSpec
first_operator [] name = none
first_operator (o ∷ os) name = if o.name == name then some o else first_operator os name

abbrev pub effective_operator :
    Option OperatorSpec → YanetComponentOverride → YanetComponentOverride
effective_operator none o = o
effective_operator (some op) o = record o {
  containers = keep_containers op.containers o.containers;
}

unfoldable pub effective_operators :
    List OperatorSpec
    → Dict String BoxOperator
    → Dict String YanetComponentOverride
    → Dict String YanetComponentOverride
unfolding first_operator keep_containers
effective_operators declared slots [] = []
effective_operators declared slots ((name, o) ∷ os) =
    let rest = effective_operators declared slots os in
    if has name slots
    then (name, effective_operator (first_operator declared name) o) ∷ rest
    else rest

unfoldable pub effective_overrides :
    ComponentsSpec → BoxType → YanetComponentsOverride → YanetComponentsOverride
unfolding keep_sidecars effective_operators
effective_overrides declared box o = record {
  controlplane = if_wired box.components.controlplane o.controlplane;
  dataplane = effective_dataplane box.components.dataplane o.dataplane;
  bird_adapter = if_wired box.components.bird_adapter o.bird_adapter;
  operators = effective_operators declared.operators box.operators o.operators;
}

unfoldable pub validate_effective_yanet_component_overrides :
    NameRules
    → (String → Option Quantity)
    → Option YanetComponentsOverride
    → ComponentsSpec
    → BoxType
    → Check
unfolding validate_yanet_component_overrides effective_overrides
validate_effective_yanet_component_overrides rules parse_quantity none declared box = ok tt
validate_effective_yanet_component_overrides rules parse_quantity (some o) declared box =
    validate_yanet_component_overrides rules parse_quantity
      (some (effective_overrides declared box o)) declared box
