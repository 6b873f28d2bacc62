-- ===== src/Resolve/Operators.antt =====
-- The operators that a box wires (resolveOperator in internal/helpers/resolve.go), and a component
-- with its other fields at their zero values.

use yanet_operator.Base.{
  false, Option, none, some, List, [], ◌∷◌, String, nat_eq, string_eq, int_eq, option_eq, Result,
  ok, err, ◌>>=◌, ◌>>◌, fail_if, pos, is_empty,
}
use yanet_operator.Base.Dict.{lookup}
use yanet_operator.Api.Errors.{Error}
use yanet_operator.Api.Listeners.{validate_listeners}
use yanet_operator.Api.Types.{
  ImagesSpec, OperatorSpec, OperatorContainer, BoxType, BoxOperator, YanetConfigSpec,
  YanetComponentOverride, YanetSpec,
}
use yanet_operator.Resolve.{
  ComponentKind, operator, ResolvedContainer, ResolvedComponent, ResolvedImage, find_operator,
  merge_image, resolve_listeners, component_override, resolve_enabled, container_override,
}

-- A component with every other field at its zero value.
abbrev pub blank : ComponentKind → String → ResolvedImage → ResolvedComponent
blank kind name image = record {
  kind = kind;
  name = name;
  enabled = false;
  image = image;
  config = none;
  hugepages = none;
  numa = pos 0;
  disabled_numa = [];
  networks = none;
  network_resources = [];
  containers = [];
  sidecars = [];
  listener_names = none;
  port_index = pos 0;
  patches = [];
  overrides = none;
  sidecar_override = none;
}

unfoldable pub resolve_containers :
    ImagesSpec → Option YanetComponentOverride → List OperatorContainer → List ResolvedContainer
unfolding merge_image container_override
resolve_containers images override [] = []
resolve_containers images override (c ∷ cs) =
    record {
      name = c.name;
      image = merge_image images c.image (container_override override c.name);
      config = c.config;
    }
    ∷ resolve_containers images override cs

-- The component of a wired operator, from its resolved containers.
abbrev operator_component :
    String
    → OperatorSpec
    → BoxOperator
    → Option YanetComponentOverride
    → List ResolvedContainer
    → Result Error (Option ResolvedComponent)
operator_component name o slot override [] = err (Error.operator_without_containers name)
operator_component name o slot override (c ∷ cs) = ok (
    some (record (blank operator name c.image) {
      enabled = resolve_enabled override;
      containers = c ∷ cs;
      patches = slot.patches;
      listener_names = resolve_listeners o.listeners;
      overrides = override;
    }))

abbrev wired_operator :
    YanetConfigSpec
    → YanetSpec
    → String
    → Option BoxOperator
    → Result Error (Option ResolvedComponent)
wired_operator config yanet name none = ok none
wired_operator config yanet name (some slot) = find_operator config name >>= λ o.
    fail_if (is_empty o.containers) (Error.operator_without_containers name)
    >> (validate_listeners name o.listeners
        >> (let override = component_override yanet operator name in
            operator_component name o slot override
              (resolve_containers config.images override o.containers)))

unfoldable pub resolve_operator :
    YanetConfigSpec → YanetSpec → BoxType → String → Result Error (Option ResolvedComponent)
unfolding find_operator validate_listeners resolve_containers resolve_enabled resolve_listeners
    component_override
resolve_operator config yanet box name =
    wired_operator config yanet name (lookup name box.operators)
