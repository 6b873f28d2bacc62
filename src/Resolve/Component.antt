-- ===== src/Resolve/Component.antt =====
-- ResolveBoxComponent and EnabledComponentsForBox, with what they call (internal/helpers/resolve.go).

use yanet_operator.Base.{
  not, Option, none, some, List, [], ◌∷◌, String, ◌==◌, contains, if◌then◌else◌, nat_eq, string_eq,
  int_eq, option_eq, Result, ok, err, ◌>>=◌, ◌>>◌, pos,
}
use yanet_operator.Base.Dict.{has}
use yanet_operator.Base.Text.{sort_strings}
use yanet_operator.Api.Errors.{Error}
use yanet_operator.Api.Names.{NameRules}
use yanet_operator.Api.Numa.{validate_controlplane_numa, check_numa}
use yanet_operator.Api.Networks.{validate_network_attachments}
use yanet_operator.Api.Types.{
  NetworkAttachment, BoxType, BoxComponent, BoxDataplane, BirdAdapterComp, Hugepages,
  YanetConfigSpec, YanetDataplaneOverride, YanetSpec,
}
use yanet_operator.Resolve.{
  ComponentKind, controlplane, dataplane, bird_adapter, operator, sidecar, unknown, ResolvedSidecar,
  ResolvedComponent, int32_value, find_box_type, merge_image, component_override, resolve_enabled,
  container_override, dataplane_override, resolve_disabled_numa,
}
use yanet_operator.Resolve.Sidecars.{resolve_dataplane_sidecars}
use yanet_operator.Resolve.Operators.{blank, resolve_operator}

-- A sidecar as a component.
abbrev pub from_sidecar : ResolvedSidecar → ResolvedComponent
from_sidecar s = record {
  kind = s.kind;
  name = s.name;
  enabled = s.enabled;
  image = s.image;
  config = s.config;
  hugepages = s.hugepages;
  numa = s.numa;
  disabled_numa = s.disabled_numa;
  networks = s.networks;
  network_resources = s.network_resources;
  containers = s.containers;
  sidecars = [];
  listener_names = s.listener_names;
  port_index = s.port_index;
  patches = s.patches;
  overrides = s.overrides;
  sidecar_override = s.sidecar_override;
}

-- The items of a slice, which is empty if it is nil.
abbrev pub items : Option (List NetworkAttachment) → List NetworkAttachment
items none = []
items (some ns) = ns

abbrev networks_or :
    Option YanetDataplaneOverride
    → Option (List NetworkAttachment)
    → Option (List NetworkAttachment)
networks_or none defaults = defaults
networks_or (some o) defaults = elim o.networks [ none ↦ defaults | some ns ↦ some ns ]

abbrev hugepages_or : Option YanetDataplaneOverride → Option Hugepages → Option Hugepages
hugepages_or none def = def
hugepages_or (some o) def = elim o.hugepages [ none ↦ def | some h ↦ some h ]

-- The set of resource names, as a list without repetition.
unfoldable pub resource_set : List String → List NetworkAttachment → List String
resource_set seen [] = seen
resource_set seen (n ∷ ns) =
    resource_set (if contains seen n.resource_name then seen else n.resource_name ∷ seen) ns

module _ (rules : NameRules) where
  unfoldable pub resolve_dataplane_networks :
      Option (List NetworkAttachment)
      → YanetSpec
      → Result Error (Option (List NetworkAttachment) × List String)
  unfolding resource_set sort_strings validate_network_attachments
  resolve_dataplane_networks defaults yanet =
      let selected = networks_or (dataplane_override yanet) defaults in
      validate_network_attachments rules (items defaults)
      >> (validate_network_attachments rules (items selected)
          >> ok (
            selected,
            sort_strings (resource_set (resource_set [] (items defaults)) (items selected)),
          ))

unfoldable pub find_sidecar :
    List ResolvedSidecar → String → Result Error (Option ResolvedComponent)
find_sidecar [] name = err (Error.sidecar_undeclared name)
find_sidecar (s ∷ ss) name =
    if s.name == name then ok (some (from_sidecar s)) else find_sidecar ss name

abbrev resolve_controlplane :
    YanetConfigSpec → YanetSpec → Option BoxComponent → Result Error (Option ResolvedComponent)
resolve_controlplane config yanet none = ok none
resolve_controlplane config yanet (some slot) =
    let cp = config.components.controlplane in
    let override = component_override yanet controlplane "" in
    check_numa cp.numa
    >> ok (
        some
          (record (blank controlplane "controlplane"
            (merge_image config.images cp.image (container_override override "controlplane"))) {
              enabled = resolve_enabled override;
              config = cp.config;
              numa = int32_value cp.numa (pos 0);
              disabled_numa = resolve_disabled_numa cp.disabled_numa yanet;
              patches = slot.patches;
              overrides = override;
            }))

abbrev resolve_bird_adapter :
    YanetConfigSpec
    → YanetSpec
    → Option BoxComponent
    → Option BirdAdapterComp
    → Result Error (Option ResolvedComponent)
resolve_bird_adapter config yanet none adapter = ok none
resolve_bird_adapter config yanet (some slot) none = err Error.bird_adapter_undefined
resolve_bird_adapter config yanet (some slot) (some adapter) =
    let override = component_override yanet bird_adapter "" in
    ok (
      some
        (record (blank bird_adapter "birdAdapter"
          (merge_image config.images adapter.image (container_override override "bird-adapter"))) {
            enabled = resolve_enabled override;
            config = adapter.config;
            patches = slot.patches;
            overrides = override;
          }))

module _ (rules : NameRules) (short_key : String → String) where
  abbrev resolve_dataplane :
      YanetConfigSpec → YanetSpec → Option BoxDataplane → Result Error (Option ResolvedComponent)
  resolve_dataplane config yanet none = ok none
  resolve_dataplane config yanet (some slot) =
      let dp = config.components.dataplane in
      let override = component_override yanet dataplane "" in
      resolve_dataplane_sidecars short_key config yanet slot >>= λ sidecars.
      resolve_dataplane_networks rules dp.networks yanet >>= λ found. ok (
        some
          (record (blank dataplane "dataplane"
            (merge_image config.images dp.image (container_override override "dataplane"))) {
              enabled = resolve_enabled override;
              config = dp.config;
              hugepages = hugepages_or (dataplane_override yanet) dp.hugepages;
              sidecars = sidecars;
              patches = slot.patches;
              networks = found.0;
              network_resources = found.1;
              overrides = override;
            }))

  abbrev resolve_wired_sidecar :
      YanetConfigSpec
      → YanetSpec
      → String
      → Option BoxDataplane
      → Result Error (Option ResolvedComponent)
  resolve_wired_sidecar config yanet name none = ok none
  resolve_wired_sidecar config yanet name (some slot) =
      if not (has name slot.sidecars)
      then ok none
      else resolve_dataplane_sidecars short_key config yanet slot >>= λ sidecars.
          find_sidecar sidecars name

  -- The switch over the kind, in the selected box.
  unfoldable pub resolve_in_box :
      YanetConfigSpec
      → YanetSpec
      → BoxType
      → ComponentKind
      → String
      → Result Error (Option ResolvedComponent)
  unfolding resolve_operator find_sidecar component_override container_override resolve_enabled
      merge_image resolve_disabled_numa resolve_dataplane_networks resolve_dataplane_sidecars
      validate_controlplane_numa
  resolve_in_box config yanet box controlplane name =
      resolve_controlplane config yanet box.components.controlplane
  resolve_in_box config yanet box dataplane name =
      resolve_dataplane config yanet box.components.dataplane
  resolve_in_box config yanet box sidecar name =
      resolve_wired_sidecar config yanet name box.components.dataplane
  resolve_in_box config yanet box bird_adapter name =
      resolve_bird_adapter config yanet box.components.bird_adapter config.components.bird_adapter
  resolve_in_box config yanet box operator name = resolve_operator config yanet box name
  resolve_in_box config yanet box (unknown kind) name = err (Error.unknown_kind kind)

  unfoldable pub resolve_box_component :
      YanetConfigSpec → YanetSpec → ComponentKind → String → Result Error (Option ResolvedComponent)
  unfolding find_box_type resolve_in_box
  resolve_box_component config yanet kind operator_name =
      find_box_type config yanet.box_type >>= λ box.
      resolve_in_box config yanet box kind operator_name

-- The installation of a box type alone, with every other field at its zero value.
abbrev pub bare_yanet : String → YanetSpec
bare_yanet box_name = record {
  box_type = box_name;
  node_selector = [];
  enabled = none;
  auto_sync = none;
  components = none;
}

unfoldable pub resolve_box_service_component :
    NameRules
    → (String → String)
    → YanetConfigSpec
    → String
    → ComponentKind
    → String
    → Result Error (Option ResolvedComponent)
unfolding resolve_box_component
resolve_box_service_component rules short_key config box_name kind operator_name =
    resolve_box_component rules short_key config (bare_yanet box_name) kind operator_name
