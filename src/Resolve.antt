-- ===== src/Resolve.antt =====
-- The resolver (internal/helpers/resolve.go and ptr.go): palette, box wiring and installation
-- overrides give the rendering input of a component. A pointer argument that every caller passes
-- non-nil is a value. The short identity of a name, the first 8 hex digits of its SHA-256, is the
-- parameter `short_key` of what uses it.
pub mod Sidecars
pub mod Operators
pub mod Component
pub mod Enabled
use yanet_operator.Base.{
  Bool, true, Option, none, some, List, [], ◌∷◌, ◌++◌, String, ◌<>◌, ◌==◌, if◌then◌else◌, nat_eq,
  string_eq, int_eq, option_eq, Result, ok, err, ℤ,
}
use yanet_operator.Base.Dict.{lookup}
use yanet_operator.Api.Errors.{Error}
use yanet_operator.Api.Types.{
  ImageRef, ImagesSpec, ConfigSource, Hugepages, NetworkAttachment, BoxType, OperatorSpec,
  YanetConfigSpec, YanetContainerOverride, YanetComponentOverride, YanetControlplaneOverride,
  YanetDataplaneOverride, YanetComponentsOverride, YanetSpec,
}

-- `unknown` stands for any other text.
pub data ComponentKind : Type 0 where
  controlplane dataplane bird_adapter operator sidecar : ComponentKind
  unknown : String → ComponentKind

pub record ResolvedImage : Type 0 where
  pub registry : String
  pub prefix : String
  pub name : String
  pub tag : String

pub record ResolvedContainer : Type 0 where
  pub name : String
  pub image : ResolvedImage
  pub config : Option ConfigSource

-- ResolvedComponent over the type of its sidecars. A nil slice of listener names or networks is
-- `none`; the pointers to explicit overrides are Options.
pub record Resolved (S : Type 0) : Type 0 where
  pub kind : ComponentKind
  pub name : String
  pub enabled : Bool
  pub image : ResolvedImage
  pub config : Option ConfigSource
  pub hugepages : Option Hugepages
  pub numa : ℤ
  pub disabled_numa : List ℤ
  pub networks : Option (List NetworkAttachment)
  pub network_resources : List String
  pub containers : List ResolvedContainer
  pub sidecars : List S
  pub listener_names : Option (List String)
  pub port_index : ℤ
  pub patches : List String
  pub overrides : Option YanetComponentOverride
  pub sidecar_override : Option YanetContainerOverride

-- A sidecar has no sidecars of its own.
abbrev pub ResolvedSidecar : Type 0
ResolvedSidecar = Resolved ⊥

abbrev pub ResolvedComponent : Type 0
ResolvedComponent = Resolved ResolvedSidecar

-- BoolValue and Int32Value.
abbrev pub bool_value : Option Bool → Bool → Bool
bool_value none def = def
bool_value (some b) def = b

abbrev pub int32_value : Option ℤ → ℤ → ℤ
int32_value none def = def
int32_value (some n) def = n

unfoldable pub find_box_in : List BoxType → String → Result Error BoxType
find_box_in [] name = err (Error.box_type_not_found name)
find_box_in (b ∷ bs) name = if b.name == name then ok b else find_box_in bs name

unfoldable pub find_box_type : YanetConfigSpec → String → Result Error BoxType
unfolding find_box_in
find_box_type config name = find_box_in config.box_types name

unfoldable pub find_operator_in : List OperatorSpec → String → Result Error OperatorSpec
find_operator_in [] name = err (Error.operator_undeclared name)
find_operator_in (o ∷ os) name = if o.name == name then ok o else find_operator_in os name

unfoldable pub find_operator : YanetConfigSpec → String → Result Error OperatorSpec
unfolding find_operator_in
find_operator config name = find_operator_in config.components.operators name

-- `if base != "" { result = base }`
abbrev pub text_or : String → String → String
text_or s def = if s == "" then def else s

abbrev pub value_or : Option String → String → String
value_or none def = def
value_or (some s) def = s

abbrev override_name : Option YanetContainerOverride → String → String
override_name none def = def
override_name (some o) def = text_or o.name def

abbrev override_tag : Option YanetContainerOverride → String → String
override_tag none def = def
override_tag (some o) def = text_or o.tag def

unfoldable pub merge_image : ImagesSpec → ImageRef → Option YanetContainerOverride → ResolvedImage
merge_image images base override = record {
  registry = value_or base.registry images.registry;
  prefix = value_or base.prefix images.prefix;
  name = override_name override base.name;
  tag = override_tag override (text_or base.tag images.tag);
}

-- ResolvedImage.FullPath
unfoldable pub full_path : ResolvedImage → String
full_path i =
    let path = if i.prefix == "" then i.name else i.prefix <> ("/" <> i.name) in
    let path' = if i.registry == "" then path else i.registry <> ("/" <> path) in
    if i.tag == "" then path' else path' <> (":" <> i.tag)

abbrev pub listeners_named : String → List String → List String
listeners_named protocol [] = []
listeners_named protocol (l ∷ ls) =
    let rest = listeners_named protocol ls in if l == protocol then l ∷ rest else rest

unfoldable pub resolve_listeners : Option (List String) → Option (List String)
resolve_listeners none = none
resolve_listeners (some ls) = some (listeners_named "grpc" ls ++ listeners_named "http" ls)

abbrev controlplane_override : Option YanetControlplaneOverride → Option YanetComponentOverride
controlplane_override none = none
controlplane_override (some o) = some o.component

abbrev dataplane_component_override : Option YanetDataplaneOverride → Option YanetComponentOverride
dataplane_component_override none = none
dataplane_component_override (some o) = some o.component

abbrev override_of :
    YanetComponentsOverride → ComponentKind → String → Option YanetComponentOverride
override_of c controlplane name = controlplane_override c.controlplane
override_of c dataplane name = dataplane_component_override c.dataplane
override_of c bird_adapter name = c.bird_adapter
override_of c operator name = lookup name c.operators
override_of c sidecar name = none
override_of c (unknown k) name = none

abbrev override_in :
    Option YanetComponentsOverride → ComponentKind → String → Option YanetComponentOverride
override_in none kind name = none
override_in (some c) kind name = override_of c kind name

unfoldable pub component_override :
    YanetSpec → ComponentKind → String → Option YanetComponentOverride
component_override yanet kind operator_name = override_in yanet.components kind operator_name

unfoldable pub resolve_enabled : Option YanetComponentOverride → Bool
resolve_enabled none = true
resolve_enabled (some o) = bool_value o.enabled true

unfoldable pub container_override :
    Option YanetComponentOverride → String → Option YanetContainerOverride
container_override none name = none
container_override (some o) name = lookup name o.containers

-- Yanet.spec.components.dataplane
abbrev pub dataplane_override : YanetSpec → Option YanetDataplaneOverride
dataplane_override yanet = elim yanet.components [ none ↦ none | some c ↦ c.dataplane ]

abbrev disabled_or : Option YanetControlplaneOverride → List ℤ → List ℤ
disabled_or none cluster_wide = cluster_wide
disabled_or (some o) cluster_wide = elim o.disabled_numa [ none ↦ cluster_wide | some ns ↦ ns ]

unfoldable pub resolve_disabled_numa : List ℤ → YanetSpec → List ℤ
resolve_disabled_numa cluster_wide yanet = elim yanet.components [
  | none ↦ cluster_wide
  | some c ↦ disabled_or c.controlplane cluster_wide
]
