-- ===== src/Api/Types.antt =====
-- api/v1alpha1/yanetconfig_types.go, yanet_types.go and config_source.go. A pointer is an Option,
-- a map a Dict, an int32 or int an integer in range. A slice is a list; where the code tells a nil
-- slice from an empty one it is an Option of a list.
use yanet_operator.Base.{String, Bool, Option, List, ℤ}
use yanet_operator.Base.Dict.{Dict}

pub record ImageRef : Type 0 where
  pub registry : Option String
  pub prefix : Option String
  pub name : String
  pub tag : String

pub record ImagesSpec : Type 0 where
  pub registry : String
  pub prefix : String
  pub tag : String
  pub pull_policy : String
  pub pull_secrets : List String

pub record ConfigSource : Type 0 where
  pub inline : String
  pub host_path : String
  pub mount_path : String
  pub args : List String

pub record Hugepages : Type 0 where
  pub size : String
  pub count : ℤ

pub record NetworkAttachment : Type 0 where
  pub name : String
  pub namespace : String
  pub interface : String
  pub resource_name : String

pub record ControlplaneSpec : Type 0 where
  pub image : ImageRef
  pub config : Option ConfigSource
  pub numa : Option ℤ
  pub disabled_numa : List ℤ

pub record SidecarSpec : Type 0 where
  pub name : String
  pub image : ImageRef
  pub config : Option ConfigSource
  pub listeners : Option (List String)

pub record DataplaneSpec : Type 0 where
  pub image : ImageRef
  pub config : Option ConfigSource
  pub hugepages : Option Hugepages
  pub networks : Option (List NetworkAttachment)
  pub sidecars : List SidecarSpec

pub record BirdAdapterComp : Type 0 where
  pub image : ImageRef
  pub config : Option ConfigSource

pub record OperatorContainer : Type 0 where
  pub name : String
  pub image : ImageRef
  pub config : Option ConfigSource

pub record OperatorSpec : Type 0 where
  pub name : String
  pub containers : List OperatorContainer
  pub listeners : Option (List String)

pub record ComponentsSpec : Type 0 where
  pub controlplane : ControlplaneSpec
  pub dataplane : DataplaneSpec
  pub bird_adapter : Option BirdAdapterComp
  pub operators : List OperatorSpec

-- The patch is its raw JSON text.
pub record NamedPatch : Type 0 where
  pub name : String
  pub patch : String

pub record BoxComponent : Type 0 where
  pub patches : List String

pub record BoxDataplaneSidecar : Type 0 where
  pub enabled : Option Bool
  pub patches : List String

pub record BoxDataplane : Type 0 where
  pub patches : List String
  pub sidecars : Dict String BoxDataplaneSidecar

pub record BoxOperator : Type 0 where
  pub patches : List String

pub record BoxComponents : Type 0 where
  pub controlplane : Option BoxComponent
  pub dataplane : Option BoxDataplane
  pub bird_adapter : Option BoxComponent

pub record BoxType : Type 0 where
  pub name : String
  pub components : BoxComponents
  pub operators : Dict String BoxOperator

pub record YanetConfigSpec : Type 0 where
  pub stop : Bool
  pub update_window : ℤ
  pub images : ImagesSpec
  pub components : ComponentsSpec
  pub patches : List NamedPatch
  pub box_types : List BoxType

pub record YanetContainerOverride : Type 0 where
  pub enabled : Option Bool
  pub name : String
  pub tag : String

pub record YanetComponentOverride : Type 0 where
  pub enabled : Option Bool
  pub containers : Dict String YanetContainerOverride

pub record YanetControlplaneOverride : Type 0 where
  pub component : YanetComponentOverride
  pub disabled_numa : Option (List ℤ)

pub record YanetDataplaneOverride : Type 0 where
  pub component : YanetComponentOverride
  pub hugepages : Option Hugepages
  pub networks : Option (List NetworkAttachment)
  pub sidecars : Dict String YanetContainerOverride

pub record YanetComponentsOverride : Type 0 where
  pub controlplane : Option YanetControlplaneOverride
  pub dataplane : Option YanetDataplaneOverride
  pub bird_adapter : Option YanetComponentOverride
  pub operators : Dict String YanetComponentOverride

pub record YanetSpec : Type 0 where
  pub box_type : String
  pub node_selector : Dict String String
  pub enabled : Option Bool
  pub auto_sync : Option Bool
  pub components : Option YanetComponentsOverride
