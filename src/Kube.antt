-- ===== src/Kube.antt =====
-- The fields of Kubernetes objects that the operator reads or writes (k8s.io/api and
-- k8s.io/apimachinery), as records.
use yanet_operator.Base.{ℤ, ℕ, Bool, Option, List, String}
use yanet_operator.Base.Dict.{Dict}

pub record OwnerReference : Type 0 where
  pub api_version : String
  pub kind : String
  pub name : String
  pub uid : String

-- `controller` is what metav1.GetControllerOf gives; `deleting` tells that the deletion time is set.
pub record ObjectMeta : Type 0 where
  pub name : String
  pub namespace : String
  pub uid : String
  pub resource_version : String
  pub generation : ℕ
  pub labels : Dict String String
  pub annotations : Dict String String
  pub controller : Option OwnerReference
  pub finalizers : List String
  pub deleting : Bool

pub record Node : Type 0 where
  pub name : String
  pub labels : Dict String String

-- A volume by the ConfigMaps that it names: its own, and those of its projected sources.
pub record Volume : Type 0 where
  pub config_map : Option String
  pub projected : Option (List (Option String))

-- A container by the ConfigMaps that its environment names.
pub record EnvContainer : Type 0 where
  pub env_from : List (Option String)
  pub env : List (Option String)

pub record PodSpec : Type 0 where
  pub volumes : List Volume
  pub containers : List EnvContainer
  pub init_containers : List EnvContainer

-- A Deployment: spec.replicas is a pointer, `pod` is its template's spec, and the last three are
-- of its status.
pub record Deployment : Type 0 where
  pub meta : ObjectMeta
  pub replicas : Option ℤ
  pub pod : PodSpec
  pub observed_generation : ℕ
  pub updated_replicas : ℤ
  pub status_replicas : ℤ
