-- ===== src/Manifests/Identity.antt =====
-- What patches may not change of a rendered Deployment (internal/manifests/labels.go):
-- CaptureWorkloadIdentity, RestoreWorkloadIdentity and ValidatePodContainerNames. A nil map of
-- labels is the empty one, and no Deployment is nil. A range over a set of keys is over the list of
-- its elements.
pub mod Labels
pub mod Slots
use yanet_operator.Base.{
  Bool, true, false, ◌||◌, ◌&&◌, Option, none, some, List, [], ◌∷◌, ◌++◌, String, starts_with, ◌==◌,
  contains, if◌then◌else◌, nat_eq, string_eq, int_eq, option_eq, Result, ok, err, ◌>>=◌, ◌>>◌,
  fail_if,
}
use yanet_operator.Base.Dict.{Dict, keys, lookup, insert, erase, put_all}
use yanet_operator.Kube.{OwnerReference}
use yanet_operator.Manifests.Workload.{
  Workload, PodContainer, LabelSelector, Strategy, label_yanet, label_box_type, label_component,
  label_numa, label_node, operator_container_prefix, operator_membership_prefix,
}

pub record WorkloadIdentity : Type 0 where
  pub name : String
  pub namespace : String
  pub owners : List OwnerReference
  pub labels : Dict String String
  pub selector : Option LabelSelector
  pub pod_labels : Dict String String
  pub node_name : String
  pub node_selector : Dict String String
  pub strategy : Strategy
  pub manage_native_sidecars : Bool
  pub native_sidecars : List PodContainer

abbrev pub workload_identity_labels : List String
workload_identity_labels =
    label_yanet ∷ label_box_type ∷ label_component ∷ label_numa ∷ label_node ∷ "app" ∷ []

-- The test of reservedLabels.
unfoldable pub is_reserved : String → Bool
is_reserved key =
    contains workload_identity_labels key || starts_with operator_membership_prefix key

unfoldable pub reserved_labels : Dict String String → Dict String String
reserved_labels [] = []
reserved_labels ((key, value) ∷ labels) =
    let rest = reserved_labels labels in if is_reserved key then (key, value) ∷ rest else rest

unfoldable pub is_managed_native_container : String → Bool
is_managed_native_container name = starts_with operator_container_prefix name

abbrev pub managed_containers : List PodContainer → List PodContainer
managed_containers [] = []
managed_containers (c ∷ cs) =
    let rest = managed_containers cs in
    if is_managed_native_container c.name then c ∷ rest else rest

unfoldable pub capture_workload_identity : Workload → WorkloadIdentity
unfolding reserved_labels
capture_workload_identity d =
    let pod_labels = reserved_labels d.pod_labels in
    let managed = lookup label_component pod_labels == some "dataplane" in
    record {
      name = d.name;
      namespace = d.namespace;
      owners = d.owners;
      labels = reserved_labels d.labels;
      selector = d.selector;
      pod_labels = pod_labels;
      node_name = d.pod.node_name;
      node_selector = d.pod.node_selector;
      strategy = d.strategy;
      manage_native_sidecars = managed;
      native_sidecars = if managed then managed_containers d.pod.init_containers else [];
    }

-- The first two loops of mergeIdentityLabels: over the reserved keys, and over the map's own keys.
abbrev pub erase_all : List String → Dict String String → Dict String String
erase_all [] labels = labels
erase_all (key ∷ ks) labels = erase_all ks (erase key labels)

abbrev pub erase_memberships : List String → Dict String String → Dict String String
erase_memberships [] labels = labels
erase_memberships (key ∷ ks) labels =
    erase_memberships ks
      (if starts_with operator_membership_prefix key then erase key labels else labels)

unfoldable pub merge_identity_labels : Dict String String → Dict String String → Dict String String
unfolding erase put_all
merge_identity_labels labels identity =
    let kept = erase_all workload_identity_labels labels in
    put_all identity (erase_memberships (keys kept) kept)

abbrev pub pod_container_names : List PodContainer → List String
pod_container_names [] = []
pod_container_names (c ∷ cs) = c.name ∷ pod_container_names cs

-- The first loop of restoreNativeSidecars: the managed containers of the patched pod by their
-- names, and the index of the last one.
unfoldable pub patched_managed :
    List String → List PodContainer → Dict String PodContainer → Dict String PodContainer
unfolding insert
patched_managed managed [] patched = patched
patched_managed managed (c ∷ cs) patched =
    patched_managed managed cs
      (if contains managed c.name then insert c.name c patched else patched)

-- Some container of the rest is managed: the current one is not the last of them.
unfoldable pub more_managed : List String → List PodContainer → Bool
more_managed managed [] = false
more_managed managed (c ∷ cs) = contains managed c.name || more_managed managed cs

abbrev pub container_or : Option PodContainer → PodContainer → PodContainer
container_or none baseline = baseline
container_or (some c) baseline = c

unfoldable pub restored_expected : Dict String PodContainer → List PodContainer → List PodContainer
restored_expected patched [] = []
restored_expected patched (baseline ∷ bs) =
    record (container_or (lookup baseline.name patched) baseline) {
      restart_policy = baseline.restart_policy;
    }
    ∷ restored_expected patched bs

-- One of the expected containers still to be placed, in the place of a managed one, and all of them
-- in the last such place.
abbrev pub place_one : List PodContainer → List PodContainer × List PodContainer
place_one [] = ([], [])
place_one (c ∷ cs) = (c ∷ [], cs)

-- The last loop, with the expected containers that are still to be placed.
unfoldable pub restore_loop :
    List String → List PodContainer → List PodContainer → List PodContainer
unfolding more_managed
restore_loop managed next [] = []
restore_loop managed next (c ∷ cs) = elim (contains managed c.name) [
  | false ↦ c ∷ restore_loop managed next cs
  | true ↦ elim (more_managed managed cs) [
    | true ↦ (place_one next).0 ++ restore_loop managed (place_one next).1 cs
    | false ↦ next ++ restore_loop managed [] cs
  ]
]

unfoldable pub restore_native_sidecars : List PodContainer → List PodContainer → List PodContainer
unfolding patched_managed restored_expected restore_loop more_managed
restore_native_sidecars expected init_containers =
    let managed = pod_container_names expected in
    let restored = restored_expected (patched_managed managed init_containers []) expected in
    elim (more_managed managed init_containers) [
      | false ↦ restored ++ restore_loop managed [] init_containers
      | true ↦ restore_loop managed restored init_containers
    ]

unfoldable pub restore_workload_identity : Workload → WorkloadIdentity → Workload
unfolding merge_identity_labels restore_native_sidecars
restore_workload_identity d identity = record {
  name = identity.name;
  namespace = identity.namespace;
  owners = identity.owners;
  labels = merge_identity_labels d.labels identity.labels;
  selector = identity.selector;
  strategy = identity.strategy;
  pod_labels = merge_identity_labels d.pod_labels identity.pod_labels;
  pod = record d.pod {
    node_name = identity.node_name;
    node_selector = identity.node_selector;
    init_containers =
        if identity.manage_native_sidecars
        then restore_native_sidecars identity.native_sidecars d.pod.init_containers
        else d.pod.init_containers;
  };
}

pub data NameError : Type 0 where
  misplaced_sidecar : String → NameError
  used_twice : String → String → String → NameError

abbrev pub previous_kind : Option String → String → String → Result NameError (Unit {0})
previous_kind none name kind = ok tt
previous_kind (some previous) name kind = err (used_twice name previous kind)

-- The closure check, with its map of the names seen.
unfoldable pub check_names :
    Bool → String → List PodContainer → Dict String String → Result NameError (Dict String String)
unfolding insert
check_names is_dataplane kind [] seen = ok seen
check_names is_dataplane kind (c ∷ cs) seen =
    fail_if (kind == "regular" && is_dataplane && is_managed_native_container c.name)
      (misplaced_sidecar c.name)
    >> previous_kind (lookup c.name seen) c.name kind
    >> check_names is_dataplane kind cs (insert c.name kind seen)

unfoldable pub validate_pod_container_names : Workload → Result NameError (Unit {0})
unfolding check_names
validate_pod_container_names d =
    let is_dataplane = lookup label_component d.pod_labels == some "dataplane" in
    check_names is_dataplane "regular" d.pod.containers [] >>= λ seen.
    check_names is_dataplane "init" d.pod.init_containers seen >>= λ all_seen. ok tt
