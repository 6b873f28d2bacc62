-- ===== src/Tests/Identifying.antt =====
-- The identity of a rendered workload, on a dataplane with one sidecar that a patch has changed.
use yanet_operator.Base.{
  ◌≡◌, refl, ◌≤◌, Option, none, some, List, [], ◌∷◌, arith, String, if◌then◌else◌, nat_eq,
  string_eq, int_eq, option_eq,
}
use yanet_operator.Base.Dict.{lookup}
use Prim.Native.String.{len}
use yanet_operator.Manifests.Workload.{Workload, PodContainer, label_component}
use yanet_operator.Manifests.Identity.{
  capture_workload_identity, restore_workload_identity, restore_native_sidecars, is_reserved,
  pod_container_names,
}
use yanet_operator.Manifests.Identity.Labels.{restore_workload_identity-labels}
use yanet_operator.Manifests.Identity.Slots.{
  restore_native_sidecars-slots, slots, named_in, not_named_in,
}
use yanet_operator.Manifests.Names.{shared_service_name, scoped_operator_name}
use yanet_operator.Manifests.Names.Bounds.{names-bounded}

abbrev part : String → String → Option String → PodContainer
part name image policy = record {
  name = name;
  image = image;
  restart_policy = policy;
  ports = [];
  mounts = [];
  devices = [];
  field_refs = [];
  actions = [];
  grpc_probes = [];
}

abbrev workload : String → List PodContainer → Workload
workload component inits = record {
  name = "edge-dataplane";
  namespace = "default";
  owners = [];
  labels = [];
  selector = none;
  strategy = record { kind = "Recreate"; rolling_update = none };
  pod_labels = (label_component, component) ∷ [];
  pod = record {
    containers = part "dataplane" "dp" none ∷ [];
    init_containers = inits;
    volumes = [];
    node_name = "";
    node_selector = [];
  };
}

abbrev rendered : Workload
rendered =
    workload "dataplane"
      (part "op-acl" "acl" (some "Always") ∷ part "op-nat" "nat" (some "Always") ∷ [])

-- The patch reorders the sidecars, drops a restart policy, and adds a one-shot container.
abbrev patched : Workload
patched =
    workload "other" (
      part "op-nat" "nat:2" none
      ∷ part "setup" "sh" none
      ∷ part "op-acl" "acl" (some "Always")
      ∷ [])

restore_workload_identity-labels_example :
    (let restored = restore_workload_identity patched (capture_workload_identity rendered) in
      (lookup label_component restored.labels ≡ (
        if is_reserved label_component
        then lookup label_component rendered.labels
        else lookup label_component patched.labels))
      × (lookup label_component restored.pod_labels ≡ (
          if is_reserved label_component
          then lookup label_component rendered.pod_labels
          else lookup label_component patched.pod_labels)))
restore_workload_identity-labels_example =
    restore_workload_identity-labels rendered patched tt (refl, tt) label_component

restored_component :
    lookup label_component
      (restore_workload_identity patched (capture_workload_identity rendered)).pod_labels
    ≡ some "dataplane"
unfolding restore_workload_identity capture_workload_identity is_reserved string_eq
restored_component = refl

restore_native_sidecars-slots_example :
    (let restored =
        restore_native_sidecars rendered.pod.init_containers patched.pod.init_containers in
      let managed = pod_container_names rendered.pod.init_containers in
      (slots (named_in managed restored) ≡ slots rendered.pod.init_containers)
      × (not_named_in managed restored ≡ not_named_in managed patched.pod.init_containers))
restore_native_sidecars-slots_example =
    restore_native_sidecars-slots rendered.pod.init_containers patched.pod.init_containers

reordered :
    restore_native_sidecars rendered.pod.init_containers patched.pod.init_containers
    ≡ part "op-acl" "acl" (some "Always")
      ∷ part "setup" "sh" none
      ∷ part "op-nat" "nat:2" (some "Always")
      ∷ []
unfolding restore_native_sidecars string_eq
reordered = refl

-- A short hash of at most 8 bytes.
abbrev hash : String → String
hash s = "0123abcd"

names-bounded_example :
    (len (shared_service_name hash "release" "birdAdapter" (some 3)) ≤ 63)
    × (len (
          scoped_operator_name hash "acl"
            "a-container-with-a-name-that-is-longer-than-sixty-three-bytes-long")
        ≤ 63)
names-bounded_example =
    names-bounded hash (λ s. omega arith) "release" "birdAdapter" (some 3) "acl"
      "a-container-with-a-name-that-is-longer-than-sixty-three-bytes-long"

service_name :
    shared_service_name hash "release" "birdAdapter" (some 12) ≡ "yanet-release-bird-adapter-numa12"
unfolding shared_service_name
service_name = refl

cut_name :
    scoped_operator_name hash "acl"
      "a-container-with-a-name-that-is-longer-than-sixty-three-bytes-long"
    ≡ "op-0123abcd-a-container-with-a-name-that-is-longer-tha-0123abcd"
unfolding scoped_operator_name string_eq nat_eq native.Mathlib.Decide.ℕ_discrete
cut_name = refl
