-- ===== src/Tests/Building.antt =====
-- The manifests on the test cluster.
use yanet_operator.Base.{
  ◌≡◌, refl, ◌≢◌, ℕ, ◌≤◌, Bool, true, false, none, [], ◌∷◌, arith, String, contains, nat_eq,
  string_eq, int_eq, option_eq, ok, err, pos,
}
use yanet_operator.Resolve.{ResolvedSidecar}
use yanet_operator.Resolve.Sidecars.{resolve_dataplane_sidecars, resolve_sidecar}
use yanet_operator.Api.Numa.{validate_disabled_numa}
use yanet_operator.Manifests.Ports.{runtime_port_pair}
use yanet_operator.Manifests.Ports.Slots.{runtime_port_pair-disjoint}
use yanet_operator.Manifests.Concurrent.{
  Container, PodContainers, same_port, validate_concurrent_pod_ports,
}
use yanet_operator.Manifests.Concurrent.Accepted.{
  validate_concurrent_pod_ports_iff, Admits, InitsAdmit, stack,
}
use yanet_operator.Manifests.Fanout.{controlplane_fanout}
use yanet_operator.Base.{pair_eq}
use yanet_operator.Manifests.Fanout.Domains.{controlplane_fanout-of_admitted}
use yanet_operator.Tests.{short_key, config, spec, wiring, sidecar_named, controlplane_spec}

abbrev resolved : ℕ → String → ResolvedSidecar
resolved index name = resolve_sidecar config.images none wiring.sidecars index (sidecar_named name)

runtime_port_pair-disjoint_example :
    (a b c d : ℕ) × (runtime_port_pair ⊥ (resolved 0 "acl") ≡ ok (a, b))
    × (runtime_port_pair ⊥ (resolved 1 "nat") ≡ ok (c, d))
    × (a ≤ 65535)
    × (b ≤ 65535)
    × (a ≢ b)
    × (a ≢ c)
    × (a ≢ d)
    × (b ≢ c)
    × (b ≢ d)
unfolding resolve_dataplane_sidecars string_eq
runtime_port_pair-disjoint_example =
    runtime_port_pair-disjoint short_key config spec wiring
      (resolved 0 "acl" ∷ resolved 1 "nat" ∷ []) refl 0 1 (resolved 0 "acl") (resolved 1 "nat") refl
      refl (λ h. omega arith)

second_slot : runtime_port_pair ⊥ (resolved 1 "nat") ≡ ok (8082, 8083)
unfolding runtime_port_pair resolve_sidecar
second_slot = refl

abbrev container : String → ℕ → Bool → Container
container name port always = record {
  name = name;
  ports = record { number = pos port; protocol = "" } ∷ [];
  restarts_always = always;
}

abbrev pod : ℕ → PodContainers
pod port = record {
  containers = container "dataplane" 8080 false ∷ [];
  init_containers = container "setup" 8080 false ∷ container "acl" port true ∷ [];
}

-- A one-shot init container may use a port of the application.
validate_concurrent_pod_ports_iff_example :
    Admits [] (pod 8082).containers
    × InitsAdmit (stack (pod 8082).containers []) [] (pod 8082).init_containers
unfolding validate_concurrent_pod_ports pair_eq string_eq int_eq nat_eq
    native.Mathlib.Decide.ℕ_discrete
validate_concurrent_pod_ports_iff_example = (validate_concurrent_pod_ports_iff (pod 8082)).0 refl

clash :
    validate_concurrent_pod_ports (pod 8080)
    ≡ err (same_port "dataplane" "acl" (record { number = pos 8080; protocol = "" }))
unfolding validate_concurrent_pod_ports pair_eq string_eq int_eq nat_eq
    native.Mathlib.Decide.ℕ_discrete
clash = refl

abbrev two_domains : ResolvedSidecar
two_domains = record (resolved 0 "controlplane") { numa = pos 2; disabled_numa = pos 0 ∷ [] }

controlplane_fanout-of_admitted_example :
    (i : ℕ) × (contains (controlplane_fanout ⊥ two_domains) i ≡ true)
unfolding validate_disabled_numa int_eq native.Mathlib.Decide.ℕ_discrete
controlplane_fanout-of_admitted_example =
    controlplane_fanout-of_admitted ⊥ controlplane_spec two_domains refl refl refl
