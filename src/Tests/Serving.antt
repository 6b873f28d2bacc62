-- ===== src/Tests/Serving.antt =====
-- The shared Services of the test cluster.
use yanet_operator.Base.{
  ◌≡◌, refl, ◌↔◌, Bool, true, false, none, List, [], ◌∷◌, arith, String, ◌==◌, contains, nat_eq,
  string_eq, int_eq, option_eq, ok, All, length, is_empty,
}
use yanet_operator.Base.{pair_eq, Pairs}
use yanet_operator.Base.Dict.{has}
use yanet_operator.Resolve.{ResolvedSidecar}
use yanet_operator.Resolve.Sidecars.{resolve_sidecar}
use yanet_operator.Api.Listeners.{validate_listeners}
use yanet_operator.Manifests.Services.{ServiceSpec, Service, BuildContext, build_services}
use yanet_operator.Manifests.Services.Accepted.{IsJudgedByName, build_services-IsJudgedByName}
use yanet_operator.Controller.Apply.{Comparison}
use yanet_operator.Controller.Ownership.{Yanet}
use yanet_operator.Controller.SharedServices.{SharedServiceKey, add_installations, no_draft}
use yanet_operator.Controller.SharedServices.Verdict.{Same, with_key}
use yanet_operator.Controller.SharedServices.Agreed.{services_of, add_installations-Agreed}
use yanet_operator.Controller.SharedServices.Apply.{Encounter, ServiceAttempt, not_found}
use yanet_operator.Controller.SharedServices.Pass.{
  Cluster, config_owner, deleted, reconcile_shared_services,
}
use yanet_operator.Controller.SharedServices.Pass.Justified.{
  IsJustified, reconcile_shared_services-IsJustified,
}
use yanet_operator.Controller.SharedServices.Pass.Complete.{
  IsServed, reconcile_shared_services-IsServed,
}
use yanet_operator.Tests.{short_key, rules, config, wiring, sidecar_named, yanet, object, apart}

abbrev nat : ResolvedSidecar
nat = resolve_sidecar config.images none wiring.sidecars 1 (sidecar_named "nat")

abbrev context : BuildContext
context = record { namespace = "default"; box_type = "release" }

abbrev any_name : String → Bool
any_name s = true

build_services-IsJudgedByName_example :
    All (IsJudgedByName any_name) (build_services ⊥ short_key context nat)
unfolding resolve_sidecar validate_listeners string_eq
build_services-IsJudgedByName_example =
    build_services-IsJudgedByName ⊥ short_key any_name context nat (apart "release" "" refl)
      (apart "nat" "" refl) refl

-- Two specs are compared by their types.
abbrev comparison : Comparison ServiceSpec
comparison = record {
  same_spec = λ s t. s.kind == t.kind;
  same_owners = λ s t. true;
  same_map = λ s t. true;
}

Same-trans :
    (s r q : Service)
    → Same comparison.same_spec s r
    → Same comparison.same_spec r q
    → Same comparison.same_spec s q
Same-trans s r q h h' = ground arith

abbrev installations : List Yanet
installations = yanet "a" 1 ∷ yanet "b" 2 ∷ []

abbrev attempt : ServiceAttempt
attempt = record { got = not_found; stopped = false; update = ok tt }

-- No Service exists yet, and every creation succeeds.
abbrev encounter : Encounter
encounter = record { got = not_found; stopped = false; create = ok tt; first = attempt; rest = [] }

abbrev cluster : Cluster
cluster = record {
  installations = ok installations;
  listings = λ namespace. record { deployments = ok []; replica_sets = ok []; pods = ok [] };
  stopped_apply = λ k. false;
  encounter = λ k. encounter;
  services = ok [];
  stopped_delete = λ k. false;
  delete = λ k. deleted;
}

abbrev route_key : SharedServiceKey
route_key = ("default", "yanet-release-route")

route_is_desired :
    has route_key
      (add_installations comparison.same_spec rules short_key any_name config
        (config_owner (object "yanet" none))
        installations
        no_draft).table.desired
    ≡ true
unfolding add_installations pair_eq string_eq int_eq nat_eq native.Mathlib.Decide.ℕ_discrete
route_is_desired = refl

add_installations-Agreed_example :
    (let t =
        (add_installations comparison.same_spec rules short_key any_name config
          (config_owner (object "yanet" none))
          installations
          no_draft).table in
      let plans = with_key route_key (
        services_of comparison.same_spec rules short_key any_name config
          (config_owner (object "yanet" none))
          installations) in
      ((has route_key t.desired ≡ true)
        ↔ ((is_empty plans ≡ false) × Pairs (Same comparison.same_spec) plans))
      × ((contains t.blocked route_key ≡ true) ↔ ¬ (Pairs (Same comparison.same_spec) plans)))
add_installations-Agreed_example =
    add_installations-Agreed comparison.same_spec rules short_key any_name config
      (config_owner (object "yanet" none)) Same-trans installations route_key

reconcile_shared_services-IsJustified_example :
    All
      (IsJustified cluster comparison rules short_key any_name
        (object "yanet" none)
        config
        installations)
      (reconcile_shared_services cluster comparison rules short_key any_name
        (object "yanet" none)
        config).sent
reconcile_shared_services-IsJustified_example =
    reconcile_shared_services-IsJustified cluster comparison rules short_key any_name
      (object "yanet" none) config Same-trans (λ k. (tt, tt, tt)) installations refl

-- The Services of the two NUMA domains, of the operator and of the wired sidecar are created.
four_are_created :
    length
      (reconcile_shared_services cluster comparison rules short_key any_name
        (object "yanet" none)
        config).sent
    ≡ 4
unfolding reconcile_shared_services pair_eq string_eq int_eq nat_eq native.Mathlib.Decide.ℕ_discrete
four_are_created = refl

reconcile_shared_services-IsServed_example :
    (ys : List Yanet) × (cluster.installations ≡ ok ys)
    × ((k : SharedServiceKey)
        → IsServed cluster comparison rules short_key any_name (object "yanet" none) config ys k)
unfolding reconcile_shared_services pair_eq string_eq int_eq nat_eq native.Mathlib.Decide.ℕ_discrete
reconcile_shared_services-IsServed_example =
    reconcile_shared_services-IsServed cluster comparison rules short_key any_name
      (object "yanet" none) config Same-trans (λ k. (refl, (refl, tt))) (refl, refl)
