-- ===== src/Controller/SharedServices/Pass/Justified.antt =====
-- What the requests of a pass of reconcileSharedServices (internal/controller/shared_services.go) say
-- of the installations that it listed.
use yanet_operator.Base.{
  ◌≡◌, refl, sym, ap, ◌∙◌, inl, inr, Bool, true, false, not, ◌&&◌, some, List, [], ◌∷◌, ◌++◌, arith,
  String, ◌==◌, contains, if◌then◌else◌, nat_eq, string_eq, int_eq, option_eq, Result, ok, err, All,
  Bool-cases, is_empty,
}
use mathlib.Core.Option.{some-injective, none-ne-some}
use yanet_operator.Base.{All-weaken, pair_eq, Pairs, subst}
use yanet_operator.Base.Dict.{keys}
use yanet_operator.Base.Sort.{sort_by}
use yanet_operator.Kube.{ObjectMeta, OwnerReference}
use yanet_operator.Api.Names.{NameRules}
use yanet_operator.Api.Types.{YanetConfigSpec}
use yanet_operator.Manifests.Services.{ServiceSpec, Service}
use yanet_operator.Controller.Apply.{Comparison}
use yanet_operator.Controller.Ownership.{Yanet}
use yanet_operator.Controller.SharedServices.{
  SharedServiceKey, SharedServiceScope, Table, empty_table, no_draft, key_of, put_service,
}
use yanet_operator.Controller.SharedServices.Scopes.{blocked_shared_service_placement_scopes}
use yanet_operator.Controller.SharedServices.Verdict.{
  Agreed, with_key, Same, put_list, lookup-put_service,
}
use yanet_operator.Controller.SharedServices.Agreed.{
  services_of, add_installations-Agreed, add_installations-table,
}
use yanet_operator.Controller.SharedServices.Apply.{
  ServiceWrite, create_service, update_service, delete_service, controlled_by,
}
use yanet_operator.Controller.SharedServices.Apply.About.{IsFaithful}
use yanet_operator.Controller.SharedServices.Pass.{
  Cluster, Progress, labelled_scope, config_owner, planned, prune_listed, prune_unless_stopped,
  pass, apply_loop, reconcile_shared_services, key_precedes,
}
use yanet_operator.Controller.SharedServices.Pass.Untouched.{
  IsKeyed, IsPermitted, IsSound, apply_loop-IsSound, prune_services-IsSound,
}

module _ (same_spec : ServiceSpec → ServiceSpec → Bool) where
  put_service-IsKeyed : (s : Service) (t : Table) → IsKeyed t → IsKeyed (put_service same_spec s t)
  put_service-IsKeyed s t h k r e =
      let shown = sym (lookup-put_service same_spec k s t) ∙ e in
      elim (Bool-cases (k == key_of s && not (contains t.blocked k))) [
        | inr other ↦ h k r (ground (arith, shown, other))
        | inl this ↦
            let same : some s ≡ some r = ground (arith, shown, this) in
            ap key_of (sym (some-injective s r same)) ∙ ground (arith, this)
      ]

  put_list-IsKeyed : (ss : List Service) (t : Table) → IsKeyed t → IsKeyed (put_list same_spec ss t)
  put_list-IsKeyed [] t h = h
  put_list-IsKeyed (s ∷ ss) t h =
      put_list-IsKeyed ss (put_service same_spec s t) (put_service-IsKeyed s t h)

module _ (cluster : Cluster) (comparison : Comparison ServiceSpec) (rules : NameRules)
    (short_key : String → String) (is_dns1035_label : String → Bool) (meta : ObjectMeta)
    (config : YanetConfigSpec) where
  -- The Services that the installations have valid plans for under a key.
  abbrev pub plans_under : List Yanet → SharedServiceKey → List Service
  plans_under ys k = with_key k (
      services_of comparison.same_spec rules short_key is_dns1035_label config (config_owner meta)
        ys)

  -- The scopes that the planning protects, and those with old producers.
  abbrev pub guarded : List Yanet → List SharedServiceScope
  guarded ys =
      let d = planned cluster comparison rules short_key is_dns1035_label meta config ys in
      let migrating =
        blocked_shared_service_placement_scopes short_key cluster.listings config d.scopes in
      migrating.0 ++ d.protected_scopes

  abbrev pub IsJustified : List Yanet → ServiceWrite → Type 0
  IsJustified ys (create_service s) =
      (is_empty (plans_under ys (key_of s)) ≡ false)
      × Pairs (Same comparison.same_spec) (plans_under ys (key_of s))
  IsJustified ys (update_service s) =
      (is_empty (plans_under ys (key_of s)) ≡ false)
      × Pairs (Same comparison.same_spec) (plans_under ys (key_of s))
  IsJustified ys (delete_service s) =
      (controlled_by s.meta.controller (config_owner meta) ≡ true)
      × (is_empty (plans_under ys (key_of s)) ≡ true)
      × (contains (guarded ys) (labelled_scope s) ≡ false)

  abbrev IsTransitive : Type 0
  IsTransitive =
      (s r q : Service)
      → Same comparison.same_spec s r
      → Same comparison.same_spec r q
      → Same comparison.same_spec s q

  agreed :
      IsTransitive
      → (ys : List Yanet) (k : SharedServiceKey)
      → Agreed comparison.same_spec k
          (plans_under ys k)
          (planned cluster comparison rules short_key is_dns1035_label meta config ys).table
  agreed trans ys k =
      add_installations-Agreed comparison.same_spec rules short_key is_dns1035_label config
        (config_owner meta) trans ys k

  justified :
      IsTransitive
      → (ys : List Yanet) (w : ServiceWrite)
      → IsPermitted cluster comparison
          (planned cluster comparison rules short_key is_dns1035_label meta config ys).table
          (config_owner meta)
          (guarded ys)
          w
      → IsJustified ys w
  justified trans ys (create_service s) h = (agreed trans ys (key_of s)).0.0 h
  justified trans ys (update_service s) h = (agreed trans ys (key_of s)).0.0 h
  justified trans ys (delete_service s) h =
      let a = agreed trans ys (key_of s) in
      (h.0, no_plans (plans_under ys (key_of s)) a.0.1 a.1.1 h.1 h.2, h.3)
    where
      no_plans :
          (plans : List Service) {desired blocked : Bool}
          → ((is_empty plans ≡ false) × Pairs (Same comparison.same_spec) plans → desired ≡ true)
          → (¬ (Pairs (Same comparison.same_spec) plans) → blocked ≡ true)
          → desired ≡ false
          → blocked ≡ false
          → is_empty plans ≡ true
      no_plans [] d b hd hb = refl
      no_plans (s ∷ ss) d b hd hb =
          let differ : ¬ (Pairs (Same comparison.same_spec) (s ∷ ss)) =
            λ ps. let q : true ≡ false = sym (d (refl, ps)) ∙ hd in cc in
          let q : true ≡ false = sym (b differ) ∙ hb in cc

  prune_unless_stopped-IsSound :
      (table : Table) (owner : OwnerReference) (base : List SharedServiceScope) (p : Progress)
      → IsSound cluster comparison table owner base p
      → IsSound cluster comparison table owner base
          (prune_unless_stopped cluster comparison table owner p)
  prune_unless_stopped-IsSound table owner base p g =
      elim p.stopped
        as (λ (b : Bool).
          IsSound cluster comparison table owner base
            (if b then p else prune_listed cluster comparison table owner cluster.services p)) [
              | true ↦ g
              | false ↦ listed cluster.services
            ]
    where
      listed :
          (r : Result String (List Service))
          → IsSound cluster comparison table owner base
              (prune_listed cluster comparison table owner r p)
      listed (err e) = g
      listed (ok ss) = prune_services-IsSound cluster comparison table owner base ss p g

  -- Whatever else the cluster answers, if it returns the object asked for on each Get and the
  -- comparison of specs is transitive, each creation or update of the pass is of a Service that some
  -- installation has a valid plan for and on which all valid plans agree, and each deletion is of a
  -- Service that the configuration controls, that no installation has a valid plan for, and whose
  -- namespace and box type are not protected by a failed plan or by old producers.
  pub reconcile_shared_services-IsJustified :
      IsTransitive
      → ((k : SharedServiceKey) → IsFaithful k (cluster.encounter k))
      → (ys : List Yanet) → cluster.installations ≡ ok ys
      → All
          (IsJustified ys)
          (reconcile_shared_services cluster comparison rules short_key is_dns1035_label meta
            config).sent
  unfolding reconcile_shared_services
  reconcile_shared_services-IsJustified trans faithful ys e =
      let d = planned cluster comparison rules short_key is_dns1035_label meta config ys in
      let owner = config_owner meta in
      let migrating =
        blocked_shared_service_placement_scopes short_key cluster.listings config d.scopes in
      let start : Progress = record {
        sent = [];
        protected_scopes = migrating.0 ++ d.protected_scopes;
        errors = d.errors ++ migrating.1;
        stopped = false;
      } in
      let keyed =
        subst IsKeyed
          (sym (
            add_installations-table comparison.same_spec rules short_key is_dns1035_label config
              owner ys no_draft))
          (put_list-IsKeyed comparison.same_spec
            (services_of comparison.same_spec rules short_key is_dns1035_label config owner ys)
            empty_table (λ k s h. absurd (none-ne-some s h))) in
      let applied =
        apply_loop-IsSound cluster comparison d.table owner (guarded ys) keyed faithful migrating.0
          (sort_by key_precedes (keys d.table.desired)) start (tt, λ sc h. h) in
      subst
        (λ (r : Result String (List Yanet)).
          All (IsJustified ys)
            (pass cluster comparison rules short_key is_dns1035_label meta config r).sent)
        (sym e)
        (All-weaken (justified trans ys) _
          (prune_unless_stopped-IsSound d.table owner (guarded ys)
            (apply_loop cluster comparison d.table migrating.0
              (sort_by key_precedes (keys d.table.desired)) start)
            applied).0)
