-- ===== src/Controller/SharedServices/Pass/Complete.antt =====
-- What a pass of reconcileSharedServices (internal/controller/shared_services.go) has done if it ends
-- without an error and without having met the kill switch.
use yanet_operator.Base.{
  ◌≡◌, refl, sym, ◌∙◌, ◌⊎◌, inl, inr, Bool, true, false, some, List, [], ◌∷◌, arith, String, nat_eq,
  string_eq, int_eq, option_eq, Result, ok, Result-cases, All, Bool-cases, is_empty,
}
use yanet_operator.Base.{pair_eq, Pairs, subst}
use yanet_operator.Base.Dict.{keys, lookup, has-lookup}
use yanet_operator.Base.Sort.{sort_by, All-sort_by}
use yanet_operator.Kube.{ObjectMeta}
use yanet_operator.Api.Names.{NameRules}
use yanet_operator.Api.Types.{YanetConfigSpec}
use yanet_operator.Manifests.Services.{ServiceSpec, Service}
use yanet_operator.Controller.Apply.{Comparison}
use yanet_operator.Controller.Ownership.{Yanet}
use yanet_operator.Controller.SharedServices.{SharedServiceKey, no_draft}
use yanet_operator.Controller.SharedServices.Scopes.{blocked_shared_service_placement_scopes}
use yanet_operator.Controller.SharedServices.Verdict.{Agreed, Same}
use yanet_operator.Controller.SharedServices.Agreed.{add_installations-Agreed}
use yanet_operator.Controller.SharedServices.Told.{
  is_empty-append, add_installations-IsTold, blocked_shared_service_placement_scopes-IsToldOf,
}
use yanet_operator.Controller.SharedServices.Apply.InPlace.{
  IsRunning, IsInPlace, apply_shared_service-IsInPlace,
}
use yanet_operator.Controller.SharedServices.Pass.{
  Cluster, config_owner, planned, pass, reconcile_shared_services, key_precedes,
}
use yanet_operator.Controller.SharedServices.Pass.Justified.{plans_under}
use yanet_operator.Controller.SharedServices.Pass.Clean.{
  IsClean, IsApplied, IsApplied-found, contains-of_empty, All-contains, apply_loop-IsClean,
  prune_unless_stopped-IsClean,
}

module _ (same_spec : ServiceSpec → ServiceSpec → Bool) where
  All-decided :
      (p : Service) (gs : List Service) → All (Same same_spec p) gs ⊎ ¬ (All (Same same_spec p) gs)
  All-decided p [] = inl tt
  All-decided p (g ∷ gs) = ground (arith, All-decided p gs, Bool-cases (same_spec p.spec g.spec))

  Pairs-decided : (gs : List Service) → Pairs (Same same_spec) gs ⊎ ¬ (Pairs (Same same_spec) gs)
  Pairs-decided [] = inl tt
  Pairs-decided (g ∷ gs) = ground (arith, All-decided g gs, Pairs-decided gs)

module _ (cluster : Cluster) (comparison : Comparison ServiceSpec) (rules : NameRules)
    (short_key : String → String) (is_dns1035_label : String → Bool) (meta : ObjectMeta)
    (config : YanetConfigSpec) where
  -- All valid plans under a key agree, and if there is one, the Service is in place: it was created, or a
  -- live one that the configuration owns was updated or is as desired.
  abbrev pub IsServed : List Yanet → SharedServiceKey → Type 0
  IsServed ys k =
      let plans =
        plans_under cluster comparison rules short_key is_dns1035_label meta config ys k in
      let t = (planned cluster comparison rules short_key is_dns1035_label meta config ys).table in
      Pairs (Same comparison.same_spec) plans
      × (is_empty plans ≡ false
          → (s : Service) × (lookup k t.desired ≡ some s)
            × IsInPlace comparison s (cluster.encounter k))

  served :
      ((s r q : Service)
        → Same comparison.same_spec s r
        → Same comparison.same_spec r q
        → Same comparison.same_spec s q)
      → ((k : SharedServiceKey) → IsRunning (cluster.encounter k))
      → (ys : List Yanet)
      → IsClean (pass cluster comparison rules short_key is_dns1035_label meta config (ok ys))
      → (k : SharedServiceKey) → IsServed ys k
  served trans running ys c k =
      let d = planned cluster comparison rules short_key is_dns1035_label meta config ys in
      let plans =
        plans_under cluster comparison rules short_key is_dns1035_label meta config ys k in
      let owner = config_owner meta in
      let b = blocked_shared_service_placement_scopes short_key cluster.listings config d.scopes in
      let ks = sort_by key_precedes (keys d.table.desired) in
      let (start, applied) =
        apply_loop-IsClean cluster comparison d.table b.0 ks _
          (prune_unless_stopped-IsClean cluster comparison d.table owner _ c) in
      let quiet : (is_empty d.errors ≡ true) × (is_empty b.1 ≡ true) =
        ground (arith, start.0, is_empty-append d.errors b.1) in
      let unblocked = contains-of_empty d.table.blocked k (
        add_installations-IsTold comparison.same_spec rules short_key is_dns1035_label config owner
          ys no_draft (λ h. refl) quiet.0) in
      let unmoved =
        blocked_shared_service_placement_scopes-IsToldOf short_key cluster.listings config d.scopes
          quiet.1 in
      let agreed : Agreed comparison.same_spec k plans d.table =
        add_installations-Agreed comparison.same_spec rules short_key is_dns1035_label config owner
          trans ys k in
      let pairs : Pairs (Same comparison.same_spec) plans =
        elim (Pairs-decided comparison.same_spec plans) [
          | inl ps ↦ ps
          | inr n ↦ let q : true ≡ false = sym (agreed.1.1 n) ∙ unblocked in cc
        ] in
      (
        pairs,
        λ h.
            let present = agreed.0.1 (h, pairs) in
            let (s, e, applied_well) =
              IsApplied-found cluster comparison d.table b.0 k (lookup k d.table.desired)
                ((has-lookup k d.table.desired).0 present) unmoved
                (All-contains
                  (λ (j : SharedServiceKey).
                    IsApplied cluster comparison d.table b.0 j (lookup j d.table.desired))
                  (keys d.table.desired) k present
                  ((All-sort_by key_precedes
                      (λ (j : SharedServiceKey).
                        IsApplied cluster comparison d.table b.0 j (lookup j d.table.desired))
                      (keys d.table.desired)).0
                    applied)) in
            (
              s,
              e,
              apply_shared_service-IsInPlace comparison s (cluster.encounter k) (running k)
                  applied_well,
            ),
      )

  -- If the comparison of specs is transitive, no read of the kill switch within an application finds it
  -- on, and the pass ends without an error and without having met the kill switch, then it has listed the
  -- installations, all their valid plans under a key agree, and under each key that has one the desired
  -- Service is in place: its creation was sent and succeeded where there was none, and else an attempt
  -- found an owned one that is as desired, or whose update was sent and succeeded.
  pub reconcile_shared_services-IsServed :
      ((s r q : Service)
        → Same comparison.same_spec s r
        → Same comparison.same_spec r q
        → Same comparison.same_spec s q)
      → ((k : SharedServiceKey) → IsRunning (cluster.encounter k))
      → IsClean (
          reconcile_shared_services cluster comparison rules short_key is_dns1035_label meta config)
      → (ys : List Yanet) × (cluster.installations ≡ ok ys)
        × ((k : SharedServiceKey) → IsServed ys k)
  unfolding reconcile_shared_services
  reconcile_shared_services-IsServed trans running c = elim (Result-cases cluster.installations) [
    | inl (ys, e) ↦ (ys, e, served trans running ys (subst clean e c))
    | inr (f, e) ↦ let q : false ≡ true = (subst clean e c).0 in cc
  ]
    where
      clean : Result String (List Yanet) → Type 0
      clean r = IsClean (pass cluster comparison rules short_key is_dns1035_label meta config r)
