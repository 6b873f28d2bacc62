-- ===== src/Controller/SharedServices/Agreed.antt =====
-- Which Services the planning of reconcileSharedServices keeps (internal/controller/shared_services.go):
-- those under whose key all valid plans agree.
use yanet_operator.Base.{
  ◌≡◌, refl, sym, ap, ◌∙◌, ◌↔◌, Bool, true, false, Option, none, some, List, [], ◌∷◌, ◌++◌, arith,
  String, contains, if◌then◌else◌, nat_eq, string_eq, int_eq, option_eq, Result, ok, err, is_empty,
}
use yanet_operator.Base.{pair_eq, Pairs}
use yanet_operator.Base.Dict.{has}
use yanet_operator.Kube.{OwnerReference}
use yanet_operator.Api.Names.{NameRules}
use yanet_operator.Api.Errors.{Error}
use yanet_operator.Api.Types.{YanetConfigSpec}
use yanet_operator.Resolve.{ResolvedComponent, ResolvedSidecar}
use yanet_operator.Resolve.Component.{resolve_box_service_component}
use yanet_operator.Resolve.Enabled.{ComponentRef, enabled_components_for_box}
use yanet_operator.Manifests.Services.{
  ServicePlan, ServiceSpec, Service, PlanError, build_services, validate_plan, to_service,
}
use yanet_operator.Controller.Ownership.{Yanet}
use yanet_operator.Controller.SharedServices.{
  SharedServiceKey, Draft, no_draft, put_service, add_service, protect_failed, add_checked,
  add_plans, context_of, add_resolved, add_refs, add_enabled, add_installations, scope_of,
}
use yanet_operator.Controller.SharedServices.Verdict.{
  with_key, Same, put_list, put_list-append, put_list-Agreed,
}

module _ (same_spec : ServiceSpec → ServiceSpec → Bool) where
  module _ (rules : NameRules) (short_key : String → String) (is_dns1035_label : String → Bool)
      (config : YanetConfigSpec) (owner : OwnerReference) where
    -- The Services of the valid plans, in the order in which the loops come to them.
    abbrev pub checked_service : String → ServicePlan → Result PlanError (Unit {0}) → List Service
    checked_service namespace plan (err e) = []
    checked_service namespace plan (ok u) = to_service plan namespace owner ∷ []

    abbrev pub plan_services : String → List ServicePlan → List Service
    plan_services namespace [] = []
    plan_services namespace (p ∷ ps) =
        checked_service namespace p (validate_plan is_dns1035_label p) ++ plan_services namespace ps

    abbrev pub component_services : Yanet → Result Error (Option ResolvedComponent) → List Service
    component_services yanet (err e) = []
    component_services yanet (ok none) = []
    component_services yanet (ok (some component)) = plan_services yanet.meta.namespace (
        build_services ResolvedSidecar short_key
          (context_of same_spec rules short_key is_dns1035_label config owner yanet) component)

    abbrev pub refs_services : Yanet → List ComponentRef → List Service
    refs_services yanet [] = []
    refs_services yanet (r ∷ rs) =
        component_services yanet (
          resolve_box_service_component rules short_key config yanet.spec.box_type r.kind
            r.operator_name)
        ++ refs_services yanet rs

    abbrev pub enabled_services : Yanet → Result Error (List ComponentRef) → List Service
    enabled_services yanet (err e) = []
    enabled_services yanet (ok refs) = refs_services yanet refs

    abbrev pub services_of : List Yanet → List Service
    services_of [] = []
    services_of (y ∷ ys) =
        if y.meta.deleting
        then services_of ys
        else enabled_services y (enabled_components_for_box short_key config y.spec.box_type)
          ++ services_of ys

    add_service-table :
        (s : Service) (d : Draft)
        → (add_service same_spec s d).table ≡ put_service same_spec s d.table
    unfolding add_service
    add_service-table s d = ground arith

    add_checked-table :
        (namespace : String) (p : ServicePlan) (checked : Result PlanError (Unit {0})) (d : Draft)
        → (add_checked same_spec rules short_key is_dns1035_label config owner namespace p checked
            d).table
          ≡ put_list same_spec (checked_service namespace p checked) d.table
    add_checked-table namespace p (err e) d = refl
    add_checked-table namespace p (ok u) d = add_service-table (to_service p namespace owner) d

    add_plans-table :
        (namespace : String) (ps : List ServicePlan) (d : Draft)
        → (add_plans same_spec rules short_key is_dns1035_label config owner namespace ps d).table
          ≡ put_list same_spec (plan_services namespace ps) d.table
    unfolding add_plans
    add_plans-table namespace [] d = refl
    add_plans-table namespace (p ∷ ps) d =
        let checked = validate_plan is_dns1035_label p in
        let d' =
          add_checked same_spec rules short_key is_dns1035_label config owner namespace p checked
            d in
        add_plans-table namespace ps d'
        ∙ ap (put_list same_spec (plan_services namespace ps))
            (add_checked-table namespace p checked d)
        ∙ sym (
            put_list-append same_spec (checked_service namespace p checked)
              (plan_services namespace ps) d.table)

    add_resolved-table :
        (yanet : Yanet) (ref : ComponentRef) (found : Result Error (Option ResolvedComponent))
        (d : Draft)
        → (add_resolved same_spec rules short_key is_dns1035_label config owner yanet ref found
            d).table
          ≡ put_list same_spec (component_services yanet found) d.table
    add_resolved-table yanet ref (err e) d = refl
    add_resolved-table yanet ref (ok none) d = refl
    add_resolved-table yanet ref (ok (some component)) d = add_plans-table yanet.meta.namespace _ d

    add_refs-table :
        (yanet : Yanet) (rs : List ComponentRef) (d : Draft)
        → (add_refs same_spec rules short_key is_dns1035_label config owner yanet rs d).table
          ≡ put_list same_spec (refs_services yanet rs) d.table
    unfolding add_refs
    add_refs-table yanet [] d = refl
    add_refs-table yanet (r ∷ rs) d =
        let found =
          resolve_box_service_component rules short_key config yanet.spec.box_type r.kind
            r.operator_name in
        add_refs-table yanet rs
          (add_resolved same_spec rules short_key is_dns1035_label config owner yanet r found d)
        ∙ ap (put_list same_spec (refs_services yanet rs)) (add_resolved-table yanet r found d)
        ∙ sym (
            put_list-append same_spec (component_services yanet found) (refs_services yanet rs)
              d.table)

    add_enabled-table :
        (yanet : Yanet) (refs : Result Error (List ComponentRef)) (d : Draft)
        → (add_enabled same_spec rules short_key is_dns1035_label config owner yanet refs d).table
          ≡ put_list same_spec (enabled_services yanet refs) d.table
    add_enabled-table yanet (err e) d = refl
    add_enabled-table yanet (ok refs) d =
        unprotected (add_refs same_spec rules short_key is_dns1035_label config owner yanet refs d)
        ∙ add_refs-table yanet refs d
      where
        unprotected :
            (e : Draft)
            → (protect_failed same_spec rules short_key is_dns1035_label config owner
                (scope_of yanet)
                e).table
              ≡ e.table
        unprotected e = ground arith

    pub add_installations-table :
        (ys : List Yanet) (d : Draft)
        → (add_installations same_spec rules short_key is_dns1035_label config owner ys d).table
          ≡ put_list same_spec (services_of ys) d.table
    unfolding add_installations
    add_installations-table [] d = refl
    add_installations-table (y ∷ ys) d =
        let refs = enabled_components_for_box short_key config y.spec.box_type in
        let fresh = record d { scopes = scope_of y ∷ d.scopes; failed = false } in
        let d' = add_enabled same_spec rules short_key is_dns1035_label config owner y refs fresh in
        let added = add_installations same_spec rules short_key is_dns1035_label config owner ys in
        elim y.meta.deleting
          as (λ (b : Bool).
            (if b then added d else added d').table
            ≡ put_list same_spec
                (if b then services_of ys else enabled_services y refs ++ services_of ys) d.table) [
                  | true ↦ add_installations-table ys d
                  | false ↦
                      add_installations-table ys d'
                      ∙ ap (put_list same_spec (services_of ys)) (add_enabled-table y refs fresh)
                      ∙ sym (
                          put_list-append same_spec (enabled_services y refs) (services_of ys)
                            d.table)
                ]

    -- A Service is to be applied under a key exactly when some installation has a valid plan for the
    -- key and all such plans agree in their specs, in whatever order the installations are listed; the
    -- key is blocked exactly when two of them differ. The comparison of specs is transitive.
    pub add_installations-Agreed :
        ((s r q : Service) → Same same_spec s r → Same same_spec r q → Same same_spec s q)
        → (ys : List Yanet) (k : SharedServiceKey)
        → (let t =
              (add_installations same_spec rules short_key is_dns1035_label config owner ys
                no_draft).table in
            let plans = with_key k (services_of ys) in
            ((has k t.desired ≡ true) ↔ ((is_empty plans ≡ false) × Pairs (Same same_spec) plans))
            × ((contains t.blocked k ≡ true) ↔ ¬ (Pairs (Same same_spec) plans)))
    add_installations-Agreed trans ys k =
        rw (add_installations-table ys no_draft)
          (put_list-Agreed same_spec trans k (services_of ys))
