-- ===== src/Controller/SharedServices/Told.antt =====
-- Whatever the planning of reconcileSharedServices (internal/controller/shared_services.go) blocks, it
-- tells as an error.
use yanet_operator.Base.{
  ◌≡◌, refl, Bool, true, false, ◌&&◌, Option, none, some, List, [], ◌∷◌, ◌++◌, arith, String,
  if◌then◌else◌, nat_eq, string_eq, int_eq, option_eq, Result, ok, err, is_empty,
}
use yanet_operator.Base.{pair_eq}
use yanet_operator.Base.Sort.{sort_by}
use yanet_operator.Kube.{OwnerReference}
use yanet_operator.Api.Names.{NameRules}
use yanet_operator.Api.Errors.{Error}
use yanet_operator.Api.Types.{YanetConfigSpec, BoxType}
use yanet_operator.Resolve.{ResolvedComponent, find_box_type}
use yanet_operator.Resolve.Component.{resolve_box_service_component}
use yanet_operator.Resolve.Enabled.{ComponentRef, enabled_components_for_box}
use yanet_operator.Manifests.Services.{
  ServicePlan, ServiceSpec, Service, PlanError, validate_plan, to_service,
}
use yanet_operator.Controller.Ownership.{Yanet}
use yanet_operator.Controller.Placement.{Listings, PlacementProducer, list_placement_producers}
use yanet_operator.Controller.SharedServices.{
  Draft, conflicting_plans, plan_refused, component_unresolved, components_unresolved,
  producers_not_listed, migration_needs_drain, key_of, SharedServiceScope, put_service, add_service,
  add_checked, add_plans, add_resolved, add_refs, add_enabled, protect_failed, add_installations,
  scope_of,
}
use yanet_operator.Controller.SharedServices.Scopes.{
  Blocked, scope_precedes, distinct_scopes, block_found, block_listed, block_scope, scopes_loop,
  blocked_shared_service_placement_scopes, wired_sidecars,
}

module _ {ℓ} {A : Type ℓ} where
  -- A list that something was appended to is not empty.
  pub append-is_empty : (xs : List A) (y : A) → is_empty (xs ++ (y ∷ [])) ≡ false
  append-is_empty [] y = refl
  append-is_empty (x ∷ xs) y = refl

  pub is_empty-append : (xs ys : List A) → is_empty (xs ++ ys) ≡ (is_empty xs && is_empty ys)
  is_empty-append [] ys = refl
  is_empty-append (x ∷ xs) ys = refl

abbrev IsTold : Draft → Type 0
IsTold d = is_empty d.errors ≡ true → is_empty d.table.blocked ≡ true

module _ (same_spec : ServiceSpec → ServiceSpec → Bool) (rules : NameRules)
    (short_key : String → String) (is_dns1035_label : String → Bool) (config : YanetConfigSpec)
    (owner : OwnerReference) where
  add_service-IsTold : (s : Service) (d : Draft) → IsTold d → IsTold (add_service same_spec s d)
  unfolding add_service put_service
  add_service-IsTold s d t h =
      ground (arith, append-is_empty d.errors (conflicting_plans (key_of s)))

  add_checked-IsTold :
      (namespace : String) (p : ServicePlan) (checked : Result PlanError (Unit {0})) (d : Draft)
      → IsTold d
      → IsTold (
          add_checked same_spec rules short_key is_dns1035_label config owner namespace p checked d)
  add_checked-IsTold namespace p (err e) d t =
      λ h. ground (arith, append-is_empty d.errors (plan_refused namespace p.name e))
  add_checked-IsTold namespace p (ok u) d t = add_service-IsTold (to_service p namespace owner) d t

  add_plans-IsTold :
      (namespace : String) (ps : List ServicePlan) (d : Draft)
      → IsTold d
      → IsTold (add_plans same_spec rules short_key is_dns1035_label config owner namespace ps d)
  unfolding add_plans
  add_plans-IsTold namespace [] d t = t
  add_plans-IsTold namespace (p ∷ ps) d t =
      add_plans-IsTold namespace ps _
        (add_checked-IsTold namespace p (validate_plan is_dns1035_label p) d t)

  add_resolved-IsTold :
      (yanet : Yanet) (ref : ComponentRef) (found : Result Error (Option ResolvedComponent))
      (d : Draft)
      → IsTold d
      → IsTold
          (add_resolved same_spec rules short_key is_dns1035_label config owner yanet ref found d)
  add_resolved-IsTold yanet ref (err e) d t =
      λ h. ground (arith, append-is_empty d.errors (component_unresolved yanet ref e))
  add_resolved-IsTold yanet ref (ok none) d t = t
  add_resolved-IsTold yanet ref (ok (some component)) d t =
      add_plans-IsTold yanet.meta.namespace _ d t

  add_refs-IsTold :
      (yanet : Yanet) (rs : List ComponentRef) (d : Draft)
      → IsTold d
      → IsTold (add_refs same_spec rules short_key is_dns1035_label config owner yanet rs d)
  unfolding add_refs
  add_refs-IsTold yanet [] d t = t
  add_refs-IsTold yanet (r ∷ rs) d t = add_refs-IsTold yanet rs _ (
      add_resolved-IsTold yanet r
        (resolve_box_service_component rules short_key config yanet.spec.box_type r.kind
          r.operator_name)
        d t)

  add_enabled-IsTold :
      (yanet : Yanet) (refs : Result Error (List ComponentRef)) (d : Draft)
      → IsTold d
      → IsTold (add_enabled same_spec rules short_key is_dns1035_label config owner yanet refs d)
  add_enabled-IsTold yanet (err e) d t =
      λ h. ground (arith, append-is_empty d.errors (components_unresolved yanet e))
  add_enabled-IsTold yanet (ok refs) d t =
      kept (add_refs same_spec rules short_key is_dns1035_label config owner yanet refs d)
        (add_refs-IsTold yanet refs d t)
    where
      kept :
          (d' : Draft)
          → IsTold d'
          → IsTold (
              protect_failed same_spec rules short_key is_dns1035_label config owner
                (scope_of yanet)
                d')
      kept d' t' h = ground arith

  pub add_installations-IsTold :
      (ys : List Yanet) (d : Draft)
      → IsTold d
      → IsTold (add_installations same_spec rules short_key is_dns1035_label config owner ys d)
  unfolding add_installations
  add_installations-IsTold [] d t = t
  add_installations-IsTold (y ∷ ys) d t =
      let refs = enabled_components_for_box short_key config y.spec.box_type in
      let fresh = record d { scopes = scope_of y ∷ d.scopes; failed = false } in
      elim y.meta.deleting
        as (λ (b : Bool). IsTold (
          if b
          then add_installations same_spec rules short_key is_dns1035_label config owner ys d
          else add_installations same_spec rules short_key is_dns1035_label config owner ys
              (add_enabled same_spec rules short_key is_dns1035_label config owner y refs fresh))) [
                | true ↦ add_installations-IsTold ys d t
                | false ↦ add_installations-IsTold ys _ (add_enabled-IsTold y refs fresh t)
              ]

-- The scopes with old producers are told as well.
abbrev IsToldOf : Blocked → Type 0
IsToldOf b = is_empty b.1 ≡ true → is_empty b.0 ≡ true

module _ (short_key : String → String) (listings : String → Listings) where
  block_listed-IsToldOf :
      (scope : SharedServiceScope) (box : BoxType) (r : Result String (List PlacementProducer))
      (b : Blocked)
      → IsToldOf b
      → IsToldOf (block_listed short_key scope box r b)
  block_listed-IsToldOf scope box (err e) b t =
      λ h. ground (arith, append-is_empty b.1 (producers_not_listed e))
  block_listed-IsToldOf scope box (ok ps) b t = block_found-IsToldOf _
    where
      block_found-IsToldOf :
          (o : Option (String × PlacementProducer)) → IsToldOf (block_found short_key scope o b)
      block_found-IsToldOf none = t
      block_found-IsToldOf (some f) =
          λ h. ground (arith, append-is_empty b.1 (migration_needs_drain scope f.0 f.1))

  block_scope-IsToldOf :
      (scope : SharedServiceScope) (r : Result Error BoxType) (b : Blocked)
      → IsToldOf b
      → IsToldOf (block_scope short_key listings scope r b)
  block_scope-IsToldOf scope (err e) b t = t
  block_scope-IsToldOf scope (ok box) b t =
      let r = list_placement_producers (listings scope.0) in
      elim (is_empty box.operators && is_empty (wired_sidecars box.components.dataplane))
        as (λ (c : Bool). IsToldOf (if c then b else block_listed short_key scope box r b)) [
          | true ↦ t
          | false ↦ block_listed-IsToldOf scope box r b t
        ]

  scopes_loop-IsToldOf :
      (config : YanetConfigSpec) (ss : List SharedServiceScope) (b : Blocked)
      → IsToldOf b
      → IsToldOf (scopes_loop short_key listings config ss b)
  unfolding scopes_loop
  scopes_loop-IsToldOf config [] b t = t
  scopes_loop-IsToldOf config (s ∷ ss) b t =
      scopes_loop-IsToldOf config ss _ (block_scope-IsToldOf s (find_box_type config s.1) b t)

  pub blocked_shared_service_placement_scopes-IsToldOf :
      (config : YanetConfigSpec) (scopes : List SharedServiceScope)
      → (let b = blocked_shared_service_placement_scopes short_key listings config scopes in
          is_empty b.1 ≡ true → is_empty b.0 ≡ true)
  unfolding blocked_shared_service_placement_scopes
  blocked_shared_service_placement_scopes-IsToldOf config scopes =
      scopes_loop-IsToldOf config
        (sort_by scope_precedes (distinct_scopes short_key listings scopes)) ([], []) (λ h. refl)
