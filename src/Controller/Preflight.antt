-- ===== src/Controller/Preflight.antt =====
-- preflightResources (internal/controller/yanet_reconciler.go): what reconcileYanet requires of every
-- component before it changes a resource. The calls are those of the reconcile loop; the semantic
-- comparison of plans is a parameter. Where an error was met is left out of it.
pub mod Grows
pub mod Sound
pub mod Ready
use yanet_operator.Base.{
  Bool, true, false, not, ◌&&◌, Option, none, some, List, [], ◌∷◌, ◌++◌, String, contains,
  if◌then◌else◌, nat_eq, string_eq, int_eq, option_eq, Result, ok, err, ◌>>=◌, ℤ, pos, ltb_ℤ,
  is_empty,
}
use yanet_operator.Base.Dict.{Dict, lookup, insert, erase}
use yanet_operator.Kube.{Node, Deployment}
use yanet_operator.Api.Errors.{Error}
use yanet_operator.Api.Names.{NameRules}
use yanet_operator.Api.Types.{YanetConfigSpec}
use yanet_operator.Resolve.{ComponentKind, dataplane, ResolvedComponent, ResolvedSidecar}
use yanet_operator.Resolve.Component.{resolve_box_service_component}
use yanet_operator.Resolve.Enabled.{ComponentRef}
use yanet_operator.Manifests.Services.{
  is_controlplane, ServicePlan, PlanError, BuildContext, validate_plan, build_services,
}
use yanet_operator.Controller.Placement.{
  RenderedWorkload, PlacementError, Listings, validate_operator_placement_transition,
}
use yanet_operator.Controller.Reconcile.{Calls, effective, normalize_deployment_replicas}

pub data PreflightError : Type 0 where
  service_not_resolved unresolved : Error → PreflightError
  plan_refused : PlanError → PreflightError
  conflicting_plans not_built replicated : String → PreflightError
  no_numa_domain : PreflightError

pub data PreflightFailure : Type 0 where
  network_failed : String → PreflightFailure
  refused : List PreflightError → PreflightFailure
  unsafe : PlacementError → PreflightFailure

-- The variables that the closure and the loops change.
pub record Preflight : Type 0 where
  pub plans : Dict String ServicePlan
  pub collided : List String
  pub errors : List PreflightError

abbrev pub no_preflight : Preflight
no_preflight = record { plans = []; collided = []; errors = [] }

unfoldable pub complain : PreflightError → Preflight → Preflight
complain e p = record p { errors = p.errors ++ (e ∷ []) }

-- The installation's parts that the plans are made from.
pub record Declared : Type 0 where
  pub rules : NameRules
  pub short_key : String → String
  pub is_dns1035_label : String → Bool
  pub same_plan : ServicePlan → ServicePlan → Bool
  pub config : YanetConfigSpec
  pub context : BuildContext

module _ (declared : Declared) where
  abbrev pub put_plan : ServicePlan → Option ServicePlan → Preflight → Preflight
  put_plan plan none p = record p { plans = insert plan.name plan p.plans }
  put_plan plan (some existing) p =
      if not (declared.same_plan existing plan)
      then complain (conflicting_plans plan.name)
          (record p { plans = erase plan.name p.plans; collided = plan.name ∷ p.collided })
      else record p { plans = insert plan.name plan p.plans }

  abbrev pub add_plan : ServicePlan → Result PlanError (Unit {0}) → Preflight → Preflight
  add_plan plan (err e) p = complain (plan_refused e) p
  add_plan plan (ok u) p =
      if contains p.collided plan.name then p else put_plan plan (lookup plan.name p.plans) p

  unfoldable pub plans_loop : List ServicePlan → Preflight → Preflight
  unfolding validate_plan complain
  plans_loop [] p = p
  plans_loop (plan ∷ plans) p =
      plans_loop plans (add_plan plan (validate_plan declared.is_dns1035_label plan) p)

  abbrev pub add_declared : Result Error (Option ResolvedComponent) → Preflight → Preflight
  add_declared (err e) p = complain (service_not_resolved e) p
  add_declared (ok none) p = p
  add_declared (ok (some c)) p =
      plans_loop (build_services ResolvedSidecar declared.short_key declared.context c) p

  -- addServicePlans
  unfoldable pub add_service_plans : ResolvedComponent → Preflight → Preflight
  unfolding plans_loop resolve_box_service_component build_services complain
  add_service_plans c p =
      add_declared
        (resolve_box_service_component declared.rules declared.short_key declared.config
          declared.context.box_type c.kind c.name)
        p

abbrev pub is_dataplane : ComponentKind → Bool
is_dataplane dataplane = true
is_dataplane k = false

-- A Deployment with more than one replica.
abbrev pub is_replicated : Option ℤ → Bool
is_replicated none = false
is_replicated (some n) = ltb_ℤ (pos 1) n

module _ (declared : Declared) (C : Type 0) (calls : Calls C) (installation_enabled : Bool) where
  -- The body of the loop over a component's Deployments.
  abbrev pub check_one :
      ResolvedComponent
      → Deployment
      → List RenderedWorkload × Preflight
      → List RenderedWorkload × Preflight
  check_one rc d (ws, p) =
      let d' = normalize_deployment_replicas rc.enabled installation_enabled d in
      (
        ws ++ (record { replicas = d'.replicas; component = rc } ∷ []),
        if is_dataplane rc.kind && is_replicated d'.replicas
            then complain (replicated d'.meta.name) p
            else p,
      )

  unfoldable pub check_loop :
      ResolvedComponent
      → List Deployment
      → List RenderedWorkload × Preflight
      → List RenderedWorkload × Preflight
  unfolding complain
  check_loop rc [] acc = acc
  check_loop rc (d ∷ ds) acc = check_loop rc ds (check_one rc d acc)

  abbrev pub with_plans :
      ResolvedComponent → List RenderedWorkload × Preflight → List RenderedWorkload × Preflight
  with_plans rc (ws, p) = (ws, add_service_plans declared rc p)

  abbrev pub complain_of :
      PreflightError → List RenderedWorkload × Preflight → List RenderedWorkload × Preflight
  complain_of e (ws, p) = (ws, complain e p)

  abbrev pub check_rendered :
      ResolvedComponent
      → Result String (List Deployment)
      → List RenderedWorkload × Preflight
      → List RenderedWorkload × Preflight
  check_rendered rc (err e) acc = complain_of (not_built e) acc
  check_rendered rc (ok ds) acc =
      if is_controlplane rc.kind && rc.enabled && installation_enabled && is_empty ds
      then complain_of (no_numa_domain) acc
      else with_plans rc (check_loop rc ds acc)

  abbrev pub check_component :
      C
      → Result Error (Option ResolvedComponent)
      → List RenderedWorkload × Preflight
      → List RenderedWorkload × Preflight
  check_component context (err e) acc = complain_of (unresolved e) acc
  check_component context (ok none) acc = acc
  check_component context (ok (some rc)) acc =
      let rc' = effective C calls installation_enabled rc in
      check_rendered rc' (calls.render_deployments context rc') acc

  unfoldable pub check_components :
      C → List ComponentRef → List RenderedWorkload × Preflight → List RenderedWorkload × Preflight
  unfolding check_loop add_service_plans complain
  check_components context [] acc = acc
  check_components context (ref ∷ refs) acc =
      check_components context refs (check_component context (calls.resolve ref) acc)

  -- A runtime network that cannot be determined ends the check.
  unfoldable pub preflight_nodes :
      List ComponentRef
      → List Node
      → Dict String (List RenderedWorkload) × Preflight
      → Result String (Dict String (List RenderedWorkload) × Preflight)
  unfolding check_components insert
  preflight_nodes enabled [] acc = ok acc
  preflight_nodes enabled (n ∷ ns) (workloads, p) = calls.with_runtime_network n >>= λ context.
      let checked = check_components context enabled ([], p) in
      preflight_nodes enabled ns (insert n.name checked.0 workloads, checked.1)

  abbrev pub declare_component : Result Error (Option ResolvedComponent) → Preflight → Preflight
  declare_component (err e) p = complain (unresolved e) p
  declare_component (ok none) p = p
  declare_component (ok (some c)) p = add_service_plans declared c p

  unfoldable pub unmatched_loop : List ComponentRef → Preflight → Preflight
  unfolding add_service_plans complain
  unmatched_loop [] p = p
  unmatched_loop (ref ∷ refs) p = unmatched_loop refs (declare_component (calls.resolve ref) p)

  abbrev pub without_nodes : List ComponentRef → List Node → Preflight → Preflight
  without_nodes enabled [] p = unmatched_loop enabled p
  without_nodes enabled (n ∷ ns) p = p

  abbrev pub conclude :
      Result PlacementError (Unit {0})
      → Preflight
      → Result PreflightFailure (Dict String ServicePlan)
  conclude (err e) p = err (unsafe e)
  conclude (ok u) p = ok p.plans

  module _ (matches : Dict String String → Dict String String → Bool) (yanet_name : String)
      (listings : Listings) where
    abbrev pub with_draft :
        List ComponentRef
        → List Node
        → Result String (Dict String (List RenderedWorkload) × Preflight)
        → Result PreflightFailure (Dict String ServicePlan)
    with_draft enabled nodes (err e) = err (network_failed e)
    with_draft enabled nodes (ok (workloads, p)) =
        let draft = without_nodes enabled nodes p in
        if not (is_empty draft.errors)
        then err (refused draft.errors)
        else conclude
            (validate_operator_placement_transition declared.short_key matches yanet_name nodes
              workloads listings)
            draft

    unfoldable pub preflight_resources :
        List ComponentRef → List Node → Result PreflightFailure (Dict String ServicePlan)
    unfolding preflight_nodes unmatched_loop validate_operator_placement_transition
    preflight_resources enabled nodes =
        with_draft enabled nodes (preflight_nodes enabled nodes ([], no_preflight))
