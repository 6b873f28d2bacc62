-- ===== src/Controller/Preflight/Sound.antt =====
-- What a preflight without errors has established (internal/controller/yanet_reconciler.go).
use yanet_operator.Base.{
  ◌≡◌, refl, sym, Bool, true, false, not, ◌&&◌, Option, none, some, List, [], ◌∷◌, arith, String,
  if◌then◌else◌, nat_eq, string_eq, int_eq, option_eq, Result, ok, err, >>=-eq-ok, All, is_empty,
}
use yanet_operator.Base.{subst, ok_inj}
use yanet_operator.Base.Dict.{Dict, insert}
use yanet_operator.Kube.{Node, Deployment}
use yanet_operator.Api.Errors.{Error}
use yanet_operator.Resolve.{ResolvedComponent}
use yanet_operator.Resolve.Enabled.{ComponentRef}
use yanet_operator.Manifests.Services.{is_controlplane, ServicePlan}
use yanet_operator.Controller.Placement.{
  RenderedWorkload, Listings, validate_operator_placement_transition,
}
use yanet_operator.Controller.Reconcile.{Calls, effective, normalize_deployment_replicas}
use yanet_operator.Controller.Preflight.{
  Preflight, PreflightError, not_built, no_numa_domain, unresolved, replicated, Declared, complain,
  is_dataplane, is_replicated, check_one, check_loop, with_plans, complain_of, check_rendered,
  check_component, check_components, preflight_nodes, no_preflight, without_nodes, conclude,
  with_draft, preflight_resources, refused,
}
use yanet_operator.Controller.Preflight.Grows.{Grows, complain-absurd, add_service_plans-Grows}

module _ (declared : Declared) (C : Type 0) (calls : Calls C) (installation_enabled : Bool) where
  abbrev pub IsSingle : ResolvedComponent → Deployment → Type 0
  IsSingle rc d =
      (is_dataplane rc.kind
        && is_replicated (normalize_deployment_replicas rc.enabled installation_enabled d).replicas)
      ≡ false

  check_one-IsSingle :
      (rc : ResolvedComponent) (d : Deployment) (acc : List RenderedWorkload × Preflight)
      → is_empty (check_one declared C calls installation_enabled rc d acc).1.errors ≡ true
      → (is_empty acc.1.errors ≡ true) × IsSingle rc d
  check_one-IsSingle rc d (ws, p) =
      let d' = normalize_deployment_replicas rc.enabled installation_enabled d in
      elim (is_dataplane rc.kind && is_replicated d'.replicas)
        as (λ (b : Bool).
          is_empty (if b then complain (replicated d'.meta.name) p else p).errors ≡ true
          → (is_empty p.errors ≡ true) × (b ≡ false)) [
            | true ↦ λ h. complain-absurd (replicated d'.meta.name) p h
            | false ↦ λ h. (h, refl)
          ]

  check_loop-IsSingle :
      (rc : ResolvedComponent) (ds : List Deployment) (acc : List RenderedWorkload × Preflight)
      → is_empty (check_loop declared C calls installation_enabled rc ds acc).1.errors ≡ true
      → (is_empty acc.1.errors ≡ true) × All (IsSingle rc) ds
  unfolding check_loop
  check_loop-IsSingle rc [] acc h = (h, tt)
  check_loop-IsSingle rc (d ∷ ds) acc h =
      let (quiet, rest) =
        check_loop-IsSingle rc ds (check_one declared C calls installation_enabled rc d acc) h in
      let (before, here) = check_one-IsSingle rc d acc quiet in (before, (here, rest))

  -- A component was rendered, an enabled controlplane to some Deployment, and a dataplane to
  -- Deployments of one replica at most.
  abbrev pub IsRendered : ResolvedComponent → Result String (List Deployment) → Type 0
  IsRendered component (err e) = ⊥
  IsRendered component (ok ds) =
      ((is_controlplane component.kind && component.enabled && installation_enabled && is_empty ds)
        ≡ false)
      × All (IsSingle component) ds

  abbrev pub IsRenderable : C → Result Error (Option ResolvedComponent) → Type 0
  IsRenderable context (err e) = ⊥
  IsRenderable context (ok none) = Unit
  IsRenderable context (ok (some rc)) =
      let component = effective C calls installation_enabled rc in
      IsRendered component (calls.render_deployments context component)

  with_plans-Grows :
      (rc : ResolvedComponent) (acc : List RenderedWorkload × Preflight)
      → Grows acc.1 (with_plans declared C calls installation_enabled rc acc).1
  with_plans-Grows rc (ws, p) = add_service_plans-Grows declared rc p

  complain_of-absurd :
      {A : Type 0}
      → (e : PreflightError) (acc : List RenderedWorkload × Preflight)
      → is_empty (complain_of declared C calls installation_enabled e acc).1.errors ≡ true
      → A
  complain_of-absurd e (ws, p) h = complain-absurd e p h

  check_rendered_sound :
      (rc : ResolvedComponent) (rendered : Result String (List Deployment))
      (acc : List RenderedWorkload × Preflight)
      → is_empty (check_rendered declared C calls installation_enabled rc rendered acc).1.errors
        ≡ true
      → (is_empty acc.1.errors ≡ true) × IsRendered rc rendered
  check_rendered_sound rc (err e) acc = λ h. complain_of-absurd (not_built e) acc h
  check_rendered_sound rc (ok ds) acc =
      elim (is_controlplane rc.kind && rc.enabled && installation_enabled && is_empty ds)
          as (λ (b : Bool).
            (is_controlplane rc.kind && rc.enabled && installation_enabled && is_empty ds) ≡ b
            → is_empty
                (if b
                  then complain_of declared C calls installation_enabled no_numa_domain acc
                  else with_plans declared C calls installation_enabled rc
                      (check_loop declared C calls installation_enabled rc ds acc)).1.errors
              ≡ true
            → (is_empty acc.1.errors ≡ true) × IsRendered rc (ok ds)) [
              | true ↦ λ q h. complain_of-absurd no_numa_domain acc h
              | false ↦ λ q h.
                  let checked = check_loop declared C calls installation_enabled rc ds acc in
                  let (before, single) =
                    check_loop-IsSingle rc ds acc (with_plans-Grows rc checked h) in
                  (before, (q, single))
            ]
        refl

  check_component_sound :
      (context : C) (found : Result Error (Option ResolvedComponent))
      (acc : List RenderedWorkload × Preflight)
      → is_empty (check_component declared C calls installation_enabled context found acc).1.errors
        ≡ true
      → (is_empty acc.1.errors ≡ true) × IsRenderable context found
  check_component_sound context (err e) acc h = complain_of-absurd (unresolved e) acc h
  check_component_sound context (ok none) acc h = (h, tt)
  check_component_sound context (ok (some rc)) acc h =
      let component = effective C calls installation_enabled rc in
      check_rendered_sound component (calls.render_deployments context component) acc h

  check_components_sound :
      (context : C) (refs : List ComponentRef) (acc : List RenderedWorkload × Preflight)
      → is_empty (check_components declared C calls installation_enabled context refs acc).1.errors
        ≡ true
      → (is_empty acc.1.errors ≡ true)
        × All (λ (ref : ComponentRef). IsRenderable context (calls.resolve ref)) refs
  unfolding check_components
  check_components_sound context [] acc h = (h, tt)
  check_components_sound context (ref ∷ refs) acc h =
      let next =
        check_component declared C calls installation_enabled context (calls.resolve ref) acc in
      let (quiet, rest) = check_components_sound context refs next h in
      let (before, here) = check_component_sound context (calls.resolve ref) acc quiet in
      (before, (here, rest))

  -- A node has its runtime network, and every enabled component can be rendered for it.
  abbrev pub IsReadyNode : List ComponentRef → Node → Type 0
  IsReadyNode enabled n =
      (context : C) × (calls.with_runtime_network n ≡ ok context)
      × All (λ (ref : ComponentRef). IsRenderable context (calls.resolve ref)) enabled

  preflight_nodes_sound :
      (enabled : List ComponentRef) (ns : List Node)
      (acc out : Dict String (List RenderedWorkload) × Preflight)
      → preflight_nodes declared C calls installation_enabled enabled ns acc ≡ ok out
      → is_empty out.1.errors ≡ true
      → (is_empty acc.1.errors ≡ true) × All (IsReadyNode enabled) ns
  unfolding preflight_nodes
  preflight_nodes_sound enabled [] acc out e h = (
    subst (λ (x : Dict String (List RenderedWorkload) × Preflight). is_empty x.1.errors ≡ true)
        (sym (ok_inj e)) h,
    tt,
  )
  preflight_nodes_sound enabled (n ∷ ns) (workloads, p) out e h =
      let (context, network, rest) = >>=-eq-ok (calls.with_runtime_network n) _ e in
      let checked =
        check_components declared C calls installation_enabled context enabled ([], p) in
      let (quiet, others) =
        preflight_nodes_sound enabled ns (insert n.name checked.0 workloads, checked.1) out rest
          h in
      let (before, here) = check_components_sound context enabled ([], p) quiet in
      (before, ((context, network, here), others))

  module _ (matches : Dict String String → Dict String String → Bool) (yanet_name : String)
      (listings : Listings) where
    with_draft_sound :
        (enabled : List ComponentRef) (nodes : List Node)
        (result : Result String (Dict String (List RenderedWorkload) × Preflight))
        (plans : Dict String ServicePlan)
        → with_draft declared C calls installation_enabled matches yanet_name listings enabled nodes
            result
          ≡ ok plans
        → (out : Dict String (List RenderedWorkload) × Preflight) × (result ≡ ok out)
          × (is_empty
                (without_nodes declared C calls installation_enabled enabled nodes out.1).errors
              ≡ true)
    with_draft_sound enabled nodes (err e) plans = λ h. ground (arith, h)
    with_draft_sound enabled nodes (ok (workloads, p)) plans =
        let draft = without_nodes declared C calls installation_enabled enabled nodes p in
        let guard =
          validate_operator_placement_transition declared.short_key matches yanet_name nodes
            workloads listings in
        elim (is_empty draft.errors)
            as (λ (b : Bool).
              is_empty draft.errors ≡ b
              → (if not b
                  then err (refused draft.errors)
                  else conclude declared C calls installation_enabled guard draft)
                ≡ ok plans
              → (out : Dict String (List RenderedWorkload) × Preflight) × (◌≡◌
                  {A = Result String (Dict String (List RenderedWorkload) × Preflight)}
                  (ok (workloads, p)) (ok out))
                × (is_empty
                      (without_nodes declared C calls installation_enabled enabled nodes
                        out.1).errors
                    ≡ true)) [
                      | false ↦ λ q h. ground (arith, h)
                      | true ↦ λ q h. ((workloads, p), refl, q)
                    ]
          refl

    -- When the preflight of an installation passes, every node has its runtime network, every enabled
    -- component was resolved and rendered for it, an enabled controlplane to some Deployment and a
    -- dataplane to Deployments of at most one replica.
    pub preflight_resources-IsReady :
        (enabled : List ComponentRef) (nodes : List Node) (plans : Dict String ServicePlan)
        → preflight_resources declared C calls installation_enabled matches yanet_name listings
            enabled nodes
          ≡ ok plans
        → All (IsReadyNode enabled) nodes
    unfolding preflight_resources
    preflight_resources-IsReady enabled [] plans h = tt
    preflight_resources-IsReady enabled (n ∷ ns) plans h =
        let result =
          preflight_nodes declared C calls installation_enabled enabled (n ∷ ns)
            ([], no_preflight) in
        let (out, e, quiet) = with_draft_sound enabled (n ∷ ns) result plans h in
        (preflight_nodes_sound enabled (n ∷ ns) ([], no_preflight) out e quiet).1
