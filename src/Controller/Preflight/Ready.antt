-- ===== src/Controller/Preflight/Ready.antt =====
-- What the preflight promises to the reconcile loop (internal/controller/yanet_reconciler.go).
use yanet_operator.Base.{
  ◌≡◌, refl, Bool, true, false, not, Option, none, some, List, [], ◌∷◌, ◌++◌, String, ◌==◌,
  if◌then◌else◌, nat_eq, string_eq, int_eq, option_eq, Result, ok, err, All,
}
use yanet_operator.Base.Dict.{Dict}
use yanet_operator.Kube.{Node, Deployment}
use yanet_operator.Api.Errors.{Error}
use yanet_operator.Resolve.{ResolvedComponent, ResolvedSidecar}
use yanet_operator.Resolve.Enabled.{ComponentRef}
use yanet_operator.Manifests.Ports.{is_colocated}
use yanet_operator.Manifests.Services.{ServicePlan}
use yanet_operator.Controller.Placement.{Listings}
use yanet_operator.Controller.Reconcile.{
  Calls, effective, normalize_deployment_replicas, NodeStatus, Rounds, no_rounds, LoopError,
  not_resolved, config_maps_failed, build_failed, apply_failed, pods_not_listed, note_error,
  report_one, reports_loop, add_rendered, want_config_maps, add_configured, note_missing,
  add_component, components_loop, fresh_node, store_node, nodes_loop,
}
use yanet_operator.Controller.Preflight.{Declared, preflight_resources}
use yanet_operator.Controller.Preflight.Sound.{
  IsRendered, IsRenderable, IsReadyNode, preflight_resources-IsReady,
}

-- The error is not one of resolving or rendering a component.
abbrev pub IsOfRequest : LoopError → Type 0
IsOfRequest (not_resolved e) = ⊥
IsOfRequest (config_maps_failed e) = Unit
IsOfRequest (build_failed e) = ⊥
IsOfRequest (apply_failed e) = Unit
IsOfRequest (pods_not_listed e) = ⊥

abbrev AllOfRequest : Rounds → Type 0
AllOfRequest r = All IsOfRequest r.errors

All-snoc :
    (es : List LoopError) (e : LoopError)
    → All IsOfRequest es
    → IsOfRequest e
    → All IsOfRequest (es ++ (e ∷ []))
All-snoc [] e h k = (k, tt)
All-snoc (x ∷ es) e h k = (h.0, All-snoc es e h.1 k)

note_error-IsOfRequest :
    (o : Option String) (es : List LoopError)
    → All IsOfRequest es
    → All IsOfRequest (note_error o es)
note_error-IsOfRequest none es h = h
note_error-IsOfRequest (some e) es h = All-snoc es (apply_failed e) h tt

module _ (declared : Declared) (C : Type 0) (calls : Calls C) (installation_enabled : Bool) where
  report_one-AllOfRequest :
      (node : Node) (ref : ComponentRef) (enabled drift : Bool) (d : Deployment)
      (acc : NodeStatus × Rounds)
      → AllOfRequest acc.1
      → AllOfRequest (report_one C calls installation_enabled node ref enabled drift d acc).1
  report_one-AllOfRequest node ref enabled drift d (ns, r) h =
      note_error-IsOfRequest
        (calls.apply_deployment node
          (normalize_deployment_replicas enabled installation_enabled d)).error
        r.errors h

  reports_loop-AllOfRequest :
      (node : Node) (ref : ComponentRef) (enabled drift : Bool) (ds : List Deployment)
      (acc : NodeStatus × Rounds)
      → AllOfRequest acc.1
      → AllOfRequest (reports_loop C calls installation_enabled node ref enabled drift ds acc).1
  unfolding reports_loop
  reports_loop-AllOfRequest node ref enabled drift [] acc h = h
  reports_loop-AllOfRequest node ref enabled drift (d ∷ ds) acc h =
      reports_loop-AllOfRequest node ref enabled drift ds
        (report_one C calls installation_enabled node ref enabled drift d acc)
        (report_one-AllOfRequest node ref enabled drift d acc h)

  add_configured-AllOfRequest :
      (node : Node) (context : C) (ref : ComponentRef) (component : ResolvedComponent)
      (applied : Result String (List String × Bool)) (acc : NodeStatus × Rounds)
      → IsRendered declared C calls installation_enabled component
          (calls.render_deployments context component)
      → AllOfRequest acc.1
      → AllOfRequest
          (add_configured C calls installation_enabled node context ref component applied acc).1
  add_configured-AllOfRequest node context ref component (err e) (ns, r) k h =
      All-snoc r.errors (config_maps_failed e) h tt
  add_configured-AllOfRequest node context ref component (ok found) (ns, r) k h =
      rendered (calls.render_deployments context component) k
    where
      rendered :
          (ds : Result String (List Deployment))
          → IsRendered declared C calls installation_enabled component ds
          → AllOfRequest
              (add_rendered C calls installation_enabled node ref component.enabled found.1 ds
                (want_config_maps C calls installation_enabled found.0 (ns, r))).1
      rendered (err e) q = absurd q
      rendered (ok ds) q =
          reports_loop-AllOfRequest node ref component.enabled found.1 ds
            (want_config_maps C calls installation_enabled found.0 (ns, r)) h

  note_missing-AllOfRequest :
      (ref : ComponentRef) (acc : NodeStatus × Rounds)
      → AllOfRequest acc.1
      → AllOfRequest (note_missing C calls installation_enabled ref acc).1
  note_missing-AllOfRequest ref (ns, r) h =
      elim (not (ref.operator_name == ""))
        as (λ (b : Bool).
          AllOfRequest
            (if◌then◌else◌ {A = NodeStatus × Rounds} b
              (ns, record r { missing_operators = ref.operator_name ∷ r.missing_operators })
              (ns, r)).1) [ true ↦ h | false ↦ h ]

  add_component-AllOfRequest :
      (node : Node) (context : C) (ref : ComponentRef)
      (found : Result Error (Option ResolvedComponent)) (acc : NodeStatus × Rounds)
      → IsRenderable declared C calls installation_enabled context found
      → AllOfRequest acc.1
      → AllOfRequest (add_component C calls installation_enabled node context ref found acc).1
  add_component-AllOfRequest node context ref (err e) acc k h = absurd k
  add_component-AllOfRequest node context ref (ok none) acc k h =
      note_missing-AllOfRequest ref acc h
  add_component-AllOfRequest node context ref (ok (some rc)) acc k h =
      let component = effective C calls installation_enabled rc in
      let applied = calls.apply_inline_config_maps context component in
      elim (is_colocated ResolvedSidecar rc)
        as (λ (b : Bool).
          AllOfRequest
            (if b
              then acc
              else add_configured C calls installation_enabled node context ref component applied
                  acc).1) [
                    | true ↦ h
                    | false ↦ add_configured-AllOfRequest node context ref component applied acc k h
                  ]

  components_loop-AllOfRequest :
      (node : Node) (context : C) (refs : List ComponentRef) (acc : NodeStatus × Rounds)
      → All
          (λ (ref : ComponentRef).
            IsRenderable declared C calls installation_enabled context (calls.resolve ref))
          refs
      → AllOfRequest acc.1
      → AllOfRequest (components_loop C calls installation_enabled node context refs acc).1
  unfolding components_loop
  components_loop-AllOfRequest node context [] acc k h = h
  components_loop-AllOfRequest node context (ref ∷ refs) acc k h =
      components_loop-AllOfRequest node context refs
        (add_component C calls installation_enabled node context ref (calls.resolve ref) acc) k.1
        (add_component-AllOfRequest node context ref (calls.resolve ref) acc k.0 h)

  store_node-errors :
      (node : Node) (acc : NodeStatus × Rounds)
      → AllOfRequest acc.1
      → AllOfRequest (store_node C calls installation_enabled node acc)
  store_node-errors node (ns, r) h = h

  nodes_loop-AllOfRequest :
      (enabled : List ComponentRef) (nodes : List Node) (start : Rounds)
      → All (IsReadyNode declared C calls installation_enabled enabled) nodes
      → AllOfRequest start
      → (r : Rounds) × (nodes_loop C calls installation_enabled enabled nodes start ≡ ok r)
        × AllOfRequest r
  unfolding nodes_loop
  nodes_loop-AllOfRequest enabled [] start k h = (start, refl, h)
  nodes_loop-AllOfRequest enabled (n ∷ ns) start ((context, network, here), others) h =
      let done =
        components_loop C calls installation_enabled n context enabled
          (fresh_node C calls installation_enabled, start) in
      let (r, e, q) =
        nodes_loop-AllOfRequest enabled ns (store_node C calls installation_enabled n done) others (
          store_node-errors n done (
            components_loop-AllOfRequest n context enabled
              (fresh_node C calls installation_enabled, start) here h)) in
      (r, rw network e, q)

  -- When the preflight of an installation passes, the loop that follows it comes to an end, and its errors
  -- are only those of requests for ConfigMaps and Deployments: nothing fails to resolve or to render.
  pub nodes_loop-of_preflight :
      (matches : Dict String String → Dict String String → Bool) (yanet_name : String)
      (listings : Listings) (enabled : List ComponentRef) (nodes : List Node)
      (plans : Dict String ServicePlan)
      → preflight_resources declared C calls installation_enabled matches yanet_name listings
          enabled nodes
        ≡ ok plans
      → (r : Rounds) × (nodes_loop C calls installation_enabled enabled nodes no_rounds ≡ ok r)
        × All IsOfRequest r.errors
  nodes_loop-of_preflight matches yanet_name listings enabled nodes plans h =
      nodes_loop-AllOfRequest enabled nodes no_rounds
        (preflight_resources-IsReady declared C calls installation_enabled matches yanet_name
          listings enabled nodes plans h)
        tt
