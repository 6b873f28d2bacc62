-- ===== src/Controller/Reconcile/Wanted.antt =====
-- After the loop of reconcileYanet without an error, what each component has is in the desired set
-- (internal/controller/yanet_reconciler.go).
use yanet_operator.Base.{
  ◌≡◌, refl, sym, ◌∙◌, ◌⊎◌, inl, inr, Bool, true, false, Option, none, some, List, [], ◌∷◌, ◌++◌,
  arith, String, contains, if◌then◌else◌, nat_eq, string_eq, int_eq, option_eq, Result, ok, err,
  All, is_empty,
}
use yanet_operator.Base.{All-weaken}
use yanet_operator.Kube.{Node, Deployment}
use yanet_operator.Api.Errors.{Error}
use yanet_operator.Resolve.{ResolvedComponent, ResolvedSidecar}
use yanet_operator.Resolve.Enabled.{ComponentRef}
use yanet_operator.Manifests.Ports.{is_colocated}
use yanet_operator.Controller.Reconcile.{
  NodeStatus, Rounds, Calls, normalize_deployment_replicas, reports_loop, report_one, not_resolved,
  config_maps_failed, build_failed, add_rendered, want_config_maps, add_configured, effective,
  add_component, components_loop,
}
use yanet_operator.Controller.Reconcile.Extends.{
  Extends, is_empty-snoc, reports_loop-Extends, add_rendered-Extends, components_loop-Extends,
}

All-own : (names rest : List String) → All (λ (m : String). contains (names ++ rest) m ≡ true) names
All-own [] rest = tt
All-own (n ∷ names) rest =
    (ground arith, All-weaken (λ m h. ground (arith, h)) names (All-own names rest))

Bool-apart : true ≡ false → ⊥
Bool-apart q = ground (arith, q)

module _ (C : Type 0) (calls : Calls C) (installation_enabled : Bool) where
  normalize-name :
      (enabled : Bool) (d : Deployment)
      → (normalize_deployment_replicas enabled installation_enabled d).meta.name ≡ d.meta.name
  normalize-name enabled d = ground arith

  -- Every Deployment rendered is wanted afterwards.
  abbrev pub AllWanted : List Deployment → Rounds → Type 0
  AllWanted ds r = All (λ (d : Deployment). contains r.desired.deployments d.meta.name ≡ true) ds

  reports_loop-AllWanted :
      (node : Node) (ref : ComponentRef) (enabled drift : Bool) (ds : List Deployment)
      (acc : NodeStatus × Rounds)
      → AllWanted ds (reports_loop C calls installation_enabled node ref enabled drift ds acc).1
  unfolding reports_loop
  reports_loop-AllWanted node ref enabled drift [] acc = tt
  reports_loop-AllWanted node ref enabled drift (d ∷ ds) acc =
      let next = report_one C calls installation_enabled node ref enabled drift d acc in
      (
        (reports_loop-Extends C calls installation_enabled node ref enabled drift ds next).1
            d.meta.name (wanted_now acc),
        reports_loop-AllWanted node ref enabled drift ds next,
      )
    where
      wanted_now :
          (a : NodeStatus × Rounds)
          → contains
              (report_one C calls installation_enabled node ref enabled drift d
                a).1.desired.deployments
              d.meta.name
            ≡ true
      wanted_now (ns, r) = ground (arith, normalize-name enabled d)

  -- A component of a node was rendered, and what was rendered is wanted.
  abbrev pub IsWanted : C → Result Error (Option ResolvedComponent) → Rounds → Type 0
  IsWanted context (err e) r = ⊥
  IsWanted context (ok none) r = Unit
  IsWanted context (ok (some rc)) r =
      let component = effective C calls installation_enabled rc in
      (is_colocated ResolvedSidecar rc ≡ true)
      ⊎ ((found : List String × Bool) × (ds : List Deployment) × (calls.apply_inline_config_maps
              context component
            ≡ ok found)
          × (calls.render_deployments context component ≡ ok ds)
          × All (λ (m : String). contains r.desired.config_maps m ≡ true) found.0
          × AllWanted ds r)

  pub IsWanted-Extends :
      (context : C) (found : Result Error (Option ResolvedComponent)) (r q : Rounds)
      → Extends r q
      → IsWanted context found r
      → IsWanted context found q
  IsWanted-Extends context (err e) r q x h = h
  IsWanted-Extends context (ok none) r q x h = tt
  IsWanted-Extends context (ok (some rc)) r q x (inl h) = inl h
  IsWanted-Extends context (ok (some rc)) r q x (inr (found, ds, e, e', h, k)) = inr (
    found,
    ds,
    e,
    e',
    All-weaken (λ m w. x.2 m w) found.0 h,
    All-weaken (λ d w. x.1 d.meta.name w) ds k,
  )

  add_rendered-AllWanted :
      (node : Node) (ref : ComponentRef) (enabled drift : Bool)
      (rendered : Result String (List Deployment)) (acc : NodeStatus × Rounds)
      → (let after =
            (add_rendered C calls installation_enabled node ref enabled drift rendered acc).1 in
          is_empty after.errors ≡ true
          → (ds : List Deployment) × (rendered ≡ ok ds) × AllWanted ds after)
  add_rendered-AllWanted node ref enabled drift (err e) (ns, r) = λ h.
      let q : true ≡ false = sym h ∙ is_empty-snoc r.errors (build_failed e) in
      absurd (Bool-apart q)
  add_rendered-AllWanted node ref enabled drift (ok ds) acc =
      λ h. (ds, refl, reports_loop-AllWanted node ref enabled drift ds acc)

  add_configured-IsWanted :
      (node : Node) (context : C) (ref : ComponentRef) (component : ResolvedComponent)
      (applied : Result String (List String × Bool)) (acc : NodeStatus × Rounds)
      → (let after =
            (add_configured C calls installation_enabled node context ref component applied
              acc).1 in
          is_empty after.errors ≡ true
          → (found : List String × Bool) × (ds : List Deployment) × (applied ≡ ok found)
            × (calls.render_deployments context component ≡ ok ds)
            × All (λ (m : String). contains after.desired.config_maps m ≡ true) found.0
            × AllWanted ds after)
  add_configured-IsWanted node context ref component (err e) (ns, r) =
      λ h. absurd (Bool-apart (sym h ∙ is_empty-snoc r.errors (config_maps_failed e)))
  add_configured-IsWanted node context ref component (ok found) (ns, r) = λ h.
      let rendered = calls.render_deployments context component in
      let wanted = want_config_maps C calls installation_enabled found.0 (ns, r) in
      let grown =
        add_rendered-Extends C calls installation_enabled node ref component.enabled found.1
          rendered wanted in
      let (ds, e, w) =
        add_rendered-AllWanted node ref component.enabled found.1 rendered wanted h in
      (
        found,
        ds,
        refl,
        e,
        All-weaken (λ m c. grown.2 m c) found.0 (All-own found.0 r.desired.config_maps),
        w,
      )

  add_component-IsWanted :
      (node : Node) (context : C) (ref : ComponentRef)
      (found : Result Error (Option ResolvedComponent)) (acc : NodeStatus × Rounds)
      → (let after = (add_component C calls installation_enabled node context ref found acc).1 in
          is_empty after.errors ≡ true → IsWanted context found after)
  add_component-IsWanted node context ref (err e) (ns, r) =
      λ h. Bool-apart (sym h ∙ is_empty-snoc r.errors (not_resolved e))
  add_component-IsWanted node context ref (ok none) acc = λ h. tt
  add_component-IsWanted node context ref (ok (some rc)) acc =
      let component = effective C calls installation_enabled rc in
      let applied = calls.apply_inline_config_maps context component in
      let configured =
        add_configured C calls installation_enabled node context ref component applied acc in
      elim (is_colocated ResolvedSidecar rc)
        as (λ (b : Bool).
          let after = (if b then acc else configured).1 in
          is_empty after.errors ≡ true
          → (b ≡ true)
            ⊎ ((found : List String × Bool) × (ds : List Deployment) × (applied ≡ ok found)
                × (calls.render_deployments context component ≡ ok ds)
                × All (λ (m : String). contains after.desired.config_maps m ≡ true) found.0
                × AllWanted ds after)) [
                  | true ↦ λ h. inl refl
                  | false ↦
                      λ h. inr (add_configured-IsWanted node context ref component applied acc h)
                ]

  pub components_loop-IsWanted :
      (node : Node) (context : C) (refs : List ComponentRef) (acc : NodeStatus × Rounds)
      → (let after = (components_loop C calls installation_enabled node context refs acc).1 in
          is_empty after.errors ≡ true
          → All (λ (ref : ComponentRef). IsWanted context (calls.resolve ref) after) refs)
  unfolding components_loop
  components_loop-IsWanted node context [] acc = λ h. tt
  components_loop-IsWanted node context (ref ∷ refs) acc = λ h.
      let found = calls.resolve ref in
      let next = add_component C calls installation_enabled node context ref found acc in
      let after = (components_loop C calls installation_enabled node context refs next).1 in
      let grown = components_loop-Extends C calls installation_enabled node context refs next in
      (
        IsWanted-Extends context found next.1 after grown
            (add_component-IsWanted node context ref found acc (grown.0 h)),
        components_loop-IsWanted node context refs next h,
      )
