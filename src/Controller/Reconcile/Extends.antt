-- ===== src/Controller/Reconcile/Extends.antt =====
-- The loop of reconcileYanet (internal/controller/yanet_reconciler.go) only adds to the desired set and
-- to its errors.
use yanet_operator.Base.{
  ◌≡◌, refl, Bool, true, false, ◌||◌, Option, none, some, List, [], ◌∷◌, ◌++◌, arith, String,
  contains, if◌then◌else◌, nat_eq, string_eq, int_eq, option_eq, Result, ok, err, is_empty,
}
use yanet_operator.Kube.{Node, Deployment}
use yanet_operator.Api.Errors.{Error}
use yanet_operator.Resolve.{ResolvedComponent, ResolvedSidecar}
use yanet_operator.Resolve.Enabled.{ComponentRef}
use yanet_operator.Manifests.Ports.{is_colocated}
use yanet_operator.Controller.Reconcile.{
  NodeStatus, Rounds, LoopError, Calls, normalize_deployment_replicas, note_error, reports_loop,
  report_one, not_resolved, config_maps_failed, build_failed, add_error, add_rendered,
  want_config_maps, add_configured, effective, add_component, components_loop,
}

abbrev pub Extends : Rounds → Rounds → Type 0
Extends r q =
    (is_empty q.errors ≡ true → is_empty r.errors ≡ true)
    × ((m : String)
        → contains r.desired.deployments m ≡ true
        → contains q.desired.deployments m ≡ true)
    × ((m : String)
        → contains r.desired.config_maps m ≡ true
        → contains q.desired.config_maps m ≡ true)

pub Extends-refl : (r : Rounds) → Extends r r
Extends-refl r = (λ h. h, λ m h. h, λ m h. h)

pub Extends-trans : (r q s : Rounds) → Extends r q → Extends q s → Extends r s
Extends-trans r q s a b = (λ h. a.0 (b.0 h), λ m h. b.1 m (a.1 m h), λ m h. b.2 m (a.2 m h))

pub contains-append :
    (xs ys : List String) (m : String) → contains (xs ++ ys) m ≡ (contains xs m || contains ys m)
contains-append [] ys m = refl
contains-append (x ∷ xs) ys m = ground (arith, contains-append xs ys m)

pub is_empty-snoc : (xs : List LoopError) (e : LoopError) → is_empty (xs ++ (e ∷ [])) ≡ false
is_empty-snoc [] e = refl
is_empty-snoc (x ∷ xs) e = refl

pub note_error-is_empty :
    (o : Option String) (errors : List LoopError)
    → is_empty (note_error o errors) ≡ true
    → is_empty errors ≡ true
note_error-is_empty none errors h = h
note_error-is_empty (some e) [] h = refl
note_error-is_empty (some e) (x ∷ errors) h = h

module _ (C : Type 0) (calls : Calls C) (installation_enabled : Bool) where
  pub report_one-Extends :
      (node : Node) (ref : ComponentRef) (enabled drift : Bool) (d : Deployment)
      (acc : NodeStatus × Rounds)
      → Extends acc.1 (report_one C calls installation_enabled node ref enabled drift d acc).1
  report_one-Extends node ref enabled drift d (ns, r) =
      let d' = normalize_deployment_replicas enabled installation_enabled d in
      (
        λ h. note_error-is_empty (calls.apply_deployment node d').error r.errors h,
        λ m h. ground (arith, h),
        λ m h. h,
      )

  pub reports_loop-Extends :
      (node : Node) (ref : ComponentRef) (enabled drift : Bool) (ds : List Deployment)
      (acc : NodeStatus × Rounds)
      → Extends acc.1 (reports_loop C calls installation_enabled node ref enabled drift ds acc).1
  unfolding reports_loop
  reports_loop-Extends node ref enabled drift [] acc = Extends-refl acc.1
  reports_loop-Extends node ref enabled drift (d ∷ ds) acc =
      let next = report_one C calls installation_enabled node ref enabled drift d acc in
      Extends-trans acc.1 next.1
        (reports_loop C calls installation_enabled node ref enabled drift ds next).1
        (report_one-Extends node ref enabled drift d acc)
        (reports_loop-Extends node ref enabled drift ds next)

  pub add_error-Extends :
      (e : LoopError) (acc : NodeStatus × Rounds)
      → Extends acc.1 (add_error C calls installation_enabled e acc).1
  add_error-Extends e (ns, r) =
      (λ h. ground (arith, h, is_empty-snoc r.errors e), λ m h. h, λ m h. h)

  pub add_rendered-Extends :
      (node : Node) (ref : ComponentRef) (enabled drift : Bool)
      (rendered : Result String (List Deployment)) (acc : NodeStatus × Rounds)
      → Extends acc.1
          (add_rendered C calls installation_enabled node ref enabled drift rendered acc).1
  add_rendered-Extends node ref enabled drift (err e) acc = add_error-Extends (build_failed e) acc
  add_rendered-Extends node ref enabled drift (ok ds) acc =
      reports_loop-Extends node ref enabled drift ds acc

  pub want_config_maps-Extends :
      (names : List String) (acc : NodeStatus × Rounds)
      → Extends acc.1 (want_config_maps C calls installation_enabled names acc).1
  want_config_maps-Extends names (ns, r) =
      (λ h. h, λ m h. h, λ m h. ground (arith, h, contains-append names r.desired.config_maps m))

  pub add_configured-Extends :
      (node : Node) (context : C) (ref : ComponentRef) (component : ResolvedComponent)
      (applied : Result String (List String × Bool)) (acc : NodeStatus × Rounds)
      → Extends acc.1
          (add_configured C calls installation_enabled node context ref component applied acc).1
  add_configured-Extends node context ref component (err e) acc =
      add_error-Extends (config_maps_failed e) acc
  add_configured-Extends node context ref component (ok found) acc =
      let rendered = calls.render_deployments context component in
      let wanted = want_config_maps C calls installation_enabled found.0 acc in
      Extends-trans acc.1 wanted.1
        (add_rendered C calls installation_enabled node ref component.enabled found.1 rendered
          wanted).1
        (want_config_maps-Extends found.0 acc)
        (add_rendered-Extends node ref component.enabled found.1 rendered wanted)

  pub add_component-Extends :
      (node : Node) (context : C) (ref : ComponentRef)
      (found : Result Error (Option ResolvedComponent)) (acc : NodeStatus × Rounds)
      → Extends acc.1 (add_component C calls installation_enabled node context ref found acc).1
  add_component-Extends node context ref (err e) acc = add_error-Extends (not_resolved e) acc
  add_component-Extends node context ref (ok none) (ns, r) =
      (λ h. ground (arith, h), λ m h. ground (arith, h), λ m h. ground (arith, h))
  add_component-Extends node context ref (ok (some rc)) acc =
      let component = effective C calls installation_enabled rc in
      let applied = calls.apply_inline_config_maps context component in
      elim (is_colocated ResolvedSidecar rc)
        as (λ (b : Bool).
          Extends acc.1
            (if b
              then acc
              else add_configured C calls installation_enabled node context ref component applied
                  acc).1) [
                    | true ↦ Extends-refl acc.1
                    | false ↦ add_configured-Extends node context ref component applied acc
                  ]

  pub components_loop-Extends :
      (node : Node) (context : C) (refs : List ComponentRef) (acc : NodeStatus × Rounds)
      → Extends acc.1 (components_loop C calls installation_enabled node context refs acc).1
  unfolding components_loop
  components_loop-Extends node context [] acc = Extends-refl acc.1
  components_loop-Extends node context (ref ∷ refs) acc =
      let next =
        add_component C calls installation_enabled node context ref (calls.resolve ref) acc in
      Extends-trans acc.1 next.1
        (components_loop C calls installation_enabled node context refs next).1
        (add_component-Extends node context ref (calls.resolve ref) acc)
        (components_loop-Extends node context refs next)
