-- ===== src/Controller/Reconcile/Desired.antt =====
-- What reconcileYanet (internal/controller/yanet_reconciler.go) wants when it comes to prune.
use yanet_operator.Base.{
  ◌≡◌, refl, ◌⊎◌, inl, inr, Bool, true, false, Option, none, some, List, [], ◌∷◌, arith, String,
  ◌==◌, contains, nat_eq, string_eq, int_eq, option_eq, Result, ok, err, >>=-eq-ok, All, is_empty,
}
use yanet_operator.Base.{All-weaken, subst, ok_inj}
use yanet_operator.Kube.{Node, Deployment, ObjectMeta}
use yanet_operator.Api.Errors.{Error}
use yanet_operator.Resolve.{ResolvedComponent, ResolvedSidecar}
use yanet_operator.Manifests.Ports.{is_colocated}
use yanet_operator.Resolve.Enabled.{ComponentRef}
use yanet_operator.Controller.Prune.{Write, drain, delete_deployment, delete_config_map}
use yanet_operator.Controller.Reconcile.{
  NodeStatus, Rounds, Calls, effective, store_node, fresh_node, components_loop, nodes_loop,
}
use yanet_operator.Controller.Reconcile.Extends.{
  Extends, Extends-refl, Extends-trans, components_loop-Extends,
}
use yanet_operator.Controller.Reconcile.Wanted.{
  IsWanted, IsWanted-Extends, components_loop-IsWanted,
}

module _ (C : Type 0) (calls : Calls C) (installation_enabled : Bool)
    (enabled : List ComponentRef) where
  -- A node has its runtime network, and each enabled component of it is wanted.
  abbrev pub IsCovered : Rounds → Node → Type 0
  IsCovered r n =
      (context : C) × (calls.with_runtime_network n ≡ ok context)
      × All
          (λ (ref : ComponentRef).
            IsWanted C calls installation_enabled context (calls.resolve ref) r)
          enabled

  unstored :
      (n : Node) (acc : NodeStatus × Rounds) (q : Rounds)
      → Extends (store_node C calls installation_enabled n acc) q
      → Extends acc.1 q
  unstored n (ns, r) q h = h

  pub nodes_loop-IsCovered :
      (ns : List Node) (start after : Rounds)
      → nodes_loop C calls installation_enabled enabled ns start ≡ ok after
      → Extends start after × (is_empty after.errors ≡ true → All (IsCovered after) ns)
  unfolding nodes_loop
  nodes_loop-IsCovered [] start after e =
      (subst (Extends start) (ok_inj e) (Extends-refl start), λ h. tt)
  nodes_loop-IsCovered (n ∷ ns) start after e =
      let (context, network, rest) = >>=-eq-ok (calls.with_runtime_network n) _ e in
      let acc =
        components_loop C calls installation_enabled n context enabled
          (fresh_node C calls installation_enabled, start) in
      let stored = store_node C calls installation_enabled n acc in
      let (grown, covered) = nodes_loop-IsCovered ns stored after rest in
      let here : Extends start acc.1 =
        components_loop-Extends C calls installation_enabled n context enabled
          (fresh_node C calls installation_enabled, start) in
      let there : Extends acc.1 after = unstored n acc after grown in
      (
        Extends-trans start acc.1 after here there,
        λ h. (
          (
            context,
            network,
            All-weaken
                (λ ref w.
                  IsWanted-Extends C calls installation_enabled context (calls.resolve ref) acc.1
                    after there w)
                enabled
                (components_loop-IsWanted C calls installation_enabled n context enabled
                  (fresh_node C calls installation_enabled, start) (there.0 h)),
          ),
          covered h,
        ),
      )

  -- The object of a deletion is none of those that a component has.
  abbrev pub NotAmong : Write → List String → List Deployment → Type 0
  NotAmong (drain m) names ds = Unit
  NotAmong (delete_deployment m) names ds =
      All (λ (d : Deployment). (d.meta.name == m.name) ≡ false) ds
  NotAmong (delete_config_map m) names ds = contains names m.name ≡ false

  -- A component was resolved, configured and rendered, and has not the object of the deletion.
  abbrev pub IsSpared : Write → C → Result Error (Option ResolvedComponent) → Type 0
  IsSpared w context (err e) = ⊥
  IsSpared w context (ok none) = Unit
  IsSpared w context (ok (some rc)) =
      let component = effective C calls installation_enabled rc in
      (is_colocated ResolvedSidecar rc ≡ true)
      ⊎ ((found : List String × Bool) × (ds : List Deployment) × (calls.apply_inline_config_maps
              context component
            ≡ ok found)
          × (calls.render_deployments context component ≡ ok ds)
          × NotAmong w found.0 ds)

  -- The same for each enabled component of a node.
  abbrev pub IsSparedOn : Write → Node → Type 0
  IsSparedOn w n =
      (context : C) × (calls.with_runtime_network n ≡ ok context)
      × All (λ (ref : ComponentRef). IsSpared w context (calls.resolve ref)) enabled

  -- The prune was asked to keep what is wanted.
  abbrev pub IsUnwanted : Rounds → Write → Type 0
  IsUnwanted r (drain m) = Unit
  IsUnwanted r (delete_deployment m) = contains r.desired.deployments m.name ≡ false
  IsUnwanted r (delete_config_map m) = contains r.desired.config_maps m.name ≡ false

  not_among_deployments :
      (r : Rounds) (m : ObjectMeta) (ds : List Deployment)
      → contains r.desired.deployments m.name ≡ false
      → All (λ (d : Deployment). contains r.desired.deployments d.meta.name ≡ true) ds
      → All (λ (d : Deployment). (d.meta.name == m.name) ≡ false) ds
  not_among_deployments r m ds h = All-weaken (λ d w. ground (arith, h, w)) ds

  not_among_config_maps :
      (r : Rounds) (m : ObjectMeta) (names : List String)
      → contains r.desired.config_maps m.name ≡ false
      → All (λ (x : String). contains r.desired.config_maps x ≡ true) names
      → contains names m.name ≡ false
  not_among_config_maps r m [] h hs = refl
  not_among_config_maps r m (x ∷ names) h hs =
      ground (arith, h, hs.0, not_among_config_maps r m names h hs.1)

  IsWanted-IsSpared :
      (r : Rounds) (w : Write) (context : C) (found : Result Error (Option ResolvedComponent))
      → IsUnwanted r w
      → IsWanted C calls installation_enabled context found r
      → IsSpared w context found
  IsWanted-IsSpared r w context (err e) u h = h
  IsWanted-IsSpared r w context (ok none) u h = tt
  IsWanted-IsSpared r w context (ok (some rc)) u (inl h) = inl h
  IsWanted-IsSpared r (drain m) context (ok (some rc)) u (inr (f, ds, e, e', hs, ks)) =
      inr (f, ds, e, e', tt)
  IsWanted-IsSpared r (delete_deployment m) context (ok (some rc)) u (inr (f, ds, e, e', hs, ks)) =
      inr (f, ds, e, e', not_among_deployments r m ds u ks)
  IsWanted-IsSpared r (delete_config_map m) context (ok (some rc)) u (inr (f, ds, e, e', hs, ks)) =
      inr (f, ds, e, e', not_among_config_maps r m f.0 u hs)

  pub IsCovered-IsSparedOn :
      (r : Rounds) (w : Write) (n : Node) → IsUnwanted r w → IsCovered r n → IsSparedOn w n
  IsCovered-IsSparedOn r w n u (context, network, hs) = (
    context,
    network,
    All-weaken (λ ref h. IsWanted-IsSpared r w context (calls.resolve ref) u h) enabled hs,
  )
