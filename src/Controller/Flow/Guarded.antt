-- ===== src/Controller/Flow/Guarded.antt =====
-- What a whole reconciliation may delete, and what it has checked before (internal/controller/yanet_reconciler.go).
use yanet_operator.Base.{
  ◌≡◌, refl, Bool, true, false, not, Option, none, some, List, [], String, contains, if◌then◌else◌,
  nat_eq, string_eq, int_eq, option_eq, Result, ok, err, All,
}
use yanet_operator.Kube.{Node}
use yanet_operator.Base.Dict.{Dict}
use yanet_operator.Api.Errors.{Error, Check}
use yanet_operator.Api.Types.{YanetConfigSpec, BoxType}
use yanet_operator.Api.Overrides.{validate_effective_yanet_component_overrides}
use yanet_operator.Resolve.{find_box_type}
use yanet_operator.Resolve.Enabled.{ComponentRef, enabled_components_for_box}
use yanet_operator.Manifests.Services.{ServicePlan}
use yanet_operator.Controller.Ownership.{Yanet}
use yanet_operator.Controller.Exclusive.{
  NodesError, node_selection_conflict, list_failed, validate_exclusive_nodes,
}
use yanet_operator.Controller.Prune.{Write, prune_conflicting_deployments}
use yanet_operator.Controller.Lifecycle.{
  Lifecycle, Begin, frozen, unread, proceed, begin, yanet_finalizer, nothing_desired,
  handle_yanet_deletion, add_finalizer,
}
use yanet_operator.Controller.Lifecycle.Running.{IsStartable, begin-IsStartable}
use yanet_operator.Controller.Lifecycle.Requests.{
  add_finalizer-writes, handle_yanet_deletion-IsPermitted,
}
use yanet_operator.Controller.Prune.Orphans.Kept
use yanet_operator.Controller.Prune.Safety
use yanet_operator.Controller.Prune.Safety.{prune_conflicting_deployments-IsPermitted}
use yanet_operator.Base.{All-weaken}
use yanet_operator.Controller.Preflight.{PreflightFailure, preflight_resources}
use yanet_operator.Controller.Preflight.Ready.{nodes_loop-of_preflight}
use yanet_operator.Controller.Reconcile.{Rounds, no_rounds, nodes_loop}
use yanet_operator.Controller.Reconcile.Desired.{IsSparedOn}
use yanet_operator.Controller.Reconcile.Finish.{Finished}
use yanet_operator.Controller.Reconcile.Spared.{finish-IsPermitted, finish-IsSparedOn}
use yanet_operator.Controller.Flow.{
  World, Outcome, network_lost, left, conflicted, reconciled, seconds, installation_enabled,
  auto_sync, declared_by, after_preflight, cleanup_conflict, after_exclusive, with_nodes,
  with_enabled, with_overrides, with_box, with_config, with_finalizer, after_begin, reconcile_yanet,
}

module _ (C : Type 0) (w : World C) (yanet : Yanet) where
  -- The reconciliation has begun with the configuration that its reads give, which does not say stop.
  abbrev pub IsStarted : Option YanetConfigSpec → Type 0
  IsStarted config = (begin w.snapshot w.persisted ≡ proceed config) × IsStartable config

  -- The installation is not being deleted and has its finalizer.
  abbrev pub IsLive : Type 0
  IsLive = (yanet.meta.deleting ≡ false) × (contains yanet.meta.finalizers yanet_finalizer ≡ true)

  abbrev IsSparing : YanetConfigSpec → List ComponentRef → List Node → Finished → Type 0
  IsSparing c enabled nodes f =
      All
        (λ (x : Write).
          All (IsSparedOn C (w.calls c) (installation_enabled C w yanet) enabled x) nodes)
        f.writes

  -- What the checks have established when a reconciliation comes to its end, and what it deletes.
  abbrev pub IsChecked : Finished → Type 0
  IsChecked f =
      (c : YanetConfigSpec) × (enabled : List ComponentRef) × (nodes : List Node) × (r : Rounds)
      × IsStarted (some c)
      × IsLive
      × (enabled_components_for_box w.short_key c yanet.spec.box_type ≡ ok enabled)
      × (w.nodes ≡ ok nodes)
      × (validate_exclusive_nodes w.matches w.installations w.claims yanet nodes ≡ ok tt)
      × (nodes_loop C (w.calls c) (installation_enabled C w yanet) enabled nodes no_rounds ≡ ok r)
      × All (Kept.IsPermitted w.oracle yanet r.desired (auto_sync C w yanet) w.reads) f.writes
      × IsSparing c enabled nodes f

  -- The cleanup of a deletion, or the addition of the finalizer, which deletes nothing.
  abbrev pub IsLeaving : Lifecycle → Type 0
  IsLeaving l =
      (config : Option YanetConfigSpec) × IsStarted config
      × All
          (λ (x : Write).
            (yanet.meta.deleting ≡ true)
            × Kept.IsPermitted w.oracle yanet nothing_desired true w.reads x)
          l.writes

  -- The nodes that a refusal tells to clean up.
  abbrev pub lost_nodes : NodesError → List String
  lost_nodes (list_failed e) = []
  lost_nodes (node_selection_conflict found) = found.cleanup

  -- The cleanup after the exclusivity check has refused.
  abbrev pub IsRefused : NodesError → List Write → Type 0
  IsRefused e writes =
      (c : YanetConfigSpec) × (nodes : List Node) × IsStarted (some c)
      × IsLive
      × (w.nodes ≡ ok nodes)
      × (validate_exclusive_nodes w.matches w.installations w.claims yanet nodes ≡ err e)
      × All
          (λ (x : Write). (auto_sync C w yanet ≡ true) × Safety.IsPermitted yanet (lost_nodes e) x)
          writes

  abbrev pub IsGuarded : Outcome → Type 0
  IsGuarded (network_lost e) = ⊥
  IsGuarded (reconciled f) = IsChecked f
  IsGuarded (left l) = IsLeaving l
  IsGuarded (conflicted e writes) = IsRefused e writes
  IsGuarded o = Unit

  module _ (c : YanetConfigSpec) (started : IsStarted (some c)) (lives : IsLive) where
    cleanup_conflict-IsGuarded :
        (nodes : List Node) (e : NodesError)
        → w.nodes ≡ ok nodes
        → validate_exclusive_nodes w.matches w.installations w.claims yanet nodes ≡ err e
        → IsGuarded (cleanup_conflict C w yanet e)
    cleanup_conflict-IsGuarded nodes (list_failed e) b d = (c, nodes, started, lives, b, d, tt)
    cleanup_conflict-IsGuarded nodes (node_selection_conflict found) b d =
        let e = node_selection_conflict found in
        let writes =
          (prune_conflicting_deployments w.oracle yanet found.cleanup w.conflicting).writes in
        elim (auto_sync C w yanet)
            as (λ (x : Bool).
              auto_sync C w yanet ≡ x
              → IsGuarded (if x then conflicted e writes else conflicted e [])) [
                | false ↦ λ q. (c, nodes, started, lives, b, d, tt)
                | true ↦ λ q. (
                  c,
                  nodes,
                  started,
                  lives,
                  b,
                  d,
                  All-weaken (λ x h. (q, h)) writes
                      (prune_conflicting_deployments-IsPermitted yanet found.cleanup w.oracle
                        w.conflicting),
                )
              ]
          refl

    after_preflight-IsGuarded :
        (enabled : List ComponentRef) (nodes : List Node)
        (result : Result PreflightFailure (Dict String ServicePlan))
        → enabled_components_for_box w.short_key c yanet.spec.box_type ≡ ok enabled
        → w.nodes ≡ ok nodes
        → validate_exclusive_nodes w.matches w.installations w.claims yanet nodes ≡ ok tt
        → preflight_resources
            (declared_by C w yanet c)
            C
            (w.calls c)
            (installation_enabled C w yanet)
            w.matches
            yanet.meta.name
            w.producers
            enabled
            nodes
          ≡ result
        → IsGuarded (after_preflight C w yanet c enabled nodes result)
    after_preflight-IsGuarded enabled nodes (err e) a b d q = tt
    after_preflight-IsGuarded enabled nodes (ok plans) a b d q =
        let (r, ends, quiet) =
          nodes_loop-of_preflight (declared_by C w yanet c) C (w.calls c)
            (installation_enabled C w yanet) w.matches yanet.meta.name w.producers enabled nodes
            plans q in
        rw ends (
          c,
          enabled,
          nodes,
          r,
          started,
          lives,
          a,
          b,
          d,
          ends,
          finish-IsPermitted w.describe w.show_names w.now w.previous (seconds c.update_window)
              w.updated w.oracle yanet (auto_sync C w yanet) w.reads w.pods r,
          finish-IsSparedOn w.describe w.show_names w.now w.previous (seconds c.update_window)
              w.updated w.oracle yanet (auto_sync C w yanet) w.reads C (w.calls c)
              (installation_enabled C w yanet) enabled nodes r ends w.pods,
        )

    after_exclusive-IsGuarded :
        (enabled : List ComponentRef) (nodes : List Node) (result : Result NodesError (Unit {0}))
        → enabled_components_for_box w.short_key c yanet.spec.box_type ≡ ok enabled
        → w.nodes ≡ ok nodes
        → validate_exclusive_nodes w.matches w.installations w.claims yanet nodes ≡ result
        → IsGuarded (after_exclusive C w yanet c enabled nodes result)
    after_exclusive-IsGuarded enabled nodes (err e) a b d = cleanup_conflict-IsGuarded nodes e b d
    after_exclusive-IsGuarded enabled nodes (ok u) a b d =
        after_preflight-IsGuarded enabled nodes _ a b d refl

    with_nodes-IsGuarded :
        (enabled : List ComponentRef) (result : Result String (List Node))
        → enabled_components_for_box w.short_key c yanet.spec.box_type ≡ ok enabled
        → w.nodes ≡ result
        → IsGuarded (with_nodes C w yanet c enabled result)
    with_nodes-IsGuarded enabled (err e) a b = tt
    with_nodes-IsGuarded enabled (ok nodes) a b = after_exclusive-IsGuarded enabled nodes _ a b refl

    with_enabled-IsGuarded :
        (result : Result Error (List ComponentRef))
        → enabled_components_for_box w.short_key c yanet.spec.box_type ≡ result
        → IsGuarded (with_enabled C w yanet c result)
    with_enabled-IsGuarded (err e) a = tt
    with_enabled-IsGuarded (ok enabled) a = with_nodes-IsGuarded enabled w.nodes a refl

    with_overrides-IsGuarded : (result : Check) → IsGuarded (with_overrides C w yanet c result)
    with_overrides-IsGuarded (err e) = tt
    with_overrides-IsGuarded (ok u) = with_enabled-IsGuarded _ refl

    with_box-IsGuarded : (result : Result Error BoxType) → IsGuarded (with_box C w yanet c result)
    with_box-IsGuarded (err e) = tt
    with_box-IsGuarded (ok box) = with_overrides-IsGuarded (
        validate_effective_yanet_component_overrides w.rules w.parse_quantity yanet.spec.components
          c.components box)

  with_config-IsGuarded :
      (config : Option YanetConfigSpec)
      → IsStarted config
      → IsLive
      → IsGuarded (with_config C w yanet config)
  with_config-IsGuarded none started lives = tt
  with_config-IsGuarded (some c) started lives =
      with_box-IsGuarded c started lives (find_box_type c yanet.spec.box_type)

  with_finalizer-IsGuarded :
      (config : Option YanetConfigSpec)
      → IsStarted config
      → IsGuarded (with_finalizer C w yanet config)
  with_finalizer-IsGuarded config started =
      let removal =
        handle_yanet_deletion w.later yanet w.oracle w.reads w.remaining w.update_answer in
      let addition = add_finalizer w.later yanet w.update_answer in
      elim yanet.meta.deleting
          as (λ (b : Bool).
            yanet.meta.deleting ≡ b
            → IsGuarded (
                if b
                then left removal
                else if not (contains yanet.meta.finalizers yanet_finalizer)
                then left addition
                else with_config C w yanet config)) [
                  | true ↦ λ q. (
                    config,
                    started,
                    All-weaken (λ x h. (q, h)) removal.writes
                        (handle_yanet_deletion-IsPermitted w.later yanet w.oracle w.reads
                          w.remaining w.update_answer),
                  )
                  | false ↦ λ q.
                      elim (contains yanet.meta.finalizers yanet_finalizer)
                          as (λ (b : Bool).
                            contains yanet.meta.finalizers yanet_finalizer ≡ b
                            → IsGuarded
                                (if not b then left addition else with_config C w yanet config)) [
                                  | false ↦ λ h. (
                                    config,
                                    started,
                                    rw (add_finalizer-writes w.later yanet w.update_answer) tt,
                                  )
                                  | true ↦ λ h. with_config-IsGuarded config started (q, h)
                                ]
                        refl
                ]
        refl

  after_begin-IsGuarded :
      (b : Begin) → begin w.snapshot w.persisted ≡ b → IsGuarded (after_begin C w yanet b)
  after_begin-IsGuarded frozen e = tt
  after_begin-IsGuarded (unread m) e = tt
  after_begin-IsGuarded (proceed config) e =
      with_finalizer-IsGuarded config (e, begin-IsStartable w.snapshot w.persisted config e)

  -- A reconciliation never loses the runtime network after its preflight, and whatever it deletes is
  -- guarded by the branch that it takes, which begins with no configuration or with one that does not say
  -- stop. The finalizer's handlers delete only while the installation is being deleted, and only objects
  -- that it controls. A live installation whose nodes the exclusivity check refuses deletes, with
  -- auto-sync on, only what it controls on the nodes to clean up (and scales Deployments of its own to
  -- zero elsewhere if it is disabled). One that comes to its end is live, has a configuration and
  -- exclusive nodes, and deletes, with auto-sync on, only objects that it controls and does not want, none
  -- of which any component of its box was rendered to on these nodes.
  pub reconcile_yanet-IsGuarded : IsGuarded (reconcile_yanet C w yanet)
  unfolding reconcile_yanet
  reconcile_yanet-IsGuarded = after_begin-IsGuarded (begin w.snapshot w.persisted) refl
