-- ===== src/Controller/Flow.antt =====
-- reconcileYanet as a whole (internal/controller/yanet_reconciler.go): the kill switch, the finalizer,
-- the checks of the configuration and of the nodes, the preflight, the loop, and what follows it. What
-- the reconciliation reads and is answered is a record. The reset of the result when the kill switch is
-- on at the end is left out, as are the requests that report a pause in the status.
pub mod Guarded
use yanet_operator.Base.{
  ℕ, Bool, true, false, not, Option, none, some, List, [], String, contains, if◌then◌else◌, nat_eq,
  string_eq, int_eq, option_eq, Result, ok, err, ℤ, pos, negsuc,
}
use yanet_operator.Base.Dict.{Dict}
use yanet_operator.Kube.{Node, ObjectMeta, Deployment}
use yanet_operator.Api.Errors.{Error, Check}
use yanet_operator.Api.Names.{NameRules}
use yanet_operator.Api.Hugepages.{Quantity}
use yanet_operator.Api.Types.{YanetConfigSpec, BoxType}
use yanet_operator.Api.Overrides.{validate_effective_yanet_component_overrides}
use yanet_operator.Resolve.{bool_value, find_box_type}
use yanet_operator.Resolve.Enabled.{ComponentRef, enabled_components_for_box}
use yanet_operator.Manifests.Services.{ServicePlan}
use yanet_operator.Controller.Ownership.{Yanet}
use yanet_operator.Controller.Exclusive.{
  NodesError, node_selection_conflict, list_failed, validate_exclusive_nodes,
}
use yanet_operator.Controller.Prune.{Oracle, Write, prune_conflicting_deployments}
use yanet_operator.Controller.Prune.Orphans.{Reads}
use yanet_operator.Controller.Conditions.{StatusView}
use yanet_operator.Controller.Placement.{Listings}
use yanet_operator.Controller.Lifecycle.{
  ConfigRead, Snapshot, Begin, frozen, unread, proceed, begin, Lifecycle, UpdateAnswer,
  yanet_finalizer, handle_yanet_deletion, add_finalizer,
}
use yanet_operator.Controller.Preflight.{Declared, PreflightFailure, preflight_resources}
use yanet_operator.Controller.Reconcile.{Calls, Rounds, no_rounds, nodes_loop}
use yanet_operator.Controller.Reconcile.Finish.{Failure, Finished, finish}

-- `later` is the snapshot at the update of the finalizers.
pub record World (C : Type 0) : Type 0 where
  pub rules : NameRules
  pub parse_quantity : String → Option Quantity
  pub short_key : String → String
  pub is_dns1035_label : String → Bool
  pub same_plan : ServicePlan → ServicePlan → Bool
  pub matches : Dict String String → Dict String String → Bool
  pub calls : YanetConfigSpec → Calls C
  pub snapshot : Snapshot
  pub later : Snapshot
  pub persisted : ConfigRead
  pub oracle : Oracle
  pub update_answer : UpdateAnswer
  pub remaining : Result String (List Deployment)
  pub nodes : Result String (List Node)
  pub installations : Result String (List Yanet)
  pub claims : Result String (List ObjectMeta)
  pub conflicting : Result String (List Deployment)
  pub producers : Listings
  pub reads : Reads
  pub pods : Option String
  pub updated : Result String (Unit {0})
  pub now : ℕ
  pub previous : StatusView
  pub describe : Failure → String
  pub show_names : List String → String

-- A pause has the reason that the status gives.
pub data Outcome : Type 0 where
  idle nodes_unlisted : Outcome
  config_unread paused network_lost : String → Outcome
  left : Lifecycle → Outcome
  conflicted : NodesError → List Write → Outcome
  preflight_failed : PreflightFailure → Outcome
  reconciled : Finished → Outcome

-- A negative wait is none.
abbrev pub seconds : ℤ → ℕ
seconds (pos n) = n
seconds (negsuc n) = 0

module _ (C : Type 0) (w : World C) (yanet : Yanet) where
  abbrev pub installation_enabled : Bool
  installation_enabled = bool_value yanet.spec.enabled true

  abbrev pub auto_sync : Bool
  auto_sync = bool_value yanet.spec.auto_sync false

  abbrev pub declared_by : YanetConfigSpec → Declared
  declared_by c = record {
    rules = w.rules;
    short_key = w.short_key;
    is_dns1035_label = w.is_dns1035_label;
    same_plan = w.same_plan;
    config = c;
    context = record { namespace = yanet.meta.namespace; box_type = yanet.spec.box_type };
  }

  abbrev pub after_loop : YanetConfigSpec → Result String Rounds → Outcome
  after_loop c (err e) = network_lost e
  after_loop c (ok r) = reconciled (
      finish w.describe w.show_names w.now w.previous (seconds c.update_window) w.updated w.oracle
        yanet auto_sync w.reads w.pods r)

  abbrev pub after_preflight :
      YanetConfigSpec
      → List ComponentRef
      → List Node
      → Result PreflightFailure (Dict String ServicePlan)
      → Outcome
  after_preflight c enabled nodes (err e) = preflight_failed e
  after_preflight c enabled nodes (ok plans) =
      after_loop c (nodes_loop C (w.calls c) installation_enabled enabled nodes no_rounds)

  -- The cleanup of lost nodes.
  abbrev pub cleanup_conflict : NodesError → Outcome
  cleanup_conflict (list_failed e) = conflicted (list_failed e) []
  cleanup_conflict (node_selection_conflict found) =
      if auto_sync
      then conflicted (node_selection_conflict found)
          (prune_conflicting_deployments w.oracle yanet found.cleanup w.conflicting).writes
      else conflicted (node_selection_conflict found) []

  abbrev pub after_exclusive :
      YanetConfigSpec → List ComponentRef → List Node → Result NodesError (Unit {0}) → Outcome
  after_exclusive c enabled nodes (err e) = cleanup_conflict e
  after_exclusive c enabled nodes (ok u) = after_preflight c enabled nodes (
      preflight_resources (declared_by c) C (w.calls c) installation_enabled w.matches
        yanet.meta.name w.producers enabled nodes)

  abbrev pub with_nodes : YanetConfigSpec → List ComponentRef → Result String (List Node) → Outcome
  with_nodes c enabled (err e) = nodes_unlisted
  with_nodes c enabled (ok nodes) =
      after_exclusive c enabled nodes
        (validate_exclusive_nodes w.matches w.installations w.claims yanet nodes)

  abbrev pub with_enabled : YanetConfigSpec → Result Error (List ComponentRef) → Outcome
  with_enabled c (err e) = paused "BoxTypeInvalid"
  with_enabled c (ok enabled) = with_nodes c enabled w.nodes

  abbrev pub with_overrides : YanetConfigSpec → Check → Outcome
  with_overrides c (err e) = paused "OverridesInvalid"
  with_overrides c (ok u) =
      with_enabled c (enabled_components_for_box w.short_key c yanet.spec.box_type)

  abbrev pub with_box : YanetConfigSpec → Result Error BoxType → Outcome
  with_box c (err e) = paused "BoxTypeNotFound"
  with_box c (ok box) = with_overrides c (
      validate_effective_yanet_component_overrides w.rules w.parse_quantity yanet.spec.components
        c.components box)

  abbrev pub with_config : Option YanetConfigSpec → Outcome
  with_config none = paused "ConfigNotLoaded"
  with_config (some c) = with_box c (find_box_type c yanet.spec.box_type)

  abbrev pub with_finalizer : Option YanetConfigSpec → Outcome
  with_finalizer config =
      if yanet.meta.deleting
      then left (handle_yanet_deletion w.later yanet w.oracle w.reads w.remaining w.update_answer)
      else if not (contains yanet.meta.finalizers yanet_finalizer)
      then left (add_finalizer w.later yanet w.update_answer)
      else with_config config

  abbrev pub after_begin : Begin → Outcome
  after_begin frozen = idle
  after_begin (unread e) = config_unread e
  after_begin (proceed config) = with_finalizer config

  unfoldable pub reconcile_yanet : Outcome
  unfolding begin add_finalizer handle_yanet_deletion find_box_type enabled_components_for_box
      validate_effective_yanet_component_overrides validate_exclusive_nodes
      prune_conflicting_deployments preflight_resources nodes_loop finish
  reconcile_yanet = after_begin (begin w.snapshot w.persisted)
