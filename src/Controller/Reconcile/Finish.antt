-- ===== src/Controller/Reconcile/Finish.antt =====
-- What reconcileYanet does after its loop (internal/controller/yanet_reconciler.go): the prune, the
-- status and the wait. The text of an error is a parameter, `describe`, and the results of the pods'
-- List call and of the status update are arguments.
use yanet_operator.Base.{
  ℕ, Bool, not, Option, none, some, List, [], ◌∷◌, ◌++◌, String, ◌==◌, if◌then◌else◌, nat_eq,
  string_eq, int_eq, option_eq, Result, ok, err, is_empty,
}
use yanet_operator.Base.Dict.{Dict, lookup, insert}
use yanet_operator.Kube.{Deployment}
use yanet_operator.Controller.Ownership.{Yanet}
use yanet_operator.Controller.Exclusive.{node_label}
use yanet_operator.Controller.Prune.{Oracle, PruneError, Write}
use yanet_operator.Controller.Prune.Orphans.{Reads, Loop, prune_orphans}
use yanet_operator.Controller.Conditions.{StatusView, compute_conditions, set_conditions_degraded}
use yanet_operator.Controller.Conditions.Sync.{aggregate_sync_status}
use yanet_operator.Controller.Reconcile.{NodeStatus, LoopError, pods_not_listed, Rounds}

pub data Failure : Type 0 where
  loop_failed : List LoopError → Failure
  prune_failed : PruneError → Failure
  status_not_updated : String → Failure

-- The requests of the prune, the status reported, the wait, and the errors returned.
pub record Finished : Type 0 where
  pub writes : List Write
  pub nodes_status : Dict String NodeStatus
  pub status : StatusView
  pub requeue : ℕ
  pub failures : List Failure

abbrev states_of : Dict String NodeStatus → Dict String (Dict String String)
states_of [] = []
states_of ((name, ns) ∷ nodes) = (name, ns.deployments) ∷ states_of nodes

abbrev pub status_or_fresh : Option NodeStatus → NodeStatus
status_or_fresh none = record { deployments = []; numa_count = 0 }
status_or_fresh (some ns) = ns

-- The Deployments that the prune leaves are reported as orphans.
unfoldable pub retain : List Deployment → Dict String NodeStatus → Dict String NodeStatus
unfolding insert
retain [] nodes = nodes
retain (d ∷ ds) nodes =
    let name = node_label d.meta in
    let ns = status_or_fresh (lookup name nodes) in
    retain ds (
      insert name
        (record ns { deployments = insert d.meta.name "out-of-sync (orphan)" ns.deployments })
        nodes)

abbrev pub pods_errors : Option String → List LoopError
pods_errors none = []
pods_errors (some e) = pods_not_listed e ∷ []

module _ (describe : Failure → String) (show_names : List String → String) (now : ℕ)
    (previous : StatusView) (update_window : ℕ) (updated : Result String (Unit {0})) where
  abbrev pub with_sync : Dict String NodeStatus → StatusView
  with_sync nodes = record previous { sync = aggregate_sync_status (states_of nodes) }

  abbrev pub update_failure : Result String (Unit {0}) → List Failure
  update_failure (ok u) = []
  update_failure (err e) = status_not_updated e ∷ []

  abbrev pub degraded_by : List Write → Dict String NodeStatus → Failure → Finished
  degraded_by writes nodes failure = record {
    writes = writes;
    nodes_status = nodes;
    status = set_conditions_degraded now (with_sync nodes) "ReconcileFailed" (describe failure);
    requeue = 30;
    failures = failure ∷ update_failure updated;
  }

  abbrev retention : List String → StatusView → StatusView
  retention [] view = view
  retention (n ∷ ns) view = set_conditions_degraded now view "OrphansRetained" (show_names (n ∷ ns))

  abbrev pub wait_of : Rounds → Result String (Unit {0}) → ℕ
  wait_of r (err e) = 30
  wait_of r (ok u) =
      if not r.sync_waiting
      then 0
      else if r.earliest_requeue == 0
      then update_window
      else r.earliest_requeue

  abbrev pub after_prune : Rounds → Loop → Finished
  after_prune r (pass, some e) =
      degraded_by pass.writes (retain pass.retained_deployments r.nodes_status) (prune_failed e)
  after_prune r (pass, none) =
      let nodes = retain pass.retained_deployments r.nodes_status in
      let view = with_sync nodes in
      record {
        writes = pass.writes;
        nodes_status = nodes;
        status =
            retention pass.retained_config_maps
              (record view { conditions = compute_conditions now view r.missing_operators });
        requeue = wait_of r updated;
        failures = [];
      }

  module _ (oracle : Oracle) (yanet : Yanet) (auto_sync : Bool) (reads : Reads) where
    unfoldable pub finish : Option String → Rounds → Finished
    unfolding retain prune_orphans compute_conditions set_conditions_degraded aggregate_sync_status
    finish pods r =
        let errors = r.errors ++ pods_errors pods in
        if not (is_empty errors)
        then degraded_by [] r.nodes_status (loop_failed errors)
        else after_prune r (prune_orphans oracle yanet r.desired auto_sync reads)
