-- ===== src/Controller/Prune.antt =====
-- pruneConflictingDeployments (internal/controller/prune.go). The kill switch and the cluster's
-- answers are an oracle: at request `t` of the pass, whether checkGlobalStop fails right before
-- it, and what the API server answers. A pass returns the requests it sent, and its error.
pub mod Safety
pub mod Orphans
use yanet_operator.Base.{
  ℕ, suc, Bool, true, false, not, ◌||◌, some, List, [], ◌∷◌, String, ◌==◌, contains, if◌then◌else◌,
  nat_eq, string_eq, int_eq, option_eq, Result, ok, err, pos,
}
use yanet_operator.Kube.{ObjectMeta, Deployment}
use yanet_operator.Resolve.{bool_value}
use yanet_operator.Controller.Ownership.{Yanet, controlled_by_yanet}
use yanet_operator.Controller.Exclusive.{node_label}

-- `gone` is an error that isNotFoundOrGone accepts.
pub data Answer : Type 0 where
  done gone : Answer
  failed : String → Answer

pub record Oracle : Type 0 where
  pub stopped : ℕ → Bool
  pub answer : ℕ → Answer

-- Scaling to zero, and deletions.
pub data Write : Type 0 where
  drain delete_deployment delete_config_map : ObjectMeta → Write

pub data PruneError : Type 0 where
  list_failed : String → PruneError
  global_stop object_gone : PruneError
  request_failed : String → PruneError

pub record Sent : Type 0 where
  pub writes : List Write
  pub outcome : Result PruneError (Unit {0})

abbrev pub finished : Sent
finished = record { writes = []; outcome = ok tt }

abbrev pub failed_with : PruneError → Sent
failed_with e = record { writes = []; outcome = err e }

abbrev pub after : Write → Sent → Sent
after w rest = record { writes = w ∷ rest.writes; outcome = rest.outcome }

abbrev pub after_update : Answer → Write → Sent → Sent
after_update done w rest = after w rest
after_update gone w rest = after w (failed_with object_gone)
after_update (failed e) w rest = after w (failed_with (request_failed e))

abbrev pub after_delete : Answer → Write → Sent → Sent
after_delete done w rest = after w rest
after_delete gone w rest = after w rest
after_delete (failed e) w rest = after w (failed_with (request_failed e))

-- What the loop's body does with a Deployment.
pub data Action : Type 0 where
  skip send_drain send_delete : Action

unfoldable pub action : Yanet → List String → Deployment → Action
unfolding controlled_by_yanet
action yanet node_names d =
    if not (controlled_by_yanet d.meta yanet) || d.meta.deleting
    then skip
    else if contains node_names (node_label d.meta)
    then send_delete
    else if bool_value yanet.spec.enabled true || (d.replicas == some (pos 0))
    then skip
    else send_drain

module _ (oracle : Oracle) (yanet : Yanet) (node_names : List String) where
  unfoldable pub prune_loop : ℕ → List Deployment → Sent
  unfolding action
  prune_loop t [] = finished
  prune_loop t (d ∷ ds) = elim (action yanet node_names d) [
    | skip ↦ prune_loop t ds
    | send_drain ↦ elim (oracle.stopped t) [
      | true ↦ failed_with global_stop
      | false ↦ after_update (oracle.answer t) (drain d.meta) (prune_loop (suc t) ds)
    ]
    | send_delete ↦ elim (oracle.stopped t) [
      | true ↦ failed_with global_stop
      | false ↦ after_delete (oracle.answer t) (delete_deployment d.meta) (prune_loop (suc t) ds)
    ]
  ]

  -- The result of the List call is an argument.
  unfoldable pub prune_conflicting_deployments : Result String (List Deployment) → Sent
  unfolding prune_loop
  prune_conflicting_deployments (err e) = failed_with (list_failed e)
  prune_conflicting_deployments (ok ds) = prune_loop 0 ds
