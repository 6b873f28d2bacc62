-- ===== src/Tests/Reconciling.antt =====
-- The controllers on the test cluster.
use yanet_operator.Base.{
  ◌≡◌, refl, ◌≢◌, ◌≤◌, Bool, true, false, some, List, [], ◌∷◌, arith, String, nat_eq, string_eq,
  int_eq, option_eq, ltb, ok, All, length,
}
use yanet_operator.Base.Dict.{Dict}
use yanet_operator.Kube.{Deployment}
use yanet_operator.Controller.Throttle.{Throttle, Request, run}
use yanet_operator.Controller.Throttle.Spacing.{run_spacing, run_boundary, NotBefore}
use yanet_operator.Controller.Ownership.{Yanet}
use yanet_operator.Controller.Exclusive.{validate_exclusive_nodes}
use yanet_operator.Base.{ℕ, get_elem?}
use yanet_operator.Controller.Exclusive.Winner.{validate_exclusive_nodes-winner}
use yanet_operator.Controller.Exclusive.Mutual.{validate_exclusive_nodes-exclusive}
use yanet_operator.Controller.Prune.{Oracle, done, prune_conflicting_deployments}
use yanet_operator.Controller.Prune.Safety.{
  prune_conflicting_deployments-IsPermitted, prune_conflicting_deployments-stopped,
}
use yanet_operator.Controller.Prune.Safety
use yanet_operator.Controller.Prune.Orphans.{Reads, DesiredSet, prune_orphans}
use yanet_operator.Controller.Prune.Orphans.Kept
use yanet_operator.Tests.{object, owner, yanet, node, deployment, no_pod, apart}

abbrev recorded : Throttle
recorded = record { last_update_ts = 100; last_update_host = "n1" }

abbrev calls : List Request
calls = record { now = 110; host = "n1" } ∷ record { now = 171; host = "n2" } ∷ []

run_spacing_example : NotBefore 160 "n1" calls (run 60 calls recorded)
run_spacing_example =
    run_spacing 60 100 "n1" calls (λ h. omega arith) (omega arith, (omega arith, tt))

run_boundary_example :
    run 60 (record { now = 160; host = "n2" } ∷ record { now = 160; host = "n3" } ∷ []) recorded
    ≡ 0 ∷ 0 ∷ []
unfolding string_eq
run_boundary_example =
    run_boundary 60 100 "n1" "n2" "n3" (λ h. omega arith) (apart "n2" "n1" refl)
      (apart "n3" "n1" refl)

abbrev matches : Dict String String → Dict String String → Bool
matches selector labels = true

abbrev both : List Yanet
both = yanet "a" 1 ∷ yanet "b" 2 ∷ []

validate_exclusive_nodes-exclusive_example :
    validate_exclusive_nodes matches (ok both) (ok []) (yanet "b" 2) (node ∷ []) ≢ ok tt
unfolding validate_exclusive_nodes string_eq nat_eq
validate_exclusive_nodes-exclusive_example =
    validate_exclusive_nodes-exclusive matches [] both (yanet "a" 1) (yanet "b" 2) 0 1 refl refl
      (apart "default/a" "default/b" refl) node (node ∷ []) (node ∷ []) 0 0 refl refl refl refl refl

abbrev oracle : Oracle
oracle = record { stopped = λ t. ltb 0 t; answer = λ t. done }

abbrev owned : List Deployment
owned = deployment "d1" "a" ∷ deployment "d2" "a" ∷ deployment "d3" "b" ∷ []

prune_conflicting_deployments-IsPermitted_example :
    All
      (Safety.IsPermitted (yanet "a" 1) ("n1" ∷ []))
      (prune_conflicting_deployments oracle (yanet "a" 1) ("n1" ∷ []) (ok owned)).writes
prune_conflicting_deployments-IsPermitted_example =
    prune_conflicting_deployments-IsPermitted (yanet "a" 1) ("n1" ∷ []) oracle (ok owned)

one_deleted :
    length (prune_conflicting_deployments oracle (yanet "a" 1) ("n1" ∷ []) (ok owned)).writes ≡ 1
unfolding prune_conflicting_deployments string_eq
one_deleted = refl

prune_conflicting_deployments-stopped_example :
    length (prune_conflicting_deployments oracle (yanet "a" 1) ("n1" ∷ []) (ok owned)).writes ≤ 1
prune_conflicting_deployments-stopped_example =
    prune_conflicting_deployments-stopped (yanet "a" 1) ("n1" ∷ []) oracle 1 refl (ok owned)

abbrev desired : DesiredSet
desired = record { deployments = "d1" ∷ []; config_maps = [] }

abbrev answering : Oracle
answering = record { stopped = λ t. false; answer = λ t. done }

abbrev reads : Reads
reads = record {
  deployments = ok owned;
  deployments_again = ok (deployment "d1" "a" ∷ []);
  config_maps = ok (object "unused" (some (owner "a")) ∷ []);
  pods = ok (no_pod ∷ []);
}

prune_orphans-IsPermitted_example :
    All
      (Kept.IsPermitted answering (yanet "a" 1) desired true reads)
      (prune_orphans answering (yanet "a" 1) desired true reads).0.writes
prune_orphans-IsPermitted_example =
    Kept.prune_orphans-IsPermitted answering (yanet "a" 1) desired true reads

two_deleted : (prune_orphans answering (yanet "a" 1) desired true reads).0.deleted ≡ 2
unfolding prune_orphans string_eq int_eq native.Mathlib.Decide.ℕ_discrete
two_deleted = refl

validate_exclusive_nodes-winner_example :
    (k : ℕ) × (w : Yanet) × (get_elem? both k ≡ some w)
    × (validate_exclusive_nodes matches (ok both) (ok []) w (node ∷ []) ≡ ok tt)
unfolding string_eq
validate_exclusive_nodes-winner_example =
    validate_exclusive_nodes-winner matches [] node (yanet "a" 1) (yanet "b" 2 ∷ [])
      ((apart "default/a" "default/b" refl, tt), (tt, tt)) (refl, (refl, tt))
