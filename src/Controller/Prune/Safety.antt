-- ===== src/Controller/Prune/Safety.antt =====
-- What pruneConflictingDeployments may write, and when.
use yanet_operator.Base.{
  ◌≡◌, ℕ, zero, suc, ◌+◌, ◌≤◌, true, false, some, List, [], ◌∷◌, arith, String, contains, nat_eq,
  string_eq, int_eq, option_eq, Result, ok, err, All, length,
}
use yanet_operator.Base.{subst}
use yanet_operator.Kube.{ObjectMeta, Deployment}
use yanet_operator.Controller.Ownership.{Yanet, controlled_by_yanet}
use yanet_operator.Controller.Exclusive.{node_label}
use yanet_operator.Controller.Prune.{
  Oracle, Write, drain, delete_deployment, delete_config_map, action, prune_loop,
  prune_conflicting_deployments,
}

module _ (yanet : Yanet) (node_names : List String) where
  abbrev pub IsOwn : ObjectMeta → Type 0
  IsOwn m = (controlled_by_yanet m yanet ≡ true) × (m.deleting ≡ false)

  -- A Deployment of the installation that is not terminating: deleted on the named nodes, scaled to
  -- zero elsewhere and only if the installation is disabled.
  abbrev pub IsPermitted : Write → Type 0
  IsPermitted (drain m) =
      IsOwn m × (contains node_names (node_label m) ≡ false) × (yanet.spec.enabled ≡ some false)
  IsPermitted (delete_deployment m) = IsOwn m × (contains node_names (node_label m) ≡ true)
  IsPermitted (delete_config_map m) = ⊥

  prune_loop-IsPermitted :
      (oracle : Oracle) (t : ℕ) (ds : List Deployment)
      → All IsPermitted (prune_loop oracle yanet node_names t ds).writes
  unfolding prune_loop action
  prune_loop-IsPermitted oracle t [] = tt
  prune_loop-IsPermitted oracle t (d ∷ ds) =
      ground (arith, prune_loop-IsPermitted oracle t ds, prune_loop-IsPermitted oracle (suc t) ds)

  -- Whatever the cluster answers, every request of the pass is permitted.
  pub prune_conflicting_deployments-IsPermitted :
      (oracle : Oracle) (listed : Result String (List Deployment))
      → All IsPermitted (prune_conflicting_deployments oracle yanet node_names listed).writes
  unfolding prune_conflicting_deployments
  prune_conflicting_deployments-IsPermitted oracle (err e) = tt
  prune_conflicting_deployments-IsPermitted oracle (ok ds) = prune_loop-IsPermitted oracle 0 ds

  prune_loop-stopped :
      (oracle : Oracle) (n k t : ℕ)
      → oracle.stopped n ≡ true
      → t + k ≡ n
      → (ds : List Deployment) → length (prune_loop oracle yanet node_names t ds).writes ≤ k
  unfolding prune_loop
  prune_loop-stopped oracle n k t h e [] = omega arith
  prune_loop-stopped oracle n zero t h e (d ∷ ds) = ground (
    arith,
    prune_loop-stopped oracle n zero t h e ds,
    subst (λ m. oracle.stopped m ≡ true) (t_is e) h,
  )
    where
      t_is : t + 0 ≡ n → n ≡ t
      t_is e' = omega arith
  prune_loop-stopped oracle n (suc k) t h e (d ∷ ds) = ground (
    arith,
    prune_loop-stopped oracle n (suc k) t h e ds,
    prune_loop-stopped oracle n k (suc t) h (omega arith) ds,
  )

  -- Once the kill switch is found on before a request, neither that request nor a later one is
  -- sent: with the switch on before request n, at most n requests were sent.
  pub prune_conflicting_deployments-stopped :
      (oracle : Oracle) (n : ℕ)
      → oracle.stopped n ≡ true
      → (listed : Result String (List Deployment))
      → length (prune_conflicting_deployments oracle yanet node_names listed).writes ≤ n
  unfolding prune_conflicting_deployments
  prune_conflicting_deployments-stopped oracle n h (err e) = omega arith
  prune_conflicting_deployments-stopped oracle n h (ok ds) =
      prune_loop-stopped oracle n n 0 h (omega arith) ds
