-- ===== src/Controller/Reconcile/Spared.antt =====
-- What a whole reconciliation deletes (internal/controller/yanet_reconciler.go and prune.go).
use yanet_operator.Base.{
  ◌≡◌, refl, ℕ, Bool, true, false, not, Option, none, some, List, [], ◌∷◌, ◌++◌, String,
  if◌then◌else◌, nat_eq, string_eq, int_eq, option_eq, Result, ok, All, is_empty,
}
use yanet_operator.Base.{All-weaken}
use yanet_operator.Kube.{Node}
use yanet_operator.Resolve.Enabled.{ComponentRef}
use yanet_operator.Controller.Ownership.{Yanet}
use yanet_operator.Controller.Prune.{Oracle, Write, drain, delete_deployment, delete_config_map}
use yanet_operator.Controller.Prune.Orphans.{Reads, Loop, prune_orphans}
use yanet_operator.Controller.Prune.Orphans.Kept
use yanet_operator.Controller.Conditions.{StatusView}
use yanet_operator.Controller.Reconcile.{Rounds, no_rounds, Calls, nodes_loop, LoopError}
use yanet_operator.Controller.Reconcile.Desired.{
  IsUnwanted, IsSparedOn, nodes_loop-IsCovered, IsCovered-IsSparedOn,
}
use yanet_operator.Controller.Reconcile.Finish.{
  Failure, degraded_by, loop_failed, after_prune, pods_errors, finish,
}

is_empty-append : (xs ys : List LoopError) → is_empty (xs ++ ys) ≡ true → is_empty xs ≡ true
is_empty-append [] ys h = refl
is_empty-append (x ∷ xs) ys h = h

module _ (describe : Failure → String) (show_names : List String → String) (now : ℕ)
    (previous : StatusView) (update_window : ℕ) (updated : Result String (Unit {0}))
    (oracle : Oracle) (yanet : Yanet) (auto_sync : Bool) (reads : Reads) where
  after_prune-writes :
      (r : Rounds) (l : Loop)
      → (after_prune describe show_names now previous update_window updated r l).writes ≡ l.0.writes
  after_prune-writes r (pass, none) = refl
  after_prune-writes r (pass, some e) = refl

  -- What a reconciliation deletes is what its prune may delete.
  pub finish-IsPermitted :
      (pods : Option String) (r : Rounds)
      → All
          (Kept.IsPermitted oracle yanet r.desired auto_sync reads)
          (finish describe show_names now previous update_window updated oracle yanet auto_sync
            reads pods r).writes
  unfolding finish
  finish-IsPermitted pods r =
      let errors = r.errors ++ pods_errors pods in
      let pruned = prune_orphans oracle yanet r.desired auto_sync reads in
      elim (is_empty errors)
        as (λ (b : Bool).
          All (Kept.IsPermitted oracle yanet r.desired auto_sync reads)
            (if not b
              then degraded_by describe show_names now previous update_window updated []
                  r.nodes_status (loop_failed errors)
              else after_prune describe show_names now previous update_window updated r
                  pruned).writes) [
                    | false ↦ tt
                    | true ↦
                        rw (after_prune-writes r pruned)
                          (Kept.prune_orphans-IsPermitted oracle yanet r.desired auto_sync reads)
                  ]

  module _ (C : Type 0) (calls : Calls C) (installation_enabled : Bool)
      (enabled : List ComponentRef) where
    permitted-IsUnwanted :
        (r : Rounds) (w : Write)
        → Kept.IsPermitted oracle yanet r.desired auto_sync reads w
        → IsUnwanted C calls installation_enabled enabled r w
    permitted-IsUnwanted r (drain m) h = tt
    permitted-IsUnwanted r (delete_deployment m) h = h.1
    permitted-IsUnwanted r (delete_config_map m) h = h.1

    -- A reconciliation deletes something only after every enabled component of every node was resolved,
    -- had its ConfigMaps applied and was rendered without an error, and what it deletes is none of the
    -- Deployments rendered and none of the ConfigMaps named, whatever the prune then reads and meets.
    pub finish-IsSparedOn :
        (nodes : List Node) (r : Rounds)
        → nodes_loop C calls installation_enabled enabled nodes no_rounds ≡ ok r
        → (pods : Option String)
        → All
            (λ (w : Write). All (IsSparedOn C calls installation_enabled enabled w) nodes)
            (finish describe show_names now previous update_window updated oracle yanet auto_sync
              reads pods r).writes
    unfolding finish
    finish-IsSparedOn nodes r e pods =
        let errors = r.errors ++ pods_errors pods in
        let pruned = prune_orphans oracle yanet r.desired auto_sync reads in
        let (grown, covered) =
          nodes_loop-IsCovered C calls installation_enabled enabled nodes no_rounds r e in
        elim (is_empty errors)
            as (λ (b : Bool).
              is_empty errors ≡ b
              → All (λ (w : Write). All (IsSparedOn C calls installation_enabled enabled w) nodes)
                  (if not b
                    then degraded_by describe show_names now previous update_window updated []
                        r.nodes_status (loop_failed errors)
                    else after_prune describe show_names now previous update_window updated r
                        pruned).writes) [
                          | false ↦ λ h. tt
                          | true ↦ λ h. rw (after_prune-writes r pruned) (
                              All-weaken
                                (λ w p.
                                  All-weaken
                                    (λ n c.
                                      IsCovered-IsSparedOn C calls installation_enabled enabled r w
                                        n (permitted-IsUnwanted r w p) c)
                                    nodes (covered (is_empty-append r.errors (pods_errors pods) h)))
                                pruned.0.writes
                                (Kept.prune_orphans-IsPermitted oracle yanet r.desired auto_sync
                                  reads))
                        ]
          refl
