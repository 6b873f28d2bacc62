-- ===== src/Controller/Lifecycle/Requests.antt =====
-- What the finalizer's handlers delete (internal/controller/yanet_reconciler.go: handleYanetDeletion and
-- the addition of the finalizer in reconcileYanet).
use yanet_operator.Base.{
  ◌≡◌, refl, sym, Bool, true, false, not, none, some, List, [], arith, String, contains,
  if◌then◌else◌, nat_eq, string_eq, int_eq, option_eq, Result, ok, err, All,
}
use yanet_operator.Base.{subst}
use yanet_operator.Kube.{Deployment}
use yanet_operator.Controller.Ownership.{Yanet}
use yanet_operator.Controller.Prune.{Oracle, Write}
use yanet_operator.Controller.Prune.Orphans.{Reads, Loop, prune_orphans}
use yanet_operator.Controller.Prune.Orphans.Kept
use yanet_operator.Controller.Lifecycle.{
  Snapshot, UpdateAnswer, yanet_finalizer, settled, after_listing, after_cleanup, nothing_desired,
  handle_yanet_deletion, add_finalizer,
}

module _ (snapshot : Snapshot) (yanet : Yanet) where
  pub add_finalizer-writes :
      (answer : UpdateAnswer) → (add_finalizer snapshot yanet answer).writes ≡ []
  unfolding add_finalizer
  add_finalizer-writes answer = ground arith

  after_listing-writes :
      (writes : List Write) (answer : UpdateAnswer) (listed : Result String (List Deployment))
      → (after_listing snapshot yanet writes answer listed).writes ≡ writes
  after_listing-writes writes answer (err e) = refl
  after_listing-writes writes answer (ok ds) = ground arith

  after_cleanup-writes :
      (answer : UpdateAnswer) (listed : Result String (List Deployment)) (l : Loop)
      → (after_cleanup snapshot yanet answer listed l).writes ≡ l.0.writes
  after_cleanup-writes answer listed (pass, some e) = refl
  after_cleanup-writes answer listed (pass, none) = after_listing-writes pass.writes answer listed

  pub handle_yanet_deletion-IsPermitted :
      (oracle : Oracle) (reads : Reads) (listed : Result String (List Deployment))
      (answer : UpdateAnswer)
      → All
          (Kept.IsPermitted oracle yanet nothing_desired true reads)
          (handle_yanet_deletion snapshot yanet oracle reads listed answer).writes
  unfolding handle_yanet_deletion
  handle_yanet_deletion-IsPermitted oracle reads listed answer =
      let l = prune_orphans oracle yanet nothing_desired true reads in
      elim (contains yanet.meta.finalizers yanet_finalizer)
        as (λ (b : Bool).
          All (Kept.IsPermitted oracle yanet nothing_desired true reads)
            (if not b
              then settled snapshot yanet [] 0 none
              else after_cleanup snapshot yanet answer listed l).writes) [
                | false ↦ tt
                | true ↦
                    subst (All (Kept.IsPermitted oracle yanet nothing_desired true reads))
                      (sym (after_cleanup-writes answer listed l))
                      (Kept.prune_orphans-IsPermitted oracle yanet nothing_desired true reads)
              ]
