-- ===== src/Controller/Prune/Orphans/Kept.antt =====
-- What pruneOrphans may delete.
use yanet_operator.Base.{
  ◌≡◌, refl, sym, ◌⊎◌, inl, inr, Bool, true, false, none, some, List, [], ◌∷◌, ◌++◌, arith, String,
  contains, nat_eq, string_eq, int_eq, option_eq, Result, ok, err, All,
}
use yanet_operator.Base.{subst}
use yanet_operator.Kube.{ObjectMeta, Deployment, PodSpec}
use yanet_operator.Controller.Ownership.{Yanet, controlled_by_yanet}
use yanet_operator.Controller.Prune.{
  Oracle, Answer, done, gone, failed, Write, drain, delete_deployment, delete_config_map,
}
use yanet_operator.Controller.Prune.Orphans.{
  DesiredSet, Reads, Pass, remove, answered, empty_pass, send, Loop, or_first, judge_deployment,
  deployments_loop, judge_config_map, config_maps_loop, deployment_refs, rollout_pending, pod_refs,
  config_maps_phase, second_phase, after_deployments, prune_from, prune_orphans,
}
use yanet_operator.Controller.Prune.Orphans.References.{
  IsUnnamedBy, pod_refs-unnamed, IsUnusedBy, IsSettled, deployment_refs-unused,
  rollout_pending-IsSettled,
}

module _ (oracle : Oracle) (yanet : Yanet) (desired : DesiredSet) (auto_sync : Bool) where
  abbrev pub IsOwn : ObjectMeta → Type 0
  IsOwn m = (auto_sync ≡ true) × (controlled_by_yanet m yanet ≡ true) × (m.deleting ≡ false)

  -- No pod template of a list of the installation's Deployments names the ConfigMap, none of them is
  -- rolling out, and no pod of a list names it.
  abbrev pub IsUnused : Reads → String → Type 0
  IsUnused reads name =
      (ds : List Deployment) × (pods : List PodSpec) × ((reads.deployments ≡ ok ds)
        ⊎ (reads.deployments_again ≡ ok ds))
      × (reads.pods ≡ ok pods)
      × All (IsUnusedBy yanet name) ds
      × All (IsSettled yanet) ds
      × All (IsUnnamedBy name) pods

  abbrev pub IsPermitted : Reads → Write → Type 0
  IsPermitted reads (drain m) = ⊥
  IsPermitted reads (delete_deployment m) = IsOwn m × (contains desired.deployments m.name ≡ false)
  IsPermitted reads (delete_config_map m) =
      IsOwn m × (contains desired.config_maps m.name ≡ false) × IsUnused reads m.name

  judge_deployment-remove :
      (d : Deployment)
      → judge_deployment oracle yanet desired auto_sync d ≡ remove
      → IsOwn d.meta × (contains desired.deployments d.meta.name ≡ false)
  unfolding judge_deployment
  judge_deployment-remove d h = ground arith

  judge_config_map-remove :
      (referenced : List String) (pending : Bool) (c : ObjectMeta)
      → judge_config_map oracle yanet desired auto_sync referenced pending c ≡ remove
      → IsOwn c
        × (contains desired.config_maps c.name ≡ false)
        × (contains referenced c.name ≡ false)
        × (pending ≡ false)
  unfolding judge_config_map
  judge_config_map-remove referenced pending c h = ground arith

  answered-writes : (a : Answer) (pass : Pass) → (answered a pass).writes ≡ pass.writes
  answered-writes done pass = refl
  answered-writes gone pass = refl
  answered-writes (failed e) pass = refl

  module _ (P : Write → Type 0) where
    send-All :
        (w : Write) (pass : Pass) → P w → All P pass.writes → All P (send oracle w pass).writes
    send-All w pass h hs = subst (All P) (sym (answered-writes (oracle.answer pass.next) _)) (h, hs)

    deployments_loop-All :
        ((m : ObjectMeta)
          → IsOwn m × (contains desired.deployments m.name ≡ false)
          → P (delete_deployment m))
        → (ds : List Deployment) (pass : Pass) → All P pass.writes
        → All P (deployments_loop oracle yanet desired auto_sync ds pass).0.writes
    unfolding deployments_loop
    deployments_loop-All p [] pass h = h
    deployments_loop-All p (d ∷ ds) pass h = ground (
      arith,
      deployments_loop-All p ds pass h,
      deployments_loop-All p ds
          (record pass { retained_deployments = pass.retained_deployments ++ (d ∷ []) }) h,
      λ (r : judge_deployment oracle yanet desired auto_sync d ≡ remove).
          deployments_loop-All p ds (send oracle (delete_deployment d.meta) pass)
            (send-All (delete_deployment d.meta) pass (p d.meta (judge_deployment-remove d r)) h),
    )

    config_maps_loop-All :
        (referenced : List String) (pending : Bool)
        → ((c : ObjectMeta)
            → IsOwn c
              × (contains desired.config_maps c.name ≡ false)
              × (contains referenced c.name ≡ false)
              × (pending ≡ false)
            → P (delete_config_map c))
        → (cs : List ObjectMeta) (pass : Pass) → All P pass.writes
        → All P
            (config_maps_loop oracle yanet desired auto_sync referenced pending cs pass).0.writes
    unfolding config_maps_loop
    config_maps_loop-All referenced pending p [] pass h = h
    config_maps_loop-All referenced pending p (c ∷ cs) pass h = ground (
      arith,
      config_maps_loop-All referenced pending p cs pass h,
      config_maps_loop-All referenced pending p cs
          (record pass { retained_config_maps = pass.retained_config_maps ++ (c.name ∷ []) }) h,
      λ (r : judge_config_map oracle yanet desired auto_sync referenced pending c ≡ remove).
          config_maps_loop-All referenced pending p cs (send oracle (delete_config_map c) pass) (
            send-All (delete_config_map c) pass
              (p c (judge_config_map-remove referenced pending c r)) h),
    )

  or_first-pass : (l : Loop) → (or_first oracle yanet desired auto_sync l).0 ≡ l.0
  or_first-pass (pass, none) = refl
  or_first-pass (pass, some e) = refl

  module _ (reads : Reads) (pass : Pass) (ds : List Deployment)
      (read : (reads.deployments ≡ ok ds) ⊎ (reads.deployments_again ≡ ok ds))
      (h : All (IsPermitted reads) pass.writes) where
    config_maps_phase-IsPermitted :
        (cs : List ObjectMeta) (pods : Result String (List PodSpec))
        → reads.pods ≡ pods
        → All
            (IsPermitted reads)
            (config_maps_phase oracle yanet desired auto_sync pass ds cs pods).0.writes
    config_maps_phase-IsPermitted cs (err e) p = h
    config_maps_phase-IsPermitted cs (ok pods) p =
        subst (λ out. All (IsPermitted reads) out.writes) (sym (or_first-pass _))
          (config_maps_loop-All (IsPermitted reads) (pod_refs pods (deployment_refs yanet ds []))
            (rollout_pending yanet ds) permit cs pass h)
      where
        permit :
            (c : ObjectMeta)
            → IsOwn c
              × (contains desired.config_maps c.name ≡ false)
              × (contains (pod_refs pods (deployment_refs yanet ds [])) c.name ≡ false)
              × (rollout_pending yanet ds ≡ false)
            → IsPermitted reads (delete_config_map c)
        permit c (own, kept, unnamed, settled) =
            let (in_ds, in_pods) =
              pod_refs-unnamed pods (deployment_refs yanet ds []) c.name unnamed in
            (
              own,
              kept,
              (
                ds,
                pods,
                read,
                p,
                (deployment_refs-unused yanet ds [] c.name in_ds).1,
                rollout_pending-IsSettled yanet ds settled,
                in_pods,
              ),
            )

    second_phase-IsPermitted :
        (cms : Result String (List ObjectMeta))
        → All
            (IsPermitted reads)
            (second_phase oracle yanet desired auto_sync reads pass (ok ds) cms).0.writes
    unfolding config_maps_loop
    second_phase-IsPermitted (err e) = h
    second_phase-IsPermitted (ok []) = h
    second_phase-IsPermitted (ok (c ∷ cs)) = config_maps_phase-IsPermitted (c ∷ cs) reads.pods refl

  reread-IsPermitted :
      (reads : Reads) (pass : Pass)
      → All (IsPermitted reads) pass.writes
      → (again : Result String (List Deployment)) → reads.deployments_again ≡ again
      → All
          (IsPermitted reads)
          (second_phase oracle yanet desired auto_sync reads pass again reads.config_maps).0.writes
  reread-IsPermitted reads pass h (err e) q = h
  reread-IsPermitted reads pass h (ok ds) q =
      second_phase-IsPermitted reads pass ds (inr q) h reads.config_maps

  after_deployments-IsPermitted :
      (reads : Reads) (ds : List Deployment)
      → reads.deployments ≡ ok ds
      → (l : Loop) → All (IsPermitted reads) l.0.writes
      → All
          (IsPermitted reads)
          (after_deployments oracle yanet desired auto_sync reads ds l).0.writes
  after_deployments-IsPermitted reads ds q (pass, some e) h = h
  after_deployments-IsPermitted reads ds q (pass, none) h = ground (
    arith,
    second_phase-IsPermitted reads pass ds (inl q) h reads.config_maps,
    reread-IsPermitted reads pass h reads.deployments_again refl,
  )

  -- Whatever the cluster answers, each deletion is of an object that the installation controls, that
  -- is not terminating and not desired, and only with auto-sync on. A ConfigMap is deleted only if no
  -- Deployment of the installation and no pod listed names it, and no such Deployment is rolling out.
  pub prune_orphans-IsPermitted :
      (reads : Reads)
      → All (IsPermitted reads) (prune_orphans oracle yanet desired auto_sync reads).0.writes
  unfolding prune_orphans
  prune_orphans-IsPermitted reads = from reads.deployments refl
    where
      from :
          (first : Result String (List Deployment))
          → reads.deployments ≡ first
          → All (IsPermitted reads) (prune_from oracle yanet desired auto_sync reads first).0.writes
      from (err e) q = tt
      from (ok ds) q =
          after_deployments-IsPermitted reads ds q
            (deployments_loop oracle yanet desired auto_sync ds empty_pass)
            (deployments_loop-All (IsPermitted reads) (λ m h. h) ds empty_pass tt)
