-- ===== src/Controller/Prune/Orphans.antt =====
-- pruneOrphans and collectPodConfigMapRefs (internal/controller/prune.go). The results of the four
-- List calls are arguments, the requests meet the same oracle as those of the other pass.
pub mod References
pub mod Kept
use yanet_operator.Base.{
  ℕ, suc, Bool, true, false, not, ◌||◌, ◌&&◌, Option, none, some, List, [], ◌∷◌, ◌++◌, String, ◌==◌,
  contains, if◌then◌else◌, nat_eq, string_eq, int_eq, option_eq, ltb, Result, ok, err, ℤ, pos,
  is_empty,
}
use yanet_operator.Kube.{ObjectMeta, Deployment, PodSpec, Volume, EnvContainer}
use yanet_operator.Controller.Ownership.{Yanet, controlled_by_yanet}
use yanet_operator.Controller.Prune.{
  Oracle, Answer, done, gone, failed, Write, delete_deployment, delete_config_map, PruneError,
  list_failed, global_stop, request_failed,
}

-- The sets of names are lists.
abbrev pub note : Option String → List String → List String
note none seen = seen
note (some n) seen = n ∷ seen

abbrev pub note_all : List (Option String) → List String → List String
note_all [] seen = seen
note_all (n ∷ ns) seen = note_all ns (note n seen)

abbrev projected_refs : Option (List (Option String)) → List String → List String
projected_refs none seen = seen
projected_refs (some sources) seen = note_all sources seen

abbrev volume_refs : List Volume → List String → List String
volume_refs [] seen = seen
volume_refs (v ∷ vs) seen = volume_refs vs (projected_refs v.projected (note v.config_map seen))

abbrev container_refs : List EnvContainer → List String → List String
container_refs [] seen = seen
container_refs (c ∷ cs) seen = container_refs cs (note_all c.env (note_all c.env_from seen))

unfoldable pub collect_pod_config_map_refs : PodSpec → List String → List String
collect_pod_config_map_refs pod seen =
    container_refs pod.init_containers
      (container_refs pod.containers (volume_refs pod.volumes seen))

pub record DesiredSet : Type 0 where
  pub deployments : List String
  pub config_maps : List String

pub record Reads : Type 0 where
  pub deployments : Result String (List Deployment)
  pub deployments_again : Result String (List Deployment)
  pub config_maps : Result String (List ObjectMeta)
  pub pods : Result String (List PodSpec)

-- What the loops carry: the number of the next request, the requests sent, pruneResult, and the
-- first error of a deletion.
pub record Pass : Type 0 where
  pub next : ℕ
  pub writes : List Write
  pub deleted : ℕ
  pub retained_deployments : List Deployment
  pub retained_config_maps : List String
  pub first_err : Option PruneError

abbrev pub empty_pass : Pass
empty_pass = record {
  next = 0;
  writes = [];
  deleted = 0;
  retained_deployments = [];
  retained_config_maps = [];
  first_err = none;
}

abbrev first_of : Option PruneError → PruneError → Option PruneError
first_of none e = some e
first_of (some d) e = some d

abbrev pub answered : Answer → Pass → Pass
answered done pass = record pass { deleted = suc pass.deleted }
answered gone pass = pass
answered (failed e) pass = record pass { first_err = first_of pass.first_err (request_failed e) }

abbrev pub send : Oracle → Write → Pass → Pass
send oracle w pass =
    answered (oracle.answer pass.next)
      (record pass { next = suc pass.next; writes = w ∷ pass.writes })

-- An early return, with the result so far.
abbrev pub Loop : Type 0
Loop = Pass × Option PruneError

-- What a loop's body does with an object.
pub data Judgement : Type 0 where
  skip retain remove : Judgement

module _ (oracle : Oracle) (yanet : Yanet) (desired : DesiredSet) (auto_sync : Bool) where
  unfoldable pub judge_deployment : Deployment → Judgement
  unfolding controlled_by_yanet
  judge_deployment d =
      if not (controlled_by_yanet d.meta yanet) || contains desired.deployments d.meta.name
      then skip
      else if not auto_sync
      then retain
      else if d.meta.deleting
      then skip
      else remove

  unfoldable pub deployments_loop : List Deployment → Pass → Loop
  unfolding judge_deployment
  deployments_loop [] pass = (pass, none)
  deployments_loop (d ∷ ds) pass = elim (judge_deployment d) [
    | skip ↦ deployments_loop ds pass
    | retain ↦
        deployments_loop ds
          (record pass { retained_deployments = pass.retained_deployments ++ (d ∷ []) })
    | remove ↦ elim (oracle.stopped pass.next) [
      | true ↦ (pass, some global_stop)
      | false ↦ deployments_loop ds (send oracle (delete_deployment d.meta) pass)
    ]
  ]

  unfoldable pub judge_config_map : List String → Bool → ObjectMeta → Judgement
  unfolding controlled_by_yanet
  judge_config_map referenced rollout_pending c =
      if not (controlled_by_yanet c yanet)
        || contains desired.config_maps c.name
        || contains referenced c.name
        || rollout_pending
      then skip
      else if not auto_sync
      then retain
      else if c.deleting
      then skip
      else remove

  unfoldable pub config_maps_loop : List String → Bool → List ObjectMeta → Pass → Loop
  unfolding judge_config_map
  config_maps_loop referenced rollout_pending [] pass = (pass, none)
  config_maps_loop referenced rollout_pending (c ∷ cs) pass =
      elim (judge_config_map referenced rollout_pending c) [
        | skip ↦ config_maps_loop referenced rollout_pending cs pass
        | retain ↦
            config_maps_loop referenced rollout_pending cs
              (record pass { retained_config_maps = pass.retained_config_maps ++ (c.name ∷ []) })
        | remove ↦ elim (oracle.stopped pass.next) [
          | true ↦ (pass, some global_stop)
          | false ↦
              config_maps_loop referenced rollout_pending cs
                (send oracle (delete_config_map c) pass)
        ]
      ]

abbrev pub replicas_or_one : Option ℤ → ℤ
replicas_or_one none = pos 1
replicas_or_one (some n) = n

abbrev pub is_rolling : Deployment → Bool
is_rolling d =
    d.meta.deleting
    || ltb d.observed_generation d.meta.generation
    || not (d.updated_replicas == replicas_or_one d.replicas)
    || not (d.status_replicas == replicas_or_one d.replicas)

-- The ConfigMaps that the installation's Deployments refer to, and whether one is rolling out.
unfoldable pub deployment_refs : Yanet → List Deployment → List String → List String
unfolding collect_pod_config_map_refs controlled_by_yanet
deployment_refs yanet [] seen = seen
deployment_refs yanet (d ∷ ds) seen =
    deployment_refs yanet ds
      (if controlled_by_yanet d.meta yanet then collect_pod_config_map_refs d.pod seen else seen)

unfoldable pub rollout_pending : Yanet → List Deployment → Bool
unfolding controlled_by_yanet
rollout_pending yanet [] = false
rollout_pending yanet (d ∷ ds) =
    controlled_by_yanet d.meta yanet && is_rolling d || rollout_pending yanet ds

unfoldable pub pod_refs : List PodSpec → List String → List String
unfolding collect_pod_config_map_refs
pod_refs [] seen = seen
pod_refs (p ∷ ps) seen = pod_refs ps (collect_pod_config_map_refs p seen)

abbrev pub pods_if : List ObjectMeta → Result String (List PodSpec) → Result String (List PodSpec)
pods_if [] pods = ok []
pods_if (c ∷ cs) pods = pods

module _ (oracle : Oracle) (yanet : Yanet) (desired : DesiredSet) (auto_sync : Bool) where
  abbrev pub or_first : Loop → Loop
  or_first (pass, none) = (pass, pass.first_err)
  or_first (pass, some e) = (pass, some e)

  abbrev pub config_maps_phase :
      Pass → List Deployment → List ObjectMeta → Result String (List PodSpec) → Loop
  config_maps_phase pass ds cs (err e) = (pass, some (list_failed e))
  config_maps_phase pass ds cs (ok pods) = or_first (
      config_maps_loop oracle yanet desired auto_sync (pod_refs pods (deployment_refs yanet ds []))
        (rollout_pending yanet ds) cs pass)

  abbrev pub second_phase :
      Reads → Pass → Result String (List Deployment) → Result String (List ObjectMeta) → Loop
  second_phase reads pass (err e) config_maps = (pass, some (list_failed e))
  second_phase reads pass (ok ds) (err e) = (pass, some (list_failed e))
  second_phase reads pass (ok ds) (ok cs) = config_maps_phase pass ds cs (pods_if cs reads.pods)

  -- The Deployments are read again if a deletion was requested.
  abbrev pub after_deployments : Reads → List Deployment → Loop → Loop
  after_deployments reads ds (pass, some e) = (pass, some e)
  after_deployments reads ds (pass, none) =
      second_phase reads pass (if is_empty pass.writes then ok ds else reads.deployments_again)
        reads.config_maps

  abbrev pub prune_from : Reads → Result String (List Deployment) → Loop
  prune_from reads (err e) = (empty_pass, some (list_failed e))
  prune_from reads (ok ds) =
      after_deployments reads ds (deployments_loop oracle yanet desired auto_sync ds empty_pass)

  unfoldable pub prune_orphans : Reads → Loop
  unfolding deployments_loop config_maps_loop deployment_refs rollout_pending pod_refs
  prune_orphans reads = prune_from reads reads.deployments
