-- ===== src/Controller/Lifecycle.antt =====
-- The kill switch, the finalizer and the deletion of an installation
-- (internal/controller/yanet_reconciler.go: checkGlobalStop, snapshotYanetConfig, handleYanetDeletion and
-- the beginning of reconcileYanet) and the snapshot that YanetConfigReconciler keeps
-- (yanetconfig_controller.go). The lock of the snapshot makes each access one step. Times are in
-- milliseconds. The answers of the API server are arguments.
pub mod Agreed
pub mod Finalized
pub mod Requests
pub mod Running
use yanet_operator.Base.{
  ℕ, Bool, true, false, not, ◌||◌, ◌&&◌, Option, none, some, List, [], ◌∷◌, ◌++◌, String, ◌==◌,
  contains, if◌then◌else◌, nat_eq, string_eq, int_eq, option_eq, Result, ok, err, pos, is_empty,
}
use yanet_operator.Kube.{Deployment}
use yanet_operator.Api.Types.{YanetConfigSpec, ImageRef}
use yanet_operator.Controller.Ownership.{Yanet, controlled_by_yanet}
use yanet_operator.Controller.Prune.{Oracle, PruneError, Write}
use yanet_operator.Controller.Prune.Orphans.{DesiredSet, Reads, Loop, prune_orphans}

-- The result of reading the singleton.
pub data ConfigRead : Type 0 where
  config_found : YanetConfigSpec → ConfigRead
  config_not_found : ConfigRead
  config_unread : String → ConfigRead

abbrev no_image : ImageRef
no_image = record { registry = none; prefix = none; name = ""; tag = "" }

-- YanetConfigSpec{}
abbrev pub zero_config : YanetConfigSpec
zero_config = record {
  stop = false;
  update_window = pos 0;
  images = record { registry = ""; prefix = ""; tag = ""; pull_policy = ""; pull_secrets = [] };
  components = record {
    controlplane = record { image = no_image; config = none; numa = none; disabled_numa = [] };
    dataplane = record {
      image = no_image;
      config = none;
      hugepages = none;
      networks = none;
      sidecars = [];
    };
    bird_adapter = none;
    operators = [];
  };
  patches = [];
  box_types = [];
}

-- A nil GlobalConfig is `none`.
abbrev pub Snapshot : Type 0
Snapshot = Option YanetConfigSpec

unfoldable pub check_global_stop : Snapshot → Bool
check_global_stop none = false
check_global_stop (some c) = c.stop

unfoldable pub snapshot_yanet_config : Snapshot → Option YanetConfigSpec
snapshot_yanet_config none = none
snapshot_yanet_config (some c) = if is_empty c.box_types && not c.stop then none else some c

-- The snapshot afterwards, and the configuration or the error returned.
unfoldable pub refresh_yanet_config_snapshot :
    ConfigRead → Snapshot → Snapshot × Result String (Option YanetConfigSpec)
refresh_yanet_config_snapshot read none = (none, err "GlobalConfig is nil")
refresh_yanet_config_snapshot (config_unread e) (some c) = (some zero_config, err e)
refresh_yanet_config_snapshot config_not_found (some c) = (some zero_config, ok none)
refresh_yanet_config_snapshot (config_found new) (some c) = (some new, ok (some new))

-- What YanetConfigReconciler.Reconcile goes on with: the shared Services, unless there is no
-- configuration or it says stop.
abbrev pub serves : Result String (Option YanetConfigSpec) → Option YanetConfigSpec
serves (err e) = none
serves (ok none) = none
serves (ok (some c)) = if c.stop then none else some c

unfoldable pub reconcile_config : ConfigRead → Snapshot → Snapshot × Option YanetConfigSpec
unfolding refresh_yanet_config_snapshot
reconcile_config read snapshot =
    let (after, result) = refresh_yanet_config_snapshot read snapshot in (after, serves result)

pub data Begin : Type 0 where
  frozen : Begin
  unread : String → Begin
  proceed : Option YanetConfigSpec → Begin

abbrev pub unless_stopped : YanetConfigSpec → Begin
unless_stopped c = if c.stop then frozen else proceed (some c)

abbrev pub begin_persisted : ConfigRead → Begin
begin_persisted (config_found c) = unless_stopped c
begin_persisted config_not_found = proceed none
begin_persisted (config_unread e) = unread e

-- An empty snapshot is backed by a read of the singleton.
unfoldable pub begin : Snapshot → ConfigRead → Begin
unfolding snapshot_yanet_config
begin snapshot persisted = elim (snapshot_yanet_config snapshot) [
  | some c ↦ unless_stopped c
  | none ↦ begin_persisted persisted
]

pub data LifecycleError : Type 0 where
  stopped : LifecycleError
  cleanup_failed : PruneError → LifecycleError
  request_failed : String → LifecycleError

-- The prune's requests, whether an update of the finalizers was sent, the finalizers that it has, the
-- wait, and the error.
pub record Lifecycle : Type 0 where
  pub writes : List Write
  pub updated : Option (List String)
  pub requeue : ℕ
  pub error : Option LifecycleError

-- The result of an update; `object_gone` is a NotFound error.
pub data UpdateAnswer : Type 0 where
  update_done object_gone : UpdateAnswer
  update_failed : String → UpdateAnswer

abbrev pub yanet_finalizer : String
yanet_finalizer = "yanet.yanet-platform.io/finalizer"

-- controllerutil.RemoveFinalizer
abbrev pub remove_finalizer : List String → List String
remove_finalizer [] = []
remove_finalizer (f ∷ fs) =
    let rest = remove_finalizer fs in if f == yanet_finalizer then rest else f ∷ rest

abbrev pub error_of_removal : UpdateAnswer → Option LifecycleError
error_of_removal update_done = none
error_of_removal object_gone = none
error_of_removal (update_failed e) = some (request_failed e)

abbrev pub some_controlled : Yanet → List Deployment → Bool
some_controlled yanet [] = false
some_controlled yanet (d ∷ ds) = controlled_by_yanet d.meta yanet || some_controlled yanet ds

abbrev pub nothing_desired : DesiredSet
nothing_desired = record { deployments = []; config_maps = [] }

module _ (snapshot : Snapshot) (yanet : Yanet) where
  abbrev pub settled : List Write → ℕ → Option LifecycleError → Lifecycle
  settled writes requeue e = record {
    writes = writes;
    updated = none;
    requeue = requeue;
    error = e;
  }

  -- The kill switch is read again right before the update.
  abbrev pub remove_now : List Write → UpdateAnswer → Lifecycle
  remove_now writes answer =
      if check_global_stop snapshot then settled writes 0 (some stopped) else record {
        writes = writes;
        updated = some (remove_finalizer yanet.meta.finalizers);
        requeue = 0;
        error = error_of_removal answer;
      }

  abbrev pub after_listing : List Write → UpdateAnswer → Result String (List Deployment) → Lifecycle
  after_listing writes answer (err e) = settled writes 0 (some (request_failed e))
  after_listing writes answer (ok ds) =
      if some_controlled yanet ds then settled writes 5000 none else remove_now writes answer

  abbrev pub after_cleanup : UpdateAnswer → Result String (List Deployment) → Loop → Lifecycle
  after_cleanup answer listed (pass, some e) = settled pass.writes 30000 (some (cleanup_failed e))
  after_cleanup answer listed (pass, none) = after_listing pass.writes answer listed

  unfoldable pub handle_yanet_deletion :
      Oracle → Reads → Result String (List Deployment) → UpdateAnswer → Lifecycle
  unfolding prune_orphans controlled_by_yanet check_global_stop
  handle_yanet_deletion oracle reads listed answer =
      if not (contains yanet.meta.finalizers yanet_finalizer)
      then settled [] 0 none
      else after_cleanup answer listed (prune_orphans oracle yanet nothing_desired true reads)

  abbrev pub error_of_addition : UpdateAnswer → Option LifecycleError
  error_of_addition update_done = none
  error_of_addition object_gone = some (request_failed "not found")
  error_of_addition (update_failed e) = some (request_failed e)

  abbrev pub wait_of_addition : UpdateAnswer → ℕ
  wait_of_addition update_done = 100
  wait_of_addition answer = 0

  unfoldable pub add_finalizer : UpdateAnswer → Lifecycle
  unfolding check_global_stop
  add_finalizer answer =
      if check_global_stop snapshot then settled [] 0 (some stopped) else record {
        writes = [];
        updated = some (yanet.meta.finalizers ++ (yanet_finalizer ∷ []));
        requeue = wait_of_addition answer;
        error = error_of_addition answer;
      }
