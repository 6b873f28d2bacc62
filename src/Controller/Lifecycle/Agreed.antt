-- ===== src/Controller/Lifecycle/Agreed.antt =====
-- The two controllers on one singleton (internal/controller/yanetconfig_controller.go and
-- yanet_reconciler.go).
use yanet_operator.Base.{
  ◌≡◌, refl, Bool, true, false, not, ◌&&◌, none, some, is_empty, if◌then◌else◌,
}
use yanet_operator.Api.Types.{YanetConfigSpec}
use yanet_operator.Controller.Lifecycle.{
  ConfigRead, config_found, config_not_found, config_unread, refresh_yanet_config_snapshot, begin,
  begin_persisted, unless_stopped,
}

-- Once the snapshot has been refreshed from what a read of the singleton answered, an installation's
-- reconciliation that reads the same begins as one without a snapshot would: it stops when the
-- singleton says so, goes on without a palette when there is none, and fails when the read failed,
-- although the refresh then leaves a snapshot that does not say stop.
pub begin-refresh_yanet_config_snapshot :
    (read : ConfigRead) (c : YanetConfigSpec)
    → begin (refresh_yanet_config_snapshot read (some c)).0 read ≡ begin_persisted read
unfolding begin refresh_yanet_config_snapshot
begin-refresh_yanet_config_snapshot config_not_found c = refl
begin-refresh_yanet_config_snapshot (config_unread e) c = refl
begin-refresh_yanet_config_snapshot (config_found new) c =
    elim (is_empty new.box_types && not new.stop)
      as (λ (b : Bool).
        (elim (if b then none else some new) [
          | some s ↦ unless_stopped s
          | none ↦ unless_stopped new
        ])
        ≡ unless_stopped new) [ true ↦ refl | false ↦ refl ]
