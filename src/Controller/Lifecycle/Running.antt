-- ===== src/Controller/Lifecycle/Running.antt =====
-- A reconciliation goes on only with a configuration that does not say stop
-- (internal/controller/yanet_reconciler.go: the beginning of reconcileYanet).
use yanet_operator.Base.{
  ◌≡◌, refl, Bool, true, false, Option, none, some, arith, if◌then◌else◌, nat_eq, string_eq, int_eq,
  option_eq,
}
use yanet_operator.Api.Types.{YanetConfigSpec}
use yanet_operator.Controller.Lifecycle.{
  Snapshot, ConfigRead, config_found, config_not_found, config_unread, unless_stopped,
  begin_persisted, snapshot_yanet_config, Begin, frozen, proceed, begin,
}

unless_stopped-stop : (d c : YanetConfigSpec) → unless_stopped d ≡ proceed (some c) → c.stop ≡ false
unless_stopped-stop d c =
    elim d.stop
        as (λ (b : Bool).
          d.stop ≡ b
          → (if b then frozen else proceed (some d)) ≡ proceed (some c)
          → c.stop ≡ false) [
            | true ↦ λ q h. ground (arith, h)
            | false ↦ λ q h. ground (arith, q, h)
          ]
      refl

begin_persisted-stop :
    (read : ConfigRead) (c : YanetConfigSpec)
    → begin_persisted read ≡ proceed (some c)
    → c.stop ≡ false
begin_persisted-stop (config_found d) c h = unless_stopped-stop d c h
begin_persisted-stop config_not_found c h = ground (arith, h)
begin_persisted-stop (config_unread e) c h = ground (arith, h)

begin-stop :
    (s : Snapshot) (read : ConfigRead) (c : YanetConfigSpec)
    → begin s read ≡ proceed (some c)
    → c.stop ≡ false
unfolding begin
begin-stop s read c h = from (snapshot_yanet_config s) h
  where
    from :
        (o : Option YanetConfigSpec)
        → (elim o as (λ (x : Option YanetConfigSpec). Begin) [
          | some d ↦ unless_stopped d
          | none ↦ begin_persisted read
        ])
          ≡ proceed (some c)
        → c.stop ≡ false
    from none k = begin_persisted-stop read c k
    from (some d) k = unless_stopped-stop d c k

-- There is no configuration, or it does not say stop.
abbrev pub IsStartable : Option YanetConfigSpec → Type 0
IsStartable none = Unit
IsStartable (some c) = c.stop ≡ false

pub begin-IsStartable :
    (s : Snapshot) (read : ConfigRead) (config : Option YanetConfigSpec)
    → begin s read ≡ proceed config
    → IsStartable config
begin-IsStartable s read none h = tt
begin-IsStartable s read (some c) h = begin-stop s read c h
