-- ===== src/Controller/Throttle.antt =====
-- checkUpdateRequeue (internal/controller/yanet_controller.go): the updateWindow throttle. Times
-- are nanoseconds since Go's zero time, at which lastUpdateTS starts; durations are nanoseconds.
pub mod Spacing
use yanet_operator.Base.{
  ℕ, ◌+◌, ◌-◌, not, ◌&&◌, List, [], ◌∷◌, String, ◌==◌, if◌then◌else◌, nat_eq, string_eq, ltb,
}

-- The fields of YanetReconciler that its lock guards.
pub record Throttle : Type 0 where
  pub last_update_ts : ℕ
  pub last_update_host : String

abbrev pub start : Throttle
start = record { last_update_ts = 0; last_update_host = "" }

-- The wait returned, and the fields afterwards. The subtraction runs only while the timer has not
-- expired, where `now` is at most `last_update_ts + window`, so that it does not stop at 0.
unfoldable pub check_update_requeue : ℕ → ℕ → String → Throttle → ℕ × Throttle
check_update_requeue window now host r =
    if window == 0
    then (0, r)
    else if not (ltb (r.last_update_ts + window) now) && not (host == r.last_update_host)
    then (r.last_update_ts + window - now, r)
    else (0, record { last_update_ts = now; last_update_host = host })

-- One call: its time and its host.
pub record Request : Type 0 where
  pub now : ℕ
  pub host : String

-- The waits returned to a sequence of calls. A wait of 0 lets the caller write.
unfoldable pub run : ℕ → List Request → Throttle → List ℕ
run window [] r = []
run window (q ∷ qs) r =
    let (wait, r') = check_update_requeue window q.now q.host r in wait ∷ run window qs r'
