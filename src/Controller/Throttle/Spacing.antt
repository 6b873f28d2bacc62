-- ===== src/Controller/Throttle/Spacing.antt =====
-- How far apart the throttle keeps the updates of different nodes.
use yanet_operator.Base.{
  ◌≡◌, refl, ◌≢◌, ◌⊎◌, inl, ℕ, ◌+◌, ◌≤◌, List, [], ◌∷◌, arith, String, nat_eq, string_eq,
}
use yanet_operator.Controller.Throttle.{Throttle, check_update_requeue, Request, run}

-- The times do not run backwards from `from` on.
abbrev pub IsOrdered : ℕ → List Request → Type 0
IsOrdered from [] = Unit
IsOrdered from (q ∷ qs) = (from ≤ q.now) × IsOrdered q.now qs

-- Each call that is let through for another node than `host` comes at `time` at the earliest.
abbrev pub NotBefore : ℕ → String → List Request → List ℕ → Type 0
NotBefore time host [] waits = Unit
NotBefore time host (q ∷ qs) [] = Unit
NotBefore time host (q ∷ qs) (w ∷ waits) =
    (w ≡ 0 → q.host ≢ host → time ≤ q.now) × NotBefore time host qs waits

abbrev Holds : ℕ → ℕ → String → Throttle → Type 0
Holds window t host r =
    ((r.last_update_host ≡ host) × (t ≤ r.last_update_ts)) ⊎ (t + window ≤ r.last_update_ts)

step-Holds :
    (window t now : ℕ) (host h : String) (r : Throttle)
    → window ≢ 0
    → r.last_update_ts ≤ now
    → Holds window t host r
    → Holds window t host (check_update_requeue window now h r).1
      × ((check_update_requeue window now h r).0 ≡ 0 → h ≢ host → t + window ≤ now)
      × ((check_update_requeue window now h r).1.last_update_ts ≤ now)
unfolding check_update_requeue
step-Holds window t now host h r p m k = ground arith

run-NotBefore :
    (window t : ℕ) (host : String) (from : ℕ) (r : Throttle) (qs : List Request)
    → window ≢ 0
    → r.last_update_ts ≤ from
    → IsOrdered from qs
    → Holds window t host r
    → NotBefore (t + window) host qs (run window qs r)
unfolding run
run-NotBefore window t host from r [] p m o k = tt
run-NotBefore window t host from r (q ∷ qs) p m o k =
    let (k', g, m') = step-Holds window t q.now host q.host r p (omega arith) k in
    (
      g,
      run-NotBefore window t host q.now (check_update_requeue window q.now q.host r).1 qs p m' o.1
          k',
    )

-- Once an update of a node is recorded at a time, no later call for another node is let through
-- until the window has passed since that time, whatever calls come in between, for any node and in
-- any number, as long as the clock does not run backwards.
pub run_spacing :
    (window t : ℕ) (host : String) (qs : List Request)
    → window ≢ 0
    → IsOrdered t qs
    → NotBefore
        (t + window)
        host
        qs
        (run window qs (record { last_update_ts = t; last_update_host = host }))
run_spacing window t host qs p o =
    run-NotBefore window t host t _ qs p (omega arith) o (inl (refl, omega arith))

-- A call for another node exactly when the window ends is let through without being recorded, so
-- that a call for a third node at the same time is let through as well.
pub run_boundary :
    (window t : ℕ) (a b c : String)
    → window ≢ 0
    → b ≢ a
    → c ≢ a
    → run window
        (record { now = t + window; host = b } ∷ record { now = t + window; host = c } ∷ [])
        (record { last_update_ts = t; last_update_host = a })
      ≡ 0 ∷ 0 ∷ []
unfolding run check_update_requeue
run_boundary window t a b c p q s = ground arith
