-- ===== src/Controller/Conditions/Ready.antt =====
-- The Ready condition, and that a second computation changes nothing.
use yanet_operator.Base.{
  ◌≡◌, refl, ap, ◌↔◌, ℕ, true, false, Option, none, some, List, [], ◌∷◌, arith, String, ◌==◌,
  contains, nat_eq, string_eq, int_eq, option_eq, Distinct,
}
use yanet_operator.Controller.Conditions.{
  merge_conditions, keep_time, Condition, ConditionStatus, status_true, types, StatusView,
  fresh_conditions, compute_conditions, status_eq,
}
use yanet_operator.Controller.Conditions.Merge.{
  merge_conditions-Distinct, find, kept, find-merge_conditions,
}

-- The status of the condition of a type.
abbrev pub status_of : Option Condition → Option ConditionStatus
status_of none = none
status_of (some c) = some c.status

status_of-kept : (old fresh : Option Condition) → status_of (kept old fresh) ≡ status_of fresh
status_of-kept old none = refl
status_of-kept none (some nc) = refl
status_of-kept (some o) (some nc) = ground arith

abbrev four_types : List String
four_types = "Available" ∷ "Progressing" ∷ "Degraded" ∷ "Ready" ∷ []

four_types-Distinct : Distinct four_types
unfolding string_eq
four_types-Distinct = (refl, (refl, (refl, (refl, tt))))

abbrev Differs : String → String → Type 0
Differs a b = (a == b) ≡ false

ready-Differs :
    Differs "Ready" "Available" × Differs "Ready" "Progressing" × Differs "Ready" "Degraded"
unfolding string_eq
ready-Differs = (refl, refl, refl)

module _ (now : ℕ) (y : StatusView) (missing : List String) where
  types-fresh : types (fresh_conditions now y missing) ≡ four_types
  unfolding fresh_conditions
  types-fresh = ground arith

  fresh-Distinct : Distinct (types (fresh_conditions now y missing))
  fresh-Distinct = rw types-fresh four_types-Distinct

  find-fresh-ready :
      (status_of (find "Ready" (fresh_conditions now y missing)) ≡ some status_true) ↔ (
        (y.sync.error ≡ [])
        × (y.sync.out_of_sync ≡ [])
        × (y.sync.sync_waiting ≡ [])
        × (missing ≡ []))
  unfolding fresh_conditions status_eq
  find-fresh-ready = ground (arith, ready-Differs)

ready_is_fresh :
    (now : ℕ) (y : StatusView) (missing : List String)
    → contains (types (fresh_conditions now y missing)) "Ready" ≡ true
unfolding string_eq
ready_is_fresh now y missing = rw (types-fresh now y missing)

-- After the conditions are computed the installation is Ready exactly when no Deployment is in
-- error, out of sync or waiting for the update window, and no operator is missing.
pub compute_conditions-ready :
    (now : ℕ) (y : StatusView) (missing : List String)
    → Distinct (types y.conditions)
    → (status_of (find "Ready" (compute_conditions now y missing)) ≡ some status_true) ↔ (
        (y.sync.error ≡ [])
        × (y.sync.out_of_sync ≡ [])
        × (y.sync.sync_waiting ≡ [])
        × (missing ≡ []))
unfolding compute_conditions
compute_conditions-ready now y missing d =
    rw (find-merge_conditions "Ready" y.conditions (fresh_conditions now y missing) d) (
      rw (ready_is_fresh now y missing)
        (rw (status_of-kept (find "Ready" y.conditions)) (find-fresh-ready now y missing)))

-- Two lists of fresh conditions that differ at most in the transition times.
abbrev SameButTime : Option Condition → Option Condition → Type 0
SameButTime none d = d ≡ none
SameButTime (some c) none = ⊥
SameButTime (some c) (some d) = record c { last_transition_time = d.last_transition_time } ≡ d

find-fresh_later :
    (t : String) (now later : ℕ) (y : StatusView) (cs : List Condition) (missing : List String)
    → SameButTime
        (find t (fresh_conditions now y missing))
        (find t (fresh_conditions later (record y { conditions = cs }) missing))
unfolding fresh_conditions
find-fresh_later t now later y cs missing = ground arith

keep_time_again :
    (old : Option Condition) (c d : Condition)
    → record c { last_transition_time = d.last_transition_time } ≡ d
    → keep_time (some (keep_time old c)) d ≡ keep_time old c
keep_time_again none c d e = ground arith
keep_time_again (some o) c d e = ground arith

kept_again : (old f g : Option Condition) → SameButTime f g → kept (kept old f) g ≡ kept old f
kept_again old none g e = rw e
kept_again old (some c) none e = absurd e
kept_again old (some c) (some d) e = ap some (keep_time_again old c d e)

-- Computing the conditions again, at any later time, from what the first computation stored finds
-- each condition as it was stored, its transition time included.
pub compute_conditions_again :
    (t : String) (now later : ℕ) (y : StatusView) (missing : List String)
    → Distinct (types y.conditions)
    → let once = compute_conditions now y missing in
      find t (compute_conditions later (record y { conditions = once }) missing) ≡ find t once
unfolding compute_conditions
compute_conditions_again t now later y missing d =
    let f = fresh_conditions now y missing in
    let once = merge_conditions y.conditions f in
    let y' = record y { conditions = once } in
    let g = fresh_conditions later y' missing in
    ground (
      arith,
      find-merge_conditions t once g
          (merge_conditions-Distinct y.conditions f d (fresh-Distinct now y missing)),
      find-merge_conditions t y.conditions f d,
      types-fresh now y missing,
      types-fresh later y' missing,
      kept_again (find t y.conditions) (find t f) (find t g)
          (find-fresh_later t now later y once missing),
    )
