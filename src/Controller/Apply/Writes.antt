-- ===== src/Controller/Apply/Writes.antt =====
-- What applyDeployment writes.
use yanet_operator.Base.{
  ◌≡◌, refl, ◌⊎◌, inl, inr, ℕ, zero, suc, Bool, true, false, List, [], ◌∷◌, arith, String, nat_eq,
  string_eq, int_eq, option_eq, Result, ok, err, Result-cases, All, Bool-cases,
}
use yanet_operator.Base.{Result-cases, All-weaken}
use yanet_operator.Controller.Throttle.{Throttle, check_update_requeue}
use yanet_operator.Controller.Ownership.{validate_deployment_ownership}
use yanet_operator.Controller.Apply.{
  ApplyError, Object, Got, found, not_found, get_failed, Attempt, Comparison, Applied,
  deployment_update_changed, candidate_of, desired_deployment_update, written, after_throttle,
  after_update_planned, attempt_found, run_attempt, is_conflict, retry_on_conflict,
  apply_deployment,
}

module _ (S : Type 0) (comparison : Comparison S) (auto_sync : Bool) (window : ℕ)
    (node_name : String) (desired : Object S) where
  -- The object may be written in an attempt that finds the given throttle: auto-sync is on, the kill
  -- switch off, this throttle answers with no wait, and the object is what the dry run made of the
  -- desired change of a live object that the installation owns and from which it differs.
  abbrev pub MayWrite : Object S → Attempt S → Throttle → Type 0
  MayWrite w a throttle =
      (auto_sync ≡ true)
      × (a.stopped ≡ false)
      × ((check_update_requeue window a.now node_name throttle).0 ≡ 0)
      × ((fresh : Object S) × (a.got ≡ found fresh)
          × (validate_deployment_ownership fresh.meta.controller desired.meta.controller ≡ ok tt)
          × (a.dry_run (candidate_of S comparison fresh desired) ≡ ok w)
          × (deployment_update_changed S comparison fresh w ≡ true))

  -- One of the attempts may write the object, with the throttle as the attempts before it leave it.
  abbrev pub MayBeWritten : Object S → List (Attempt S) → Throttle → Type 0
  MayBeWritten w [] throttle = ⊥
  MayBeWritten w (a ∷ rest) throttle =
      MayWrite w a throttle
      ⊎ MayBeWritten w rest
          (run_attempt S comparison auto_sync window node_name desired a throttle).throttle

  desired_deployment_update-changed :
      (a : Attempt S) (fresh w : Object S)
      → desired_deployment_update S comparison a fresh desired ≡ ok (w, true)
      → (a.dry_run (candidate_of S comparison fresh desired) ≡ ok w)
        × (deployment_update_changed S comparison fresh w ≡ true)
  unfolding desired_deployment_update
  desired_deployment_update-changed a fresh w h =
      elim (Result-cases (a.dry_run (candidate_of S comparison fresh desired))) [
        | inl (c, q) ↦ ground (arith, q)
        | inr (_, q) ↦ ground (arith, q)
      ]

  module _ (a : Attempt S) (throttle : Throttle) where
    abbrev IsFine : Applied S → Type 0
    IsFine applied = All (λ w. MayWrite w a throttle) applied.writes

    written-MayWrite :
        (w : Object S) (t : Throttle) (u : Result ApplyError (Unit {0}))
        → MayWrite w a throttle
        → IsFine (written S comparison auto_sync window node_name desired w t u)
    written-MayWrite w t (ok u) h = (h, tt)
    written-MayWrite w t (err e) h = tt

    after_throttle-MayWrite :
        (w : Object S) (p : ℕ × Throttle)
        → (p.0 ≡ 0 → a.stopped ≡ false → MayWrite w a throttle)
        → IsFine (after_throttle S comparison auto_sync window node_name desired a w p)
    after_throttle-MayWrite w (suc wait, t) h = tt
    after_throttle-MayWrite w (zero, t) h = elim (Bool-cases a.stopped) [
      | inl on ↦ ground (arith, on)
      | inr off ↦ ground (arith, off, written-MayWrite w t a.update (h refl off))
    ]

    planned-MayWrite :
        (fresh : Object S)
        → a.got ≡ found fresh
        → validate_deployment_ownership fresh.meta.controller desired.meta.controller ≡ ok tt
        → (planned : Result ApplyError (Object S × Bool))
        → desired_deployment_update S comparison a fresh desired ≡ planned
        → IsFine (
            after_update_planned S comparison auto_sync window node_name desired a throttle planned)
    planned-MayWrite fresh g o (err e) q = tt
    planned-MayWrite fresh g o (ok (w, false)) q = tt
    planned-MayWrite fresh g o (ok (w, true)) q = elim (Bool-cases auto_sync) [
      | inl on ↦ ground (
        arith,
        on,
        after_throttle-MayWrite w (check_update_requeue window a.now node_name throttle)
            (λ granted off. (
              on,
              off,
              granted,
              (
                fresh,
                g,
                o,
                (desired_deployment_update-changed a fresh w q).0,
                (desired_deployment_update-changed a fresh w q).1,
              ),
            )),
      )
      | inr off ↦ ground (arith, off)
    ]

    found-MayWrite :
        (g : Got S)
        → a.got ≡ g
        → IsFine (attempt_found S comparison auto_sync window node_name desired a throttle g)
    found-MayWrite not_found q = tt
    found-MayWrite (get_failed e) q = tt
    found-MayWrite (found fresh) q =
        elim (Result-cases
          (validate_deployment_ownership fresh.meta.controller desired.meta.controller)) [
            | inl (u, o) ↦ ground (
              arith,
              o,
              planned-MayWrite fresh q o (desired_deployment_update S comparison a fresh desired)
                  refl,
            )
            | inr (_, o) ↦ ground (arith, o)
          ]

    run_attempt-MayWrite :
        IsFine (run_attempt S comparison auto_sync window node_name desired a throttle)
    unfolding run_attempt
    run_attempt-MayWrite = found-MayWrite a.got refl

  retry-MayBeWritten :
      (a : Attempt S) (rest : List (Attempt S)) (throttle : Throttle)
      → All
          (λ w. MayBeWritten w (a ∷ rest) throttle)
          (retry_on_conflict S comparison auto_sync window node_name desired a rest throttle).writes
  unfolding retry_on_conflict
  retry-MayBeWritten a [] throttle =
      All-weaken (λ w h. inl h)
        (run_attempt S comparison auto_sync window node_name desired a throttle).writes
        (run_attempt-MayWrite a throttle)
  retry-MayBeWritten a (next ∷ rest) throttle =
      let applied = run_attempt S comparison auto_sync window node_name desired a throttle in
      let again =
        retry_on_conflict S comparison auto_sync window node_name desired next rest
          applied.throttle in
      let here : All (λ w. MayBeWritten w (a ∷ next ∷ rest) throttle) applied.writes =
        All-weaken (λ w h. inl h) applied.writes (run_attempt-MayWrite a throttle) in
      let later : All (λ w. MayBeWritten w (a ∷ next ∷ rest) throttle) again.writes =
        All-weaken (λ w h. inr h) again.writes (retry-MayBeWritten next rest applied.throttle) in
      elim (is_conflict S comparison auto_sync window node_name desired applied.error)
        as (λ (b : Bool).
          All (λ w. MayBeWritten w (a ∷ next ∷ rest) throttle)
            (elim b as (λ (x : Bool). Applied S) [ true ↦ again | false ↦ applied ]).writes) [
              | true ↦ later
              | false ↦ here
            ]

  -- Whatever the API server answers, each object that is written over an existing Deployment is one
  -- that some attempt may write: auto-sync is on, the kill switch was off right before, the throttle, as
  -- the attempts before left it, answered with no wait, the live object is owned by the same owner as the
  -- desired one, and what is written is the dry run's result for the desired change, and differs from the
  -- live object.
  pub apply_deployment-MayBeWritten :
      (existing : Object S) (stopped : Bool) (answer : Object S → Result ApplyError (Unit {0}))
      (a : Attempt S) (rest : List (Attempt S)) (throttle : Throttle)
      → All
          (λ w. MayBeWritten w (a ∷ rest) throttle)
          (apply_deployment S comparison auto_sync window node_name desired
            (found existing)
            stopped
            answer
            a
            rest
            throttle).writes
  unfolding apply_deployment
  apply_deployment-MayBeWritten existing stopped answer a rest throttle =
      elim (Result-cases
        (validate_deployment_ownership existing.meta.controller desired.meta.controller)) [
          | inl (u, o) ↦ ground (arith, o, retry-MayBeWritten a rest throttle)
          | inr (_, o) ↦ ground (arith, o)
        ]
