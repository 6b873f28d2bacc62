-- ===== src/Controller/Apply.antt =====
-- applyDeployment and desiredDeploymentUpdate (internal/controller/yanet_reconciler.go). A Deployment's
-- spec is of any type, and apimachinery's semantic comparison and the API server's answers are
-- parameters. retry.RetryOnConflict repeats a function while it returns a conflict: its calls are
-- given as the list of the answers that they meet.
pub mod Writes
pub mod Quiet
use yanet_operator.Base.{
  ℕ, zero, suc, Bool, true, false, not, ◌||◌, Option, none, some, List, [], ◌∷◌, String,
  if◌then◌else◌, nat_eq, string_eq, int_eq, option_eq, Result, ok, err,
}
use yanet_operator.Base.Dict.{Dict}
use yanet_operator.Kube.{ObjectMeta, OwnerReference}
use yanet_operator.Controller.Throttle.{Throttle, check_update_requeue}
use yanet_operator.Controller.Metadata.{merge_managed_meta}
use yanet_operator.Controller.Ownership.{OwnershipError, validate_deployment_ownership}

pub data ApplyError : Type 0 where
  conflict global_stop : ApplyError
  api_failed : String → ApplyError
  not_owned : OwnershipError → ApplyError

pub record Object (S : Type 0) : Type 0 where
  pub meta : ObjectMeta
  pub owners : List OwnerReference
  pub spec : S

pub data Got (S : Type 0) : Type 0 where
  found : Object S → Got S
  not_found : Got S
  get_failed : ApplyError → Got S

-- What one call of the retried function meets: the object read, the kill switch before the dry run
-- and before the update, the object that the dry run returns, the time, and the update's result.
pub record Attempt (S : Type 0) : Type 0 where
  pub got : Got S
  pub stopped_early : Bool
  pub dry_run : Object S → Result ApplyError (Object S)
  pub now : ℕ
  pub stopped : Bool
  pub update : Result ApplyError (Unit {0})

-- metav1's comparisons.
pub record Comparison (S : Type 0) : Type 0 where
  pub same_spec : S → S → Bool
  pub same_owners : List OwnerReference → List OwnerReference → Bool
  pub same_map : Dict String String → Dict String String → Bool

abbrev pub lift_owned : Result OwnershipError (Unit {0}) → Result ApplyError (Unit {0})
lift_owned (ok u) = ok u
lift_owned (err e) = err (not_owned e)

-- The state reported, the wait, the error, the objects written and the throttle afterwards.
pub record Applied (S : Type 0) : Type 0 where
  pub state : String
  pub requeue : ℕ
  pub error : Option ApplyError
  pub writes : List (Object S)
  pub throttle : Throttle

module _ (S : Type 0) (comparison : Comparison S) where
  unfoldable pub deployment_update_changed : Object S → Object S → Bool
  deployment_update_changed existing candidate =
      not (comparison.same_spec existing.spec candidate.spec)
      || not (comparison.same_owners existing.owners candidate.owners)
      || not (comparison.same_map existing.meta.labels candidate.meta.labels)
      || not (comparison.same_map existing.meta.annotations candidate.meta.annotations)

  -- What the update asks for, before the API server's defaults.
  unfoldable pub candidate_of : Object S → Object S → Object S
  unfolding merge_managed_meta
  candidate_of existing desired = record {
    meta = record (merge_managed_meta existing.meta desired.meta) {
      controller = desired.meta.controller;
    };
    owners = desired.owners;
    spec = desired.spec;
  }

  abbrev pub normalised :
      Object S → Result ApplyError (Object S) → Result ApplyError (Object S × Bool)
  normalised existing (err e) = err e
  normalised existing (ok candidate) = ok (candidate, deployment_update_changed existing candidate)

  unfoldable pub desired_deployment_update :
      Attempt S → Object S → Object S → Result ApplyError (Object S × Bool)
  unfolding deployment_update_changed candidate_of
  desired_deployment_update attempt existing desired =
      let candidate = candidate_of existing desired in
      if not (deployment_update_changed existing candidate)
      then ok (candidate, false)
      else if attempt.stopped_early
      then err global_stop
      else normalised existing (attempt.dry_run candidate)

  module _ (auto_sync : Bool) (window : ℕ) (node_name : String) (desired : Object S) where
    abbrev pub report : String → Throttle → Applied S
    report state throttle = record {
      state = state;
      requeue = 0;
      error = none;
      writes = [];
      throttle = throttle;
    }

    abbrev pub failure : ApplyError → Throttle → Applied S
    failure e throttle = record {
      state = "error";
      requeue = 0;
      error = some e;
      writes = [];
      throttle = throttle;
    }

    abbrev pub written : Object S → Throttle → Result ApplyError (Unit {0}) → Applied S
    written candidate throttle (ok u) = record (report "synced" throttle) {
      writes = candidate ∷ [];
    }
    written candidate throttle (err e) = failure e throttle

    -- After the throttle has answered with a wait.
    abbrev pub after_throttle : Attempt S → Object S → ℕ × Throttle → Applied S
    after_throttle attempt candidate (suc wait, throttle) =
        record (report "sync-waiting" throttle) { requeue = suc wait }
    after_throttle attempt candidate (zero, throttle) =
        if attempt.stopped
        then failure global_stop throttle
        else written candidate throttle attempt.update

    abbrev pub after_update_planned :
        Attempt S → Throttle → Result ApplyError (Object S × Bool) → Applied S
    after_update_planned attempt throttle (err e) = failure e throttle
    after_update_planned attempt throttle (ok (candidate, false)) = report "synced" throttle
    after_update_planned attempt throttle (ok (candidate, true)) =
        if not auto_sync
        then report "out-of-sync" throttle
        else after_throttle attempt candidate
            (check_update_requeue window attempt.now node_name throttle)

    abbrev pub attempt_found : Attempt S → Throttle → Got S → Applied S
    attempt_found attempt throttle not_found = failure (api_failed "not found") throttle
    attempt_found attempt throttle (get_failed e) = failure e throttle
    attempt_found attempt throttle (found fresh) =
        elim (lift_owned
          (validate_deployment_ownership fresh.meta.controller desired.meta.controller)) [
            | err e ↦ failure e throttle
            | ok u ↦
                after_update_planned attempt throttle
                  (desired_deployment_update attempt fresh desired)
          ]

    -- One call of the retried function.
    unfoldable pub run_attempt : Attempt S → Throttle → Applied S
    unfolding desired_deployment_update check_update_requeue validate_deployment_ownership
    run_attempt attempt throttle = attempt_found attempt throttle attempt.got

    abbrev pub is_conflict : Option ApplyError → Bool
    is_conflict none = false
    is_conflict (some conflict) = true
    is_conflict (some e) = false

    unfoldable pub retry_on_conflict : Attempt S → List (Attempt S) → Throttle → Applied S
    unfolding run_attempt
    retry_on_conflict attempt [] throttle = run_attempt attempt throttle
    retry_on_conflict attempt (next ∷ rest) throttle =
        let applied = run_attempt attempt throttle in
        elim (is_conflict applied.error) [
          | true ↦ retry_on_conflict next rest applied.throttle
          | false ↦ applied
        ]

    -- mergeManagedMeta of the desired object with itself, and Create.
    abbrev pub create : Bool → (Object S → Result ApplyError (Unit {0})) → Throttle → Applied S
    create stopped answer throttle =
        let fresh = record desired { meta = merge_managed_meta desired.meta desired.meta } in
        if not auto_sync
        then report "out-of-sync (missing)" throttle
        else if stopped
        then record (failure global_stop throttle) { state = "sync-waiting" }
        else written fresh throttle (answer fresh)

    unfoldable pub apply_deployment :
        Got S
        → Bool
        → (Object S → Result ApplyError (Unit {0}))
        → Attempt S
        → List (Attempt S)
        → Throttle
        → Applied S
    unfolding retry_on_conflict merge_managed_meta
    apply_deployment not_found stopped answer attempt rest throttle = create stopped answer throttle
    apply_deployment (get_failed e) stopped answer attempt rest throttle = failure e throttle
    apply_deployment (found existing) stopped answer attempt rest throttle =
        elim (lift_owned
          (validate_deployment_ownership existing.meta.controller desired.meta.controller)) [
            | err e ↦ failure e throttle
            | ok u ↦ retry_on_conflict attempt rest throttle
          ]
