-- ===== src/Controller/SharedServices/Apply.antt =====
-- applySharedService, desiredSharedServiceUpdate, controlledBy (internal/controller/shared_services.go)
-- and validateServiceOwnership (yanet_reconciler.go). retry.RetryOnConflict repeats a function while it
-- returns a conflict: its calls are given as the list of the answers that they meet.
pub mod About
pub mod InPlace
use yanet_operator.Base.{
  Bool, true, false, not, ◌||◌, ◌&&◌, Option, none, some, List, [], ◌∷◌, ◌++◌, String, ◌==◌,
  if◌then◌else◌, nat_eq, string_eq, int_eq, option_eq, Result, ok, err, is_empty,
}
use yanet_operator.Base.Dict.{erase}
use yanet_operator.Kube.{OwnerReference}
use yanet_operator.Manifests.Workload.{label_yanet}
use yanet_operator.Manifests.Services.{ServiceSpec, Service}
use yanet_operator.Controller.Apply.{ApplyError, Comparison, conflict, api_failed, lift_owned}
use yanet_operator.Controller.Metadata.{merge_managed_meta}
use yanet_operator.Controller.Ownership.{
  OwnershipError, same_owner, desired_unowned, existing_unowned,
}

unfoldable pub validate_service_ownership :
    Option OwnerReference → Option OwnerReference → Result OwnershipError (Unit {0})
unfolding same_owner
validate_service_ownership existing none = err desired_unowned
validate_service_ownership none (some desired) = err existing_unowned
validate_service_ownership (some existing) (some desired) = same_owner existing desired

unfoldable pub controlled_by : Option OwnerReference → OwnerReference → Bool
controlled_by none owner = false
controlled_by (some existing) owner =
    if not (owner.uid == "") && not (existing.uid == owner.uid)
    then false
    else existing.api_version == owner.api_version
      && existing.kind == owner.kind
      && existing.name == owner.name

pub data GotService : Type 0 where
  found : Service → GotService
  not_found : GotService
  get_failed : ApplyError → GotService

-- What one call of the retried function meets: the Service read, the kill switch before the update,
-- and the update's result.
pub record ServiceAttempt : Type 0 where
  pub got : GotService
  pub stopped : Bool
  pub update : Result ApplyError (Unit {0})

-- What a whole application meets: the first read, the kill switch before a creation, the creation's
-- result, and the calls of the retried function.
pub record Encounter : Type 0 where
  pub got : GotService
  pub stopped : Bool
  pub create : Result ApplyError (Unit {0})
  pub first : ServiceAttempt
  pub rest : List ServiceAttempt

pub data ServiceWrite : Type 0 where
  create_service update_service delete_service : Service → ServiceWrite

-- The requests sent, and the result.
pub record Applied : Type 0 where
  pub sent : List ServiceWrite
  pub outcome : Result ApplyError (Unit {0})

abbrev pub failed_with : ApplyError → Applied
failed_with e = record { sent = []; outcome = err e }

abbrev pub nothing_sent : Applied
nothing_sent = record { sent = []; outcome = ok tt }

abbrev pub policy_or : Option String → Option String → Option String
policy_or none desired = desired
policy_or (some policy) desired = some policy

-- What an update asks for.
unfoldable pub service_candidate : Service → Service → Service
unfolding merge_managed_meta
service_candidate existing desired =
    let meta = merge_managed_meta existing.meta desired.meta in
    record {
      meta = record meta {
        labels = erase label_yanet meta.labels;
        controller = desired.meta.controller;
      };
      owners = desired.owners;
      spec = record desired.spec {
        session_affinity = "None";
        cluster_ip = existing.spec.cluster_ip;
        cluster_ips = existing.spec.cluster_ips;
        ip_families = existing.spec.ip_families;
        ip_family_policy = policy_or existing.spec.ip_family_policy desired.spec.ip_family_policy;
      };
    }

abbrev pub ends_in_conflict : Result ApplyError (Unit {0}) → Bool
ends_in_conflict (ok u) = false
ends_in_conflict (err conflict) = true
ends_in_conflict (err e) = false

abbrev pub after_sent : List ServiceWrite → Applied → Applied
after_sent sent applied = record { sent = sent ++ applied.sent; outcome = applied.outcome }

module _ (comparison : Comparison ServiceSpec) where
  unfoldable pub desired_shared_service_update : Service → Service → Service × Bool
  unfolding service_candidate
  desired_shared_service_update existing desired =
      let candidate = service_candidate existing desired in
      (
        candidate,
        not (comparison.same_spec existing.spec candidate.spec)
            || not (comparison.same_map existing.meta.labels candidate.meta.labels)
            || not (comparison.same_map existing.meta.annotations candidate.meta.annotations)
            || not (comparison.same_owners existing.owners candidate.owners),
      )

  module _ (desired : Service) where
    abbrev pub update_owned : ServiceAttempt → Service → Result ApplyError (Unit {0}) → Applied
    update_owned attempt fresh (err e) = failed_with e
    update_owned attempt fresh (ok u) =
        let planned = desired_shared_service_update fresh desired in
        if not planned.1 || attempt.stopped
        then nothing_sent
        else record { sent = update_service planned.0 ∷ []; outcome = attempt.update }

    abbrev pub attempt_update : ServiceAttempt → GotService → Applied
    attempt_update attempt not_found = failed_with (api_failed "not found")
    attempt_update attempt (get_failed e) = failed_with e
    attempt_update attempt (found fresh) =
        update_owned attempt fresh
          (lift_owned (validate_service_ownership fresh.meta.controller desired.meta.controller))

    -- One call of the retried function.
    unfoldable pub run_service_attempt : ServiceAttempt → Applied
    unfolding desired_shared_service_update validate_service_ownership
    run_service_attempt attempt = attempt_update attempt attempt.got

    unfoldable pub retry_service : ServiceAttempt → List ServiceAttempt → Applied
    unfolding run_service_attempt
    retry_service attempt [] = run_service_attempt attempt
    retry_service attempt (next ∷ rest) =
        let applied = run_service_attempt attempt in
        let again = retry_service next rest in
        elim (ends_in_conflict applied.outcome) [
          | true ↦ after_sent applied.sent again
          | false ↦ applied
        ]

    abbrev pub apply_found : Encounter → Result ApplyError (Unit {0}) → Applied
    apply_found encounter (err e) = failed_with e
    apply_found encounter (ok u) = retry_service encounter.first encounter.rest

    abbrev pub created : Service
    created = record desired {
      meta = merge_managed_meta desired.meta desired.meta;
      spec = record desired.spec { session_affinity = "None" };
    }

    abbrev pub apply_got : Encounter → GotService → Applied
    apply_got encounter not_found =
        if encounter.stopped
        then nothing_sent
        else record { sent = create_service created ∷ []; outcome = encounter.create }
    apply_got encounter (get_failed e) = failed_with e
    apply_got encounter (found existing) =
        apply_found encounter
          (lift_owned (validate_service_ownership existing.meta.controller desired.meta.controller))

    unfoldable pub apply_shared_service : Encounter → Applied
    unfolding retry_service merge_managed_meta validate_service_ownership
    apply_shared_service encounter =
        if is_empty desired.spec.ports || is_empty desired.spec.selector
        then failed_with (api_failed "refusing to apply invalid shared Service")
        else apply_got encounter encounter.got
