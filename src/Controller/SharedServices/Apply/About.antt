-- ===== src/Controller/SharedServices/Apply/About.antt =====
-- What applySharedService sends is about the Service that it applies
-- (internal/controller/shared_services.go), if the API server answers a Get with the object of the
-- name and namespace that it was asked for.
use yanet_operator.Base.{
  ◌≡◌, refl, ◌∙◌, Bool, true, false, ◌||◌, List, [], ◌∷◌, arith, if◌then◌else◌, nat_eq, string_eq,
  int_eq, option_eq, Result, ok, err, All, is_empty,
}
use yanet_operator.Base.{pair_eq, All-append}
use yanet_operator.Manifests.Services.{ServiceSpec, Service}
use yanet_operator.Controller.Apply.{ApplyError, api_failed, Comparison, lift_owned}
use yanet_operator.Controller.Metadata.{merge_managed_meta}
use yanet_operator.Controller.SharedServices.{SharedServiceKey, key_of}
use yanet_operator.Controller.SharedServices.Apply.{
  GotService, found, not_found, get_failed, ServiceAttempt, failed_with, nothing_sent, Encounter,
  Applied, ServiceWrite, create_service, update_service, delete_service, service_candidate,
  desired_shared_service_update, update_owned, attempt_update, run_service_attempt,
  ends_in_conflict, after_sent, retry_service, apply_found, apply_got, apply_shared_service,
  created, validate_service_ownership,
}

abbrev pub ReadsAt : SharedServiceKey → GotService → Type 0
ReadsAt k (found s) = key_of s ≡ k
ReadsAt k not_found = Unit
ReadsAt k (get_failed e) = Unit

-- Every read of an application is of the Service asked for.
abbrev pub IsFaithful : SharedServiceKey → Encounter → Type 0
IsFaithful k encounter =
    ReadsAt k encounter.got
    × ReadsAt k encounter.first.got
    × All (λ (a : ServiceAttempt). ReadsAt k a.got) encounter.rest

-- A creation or an update under the key.
abbrev pub IsAbout : SharedServiceKey → ServiceWrite → Type 0
IsAbout k (create_service s) = key_of s ≡ k
IsAbout k (update_service s) = key_of s ≡ k
IsAbout k (delete_service s) = ⊥

service_candidate-key :
    (existing desired : Service) → key_of (service_candidate existing desired) ≡ key_of existing
unfolding service_candidate merge_managed_meta
service_candidate-key existing desired = refl

module _ (comparison : Comparison ServiceSpec) (desired : Service) where
  created-key : key_of (created comparison desired) ≡ key_of desired
  unfolding merge_managed_meta
  created-key = refl

  update_owned-IsAbout :
      (k : SharedServiceKey) (attempt : ServiceAttempt) (fresh : Service)
      (owned : Result ApplyError (Unit {0}))
      → key_of fresh ≡ k
      → All (IsAbout k) (update_owned comparison desired attempt fresh owned).sent
  unfolding desired_shared_service_update
  update_owned-IsAbout k attempt fresh (err e) h = tt
  update_owned-IsAbout k attempt fresh (ok u) h =
      ground (arith, service_candidate-key fresh desired)

  run_service_attempt-IsAbout :
      (k : SharedServiceKey) (attempt : ServiceAttempt)
      → ReadsAt k attempt.got
      → All (IsAbout k) (run_service_attempt comparison desired attempt).sent
  unfolding run_service_attempt
  run_service_attempt-IsAbout k attempt h = read attempt.got h
    where
      read :
          (got : GotService)
          → ReadsAt k got
          → All (IsAbout k) (attempt_update comparison desired attempt got).sent
      read not_found h' = tt
      read (get_failed e) h' = tt
      read (found fresh) h' =
          update_owned-IsAbout k attempt fresh
            (lift_owned (validate_service_ownership fresh.meta.controller desired.meta.controller))
            h'

  retry_service-IsAbout :
      (k : SharedServiceKey) (attempt : ServiceAttempt) (rest : List ServiceAttempt)
      → ReadsAt k attempt.got
      → All (λ (a : ServiceAttempt). ReadsAt k a.got) rest
      → All (IsAbout k) (retry_service comparison desired attempt rest).sent
  unfolding retry_service
  retry_service-IsAbout k attempt [] h hs = run_service_attempt-IsAbout k attempt h
  retry_service-IsAbout k attempt (next ∷ rest) h hs =
      let applied = run_service_attempt comparison desired attempt in
      let again = retry_service comparison desired next rest in
      let here = run_service_attempt-IsAbout k attempt h in
      elim (ends_in_conflict applied.outcome)
        as (λ (b : Bool).
          All (IsAbout k)
            (elim b as (λ x. Applied) [
              | true ↦ after_sent applied.sent again
              | false ↦ applied
            ]).sent) [
              | true ↦
                  All-append (IsAbout k) applied.sent again.sent here
                    (retry_service-IsAbout k next rest hs.0 hs.1)
              | false ↦ here
            ]

  pub apply_shared_service-IsAbout :
      (k : SharedServiceKey) (encounter : Encounter)
      → key_of desired ≡ k
      → IsFaithful k encounter
      → All (IsAbout k) (apply_shared_service comparison desired encounter).sent
  unfolding apply_shared_service
  apply_shared_service-IsAbout k encounter e h =
      elim (is_empty desired.spec.ports || is_empty desired.spec.selector)
        as (λ (b : Bool).
          All (IsAbout k)
            (if b then refused else apply_got comparison desired encounter encounter.got).sent) [
              | true ↦ tt
              | false ↦ read encounter.got h.0
            ]
    where
      refused : Applied
      refused = failed_with (api_failed "refusing to apply invalid shared Service")

      owned :
          (checked : Result ApplyError (Unit {0}))
          → All (IsAbout k) (apply_found comparison desired encounter checked).sent
      owned (err f) = tt
      owned (ok u) = retry_service-IsAbout k encounter.first encounter.rest h.1 h.2

      read :
          (got : GotService)
          → ReadsAt k got
          → All (IsAbout k) (apply_got comparison desired encounter got).sent
      read not_found h' =
          elim encounter.stopped
            as (λ (b : Bool).
              All (IsAbout k)
                (if b then nothing_sent else record {
                  sent = create_service (created comparison desired) ∷ [];
                  outcome = encounter.create;
                }).sent) [ true ↦ tt | false ↦ (created-key ∙ e, tt) ]
      read (get_failed f) h' = tt
      read (found existing) h' =
          owned (
            lift_owned
              (validate_service_ownership existing.meta.controller desired.meta.controller))
