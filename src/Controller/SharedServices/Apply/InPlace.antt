-- ===== src/Controller/SharedServices/Apply/InPlace.antt =====
-- What an application of a shared Service without an error has brought about
-- (internal/controller/shared_services.go: applySharedService).
use yanet_operator.Base.{
  ◌≡◌, refl, ◌⊎◌, inl, inr, Bool, true, false, not, ◌||◌, List, [], ◌∷◌, ◌++◌, arith, if◌then◌else◌,
  nat_eq, string_eq, int_eq, option_eq, Result, ok, err, All, is_empty,
}
use yanet_operator.Base.{Some, Some-append_right, Some-weaken}
use yanet_operator.Manifests.Services.{ServiceSpec, Service}
use yanet_operator.Controller.Apply.{ApplyError, Comparison, lift_owned, api_failed}
use yanet_operator.Controller.Ownership.{OwnershipError}
use yanet_operator.Controller.SharedServices.Apply.{
  GotService, found, not_found, get_failed, ServiceAttempt, Encounter, ServiceWrite, create_service,
  update_service, Applied, validate_service_ownership, desired_shared_service_update, update_owned,
  attempt_update, run_service_attempt, retry_service, apply_found, created, apply_got,
  apply_shared_service, ends_in_conflict, after_sent, nothing_sent, failed_with,
}

-- No read of the kill switch finds it on.
abbrev pub IsRunning : Encounter → Type 0
IsRunning e =
    (e.stopped ≡ false) × All (λ (a : ServiceAttempt). a.stopped ≡ false) (e.first ∷ e.rest)

module _ (comparison : Comparison ServiceSpec) (desired : Service) where
  abbrev IsOwned : Service → Type 0
  IsOwned s = validate_service_ownership s.meta.controller desired.meta.controller ≡ ok tt

  -- The attempt finds an owned Service that is as desired, or its update, one of the requests sent, was
  -- answered without an error.
  abbrev pub IsSettled : List ServiceWrite → ServiceAttempt → Type 0
  IsSettled sent a =
      (fresh : Service) × (a.got ≡ found fresh)
      × IsOwned fresh
      × ((desired_shared_service_update comparison fresh desired).1 ≡ false
          ⊎ ((a.update ≡ ok tt)
              × Some
                  (λ (w : ServiceWrite).
                    w ≡ update_service (desired_shared_service_update comparison fresh desired).0)
                  sent))

  -- The Service did not exist and its creation, which was sent, was answered without an error; or it
  -- existed, owned, and an attempt settled it.
  abbrev InPlaceBy : Encounter → List ServiceWrite → Type 0
  InPlaceBy e sent =
      ((e.got ≡ not_found)
        × (e.create ≡ ok tt)
        × Some (λ (w : ServiceWrite). w ≡ create_service (created comparison desired)) sent)
      ⊎ ((existing : Service) × (e.got ≡ found existing)
          × IsOwned existing
          × Some (IsSettled sent) (e.first ∷ e.rest))

  abbrev pub IsInPlace : Encounter → Type 0
  IsInPlace e = InPlaceBy e (apply_shared_service comparison desired e).sent

  lift_owned-ok :
      (o : Result OwnershipError (Unit {0})) (r : Result ApplyError (Unit {0}))
      → lift_owned o ≡ r
      → r ≡ ok tt
      → o ≡ ok tt
  lift_owned-ok (ok u) r e h = refl
  lift_owned-ok (err x) r e h = ground (arith, e, h)

  update_owned-IsSettled :
      (a : ServiceAttempt) (fresh : Service) (o : Result ApplyError (Unit {0}))
      → a.got ≡ found fresh
      → lift_owned (validate_service_ownership fresh.meta.controller desired.meta.controller) ≡ o
      → a.stopped ≡ false
      → (update_owned comparison desired a fresh o).outcome ≡ ok tt
      → IsSettled (update_owned comparison desired a fresh o).sent a
  update_owned-IsSettled a fresh (err e) g o s = λ h. ground (arith, h)
  update_owned-IsSettled a fresh (ok u) g o s =
      by_change (desired_shared_service_update comparison fresh desired).1 a.stopped refl s
    where
      planned : Service × Bool
      planned = desired_shared_service_update comparison fresh desired

      sent_if : Bool → Bool → Applied
      sent_if b t =
          if not b || t
          then nothing_sent
          else record { sent = update_service planned.0 ∷ []; outcome = a.update }

      owned : IsOwned fresh
      owned =
          lift_owned-ok (validate_service_ownership fresh.meta.controller desired.meta.controller)
            (ok u) o refl

      by_change :
          (b t : Bool)
          → planned.1 ≡ b
          → t ≡ false
          → (sent_if b t).outcome ≡ ok tt
          → IsSettled (sent_if b t).sent a
      by_change false t q e h = (fresh, g, owned, inl q)
      by_change true true q e h = ground (arith, e)
      by_change true false q e h = (fresh, g, owned, inr (h, inl refl))

  run_service_attempt-IsSettled :
      (a : ServiceAttempt)
      → a.stopped ≡ false
      → (run_service_attempt comparison desired a).outcome ≡ ok tt
      → IsSettled (run_service_attempt comparison desired a).sent a
  unfolding run_service_attempt
  run_service_attempt-IsSettled a s = by_read a.got refl
    where
      by_read :
          (got : GotService)
          → a.got ≡ got
          → (attempt_update comparison desired a got).outcome ≡ ok tt
          → IsSettled (attempt_update comparison desired a got).sent a
      by_read not_found g h = ground (arith, h)
      by_read (get_failed e) g h = ground (arith, h)
      by_read (found fresh) g h =
          update_owned-IsSettled a fresh
            (lift_owned (validate_service_ownership fresh.meta.controller desired.meta.controller))
            g refl s h

  IsSettled-append :
      (before after : List ServiceWrite) (a : ServiceAttempt)
      → IsSettled after a
      → IsSettled (before ++ after) a
  IsSettled-append before after a (fresh, g, o, inl q) = (fresh, g, o, inl q)
  IsSettled-append before after a (fresh, g, o, inr (u, m)) =
      (fresh, g, o, inr (u, Some-append_right _ before after m))

  retry_service-IsSettled :
      (a : ServiceAttempt) (rest : List ServiceAttempt)
      → All (λ (b : ServiceAttempt). b.stopped ≡ false) (a ∷ rest)
      → (retry_service comparison desired a rest).outcome ≡ ok tt
      → Some (IsSettled (retry_service comparison desired a rest).sent) (a ∷ rest)
  unfolding retry_service
  retry_service-IsSettled a [] s = λ h. inl (run_service_attempt-IsSettled a s.0 h)
  retry_service-IsSettled a (next ∷ rest) s =
      let applied = run_service_attempt comparison desired a in
      let again = retry_service comparison desired next rest in
      elim (ends_in_conflict applied.outcome)
        as (λ (b : Bool).
          (let all = elim b as (λ (x : Bool). Applied) [
            | true ↦ after_sent applied.sent again
            | false ↦ applied
          ] in
            all.outcome ≡ ok tt → Some (IsSettled all.sent) (a ∷ next ∷ rest))) [
              | true ↦ λ h. inr (
                  Some-weaken (IsSettled-append applied.sent again.sent) (next ∷ rest)
                    (retry_service-IsSettled next rest s.1 h))
              | false ↦ λ h. inl (run_service_attempt-IsSettled a s.0 h)
            ]

  apply_found-InPlaceBy :
      (e : Encounter) (existing : Service) (o : Result ApplyError (Unit {0}))
      → IsRunning e
      → e.got ≡ found existing
      → lift_owned (validate_service_ownership existing.meta.controller desired.meta.controller) ≡ o
      → (apply_found comparison desired e o).outcome ≡ ok tt
      → InPlaceBy e (apply_found comparison desired e o).sent
  apply_found-InPlaceBy e existing (err x) r g o h = ground (arith, h)
  apply_found-InPlaceBy e existing (ok u) r g o h = inr (
    existing,
    g,
    lift_owned-ok (validate_service_ownership existing.meta.controller desired.meta.controller)
        (ok u) o refl,
    retry_service-IsSettled e.first e.rest r.1 h,
  )

  apply_got-InPlaceBy :
      (e : Encounter) (got : GotService)
      → IsRunning e
      → e.got ≡ got
      → (apply_got comparison desired e got).outcome ≡ ok tt
      → InPlaceBy e (apply_got comparison desired e got).sent
  apply_got-InPlaceBy e (get_failed x) r g = λ h. ground (arith, h)
  apply_got-InPlaceBy e (found existing) r g =
      apply_found-InPlaceBy e existing
        (lift_owned (validate_service_ownership existing.meta.controller desired.meta.controller)) r
        g refl
  apply_got-InPlaceBy e not_found r g = unless_stopped e.stopped r.0
    where
      sent_unless : Bool → Applied
      sent_unless b = if b then nothing_sent else record {
        sent = create_service (created comparison desired) ∷ [];
        outcome = e.create;
      }

      unless_stopped :
          (b : Bool)
          → b ≡ false
          → (sent_unless b).outcome ≡ ok tt
          → InPlaceBy e (sent_unless b).sent
      unless_stopped true q h = ground (arith, q)
      unless_stopped false q h = inl (g, h, inl refl)

  -- An application that ends without an error and meets no stop has put the Service in place.
  pub apply_shared_service-IsInPlace :
      (e : Encounter)
      → IsRunning e
      → (apply_shared_service comparison desired e).outcome ≡ ok tt
      → IsInPlace e
  unfolding apply_shared_service
  apply_shared_service-IsInPlace e r =
      elim (is_empty desired.spec.ports || is_empty desired.spec.selector)
        as (λ (b : Bool).
          (let all =
              if b
              then failed_with (api_failed "refusing to apply invalid shared Service")
              else apply_got comparison desired e e.got in
            all.outcome ≡ ok tt → InPlaceBy e all.sent)) [
              | true ↦ λ h. ground (arith, h)
              | false ↦ apply_got-InPlaceBy e e.got r refl
            ]
