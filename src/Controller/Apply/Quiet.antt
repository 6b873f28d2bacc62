-- ===== src/Controller/Apply/Quiet.antt =====
-- applyDeployment without auto-sync.
use yanet_operator.Base.{
  ◌≡◌, refl, inl, inr, ℕ, Bool, true, false, List, [], ◌∷◌, arith, String, nat_eq, string_eq,
  int_eq, option_eq, Result, ok, err, Result-cases,
}
use yanet_operator.Base.{Result-cases}
use yanet_operator.Controller.Throttle.{Throttle}
use yanet_operator.Controller.Ownership.{validate_deployment_ownership}
use yanet_operator.Controller.Apply.{
  ApplyError, Object, Got, found, not_found, get_failed, Attempt, Comparison, Applied,
  desired_deployment_update, after_update_planned, attempt_found, run_attempt, retry_on_conflict,
  apply_deployment,
}

module _ (S : Type 0) (comparison : Comparison S) (window : ℕ) (node_name : String)
    (desired : Object S) where
  abbrev pub IsQuiet : Throttle → Applied S → Type 0
  IsQuiet throttle applied = (applied.writes ≡ []) × (applied.throttle ≡ throttle)

  planned-IsQuiet :
      (a : Attempt S) (throttle : Throttle) (planned : Result ApplyError (Object S × Bool))
      → IsQuiet throttle
          (after_update_planned S comparison false window node_name desired a throttle planned)
  planned-IsQuiet a throttle (err e) = (refl, refl)
  planned-IsQuiet a throttle (ok (w, false)) = (refl, refl)
  planned-IsQuiet a throttle (ok (w, true)) = (refl, refl)

  found-IsQuiet :
      (a : Attempt S) (throttle : Throttle) (g : Got S)
      → IsQuiet throttle (attempt_found S comparison false window node_name desired a throttle g)
  found-IsQuiet a throttle not_found = (refl, refl)
  found-IsQuiet a throttle (get_failed e) = (refl, refl)
  found-IsQuiet a throttle (found fresh) =
      elim (Result-cases
        (validate_deployment_ownership fresh.meta.controller desired.meta.controller)) [
          | inl (u, o) ↦ ground (
            arith,
            o,
            planned-IsQuiet a throttle (desired_deployment_update S comparison a fresh desired),
          )
          | inr (_, o) ↦ ground (arith, o)
        ]

  retry-IsQuiet :
      (a : Attempt S) (rest : List (Attempt S)) (throttle : Throttle)
      → IsQuiet throttle
          (retry_on_conflict S comparison false window node_name desired a rest throttle)
  unfolding retry_on_conflict run_attempt
  retry-IsQuiet a [] throttle = found-IsQuiet a throttle a.got
  retry-IsQuiet a (b ∷ rest) throttle =
      let applied = attempt_found S comparison false window node_name desired a throttle a.got in
      ground (arith, found-IsQuiet a throttle a.got, retry-IsQuiet b rest applied.throttle)

  -- Without auto-sync nothing is created or updated and the update window is not used, whatever the
  -- API server answers.
  pub apply_deployment-IsQuiet :
      (got : Got S) (stopped : Bool) (answer : Object S → Result ApplyError (Unit {0}))
      (a : Attempt S) (rest : List (Attempt S)) (throttle : Throttle)
      → IsQuiet throttle (
          apply_deployment S comparison false window node_name desired got stopped answer a rest
            throttle)
  unfolding apply_deployment
  apply_deployment-IsQuiet not_found stopped answer a rest throttle = (refl, refl)
  apply_deployment-IsQuiet (get_failed e) stopped answer a rest throttle = (refl, refl)
  apply_deployment-IsQuiet (found existing) stopped answer a rest throttle =
      elim (Result-cases
        (validate_deployment_ownership existing.meta.controller desired.meta.controller)) [
          | inl (u, o) ↦ ground (arith, o, retry-IsQuiet a rest throttle)
          | inr (_, o) ↦ ground (arith, o)
        ]
