-- ===== src/Controller/Preflight/Grows.antt =====
-- The preflight takes no error back (internal/controller/yanet_reconciler.go).
use yanet_operator.Base.{
  ◌≡◌, refl, Bool, true, false, not, Option, none, some, List, [], ◌∷◌, ◌++◌, arith, contains,
  if◌then◌else◌, nat_eq, string_eq, int_eq, option_eq, Result, ok, err, is_empty,
}
use yanet_operator.Base.Dict.{lookup, insert, erase}
use yanet_operator.Api.Errors.{Error}
use yanet_operator.Resolve.{ResolvedComponent, ResolvedSidecar}
use yanet_operator.Resolve.Component.{resolve_box_service_component}
use yanet_operator.Manifests.Services.{ServicePlan, PlanError, validate_plan, build_services}
use yanet_operator.Controller.Preflight.{
  Preflight, PreflightError, conflicting_plans, plan_refused, service_not_resolved, Declared,
  complain, put_plan, add_plan, plans_loop, add_declared, add_service_plans,
}

-- No error is taken back.
abbrev pub Grows : Preflight → Preflight → Type 0
Grows p q = is_empty q.errors ≡ true → is_empty p.errors ≡ true

complain-errors : (e : PreflightError) (p : Preflight) → is_empty (complain e p).errors ≡ false
unfolding complain
complain-errors e p = snoc p.errors
  where
    snoc : (xs : List PreflightError) → is_empty (xs ++ (e ∷ [])) ≡ false
    snoc [] = refl
    snoc (x ∷ xs) = refl

pub complain-absurd :
    {A : Type 0} → (e : PreflightError) (p : Preflight) → is_empty (complain e p).errors ≡ true → A
complain-absurd e p h = absurd (ground (arith, h, complain-errors e p))

complain-Grows : (e : PreflightError) (p : Preflight) → Grows p (complain e p)
complain-Grows e p h = complain-absurd e p h

module _ (declared : Declared) where
  put_plan-Grows :
      (plan : ServicePlan) (found : Option ServicePlan) (p : Preflight)
      → Grows p (put_plan declared plan found p)
  put_plan-Grows plan none p = λ h. h
  put_plan-Grows plan (some existing) p =
      elim (not (declared.same_plan existing plan))
        as (λ (b : Bool). Grows p (
          if b
          then complain (conflicting_plans plan.name)
              (record p { plans = erase plan.name p.plans; collided = plan.name ∷ p.collided })
          else record p { plans = insert plan.name plan p.plans })) [
            | true ↦ λ h. complain-absurd _ _ h
            | false ↦ λ h. h
          ]

  add_plan-Grows :
      (plan : ServicePlan) (result : Result PlanError (Unit {0})) (p : Preflight)
      → Grows p (add_plan declared plan result p)
  add_plan-Grows plan (err e) p = complain-Grows (plan_refused e) p
  add_plan-Grows plan (ok u) p =
      elim (contains p.collided plan.name)
        as (λ (b : Bool).
          Grows p (if b then p else put_plan declared plan (lookup plan.name p.plans) p)) [
            | true ↦ λ h. h
            | false ↦ put_plan-Grows plan (lookup plan.name p.plans) p
          ]

  plans_loop-Grows :
      (plans : List ServicePlan) (p : Preflight) → Grows p (plans_loop declared plans p)
  unfolding plans_loop
  plans_loop-Grows [] p = λ h. h
  plans_loop-Grows (plan ∷ plans) p = λ h.
      let result = validate_plan declared.is_dns1035_label plan in
      add_plan-Grows plan result p (plans_loop-Grows plans (add_plan declared plan result p) h)

  add_declared-Grows :
      (found : Result Error (Option ResolvedComponent)) (p : Preflight)
      → Grows p (add_declared declared found p)
  add_declared-Grows (err e) p = complain-Grows (service_not_resolved e) p
  add_declared-Grows (ok none) p = λ h. h
  add_declared-Grows (ok (some c)) p =
      plans_loop-Grows (build_services ResolvedSidecar declared.short_key declared.context c) p

  pub add_service_plans-Grows :
      (c : ResolvedComponent) (p : Preflight) → Grows p (add_service_plans declared c p)
  unfolding add_service_plans
  add_service_plans-Grows c p =
      add_declared-Grows
        (resolve_box_service_component declared.rules declared.short_key declared.config
          declared.context.box_type c.kind c.name)
        p
