-- ===== src/Manifests/Services/Accepted.antt =====
-- The plans that BuildServices makes, and ServicePlan.Validate (internal/manifests/service.go).
use yanet_operator.Base.{
  ◌≡◌, refl, ◌≢◌, inl, inr, ℕ, zero, suc, Bool, true, false, not, Option, none, some, List, [], ◌∷◌,
  map, arith, String, ◌==◌, contains, if◌then◌else◌, nat_eq, string_eq, int_eq, option_eq, Result,
  ok, err, fail_if, ℤ, pos, All, Distinct, DistinctFrom, DistinctFrom-nil, Bool-cases, is_empty,
}
use yanet_operator.Base.Dict.{Dict, insert}
use yanet_operator.Api.Listeners.{
  IsProtocol, validate_listeners, validate_listeners_iff, runtime_grpc_port, runtime_http_port,
}
use yanet_operator.Resolve.{
  Resolved, ComponentKind, controlplane, dataplane, bird_adapter, operator, sidecar, unknown,
}
use yanet_operator.Manifests.Ports.{
  ListenerPort, listener_port, listener_ports, listener_names_of, ports_of, is_colocated,
}
use yanet_operator.Api.Numa.{validate_controlplane_numa}
use yanet_operator.Api.Errors.{Error}
use yanet_operator.Manifests.Fanout.{effective_numa, rounds}
use yanet_operator.Manifests.Names.{shared_service_name, colocated_target_port}
use yanet_operator.Manifests.Services.{
  ServicePlan, ServicePortPlan, BuildContext, ports_loop, port_plan, validate_plan,
  build_service_plan, numa_plans, plans_for, invalid_name, is_controlplane, build_services,
  select_numa, service_selector,
}

-- The port of a protocol.
abbrev port_of : String → ℤ
port_of protocol = pos (if protocol == "http" then runtime_http_port else runtime_grpc_port)

insert-is_empty : (k v : String) (d : Dict String String) → is_empty (insert k v d) ≡ false
unfolding insert
insert-is_empty k v [] = refl
insert-is_empty k v ((j, w) ∷ d) = ground arith

grpc_port-apart : (port_of "grpc" == port_of "http") ≡ false
unfolding string_eq int_eq nat_eq native.Mathlib.Decide.ℕ_discrete
grpc_port-apart = refl

http_port-apart : (port_of "http" == port_of "grpc") ≡ false
unfolding string_eq int_eq nat_eq native.Mathlib.Decide.ℕ_discrete
http_port-apart = refl

port_of-apart :
    (a b : String)
    → IsProtocol a
    → IsProtocol b
    → (a == b) ≡ false
    → (port_of a == port_of b) ≡ false
port_of-apart a b (inl p) (inl q) e = ground arith
port_of-apart a b (inl p) (inr q) e = rw (p, q) grpc_port-apart
port_of-apart a b (inr p) (inl q) e = rw (p, q) http_port-apart
port_of-apart a b (inr p) (inr q) e = ground arith

IsProtocol-named : (a : String) → IsProtocol a → (a == "") ≡ false
unfolding string_eq
IsProtocol-named a (inl p) = rw p refl
IsProtocol-named a (inr p) = rw p refl

contains-ports :
    (seen : List String) (a : String)
    → All IsProtocol seen
    → IsProtocol a
    → contains seen a ≡ false
    → contains (map port_of seen) (port_of a) ≡ false
contains-ports [] a hs h e = refl
contains-ports (s ∷ seen) a hs h e =
    ground (arith, contains-ports seen a hs.1 h, port_of-apart a s h hs.0)

module _ (S : Type 0) (targets : String → String → String) (component : Resolved S) where
  abbrev plans : List String → List ServicePortPlan
  plans ls = map port_plan (map (listener_port S targets component) ls)

  ports_loop-plans :
      (seen ls : List String)
      → All IsProtocol seen
      → All IsProtocol ls
      → DistinctFrom seen ls
      → ports_loop seen (map port_of seen) (plans ls) ≡ ok tt
  unfolding ports_loop
  ports_loop-plans seen [] hs h d = refl
  ports_loop-plans seen (l ∷ ls) hs h d = ground (
    arith,
    ports_loop-plans (l ∷ seen) ls (h.0, hs) h.1 d.1,
    contains-ports seen l hs h.0 d.0,
    IsProtocol-named l h.0,
  )

abbrev AreListeners : List String → Type 0
AreListeners ls = All IsProtocol ls × Distinct ls

AreListeners-two : AreListeners ("grpc" ∷ "http" ∷ [])
unfolding string_eq
AreListeners-two = ((inl refl, (inr refl, tt)), (refl, (refl, tt)))

AreListeners-one : AreListeners ("grpc" ∷ [])
AreListeners-one = ((inl refl, tt), (refl, tt))

listener_names_of-AreListeners :
    (name : String) (kind : ComponentKind) (declared : Option (List String))
    → validate_listeners name declared ≡ ok tt
    → AreListeners (listener_names_of kind declared)
listener_names_of-AreListeners name controlplane declared h = AreListeners-two
listener_names_of-AreListeners name dataplane none h = AreListeners-one
listener_names_of-AreListeners name bird_adapter none h = AreListeners-one
listener_names_of-AreListeners name operator none h = AreListeners-one
listener_names_of-AreListeners name sidecar none h = AreListeners-one
listener_names_of-AreListeners name (unknown k) none h = AreListeners-one
listener_names_of-AreListeners name kind (some ls) h =
    AreListeners-some kind ((validate_listeners_iff name ls).0 h)
  where
    AreListeners-some :
        (k : ComponentKind) → AreListeners ls → AreListeners (listener_names_of k (some ls))
    AreListeners-some controlplane d = AreListeners-two
    AreListeners-some k d = d

All-branches :
    (P : ServicePlan → Type 0) (b : Bool) (checked : Result Error (Unit {0})) (one : ServicePlan)
    (plans : List ServicePlan)
    → P one
    → All P plans
    → All P (if b then one ∷ [] else elim checked [ err e ↦ [] | ok u ↦ plans ])
All-branches P true checked one plans h k = (h, tt)
All-branches P false (err e) one plans h k = tt
All-branches P false (ok u) one plans h k = k

-- Of all the checks of the plan only that of its name can fail.
abbrev pub IsJudgedByName : (String → Bool) → ServicePlan → Type 0
IsJudgedByName is_dns1035_label plan =
    validate_plan is_dns1035_label plan
    ≡ fail_if (not (is_dns1035_label plan.name)) (invalid_name plan.name)

module _ (S : Type 0) (short_key : String → String) (is_dns1035_label : String → Bool)
    (context : BuildContext) (component : Resolved S) (h_box : context.box_type ≢ "")
    (h_component : component.name ≢ "") where
  abbrev ports_named : List String → List ListenerPort
  ports_named ls = map (listener_port S (colocated_target_port short_key) component) ls

  selector-is_empty :
      (numa : Option ℕ)
      → is_empty (select_numa numa (service_selector S short_key context component)) ≡ false
  selector-is_empty none = elim (Bool-cases (is_colocated S component)) [
    | inl e ↦ rw e (insert-is_empty _ _ _)
    | inr e ↦ rw e (insert-is_empty _ _ _)
  ]
  selector-is_empty (some n) = insert-is_empty _ _ _

  build_service_plan-IsJudgedByName :
      (numa : Option ℕ) (l : String) (ls : List String)
      → All IsProtocol (l ∷ ls)
      → Distinct (l ∷ ls)
      → IsJudgedByName is_dns1035_label
          (build_service_plan S short_key context component numa (ports_named (l ∷ ls)))
  unfolding validate_plan build_service_plan
  build_service_plan-IsJudgedByName numa l ls h d = ground (
    arith,
    h_box,
    h_component,
    Bool-cases
        (is_dns1035_label (shared_service_name short_key context.box_type component.name numa)),
    selector-is_empty numa,
    ports_loop-plans S (colocated_target_port short_key) component [] (l ∷ ls) tt h
        ((DistinctFrom-nil (l ∷ ls)).1 d),
  )

  numa_plans-IsJudgedByName :
      (l : String) (ls : List String)
      → AreListeners (l ∷ ls)
      → (i n : ℕ)
      → All
          (IsJudgedByName is_dns1035_label)
          (numa_plans S short_key context component (ports_named (l ∷ ls)) i n)
  unfolding numa_plans
  numa_plans-IsJudgedByName l ls h i zero = tt
  numa_plans-IsJudgedByName l ls h i (suc n) = (
    build_service_plan-IsJudgedByName (some i) l ls h.0 h.1,
    numa_plans-IsJudgedByName l ls h (suc i) n,
  )

  plans_for-IsJudgedByName :
      (ls : List String)
      → AreListeners ls
      → All
          (IsJudgedByName is_dns1035_label)
          (plans_for S short_key context component (ports_named ls))
  plans_for-IsJudgedByName [] h = tt
  plans_for-IsJudgedByName (l ∷ ls) h =
      let one = build_service_plan-IsJudgedByName none l ls h.0 h.1 in
      All-branches (IsJudgedByName is_dns1035_label) (not (is_controlplane component.kind))
        (validate_controlplane_numa (effective_numa component.numa))
        (build_service_plan S short_key context component none (ports_named (l ∷ ls)))
        (numa_plans S short_key context component (ports_named (l ∷ ls)) 0
          (rounds (effective_numa component.numa)))
        one (numa_plans-IsJudgedByName l ls h 0 (rounds (effective_numa component.numa)))

  -- The Service plans of a role whose declared listeners are accepted, with a name and a box type, are
  -- refused for nothing but a name that is no DNS label, whatever names are labels: their ports are
  -- distinct in name and number and within the range, and the selector is not empty.
  pub build_services-IsJudgedByName :
      validate_listeners component.name component.listener_names ≡ ok tt
      → All (IsJudgedByName is_dns1035_label) (build_services S short_key context component)
  unfolding build_services listener_ports
  build_services-IsJudgedByName h = accepted component.kind
    where
      of_names :
          (k : ComponentKind)
          → All (IsJudgedByName is_dns1035_label) (
              plans_for S short_key context component
                (ports_named (listener_names_of k component.listener_names)))
      of_names k =
          plans_for-IsJudgedByName (listener_names_of k component.listener_names)
            (listener_names_of-AreListeners component.name k component.listener_names h)

      accepted :
          (k : ComponentKind)
          → All (IsJudgedByName is_dns1035_label) (
              plans_for S short_key context component
                (ports_of S (colocated_target_port short_key) component k))
      accepted dataplane = tt
      accepted controlplane = of_names controlplane
      accepted bird_adapter = of_names bird_adapter
      accepted operator = of_names operator
      accepted sidecar = of_names sidecar
      accepted (unknown k) = of_names (unknown k)
