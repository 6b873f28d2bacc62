-- ===== src/Api/Listeners.antt =====
-- ValidateListeners (api/v1alpha1/operator_validation.go), and the port constants.
use yanet_operator.Base.{
  ◌≡◌, ◌↔◌, ◌⊎◌, ℕ, ◌+◌, ◌-◌, ◌/◌, String, Bool, ◌&&◌, ◌||◌, not, Option, none, some, List, [], ◌∷◌,
  arith, ok, ◌>>◌, fail_if, ◌==◌, contains, string_eq, All, Distinct, DistinctFrom,
  DistinctFrom-nil,
}
use yanet_operator.Api.Errors.{Check, Error}
use yanet_operator.Api.Types.{OperatorSpec}

abbrev pub runtime_grpc_port : ℕ
runtime_grpc_port = 8080

abbrev pub runtime_http_port : ℕ
runtime_http_port = 8081

abbrev pub max_dataplane_sidecars : ℕ
max_dataplane_sidecars = (65535 - runtime_http_port) / 2 + 1

abbrev pub unsupported : String → Bool
unsupported l = not (l == "grpc") && not (l == "http")

-- The loop of ValidateListeners, with the set of the listeners seen.
unfoldable pub listeners_loop : String → List String → List String → Check
listeners_loop name seen [] = ok tt
listeners_loop name seen (l ∷ ls) =
    fail_if (unsupported l || contains seen l) (Error.listener_refused name l)
    >> listeners_loop name (l ∷ seen) ls

unfoldable pub validate_listeners : String → Option (List String) → Check
unfolding listeners_loop
validate_listeners name none = ok tt
validate_listeners name (some ls) = listeners_loop name [] ls

unfoldable pub validate_operator_listeners : OperatorSpec → Check
unfolding validate_listeners
validate_operator_listeners operator = validate_listeners operator.name operator.listeners

abbrev pub IsProtocol : String → Type 0
IsProtocol l = (l ≡ "grpc") ⊎ (l ≡ "http")

listeners_loop_iff :
    (name : String) (seen ls : List String)
    → (listeners_loop name seen ls ≡ ok tt) ↔ (All IsProtocol ls × DistinctFrom seen ls)
unfolding listeners_loop
listeners_loop_iff name seen [] = ground arith
listeners_loop_iff name seen (l ∷ ls) = ground (arith, listeners_loop_iff name (l ∷ seen) ls)

-- A declared list of listeners is accepted exactly when each is `grpc` or `http` and none is
-- listed twice.
pub validate_listeners_iff :
    (name : String) (ls : List String)
    → (validate_listeners name (some ls) ≡ ok tt) ↔ (All IsProtocol ls × Distinct ls)
unfolding validate_listeners
validate_listeners_iff name ls = ground (arith, listeners_loop_iff name [] ls, DistinctFrom-nil ls)
