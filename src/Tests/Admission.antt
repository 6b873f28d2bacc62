-- ===== src/Tests/Admission.antt =====
-- The admission checks on the test cluster.
use yanet_operator.Base.{
  ◌≡◌, refl, some, [], ◌∷◌, String, nat_eq, string_eq, int_eq, option_eq, err, pos, All, Distinct,
}
use yanet_operator.Api.Errors.{Error}
use yanet_operator.Api.Listeners.{validate_listeners}
use yanet_operator.Api.Numa.{validate_disabled_numa}
use yanet_operator.Api.Numa.Remaining.{validate_disabled_numa_iff, HasDomain}
use yanet_operator.Api.Networks.{validate_network_attachments}
use yanet_operator.Api.Networks.Accepted.{validate_network_attachments_iff}
use yanet_operator.Api.Unique.{validate_operator_uniqueness}
use yanet_operator.Api.Unique.Accepted.{validate_operator_uniqueness_iff, IsOperator}
use yanet_operator.Tests.{rules, controlplane_spec, attachment, route}

listeners_twice :
    validate_listeners "a" (some ("grpc" ∷ "grpc" ∷ [])) ≡ err (Error.listener_refused "a" "grpc")
unfolding validate_listeners string_eq
listeners_twice = refl

validate_disabled_numa_iff_example : HasDomain controlplane_spec
unfolding validate_disabled_numa int_eq
validate_disabled_numa_iff_example = (validate_disabled_numa_iff controlplane_spec).0 refl

all_disabled :
    validate_disabled_numa (record controlplane_spec { disabled_numa = pos 0 ∷ pos 1 ∷ [] })
    ≡ err Error.every_numa_disabled
unfolding validate_disabled_numa int_eq native.Mathlib.Decide.ℕ_discrete
all_disabled = refl

validate_network_attachments_iff_example : Distinct {A = String} ("net0" ∷ [])
unfolding validate_network_attachments string_eq nat_eq
validate_network_attachments_iff_example =
    ((validate_network_attachments_iff rules (attachment ∷ [])).0 refl).1

-- The same interface on two NADs.
interface_twice :
    validate_network_attachments rules (attachment ∷ record attachment { name = "downlink" } ∷ [])
    ≡ err (Error.network_refused "net0")
unfolding validate_network_attachments string_eq nat_eq
interface_twice = refl

validate_operator_uniqueness_iff_example :
    All (IsOperator rules) (route ∷ []) × Distinct {A = String} ("route" ∷ [])
unfolding validate_operator_uniqueness string_eq
validate_operator_uniqueness_iff_example =
    (validate_operator_uniqueness_iff rules (route ∷ [])).0 refl

reserved :
    validate_operator_uniqueness rules (record route { name = "dataplane" } ∷ [])
    ≡ err (Error.name_reserved "dataplane")
unfolding validate_operator_uniqueness string_eq
reserved = refl
