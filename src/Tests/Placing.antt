-- ===== src/Tests/Placing.antt =====
-- The placement guard on the test cluster.
use yanet_operator.Base.{
  ◌≡◌, refl, Bool, true, false, Option, none, some, [], ◌∷◌, String, nat_eq, string_eq, int_eq,
  option_eq, Result, ok, err, ℤ, pos, All,
}
use yanet_operator.Base.Dict.{Dict}
use yanet_operator.Resolve.{operator, ResolvedImage}
use yanet_operator.Resolve.Operators.{blank}
use yanet_operator.Manifests.Workload.{label_yanet, label_node}
use yanet_operator.Controller.Placement.{
  LiveSet, RenderedWorkload, Role, desired_roles, unsafe_migration, PlacementError,
  validate_operator_placement_transition,
}
use yanet_operator.Controller.Placement.Safe.{
  validate_operator_placement_transition_iff, Everywhere, IsSafe,
}
use yanet_operator.Tests.{short_key, node}

abbrev no_image : ResolvedImage
no_image = record { registry = ""; prefix = ""; name = ""; tag = "" }

abbrev standalone : RenderedWorkload
standalone = record { replicas = none; component = blank operator "route" no_image }

-- A Deployment of the installation on the node, whose pods carry one more label.
abbrev live : String → String → Option ℤ → LiveSet
live label value replicas = record {
  name = "old";
  generation = 1;
  replicas = replicas;
  observed_generation = 1;
  status_replicas = pos 0;
  template = record {
    labels = (label_yanet, "edge") ∷ (label_node, "n1") ∷ (label, value) ∷ [];
    node_name = "";
    node_selector = [];
  };
}

abbrev membership : String
membership = "yanet.yanet-platform.io/operator-route"

abbrev select : Dict String String → Dict String String → Bool
select selector labels = true

abbrev guard : LiveSet → Result PlacementError (Unit {0})
guard d =
    validate_operator_placement_transition short_key select "edge" (node ∷ [])
      (("n1", standalone ∷ []) ∷ [])
      (record { deployments = ok (d ∷ []); replica_sets = ok []; pods = ok [] })

validate_operator_placement_transition_iff_example :
    All
      (λ (r : Role).
        Everywhere
          (IsSafe short_key select "edge" r)
          (live membership "route" (some (pos 0)) ∷ [])
          []
          [])
      (desired_roles (node ∷ []) (("n1", standalone ∷ []) ∷ []))
unfolding validate_operator_placement_transition string_eq int_eq nat_eq option_eq
    native.Mathlib.Decide.ℕ_discrete
validate_operator_placement_transition_iff_example =
    (validate_operator_placement_transition_iff short_key select "edge" (node ∷ [])
        (("n1", standalone ∷ []) ∷ []) (live membership "route" (some (pos 0)) ∷ []) [] []).0
      refl

-- While the colocated producer runs, the operator's own Deployment has to wait for it.
refused :
    guard (live membership "route" none)
    ≡ err (
        unsafe_migration
          (record { name = "route"; colocated = false; node = node })
          (record {
            kind = "Deployment";
            name = "old";
            template = (live membership "route" none).template;
          }))
unfolding validate_operator_placement_transition string_eq int_eq nat_eq option_eq
    native.Mathlib.Decide.ℕ_discrete
refused = refl
