-- ===== src/Tests/Rendering.antt =====
-- The resolver on the test cluster.
use yanet_operator.Base.{
  ◌≡◌, refl, ◌≢◌, none, List, [], ◌∷◌, nat_eq, string_eq, int_eq, option_eq, ok, All,
}
use yanet_operator.Resolve.{dataplane, sidecar, operator, controlplane, ResolvedSidecar}
use yanet_operator.Resolve.Sidecars.{resolve_dataplane_sidecars, resolve_sidecar}
use yanet_operator.Resolve.Sidecars.Slots.{
  resolve_dataplane_sidecars_iff, resolve_dataplane_sidecars-IsSlotted, IsResolvable, IsSlotted,
}
use yanet_operator.Resolve.Component.{resolve_box_component}
use yanet_operator.Resolve.Enabled.{ComponentRef, ref_to, enabled_components_for_box}
use yanet_operator.Resolve.Enabled.Resolved.{enabled-IsPresent}
use yanet_operator.Base.{err, int_eq, nat_eq}
use yanet_operator.Api.Errors.{Error}
use yanet_operator.Api.Admission.{validate_yanet_config}
use yanet_operator.Resolve.Enabled.Admitted.{enabled_components_for_box-of_admitted}
use yanet_operator.Tests.{outside, rules, short_key, config, spec, wiring, sidecar_named}

resolve_dataplane_sidecars_iff_example :
    IsResolvable short_key config.components.dataplane.sidecars wiring
unfolding resolve_dataplane_sidecars string_eq
resolve_dataplane_sidecars_iff_example =
    (resolve_dataplane_sidecars_iff short_key config spec wiring).0 (_, refl)

abbrev palette_resolved : List ResolvedSidecar
palette_resolved =
    resolve_sidecar config.images none wiring.sidecars 0 (sidecar_named "acl")
    ∷ resolve_sidecar config.images none wiring.sidecars 1 (sidecar_named "nat")
    ∷ []

resolve_dataplane_sidecars-IsSlotted_example :
    IsSlotted wiring.sidecars 0 config.components.dataplane.sidecars palette_resolved
unfolding resolve_dataplane_sidecars string_eq
resolve_dataplane_sidecars-IsSlotted_example =
    resolve_dataplane_sidecars-IsSlotted short_key config spec wiring palette_resolved refl

abbrev listed : List ComponentRef
listed =
    ref_to controlplane ""
    ∷ ref_to dataplane ""
    ∷ ref_to sidecar "nat"
    ∷ ref_to operator "route"
    ∷ []

enabled_are_listed : enabled_components_for_box short_key config "release" ≡ ok listed
unfolding enabled_components_for_box string_eq
enabled_are_listed = refl

enabled-IsPresent_example :
    All
      (λ r. resolve_box_component rules short_key config spec r.kind r.operator_name ≢ ok none)
      listed
enabled-IsPresent_example = enabled-IsPresent rules short_key config spec listed enabled_are_listed

enabled_components_for_box-of_admitted_example :
    (refs : List ComponentRef) × (enabled_components_for_box short_key config "release" ≡ ok refs)
unfolding validate_yanet_config string_eq int_eq nat_eq native.Mathlib.Decide.ℕ_discrete
enabled_components_for_box-of_admitted_example =
    enabled_components_for_box-of_admitted outside short_key config "release" refl
      (refl, (refl, tt)) refl

-- A box that wires an operator that the palette does not declare is refused.
undeclared :
    validate_yanet_config outside
      (record config { components = record config.components { operators = [] } })
    ≡ err (Error.operator_undeclared "route")
unfolding validate_yanet_config string_eq int_eq nat_eq native.Mathlib.Decide.ℕ_discrete
undeclared = refl
