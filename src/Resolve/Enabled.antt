-- ===== src/Resolve/Enabled.antt =====
-- EnabledComponentsForBox (internal/helpers/resolve.go).
pub mod Resolved
pub mod Admitted
use yanet_operator.Base.{
  Option, none, some, List, [], ◌∷◌, ◌++◌, String, if◌then◌else◌, nat_eq, string_eq, int_eq,
  option_eq, Result, ok, ◌>>=◌, ◌>>◌,
}
use yanet_operator.Base.Dict.{Dict, keys, has}
use yanet_operator.Api.Errors.{Check, Error}
use yanet_operator.Api.Types.{
  OperatorSpec, BoxType, BoxComponent, BoxDataplane, BoxDataplaneSidecar, BoxOperator,
  YanetConfigSpec,
}
use yanet_operator.Resolve.{
  ComponentKind, controlplane, dataplane, bird_adapter, operator, sidecar, ResolvedSidecar,
  find_box_type, find_operator,
}
use yanet_operator.Resolve.Sidecars.{resolve_dataplane_sidecars}
use yanet_operator.Resolve.Component.{bare_yanet}

pub record ComponentRef : Type 0 where
  pub kind : ComponentKind
  pub operator_name : String

abbrev pub ref_to : ComponentKind → String → ComponentRef
ref_to kind name = record { kind = kind; operator_name = name }

-- The loop over the operators that the box wires.
unfoldable pub operators_found : YanetConfigSpec → List String → Check
unfolding find_operator
operators_found config [] = ok tt
operators_found config (n ∷ ns) = find_operator config n >>= λ o. operators_found config ns

abbrev pub component_refs : ComponentKind → Option BoxComponent → List ComponentRef
component_refs kind none = []
component_refs kind (some slot) = ref_to kind "" ∷ []

unfoldable pub sidecar_refs :
    Dict String BoxDataplaneSidecar → List ResolvedSidecar → List ComponentRef
sidecar_refs slots [] = []
sidecar_refs slots (s ∷ ss) =
    let rest = sidecar_refs slots ss in
    if has s.name slots then ref_to sidecar s.name ∷ rest else rest

unfoldable pub operator_refs : Dict String BoxOperator → List OperatorSpec → List ComponentRef
operator_refs slots [] = []
operator_refs slots (o ∷ os) =
    let rest = operator_refs slots os in
    if has o.name slots then ref_to operator o.name ∷ rest else rest

module _ (short_key : String → String) where
  abbrev pub dataplane_refs :
      YanetConfigSpec → String → Option BoxDataplane → Result Error (List ComponentRef)
  dataplane_refs config box_name none = ok []
  dataplane_refs config box_name (some slot) =
      resolve_dataplane_sidecars short_key config (bare_yanet box_name) slot >>= λ sidecars.
      ok (ref_to dataplane "" ∷ sidecar_refs slot.sidecars sidecars)

  -- The references of the selected box, in the order of the code.
  unfoldable pub refs_of_box : YanetConfigSpec → String → BoxType → Result Error (List ComponentRef)
  unfolding operators_found sidecar_refs operator_refs resolve_dataplane_sidecars
  refs_of_box config box_name box =
      operators_found config (keys box.operators)
      >> (dataplane_refs config box_name box.components.dataplane >>= λ refs. ok (
          component_refs controlplane box.components.controlplane
          ++ (refs
              ++ (component_refs bird_adapter box.components.bird_adapter
                  ++ operator_refs box.operators config.components.operators))))

  unfoldable pub enabled_components_for_box :
      YanetConfigSpec → String → Result Error (List ComponentRef)
  unfolding refs_of_box find_box_type
  enabled_components_for_box config box_name =
      find_box_type config box_name >>= λ box. refs_of_box config box_name box
