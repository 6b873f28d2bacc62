-- ===== src/Api/Boxes.antt =====
-- The references of the box types (validateBoxTypeRefs, validateDataplaneSidecarRefs and
-- assertPatchesExist in api/v1alpha1/yanetconfig_webhook.go). The check of a sidecar's patch text and
-- the merge of the patches of a role, with the check of the pod that it gives, are parameters: they
-- parse JSON and call the strategic merge.
pub mod Wired
use yanet_operator.Base.{
  true, false, not, Option, none, some, List, [], ◌∷◌, String, ◌==◌, contains, nat_eq, string_eq,
  int_eq, option_eq, ok, err, ◌>>=◌, ◌>>◌, fail_if,
}
use yanet_operator.Base.Dict.{Dict}
use yanet_operator.Api.Errors.{Check, Error}
use yanet_operator.Api.Overrides.{is_set, declares_sidecar}
use yanet_operator.Api.Unique.Accepted.{operator_names, patch_names}
use yanet_operator.Api.Types.{
  NamedPatch, BoxComponent, BoxDataplane, BoxDataplaneSidecar, BoxOperator, BoxType,
  BirdAdapterComp, SidecarSpec, YanetConfigSpec,
}

unfoldable pub assert_patches_exist : List String → List String → Check
assert_patches_exist registry [] = ok tt
assert_patches_exist registry (n ∷ ns) =
    fail_if (not (contains registry n)) (Error.patch_undefined n)
    >> assert_patches_exist registry ns

unfoldable pub operator_refs_exist : List String → List String → Dict String BoxOperator → Check
unfolding assert_patches_exist
operator_refs_exist declared registry [] = ok tt
operator_refs_exist declared registry ((name, slot) ∷ slots) =
    fail_if (not (contains declared name)) (Error.operator_undeclared name)
    >> (assert_patches_exist registry slot.patches >> operator_refs_exist declared registry slots)

abbrev pub bird_adapter_refs : Option BirdAdapterComp → List String → Option BoxComponent → Check
bird_adapter_refs declared registry none = ok tt
bird_adapter_refs declared registry (some slot) =
    fail_if (not (is_set declared)) Error.bird_adapter_undefined
    >> assert_patches_exist registry slot.patches

module _ (validate_sidecar_patch : String → Check) where
  -- The loop over the registry for one name.
  unfoldable pub check_named : List NamedPatch → String → Check
  check_named [] name = ok tt
  check_named (p ∷ ps) name =
      elim (p.name == name) [ true ↦ validate_sidecar_patch p.patch | false ↦ ok tt ]
      >> check_named ps name

  unfoldable pub check_sidecar_patches : List NamedPatch → List String → Check
  unfolding check_named
  check_sidecar_patches patches [] = ok tt
  check_sidecar_patches patches (n ∷ ns) = check_named patches n >> check_sidecar_patches patches ns

  unfoldable pub validate_dataplane_sidecar_refs :
      List SidecarSpec → List NamedPatch → Dict String BoxDataplaneSidecar → Check
  unfolding assert_patches_exist check_sidecar_patches
  validate_dataplane_sidecar_refs declared patches [] = ok tt
  validate_dataplane_sidecar_refs declared patches ((name, slot) ∷ slots) =
      fail_if (not (declares_sidecar declared name)) (Error.sidecar_undeclared name)
      >> (assert_patches_exist (patch_names patches) slot.patches
          >> (check_sidecar_patches patches slot.patches
              >> validate_dataplane_sidecar_refs declared patches slots))

  module _ (validate_box_private_network : YanetConfigSpec → BoxType → Check) where
    abbrev pub dataplane_box : YanetConfigSpec → BoxType → BoxComponent → BoxDataplane → Check
    dataplane_box spec box controlplane dataplane =
        let registry = patch_names spec.patches in
        assert_patches_exist registry controlplane.patches
        >> (assert_patches_exist registry dataplane.patches
            >> (validate_dataplane_sidecar_refs spec.components.dataplane.sidecars spec.patches
                  dataplane.sidecars
                >> (bird_adapter_refs spec.components.bird_adapter registry
                      box.components.bird_adapter
                    >> (operator_refs_exist (operator_names spec.components.operators) registry
                          box.operators
                        >> validate_box_private_network spec box))))

    abbrev pub box_slots :
        YanetConfigSpec → BoxType → Option BoxComponent → Option BoxDataplane → Check
    box_slots spec box none dataplane = err (Error.slot_required "controlplane")
    box_slots spec box (some controlplane) none = err (Error.slot_required "dataplane")
    box_slots spec box (some controlplane) (some dataplane) =
        dataplane_box spec box controlplane dataplane

    -- The body of the loop.
    unfoldable pub validate_box_refs : YanetConfigSpec → BoxType → Check
    unfolding assert_patches_exist validate_dataplane_sidecar_refs operator_refs_exist
    validate_box_refs spec box =
        box_slots spec box box.components.controlplane box.components.dataplane

    unfoldable pub boxes_refs : YanetConfigSpec → List BoxType → Check
    unfolding validate_box_refs
    boxes_refs spec [] = ok tt
    boxes_refs spec (b ∷ bs) = validate_box_refs spec b >> boxes_refs spec bs

    unfoldable pub validate_box_type_refs : YanetConfigSpec → Check
    unfolding boxes_refs
    validate_box_type_refs spec = boxes_refs spec spec.box_types
