-- ===== src/Api/Boxes/Wired.antt =====
-- What accepted references of a box give the resolver and the check of overrides.
use yanet_operator.Base.{
  ◌≡◌, refl, sym, true, not, Option, none, some, List, [], ◌∷◌, arith, String, contains, nat_eq,
  string_eq, int_eq, option_eq, ok, fail_if, >>=-eq-ok, All,
}
use yanet_operator.Base.{subst}
use yanet_operator.Base.Dict.{Dict, keys}
use yanet_operator.Api.Errors.{Check, Error}
use yanet_operator.Api.Overrides.{is_set, declares_sidecar}
use yanet_operator.Api.Overrides.Effective.{SidecarsWired, IsWired}
use yanet_operator.Api.Unique.Accepted.{operator_names, patch_names}
use yanet_operator.Api.Types.{
  NamedPatch, BoxComponent, BoxDataplane, BoxDataplaneSidecar, BoxOperator, BoxType,
  BirdAdapterComp, SidecarSpec, YanetConfigSpec,
}
use yanet_operator.Api.Boxes.{
  assert_patches_exist, operator_refs_exist, bird_adapter_refs, check_sidecar_patches,
  validate_dataplane_sidecar_refs, box_slots, validate_box_refs, boxes_refs,
}

operator_refs_exist-declared :
    (declared registry : List String) (slots : Dict String BoxOperator)
    → operator_refs_exist declared registry slots ≡ ok tt
    → All (λ n. contains declared n ≡ true) (keys slots)
unfolding operator_refs_exist
operator_refs_exist-declared declared registry [] h = tt
operator_refs_exist-declared declared registry ((name, slot) ∷ slots) h =
    let (_, q, r) =
      >>=-eq-ok (fail_if (not (contains declared name)) (Error.operator_undeclared name)) _ h in
    let (_, _, r') = >>=-eq-ok (assert_patches_exist registry slot.patches) _ r in
    (ground (arith, q), operator_refs_exist-declared declared registry slots r')

module _ (validate_sidecar_patch : String → Check) where
  sidecar_refs-declared :
      (declared : List SidecarSpec) (patches : List NamedPatch)
      (slots : Dict String BoxDataplaneSidecar)
      → validate_dataplane_sidecar_refs validate_sidecar_patch declared patches slots ≡ ok tt
      → All (λ n. declares_sidecar declared n ≡ true) (keys slots)
  unfolding validate_dataplane_sidecar_refs
  sidecar_refs-declared declared patches [] h = tt
  sidecar_refs-declared declared patches ((name, slot) ∷ slots) h =
      let (_, q, r) =
        >>=-eq-ok (fail_if (not (declares_sidecar declared name)) (Error.sidecar_undeclared name)) _
          h in
      let (_, _, r') = >>=-eq-ok (assert_patches_exist (patch_names patches) slot.patches) _ r in
      let (_, _, r'') =
        >>=-eq-ok (check_sidecar_patches validate_sidecar_patch patches slot.patches) _ r' in
      (ground (arith, q), sidecar_refs-declared declared patches slots r'')

bird_adapter_refs-is_set :
    (declared : Option BirdAdapterComp) (registry : List String) (slot : Option BoxComponent)
    → bird_adapter_refs declared registry slot ≡ ok tt
    → is_set slot ≡ true
    → is_set declared ≡ true
bird_adapter_refs-is_set declared registry none h s = cc
bird_adapter_refs-is_set none registry (some slot) h s = cc
bird_adapter_refs-is_set (some adapter) registry (some slot) h s = refl

module _ (validate_sidecar_patch : String → Check)
    (validate_box_private_network : YanetConfigSpec → BoxType → Check)
    (spec : YanetConfigSpec) where
  box_slots-IsWired :
      (box : BoxType) (c : Option BoxComponent) (d : Option BoxDataplane)
      → box.components.dataplane ≡ d
      → box_slots validate_sidecar_patch validate_box_private_network spec box c d ≡ ok tt
      → IsWired spec.components box
  box_slots-IsWired box none d e h = cc
  box_slots-IsWired box (some c) none e h = cc
  box_slots-IsWired box (some c) (some d) e h =
      let registry = patch_names spec.patches in
      let (_, _, r) = >>=-eq-ok (assert_patches_exist registry c.patches) _ h in
      let (_, _, r') = >>=-eq-ok (assert_patches_exist registry d.patches) _ r in
      let (_, s, r'') =
        >>=-eq-ok
          (validate_dataplane_sidecar_refs validate_sidecar_patch spec.components.dataplane.sidecars
            spec.patches d.sidecars)
          _ r' in
      let (_, b, r''') =
        >>=-eq-ok
          (bird_adapter_refs spec.components.bird_adapter registry box.components.bird_adapter) _
          r'' in
      let (_, o, _) =
        >>=-eq-ok
          (operator_refs_exist (operator_names spec.components.operators) registry box.operators) _
          r''' in
      (
        operator_refs_exist-declared (operator_names spec.components.operators) registry
            box.operators o,
        subst (SidecarsWired spec.components.dataplane.sidecars) (sym e) (
            sidecar_refs-declared validate_sidecar_patch spec.components.dataplane.sidecars
              spec.patches d.sidecars s),
        bird_adapter_refs-is_set spec.components.bird_adapter registry box.components.bird_adapter
            b,
      )

  pub boxes_refs-IsWired :
      (bs : List BoxType)
      → boxes_refs validate_sidecar_patch validate_box_private_network spec bs ≡ ok tt
      → All (IsWired spec.components) bs
  unfolding boxes_refs validate_box_refs
  boxes_refs-IsWired [] h = tt
  boxes_refs-IsWired (b ∷ bs) h =
      let (_, q, r) =
        >>=-eq-ok
          (box_slots validate_sidecar_patch validate_box_private_network spec b
            b.components.controlplane b.components.dataplane)
          _ h in
      (
        box_slots-IsWired b b.components.controlplane b.components.dataplane refl q,
        boxes_refs-IsWired bs r,
      )
