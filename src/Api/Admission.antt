-- ===== src/Api/Admission.antt =====
-- validateYanetConfig with its checks of images and config sources, and the loop of dryRunPatches
-- (api/v1alpha1/yanetconfig_webhook.go, config_source.go). What a patch's JSON text is decoded to and
-- merged into is a parameter, `dry_run_patch`.
use yanet_operator.Base.{
  ℕ, ◌+◌, Bool, not, ◌&&◌, Option, none, some, List, [], ◌∷◌, String, starts_with, ◌==◌,
  if◌then◌else◌, nat_eq, string_eq, int_eq, option_eq, ok, ◌>>◌, fail_if, ℤ, pos, ltb_ℤ,
}
use yanet_operator.Base.{◌/◌}
use yanet_operator.Api.Errors.{Check, Error}
use yanet_operator.Api.Names.{NameRules}
use yanet_operator.Api.Numa.{validate_disabled_numa}
use yanet_operator.Api.Networks.{validate_network_attachments}
use yanet_operator.Api.Hugepages.{Quantity, validate_hugepages, max_int64}
use yanet_operator.Api.Unique.{
  validate_patch_uniqueness, validate_operator_uniqueness, validate_sidecar_uniqueness,
  validate_box_type_uniqueness,
}
use yanet_operator.Api.Boxes.{validate_box_type_refs}
use yanet_operator.Api.Overrides.{attachments}
use yanet_operator.Api.Types.{
  ImageRef, ConfigSource, NamedPatch, BoxType, BirdAdapterComp, SidecarSpec, OperatorContainer,
  OperatorSpec, ComponentsSpec, YanetConfigSpec,
}

abbrev pub check_image : ImageRef → Check
check_image image = fail_if (image.name == "") Error.image_name_required

unfoldable pub sidecar_images : List SidecarSpec → Check
sidecar_images [] = ok tt
sidecar_images (s ∷ ss) = check_image s.image >> sidecar_images ss

unfoldable pub container_images : List OperatorContainer → Check
container_images [] = ok tt
container_images (c ∷ cs) = check_image c.image >> container_images cs

unfoldable pub operator_images : List OperatorSpec → Check
unfolding container_images
operator_images [] = ok tt
operator_images (o ∷ os) = container_images o.containers >> operator_images os

abbrev pub bird_adapter_image : Option BirdAdapterComp → Check
bird_adapter_image none = ok tt
bird_adapter_image (some b) = check_image b.image

unfoldable pub validate_component_images : ComponentsSpec → Check
unfolding sidecar_images operator_images
validate_component_images c =
    check_image c.controlplane.image
    >> (check_image c.dataplane.image
        >> (sidecar_images c.dataplane.sidecars
            >> (bird_adapter_image c.bird_adapter >> operator_images c.operators)))

-- VariantsSet of a source that is not nil.
unfoldable pub variants_set : ConfigSource → ℕ
variants_set s = (if s.inline == "" then 0 else 1) + (if s.host_path == "" then 0 else 1)

-- path.IsAbs
abbrev pub is_abs : String → Bool
is_abs p = starts_with p "/"

unfoldable pub check_source : Option ConfigSource → Check
unfolding variants_set
check_source none = ok tt
check_source (some s) =
    fail_if (not (variants_set s == 1)) Error.config_source_refused
    >> (fail_if (not (s.host_path == "") && not (is_abs s.host_path)) Error.config_source_refused
        >> fail_if (not (s.mount_path == "") && not (is_abs s.mount_path))
            Error.config_source_refused)

unfoldable pub sidecar_sources : List SidecarSpec → Check
unfolding check_source
sidecar_sources [] = ok tt
sidecar_sources (s ∷ ss) = check_source s.config >> sidecar_sources ss

unfoldable pub container_sources : List OperatorContainer → Check
unfolding check_source
container_sources [] = ok tt
container_sources (c ∷ cs) = check_source c.config >> container_sources cs

unfoldable pub operator_sources : List OperatorSpec → Check
unfolding container_sources
operator_sources [] = ok tt
operator_sources (o ∷ os) = container_sources o.containers >> operator_sources os

unfoldable pub bird_adapter_source : Option BirdAdapterComp → Check
unfolding check_source
bird_adapter_source none = ok tt
bird_adapter_source (some b) = check_source b.config

unfoldable pub validate_config_sources : ComponentsSpec → Check
unfolding check_source sidecar_sources bird_adapter_source operator_sources
validate_config_sources c =
    check_source c.controlplane.config
    >> (check_source c.dataplane.config
        >> (sidecar_sources c.dataplane.sidecars
            >> (bird_adapter_source c.bird_adapter >> operator_sources c.operators)))

-- math.MaxInt64 / int64(time.Second)
abbrev pub max_update_window : ℤ
max_update_window = pos (max_int64 / 1000000000)

-- The name rules, the parsing of a quantity, and the checks of a patch's text: those of dryRunPatches,
-- ValidateSidecarPatch and validateBoxPrivateNetwork, which decode JSON and merge it.
pub record Outside : Type 0 where
  pub rules : NameRules
  pub parse_quantity : String → Option Quantity
  pub dry_run_patch : String → Check
  pub validate_sidecar_patch : String → Check
  pub validate_box_private_network : YanetConfigSpec → BoxType → Check

module _ (outside : Outside) where
  unfoldable pub dry_run_patches : List NamedPatch → Check
  dry_run_patches [] = ok tt
  dry_run_patches (p ∷ ps) =
      fail_if (p.patch == "") (Error.patch_refused p.name)
      >> (outside.dry_run_patch p.patch >> dry_run_patches ps)

  unfoldable pub validate_yanet_config : YanetConfigSpec → Check
  unfolding validate_patch_uniqueness dry_run_patches validate_operator_uniqueness
      validate_sidecar_uniqueness validate_box_type_uniqueness validate_box_type_refs
      validate_hugepages validate_network_attachments validate_component_images
      validate_config_sources validate_disabled_numa
  validate_yanet_config spec = do
    fail_if (ltb_ℤ spec.update_window (pos 0)) (Error.window_negative spec.update_window)
    fail_if (ltb_ℤ max_update_window spec.update_window) (Error.window_too_long spec.update_window)
    validate_patch_uniqueness spec.patches
    dry_run_patches spec.patches
    validate_operator_uniqueness outside.rules spec.components.operators
    validate_sidecar_uniqueness outside.rules spec.components
    validate_box_type_uniqueness outside.rules spec.box_types
    validate_box_type_refs outside.validate_sidecar_patch outside.validate_box_private_network spec
    validate_hugepages outside.parse_quantity spec.components.dataplane.hugepages
    validate_network_attachments outside.rules (attachments spec.components.dataplane.networks)
    validate_component_images spec.components
    validate_config_sources spec.components
    validate_disabled_numa spec.components.controlplane
