-- ===== src/Api/Errors.antt =====
-- The errors of the admission checks and of the resolver, with the names that a message quotes.
-- Some messages share a constructor.
use yanet_operator.Base.{String, ℕ, ℤ, Result}

pub data Error : Type 0 where
  listener_refused : String → String → Error
  numa_out_of_range : ℤ → Error
  numa_index_negative : ℤ → Error
  every_numa_disabled : Error
  name_empty : ℕ → Error
  name_invalid : String → Error
  name_reserved : String → Error
  name_duplicated : String → Error
  container_count : String → ℕ → Error
  no_box_types : Error
  too_many_sidecars : Error
  slot_required : String → Error
  patch_undefined : String → Error
  operator_undeclared : String → Error
  operator_not_wired : String → Error
  sidecar_undeclared : String → Error
  sidecar_not_wired : String → Error
  container_undeclared : String → String → Error
  container_key_refused : String → Error
  container_enabled_refused : String → Error
  bird_adapter_undefined : Error
  bird_adapter_not_wired : Error
  image_name_required : Error
  config_source_refused : Error
  window_negative : ℤ → Error
  window_too_long : ℤ → Error
  patch_refused : String → Error
  private_network_required : String → Error
  hugepages_refused : Error
  network_refused : String → Error
  box_type_not_found : String → Error
  operator_without_containers : String → Error
  unknown_kind : String → Error
  identity_collision : String → String → Error

abbrev pub Check : Type 0
Check = Result Error (Unit {0})
