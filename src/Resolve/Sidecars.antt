-- ===== src/Resolve/Sidecars.antt =====
-- resolveDataplaneSidecars (internal/helpers/resolve.go).
pub mod Slots
use yanet_operator.Base.{
  ℕ, suc, Bool, true, false, not, ◌||◌, Option, none, some, List, [], ◌∷◌, String, ◌==◌, contains,
  nat_eq, string_eq, int_eq, option_eq, ltb, Result, ok, err, ◌>>=◌, ◌>>◌, fail_if, pos, length,
}
use yanet_operator.Base.Dict.{Dict, keys, lookup, insert}
use yanet_operator.Api.Errors.{Check, Error}
use yanet_operator.Api.Listeners.{max_dataplane_sidecars, validate_listeners}
use yanet_operator.Api.Types.{
  ImagesSpec, SidecarSpec, BoxDataplane, BoxDataplaneSidecar, YanetConfigSpec,
  YanetDataplaneOverride, YanetContainerOverride, YanetSpec,
}
use yanet_operator.Resolve.{
  ResolvedSidecar, sidecar, bool_value, merge_image, resolve_listeners, dataplane_override,
}

abbrev slot_enabled : Option BoxDataplaneSidecar → Bool
slot_enabled none = false
slot_enabled (some slot) = bool_value slot.enabled true

abbrev slot_patches : Option BoxDataplaneSidecar → List String
slot_patches none = []
slot_patches (some slot) = slot.patches

-- The installation's override of a wired sidecar.
abbrev sidecar_override_of :
    Option BoxDataplaneSidecar
    → Option YanetDataplaneOverride
    → String
    → Option YanetContainerOverride
sidecar_override_of none override name = none
sidecar_override_of (some slot) none name = none
sidecar_override_of (some slot) (some o) name = lookup name o.sidecars

abbrev enabled_or : Option YanetContainerOverride → Bool → Bool
enabled_or none def = def
enabled_or (some o) def = bool_value o.enabled def

module _ (images : ImagesSpec) (override : Option YanetDataplaneOverride)
    (slots : Dict String BoxDataplaneSidecar) where
  -- The component made of one palette entry, at its index.
  unfoldable pub resolve_sidecar : ℕ → SidecarSpec → ResolvedSidecar
  unfolding merge_image resolve_listeners
  resolve_sidecar index s =
      let slot = lookup s.name slots in
      let o = sidecar_override_of slot override s.name in
      record {
        kind = sidecar;
        name = s.name;
        enabled = enabled_or o (slot_enabled slot);
        image = merge_image images s.image o;
        config = s.config;
        hugepages = none;
        numa = pos 0;
        disabled_numa = [];
        networks = none;
        network_resources = [];
        containers = [];
        sidecars = [];
        listener_names = resolve_listeners s.listeners;
        port_index = pos index;
        patches = slot_patches slot;
        overrides = none;
        sidecar_override = o;
      }

  module _ (short_key : String → String) where
    abbrev collision : Option String → String → Check
    collision none name = ok tt
    collision (some previous) name = err (Error.identity_collision previous name)

    -- The loop over the palette, with the names declared and the identities taken.
    unfoldable pub palette_loop :
        ℕ
        → List String
        → Dict String String
        → List SidecarSpec
        → Result Error (List ResolvedSidecar)
    unfolding resolve_sidecar validate_listeners insert
    palette_loop index declared identities [] = ok []
    palette_loop index declared identities (s ∷ ss) =
        fail_if (contains declared s.name) (Error.name_duplicated s.name)
        >> (collision (lookup (short_key s.name) identities) s.name
            >> (validate_listeners s.name s.listeners
                >> (palette_loop (suc index) (s.name ∷ declared)
                      (insert (short_key s.name) s.name identities) ss
                    >>= λ rest. ok (resolve_sidecar index s ∷ rest))))

abbrev pub declares : List SidecarSpec → String → Bool
declares [] name = false
declares (s ∷ ss) name = name == s.name || declares ss name

-- The loop over the names that the box wires.
unfoldable pub wired_loop : List SidecarSpec → List String → Check
wired_loop palette [] = ok tt
wired_loop palette (n ∷ ns) =
    fail_if (not (declares palette n)) (Error.sidecar_undeclared n) >> wired_loop palette ns

unfoldable pub resolve_dataplane_sidecars :
    (String → String)
    → YanetConfigSpec
    → YanetSpec
    → BoxDataplane
    → Result Error (List ResolvedSidecar)
unfolding palette_loop wired_loop
resolve_dataplane_sidecars short_key config yanet box =
    let palette = config.components.dataplane.sidecars in
    fail_if (ltb max_dataplane_sidecars (length palette)) Error.too_many_sidecars
    >> (palette_loop config.images (dataplane_override yanet) box.sidecars short_key 0 [] [] palette
        >>= λ resolved. wired_loop palette (keys box.sidecars) >> ok resolved)
