-- ===== src/Resolve/Enabled/Admitted.antt =====
-- What the admission of a palette gives the resolver.
use yanet_operator.Base.{
  ◌≡◌, refl, inl, inr, true, Option, none, some, List, [], ◌∷◌, ◌++◌, arith, String, ◌==◌, contains,
  nat_eq, string_eq, int_eq, option_eq, ok, fail_if, >>=-eq-ok, pos, ltb_ℤ, All, Distinct,
  Bool-cases,
}
use yanet_operator.Base.Dict.{keys}
use yanet_operator.Api.Errors.{Error}
use yanet_operator.Api.Types.{OperatorSpec, SidecarSpec, BoxType, BoxDataplane, YanetConfigSpec}
use yanet_operator.Api.Listeners.{validate_listeners}
use yanet_operator.Api.Overrides.{declares_sidecar}
use yanet_operator.Api.Overrides.Effective.{IsWired, SidecarsWired}
use yanet_operator.Api.Boxes.{validate_box_type_refs}
use yanet_operator.Api.Boxes.Wired.{boxes_refs-IsWired}
use yanet_operator.Api.Unique.{
  validate_patch_uniqueness, validate_operator_uniqueness, validate_sidecar_uniqueness,
  validate_box_type_uniqueness,
}
use yanet_operator.Api.Unique.Accepted.{
  operator_names, sidecar_names, validate_sidecar_uniqueness_iff, IsSidecar,
}
use yanet_operator.Api.Admission.{
  Outside, dry_run_patches, validate_yanet_config, max_update_window,
}
use yanet_operator.Resolve.{
  find_box_in, find_box_type, find_operator_in, find_operator, controlplane, dataplane,
  bird_adapter,
}
use yanet_operator.Resolve.Component.{bare_yanet}
use yanet_operator.Resolve.Sidecars.Slots.{
  identities_of, IsResolvable, resolve_dataplane_sidecars_iff,
}
use yanet_operator.Resolve.Enabled.{
  ComponentRef, ref_to, sidecar_refs, component_refs, operator_refs, operators_found,
  dataplane_refs, refs_of_box, enabled_components_for_box,
}

abbrev pub box_names : List BoxType → List String
box_names [] = []
box_names (b ∷ bs) = b.name ∷ box_names bs

-- The first box of a name that is there has the property that all have.
find_box_in-All :
    (P : BoxType → Type 0) (bs : List BoxType) (name : String)
    → All P bs
    → contains (box_names bs) name ≡ true
    → (b : BoxType) × (find_box_in bs name ≡ ok b) × P b
unfolding find_box_in
find_box_in-All P [] name h m = cc
find_box_in-All P (b ∷ bs) name h m = elim (Bool-cases (b.name == name)) [
  | inl here ↦ (b, ground (arith, here), h.0)
  | inr later ↦
      let (c, q, p) = find_box_in-All P bs name h.1 (ground (arith, later)) in
      (c, ground (arith, later, q), p)
]

find_operator_in-declared :
    (os : List OperatorSpec) (name : String)
    → contains (operator_names os) name ≡ true
    → (o : OperatorSpec) × (find_operator_in os name ≡ ok o)
unfolding find_operator_in
find_operator_in-declared [] name m = cc
find_operator_in-declared (o ∷ os) name m = elim (Bool-cases (o.name == name)) [
  | inl here ↦ (o, ground (arith, here))
  | inr later ↦
      let (p, q) = find_operator_in-declared os name (ground (arith, later)) in
      (p, ground (arith, later, q))
]

operators_found-declared :
    (config : YanetConfigSpec) (ns : List String)
    → All (λ n. contains (operator_names config.components.operators) n ≡ true) ns
    → operators_found config ns ≡ ok tt
unfolding operators_found find_operator
operators_found-declared config [] h = refl
operators_found-declared config (n ∷ ns) h =
    let (o, q) = find_operator_in-declared config.components.operators n h.0 in
    rw q (operators_found-declared config ns h.1)

declares_sidecar-names :
    (ss : List SidecarSpec) (n : String) → declares_sidecar ss n ≡ contains (sidecar_names ss) n
declares_sidecar-names [] n = refl
declares_sidecar-names (s ∷ ss) n = ground (arith, declares_sidecar-names ss n)

SidecarsWired-names :
    (ss : List SidecarSpec) (ns : List String)
    → All (λ n. declares_sidecar ss n ≡ true) ns
    → All (λ n. contains (sidecar_names ss) n ≡ true) ns
SidecarsWired-names ss [] h = tt
SidecarsWired-names ss (n ∷ ns) h =
    ground (arith, SidecarsWired-names ss ns h.1, declares_sidecar-names ss n)

module _ (outside : Outside) where
  listeners-IsSidecar :
      (ss : List SidecarSpec)
      → All (IsSidecar outside.rules) ss
      → All (λ s. validate_listeners s.name s.listeners ≡ ok tt) ss
  listeners-IsSidecar [] h = tt
  listeners-IsSidecar (s ∷ ss) h = (h.0.1, listeners-IsSidecar ss h.1)

  -- The parts of an admitted configuration that the resolver needs.
  admitted-parts :
      (config : YanetConfigSpec)
      → validate_yanet_config outside config ≡ ok tt
      → (validate_sidecar_uniqueness outside.rules config.components ≡ ok tt)
        × (validate_box_type_refs outside.validate_sidecar_patch
              outside.validate_box_private_network config
            ≡ ok tt)
  unfolding validate_yanet_config
  admitted-parts config h =
      let (_, _, a) =
        >>=-eq-ok
          (fail_if (ltb_ℤ config.update_window (pos 0))
            (Error.window_negative config.update_window))
          _ h in
      let (_, _, b) =
        >>=-eq-ok
          (fail_if (ltb_ℤ max_update_window config.update_window)
            (Error.window_too_long config.update_window))
          _ a in
      let (_, _, c) = >>=-eq-ok (validate_patch_uniqueness config.patches) _ b in
      let (_, _, d) = >>=-eq-ok (dry_run_patches outside config.patches) _ c in
      let (_, _, e) =
        >>=-eq-ok (validate_operator_uniqueness outside.rules config.components.operators) _ d in
      let (_, sidecars, f) =
        >>=-eq-ok (validate_sidecar_uniqueness outside.rules config.components) _ e in
      let (_, _, g) = >>=-eq-ok (validate_box_type_uniqueness outside.rules config.box_types) _ f in
      let (_, refs, _) =
        >>=-eq-ok
          (validate_box_type_refs outside.validate_sidecar_patch
            outside.validate_box_private_network config)
          _ g in
      (sidecars, refs)

  admitted-IsWired :
      (config : YanetConfigSpec)
      → validate_yanet_config outside config ≡ ok tt
      → All (IsWired config.components) config.box_types
  unfolding validate_box_type_refs
  admitted-IsWired config h =
      boxes_refs-IsWired outside.validate_sidecar_patch outside.validate_box_private_network config
        config.box_types (admitted-parts config h).1

  admitted-IsResolvable :
      (short_key : String → String) (config : YanetConfigSpec) (box : BoxDataplane)
      → validate_yanet_config outside config ≡ ok tt
      → Distinct (identities_of short_key config.components.dataplane.sidecars)
      → All
          (λ n. declares_sidecar config.components.dataplane.sidecars n ≡ true)
          (keys box.sidecars)
      → IsResolvable short_key config.components.dataplane.sidecars box
  admitted-IsResolvable short_key config box h d w =
      let ss = config.components.dataplane.sidecars in
      let (count, each, distinct, _) =
        (validate_sidecar_uniqueness_iff outside.rules config.components).0
          (admitted-parts config h).0 in
      (
        count,
        distinct,
        listeners-IsSidecar ss each,
        d,
        SidecarsWired-names ss (keys box.sidecars) w,
      )

  dataplane_refs-admitted :
      (short_key : String → String) (config : YanetConfigSpec) (name : String)
      (slot : Option BoxDataplane)
      → validate_yanet_config outside config ≡ ok tt
      → Distinct (identities_of short_key config.components.dataplane.sidecars)
      → SidecarsWired config.components.dataplane.sidecars slot
      → (refs : List ComponentRef) × (dataplane_refs short_key config name slot ≡ ok refs)
  dataplane_refs-admitted short_key config name none h d w = ([], refl)
  dataplane_refs-admitted short_key config name (some slot) h d w =
      let (rs, q) =
        (resolve_dataplane_sidecars_iff short_key config (bare_yanet name) slot).1
          (admitted-IsResolvable short_key config slot h d w) in
      (ref_to dataplane "" ∷ sidecar_refs slot.sidecars rs, rw q refl)

  refs_of_box-admitted :
      (short_key : String → String) (config : YanetConfigSpec) (name : String) (box : BoxType)
      → validate_yanet_config outside config ≡ ok tt
      → Distinct (identities_of short_key config.components.dataplane.sidecars)
      → IsWired config.components box
      → (refs : List ComponentRef) × (refs_of_box short_key config name box ≡ ok refs)
  unfolding refs_of_box
  refs_of_box-admitted short_key config name box h d w =
      let (refs, q) =
        dataplane_refs-admitted short_key config name box.components.dataplane h d w.1 in
      (
        component_refs controlplane box.components.controlplane
            ++ (refs
                ++ (component_refs bird_adapter box.components.bird_adapter
                    ++ operator_refs box.operators config.components.operators)),
        rw (operators_found-declared config (keys box.operators) w.0, q) refl,
      )

  -- The roles of a box of an admitted palette are enumerated without an error, if the short identities
  -- of its sidecars are distinct.
  pub enabled_components_for_box-of_admitted :
      (short_key : String → String) (config : YanetConfigSpec) (name : String)
      → validate_yanet_config outside config ≡ ok tt
      → Distinct (identities_of short_key config.components.dataplane.sidecars)
      → contains (box_names config.box_types) name ≡ true
      → (refs : List ComponentRef) × (enabled_components_for_box short_key config name ≡ ok refs)
  unfolding enabled_components_for_box find_box_type
  enabled_components_for_box-of_admitted short_key config name h d m =
      let (box, q, w) =
        find_box_in-All (IsWired config.components) config.box_types name
          (admitted-IsWired config h) m in
      let (refs, r) = refs_of_box-admitted short_key config name box h d w in (refs, rw q r)
