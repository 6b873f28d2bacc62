-- ===== src/Resolve/Sidecars/Slots.antt =====
-- What the resolved sidecars are, and when there are any.
use yanet_operator.Base.{
  ◌≡◌, refl, ◌↔◌, inl, inr, ℕ, suc, ◌≤◌, true, false, Option, none, List, [], ◌∷◌, arith, String,
  contains, nat_eq, string_eq, int_eq, option_eq, Result, ok, Result-cases, pos, All, Distinct,
  DistinctFrom, DistinctFrom-nil, length,
}
use yanet_operator.Base.Dict.{Dict, keys, has, lookup, insert, lookup-insert, has-lookup}
use yanet_operator.Api.Errors.{Error}
use yanet_operator.Api.Unique.Accepted.{sidecar_names}
use yanet_operator.Api.Listeners.{max_dataplane_sidecars, validate_listeners}
use yanet_operator.Api.Types.{
  ImagesSpec, SidecarSpec, BoxDataplane, BoxDataplaneSidecar, YanetConfigSpec,
  YanetDataplaneOverride, YanetSpec,
}
use yanet_operator.Resolve.{ResolvedSidecar, sidecar, resolve_listeners, dataplane_override}
use yanet_operator.Resolve.Sidecars.{
  resolve_sidecar, palette_loop, declares, wired_loop, resolve_dataplane_sidecars,
}

abbrev pub identities_of : (String → String) → List SidecarSpec → List String
identities_of short_key [] = []
identities_of short_key (s ∷ ss) = short_key s.name ∷ identities_of short_key ss

-- The i-th sidecar of the result stands for the i-th entry of the palette, whatever is selected or
-- enabled, and only a wired one is enabled.
abbrev pub IsSlotted :
    Dict String BoxDataplaneSidecar → ℕ → List SidecarSpec → List ResolvedSidecar → Type 0
IsSlotted slots index [] rs = rs ≡ []
IsSlotted slots index (s ∷ ss) [] = ⊥
IsSlotted slots index (s ∷ ss) (r ∷ rs) =
    (r.kind ≡ sidecar)
    × (r.name ≡ s.name)
    × (r.port_index ≡ pos index)
    × (r.config ≡ s.config)
    × (r.listener_names ≡ resolve_listeners s.listeners)
    × (r.enabled ≡ true → has r.name slots ≡ true)
    × IsSlotted slots (suc index) ss rs

module _ (images : ImagesSpec) (override : Option YanetDataplaneOverride)
    (slots : Dict String BoxDataplaneSidecar) where
  enabled_is_wired :
      (index : ℕ) (s : SidecarSpec)
      → (resolve_sidecar images override slots index s).enabled ≡ true
      → has s.name slots ≡ true
  unfolding resolve_sidecar
  enabled_is_wired index s e = ground (arith, has-lookup s.name slots)

  module _ (short_key : String → String) where
    abbrev Accepts : SidecarSpec → Type 0
    Accepts s = validate_listeners s.name s.listeners ≡ ok tt

    abbrev Free : Dict String String → SidecarSpec → Type 0
    Free ids s = lookup (short_key s.name) ids ≡ none

    Free-insert :
        (ids : Dict String String) (k v : String) (ss : List SidecarSpec)
        → All (Free (insert k v ids)) ss
          ↔ ((contains (identities_of short_key ss) k ≡ false) × All (Free ids) ss)
    Free-insert ids k v [] = ground arith
    Free-insert ids k v (s ∷ ss) =
        ground (arith, Free-insert ids k v ss, lookup-insert (short_key s.name) k v ids)

    numbered : ℕ → List SidecarSpec → List ResolvedSidecar
    numbered index [] = []
    numbered index (s ∷ ss) =
        resolve_sidecar images override slots index s ∷ numbered (suc index) ss

    abbrev IsFine : List String → Dict String String → List SidecarSpec → Type 0
    IsFine declared ids ss =
        DistinctFrom declared (sidecar_names ss)
        × All Accepts ss
        × Distinct (identities_of short_key ss)
        × All (Free ids) ss

    palette_loop_sound :
        (index : ℕ) (declared : List String) (ids : Dict String String) (ss : List SidecarSpec)
        (rs : List ResolvedSidecar)
        → palette_loop images override slots short_key index declared ids ss ≡ ok rs
        → (rs ≡ numbered index ss) × IsFine declared ids ss
    unfolding palette_loop numbered
    palette_loop_sound index declared ids [] rs e = ground arith
    palette_loop_sound index declared ids (s ∷ ss) rs e =
        let ids' = insert (short_key s.name) s.name ids in
        elim (Result-cases
          (palette_loop images override slots short_key (suc index) (s.name ∷ declared) ids' ss)) [
            | inl (rest, q) ↦ ground (
              arith,
              palette_loop_sound (suc index) (s.name ∷ declared) ids' ss rest q,
              Free-insert ids (short_key s.name) s.name ss,
            )
            | inr (x, q) ↦ ground arith
          ]

    palette_loop_complete :
        (index : ℕ) (declared : List String) (ids : Dict String String) (ss : List SidecarSpec)
        → IsFine declared ids ss
        → palette_loop images override slots short_key index declared ids ss
          ≡ ok (numbered index ss)
    unfolding palette_loop numbered
    palette_loop_complete index declared ids [] h = refl
    palette_loop_complete index declared ids (s ∷ ss) h = ground (
      arith,
      palette_loop_complete (suc index) (s.name ∷ declared) (insert (short_key s.name) s.name ids)
          ss,
      Free-insert ids (short_key s.name) s.name ss,
    )

  numbered-IsSlotted :
      (short_key : String → String) (index : ℕ) (ss : List SidecarSpec)
      → IsSlotted slots index ss (numbered short_key index ss)
  unfolding numbered resolve_sidecar
  numbered-IsSlotted short_key index [] = refl
  numbered-IsSlotted short_key index (s ∷ ss) = (
    refl,
    refl,
    refl,
    refl,
    refl,
    enabled_is_wired index s,
    numbered-IsSlotted short_key (suc index) ss,
  )

declares-sidecar_names :
    (palette : List SidecarSpec) (n : String)
    → declares palette n ≡ contains (sidecar_names palette) n
declares-sidecar_names [] n = refl
declares-sidecar_names (s ∷ ss) n = ground (arith, declares-sidecar_names ss n)

wired_loop_iff :
    (palette : List SidecarSpec) (ns : List String)
    → (wired_loop palette ns ≡ ok tt) ↔ All (λ n. contains (sidecar_names palette) n ≡ true) ns
unfolding wired_loop
wired_loop_iff palette [] = ground arith
wired_loop_iff palette (n ∷ ns) =
    ground (arith, wired_loop_iff palette ns, declares-sidecar_names palette n)

-- The conditions under which a palette can be resolved for a box.
abbrev pub IsResolvable : (String → String) → List SidecarSpec → BoxDataplane → Type 0
IsResolvable short_key palette box =
    (length palette ≤ max_dataplane_sidecars)
    × Distinct (sidecar_names palette)
    × All (λ s. validate_listeners s.name s.listeners ≡ ok tt) palette
    × Distinct (identities_of short_key palette)
    × All (λ n. contains (sidecar_names palette) n ≡ true) (keys box.sidecars)

module _ (short_key : String → String) (config : YanetConfigSpec) (yanet : YanetSpec)
    (box : BoxDataplane) where
  abbrev palette : List SidecarSpec
  palette = config.components.dataplane.sidecars

  abbrev loop : Result Error (List ResolvedSidecar)
  loop =
      palette_loop config.images (dataplane_override yanet) box.sidecars short_key 0 [] [] palette

  All-Free-nil :
      (ss : List SidecarSpec) → All (λ s. lookup {V = String} (short_key s.name) [] ≡ none) ss
  All-Free-nil [] = tt
  All-Free-nil (s ∷ ss) = (refl, All-Free-nil ss)

  sound :
      (rs : List ResolvedSidecar)
      → resolve_dataplane_sidecars short_key config yanet box ≡ ok rs
      → IsSlotted box.sidecars 0 palette rs × IsResolvable short_key palette box
  unfolding resolve_dataplane_sidecars
  sound rs e = elim (Result-cases loop) [
    | inl (found, q) ↦ ground (
      arith,
      palette_loop_sound config.images (dataplane_override yanet) box.sidecars short_key 0 [] []
          palette found q,
      numbered-IsSlotted config.images (dataplane_override yanet) box.sidecars short_key 0 palette,
      wired_loop_iff palette (keys box.sidecars),
      DistinctFrom-nil (sidecar_names palette),
    )
    | inr (x, q) ↦ ground arith
  ]

  -- The sidecars of the palette resolve exactly when the port range holds them, no two share a name
  -- or a short identity, their listeners are accepted and the box wires declared ones only. The
  -- installation's overrides do not matter.
  pub resolve_dataplane_sidecars_iff :
      ((rs : List ResolvedSidecar) × (resolve_dataplane_sidecars short_key config yanet box
          ≡ ok rs))
      ↔ IsResolvable short_key palette box
  unfolding resolve_dataplane_sidecars
  resolve_dataplane_sidecars_iff = (
    λ (rs, e). (sound rs e).1,
    λ h. (
      numbered config.images (dataplane_override yanet) box.sidecars short_key 0 palette,
      ground (
        arith,
        palette_loop_complete config.images (dataplane_override yanet) box.sidecars short_key 0 []
            [] palette,
        All-Free-nil palette,
        wired_loop_iff palette (keys box.sidecars),
        DistinctFrom-nil (sidecar_names palette),
      ),
    ),
  )

  -- If they resolve, the result has one sidecar for each palette entry, in order: the i-th has the
  -- entry's name, configuration and listeners and the port slot i, whether or not it is wired or
  -- enabled, and only a wired one is enabled.
  pub resolve_dataplane_sidecars-IsSlotted :
      (rs : List ResolvedSidecar)
      → resolve_dataplane_sidecars short_key config yanet box ≡ ok rs
      → IsSlotted box.sidecars 0 palette rs
  resolve_dataplane_sidecars-IsSlotted rs e = (sound rs e).0
