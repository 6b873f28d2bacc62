-- ===== src/Resolve/Enabled/Resolved.antt =====
-- An enumerated role has a rendering input.
use yanet_operator.Base.{
  ◌≡◌, refl, sym, ◌≢◌, inl, inr, true, Option, none, some, List, [], ◌∷◌, arith, String, nat_eq,
  string_eq, int_eq, option_eq, ok, ◌>>=◌, >>=-eq-ok, Result-cases, All,
}
use yanet_operator.Base.{All-append, ok_inj, subst}
use yanet_operator.Base.Dict.{keys, has, has-lookup}
use yanet_operator.Api.Names.{NameRules}
use yanet_operator.Api.Types.{OperatorSpec, BoxType, BoxDataplane, YanetConfigSpec, YanetSpec}
use yanet_operator.Resolve.{controlplane, dataplane, bird_adapter, ResolvedSidecar, find_box_type}
use yanet_operator.Resolve.Sidecars.{resolve_dataplane_sidecars}
use yanet_operator.Resolve.Operators.{resolve_operator}
use yanet_operator.Resolve.Component.{
  bare_yanet, resolve_in_box, resolve_box_component, find_sidecar, resolve_dataplane_networks,
}
use yanet_operator.Resolve.Enabled.{
  ComponentRef, ref_to, component_refs, sidecar_refs, operator_refs, refs_of_box,
  enabled_components_for_box, dataplane_refs, operators_found,
}

find_sidecar_some : (ss : List ResolvedSidecar) (name : String) → find_sidecar ss name ≢ ok none
unfolding find_sidecar
find_sidecar_some [] name h = cc
find_sidecar_some (s ∷ ss) name h = ground (arith, find_sidecar_some ss name)

module _ (rules : NameRules) (short_key : String → String) (config : YanetConfigSpec)
    (yanet : YanetSpec) (box : BoxType) where
  -- The reference does not resolve to nothing.
  abbrev IsPresent : ComponentRef → Type 0
  IsPresent r = resolve_in_box rules short_key config yanet box r.kind r.operator_name ≢ ok none

  controlplane-IsPresent : All IsPresent (component_refs controlplane box.components.controlplane)
  unfolding resolve_in_box
  controlplane-IsPresent = ground arith

  bird_adapter-IsPresent : All IsPresent (component_refs bird_adapter box.components.bird_adapter)
  unfolding resolve_in_box
  bird_adapter-IsPresent = ground arith

  operator_present :
      (name : String)
      → has name box.operators ≡ true
      → resolve_operator config yanet box name ≢ ok none
  unfolding resolve_operator
  operator_present name h = ground (arith, has-lookup name box.operators)

  operators-IsPresent : (os : List OperatorSpec) → All IsPresent (operator_refs box.operators os)
  unfolding operator_refs resolve_in_box
  operators-IsPresent [] = tt
  operators-IsPresent (o ∷ os) = ground (arith, operators-IsPresent os, operator_present o.name)

  sidecars-IsPresent :
      (slot : BoxDataplane)
      → box.components.dataplane ≡ some slot
      → (ss : List ResolvedSidecar) → All IsPresent (sidecar_refs slot.sidecars ss)
  unfolding sidecar_refs resolve_in_box
  sidecars-IsPresent slot e [] = tt
  sidecars-IsPresent slot e (s ∷ ss) =
      elim (Result-cases (resolve_dataplane_sidecars short_key config yanet slot)) [
        | inl (rs, q) ↦ ground (arith, sidecars-IsPresent slot e ss, find_sidecar_some rs s.name, q)
        | inr (_, q) ↦ ground (arith, sidecars-IsPresent slot e ss, q)
      ]

  dataplane-IsPresent :
      (slot : BoxDataplane) → box.components.dataplane ≡ some slot → IsPresent (ref_to dataplane "")
  unfolding resolve_in_box
  dataplane-IsPresent slot e =
      elim (Result-cases (resolve_dataplane_sidecars short_key config yanet slot)) [
        | inl (rs, q) ↦
            elim (Result-cases
              (resolve_dataplane_networks rules config.components.dataplane.networks yanet)) [
                | inl (ns, q') ↦ ground (arith, q, q')
                | inr (_, q') ↦ ground (arith, q, q')
              ]
        | inr (_, q) ↦ ground (arith, q)
      ]

  dataplane_refs-IsPresent :
      (slot : Option BoxDataplane)
      → box.components.dataplane ≡ slot
      → (refs : List ComponentRef) → dataplane_refs short_key config yanet.box_type slot ≡ ok refs
      → All IsPresent refs
  dataplane_refs-IsPresent none e refs h = subst (All IsPresent) (ok_inj h) tt
  dataplane_refs-IsPresent (some slot) e refs h =
      let (sidecars, _, r) =
        >>=-eq-ok (resolve_dataplane_sidecars short_key config (bare_yanet yanet.box_type) slot) _
          h in
      subst (All IsPresent) (ok_inj r)
        (dataplane-IsPresent slot e, sidecars-IsPresent slot e sidecars)

  refs_of_box-IsPresent :
      (refs : List ComponentRef)
      → refs_of_box short_key config yanet.box_type box ≡ ok refs
      → All IsPresent refs
  unfolding refs_of_box
  refs_of_box-IsPresent refs h =
      let (_, _, h') = >>=-eq-ok (operators_found config (keys box.operators)) _ h in
      let (found, q, r) =
        >>=-eq-ok (dataplane_refs short_key config yanet.box_type box.components.dataplane) _ h' in
      subst (All IsPresent) (ok_inj r) (
        All-append IsPresent (component_refs controlplane box.components.controlplane) _
          controlplane-IsPresent
          (All-append IsPresent found _
            (dataplane_refs-IsPresent box.components.dataplane refl found q)
            (All-append IsPresent (component_refs bird_adapter box.components.bird_adapter) _
              bird_adapter-IsPresent (operators-IsPresent config.components.operators))))

-- Every role that `enabled_components_for_box` lists for the installation's box has a rendering
-- input or an error in `resolve_box_component`: the case "not in the box" does not arise for it.
pub enabled-IsPresent :
    (rules : NameRules) (short_key : String → String) (config : YanetConfigSpec) (yanet : YanetSpec)
    (refs : List ComponentRef)
    → enabled_components_for_box short_key config yanet.box_type ≡ ok refs
    → All
        (λ r. resolve_box_component rules short_key config yanet r.kind r.operator_name ≢ ok none)
        refs
unfolding enabled_components_for_box resolve_box_component
enabled-IsPresent rules short_key config yanet refs h =
    let (box, q, r) = >>=-eq-ok (find_box_type config yanet.box_type) _ h in
    subst
      (λ m.
        All
          (λ c.
            (m >>= λ b. resolve_in_box rules short_key config yanet b c.kind c.operator_name)
            ≢ ok none)
          refs)
      (sym q) (refs_of_box-IsPresent rules short_key config yanet box refs r)
