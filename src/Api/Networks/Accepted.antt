-- ===== src/Api/Networks/Accepted.antt =====
-- Which lists of network attachments are accepted.
use yanet_operator.Base.{
  ◌≡◌, refl, ◌↔◌, false, List, [], ◌∷◌, arith, String, nat_eq, string_eq, int_eq, option_eq, ok,
  All, Distinct, DistinctFrom, DistinctFrom-nil,
}
use yanet_operator.Base.{Pairs}
use yanet_operator.Base.Dict.{Dict, lookup, insert, lookup-insert}
use yanet_operator.Api.Names.{NameRules}
use yanet_operator.Api.Types.{NetworkAttachment}
use yanet_operator.Api.Networks.{
  names_refused, resource_name_refused, identity, conflicts, attachments_loop,
  validate_network_attachments,
}

module _ (rules : NameRules) where
  abbrev pub IsWellNamed : NetworkAttachment → Type 0
  IsWellNamed n = (names_refused rules n ≡ false) × (resource_name_refused rules n ≡ false)

  -- Two attachments of one NAD name the same resource.
  abbrev pub Agree : NetworkAttachment → NetworkAttachment → Type 0
  Agree m n = identity rules m ≡ identity rules n → m.resource_name ≡ n.resource_name

  abbrev Fits : Dict String String → NetworkAttachment → Type 0
  Fits nads n = conflicts rules (lookup (identity rules n) nads) n.resource_name ≡ false

  abbrev pub interfaces_of : List NetworkAttachment → List String
  interfaces_of [] = []
  interfaces_of (n ∷ ns) = n.interface ∷ interfaces_of ns

  Fits-insert :
      (nads : Dict String String) (m : NetworkAttachment) (ns : List NetworkAttachment)
      → Fits nads m
      → All (Fits (insert (identity rules m) m.resource_name nads)) ns
        ↔ (All (Agree m) ns × All (Fits nads) ns)
  Fits-insert nads m [] f = ground arith
  Fits-insert nads m (n ∷ ns) f = ground (
    arith,
    Fits-insert nads m ns f,
    lookup-insert (identity rules n) (identity rules m) m.resource_name nads,
  )

  attachments_loop_iff :
      (seen : List String) (nads : Dict String String) (ns : List NetworkAttachment)
      → (attachments_loop rules seen nads ns ≡ ok tt) ↔ (
          All IsWellNamed ns
          × DistinctFrom seen (interfaces_of ns)
          × All (Fits nads) ns
          × Pairs Agree ns)
  unfolding attachments_loop
  attachments_loop_iff seen nads [] = ground arith
  attachments_loop_iff seen nads (n ∷ ns) = ground (
    arith,
    attachments_loop_iff (n.interface ∷ seen) (insert (identity rules n) n.resource_name nads) ns,
    Fits-insert nads n ns,
  )

  Fits-nil : (ns : List NetworkAttachment) → All (Fits []) ns
  Fits-nil [] = tt
  Fits-nil (n ∷ ns) = (refl, Fits-nil ns)

  -- A list of attachments is accepted exactly when each has well-formed names, no two have the same
  -- interface, and any two of the same NAD name the same resource.
  pub validate_network_attachments_iff :
      (ns : List NetworkAttachment)
      → (validate_network_attachments rules ns ≡ ok tt)
        ↔ (All IsWellNamed ns × Distinct (interfaces_of ns) × Pairs Agree ns)
  unfolding validate_network_attachments
  validate_network_attachments_iff ns =
      ground
        (arith, attachments_loop_iff [] [] ns, DistinctFrom-nil (interfaces_of ns), Fits-nil ns)
