-- ===== src/Controller/SharedServices/Scopes.antt =====
-- blockedSharedServicePlacementScopes (internal/controller/shared_services.go). What is listed in a
-- namespace, which the code reads once for each, is a function of the namespace.
use yanet_operator.Base.{
  Bool, not, ◌&&◌, Option, none, some, List, [], ◌∷◌, ◌++◌, String, ◌<>◌, ◌==◌, contains,
  if◌then◌else◌, nat_eq, string_eq, int_eq, option_eq, Result, ok, err, is_empty,
}
use yanet_operator.Base.{pair_eq}
use yanet_operator.Base.Dict.{keys}
use yanet_operator.Base.Text.{text_lt, sort_strings}
use yanet_operator.Base.Sort.{sort_by}
use yanet_operator.Api.Errors.{Error}
use yanet_operator.Api.Types.{YanetConfigSpec, BoxType, BoxDataplane}
use yanet_operator.Resolve.{find_box_type}
use yanet_operator.Manifests.Workload.{label_box_type}
use yanet_operator.Controller.Placement.{
  Listings, PlacementProducer, list_placement_producers, incompatible_operator_placement,
  label_value,
}
use yanet_operator.Controller.SharedServices.{
  SharedServiceScope, SharedError, producers_not_listed, migration_needs_drain,
}

abbrev pub scope_precedes : SharedServiceScope → SharedServiceScope → Bool
scope_precedes a b = text_lt (a.0 <> ("/" <> a.1)) (b.0 <> ("/" <> b.1))

-- The names of the sidecars that a box wires.
abbrev pub wired_sidecars : Option BoxDataplane → List String
wired_sidecars none = []
wired_sidecars (some slot) = keys slot.sidecars

-- The scopes with old producers, and the errors.
abbrev pub Blocked : Type 0
Blocked = List SharedServiceScope × List SharedError

module _ (short_key : String → String) where
  abbrev pub first_incompatible : PlacementProducer → List String → List String → Option String
  first_incompatible p sidecars [] = none
  first_incompatible p sidecars (n ∷ ns) =
      if incompatible_operator_placement short_key p.template.labels n (contains sidecars n)
      then some n
      else first_incompatible p sidecars ns

  -- The loop over the producers, which ends with the first incompatible one.
  unfoldable pub old_producer :
      String
      → List String
      → List String
      → List PlacementProducer
      → Option (String × PlacementProducer)
  unfolding incompatible_operator_placement
  old_producer box_type sidecars names [] = none
  old_producer box_type sidecars names (p ∷ ps) =
      if not (label_value label_box_type p.template.labels == box_type)
      then old_producer box_type sidecars names ps
      else elim (first_incompatible p sidecars names) [
        | some n ↦ some (n, p)
        | none ↦ old_producer box_type sidecars names ps
      ]

  abbrev pub block_found :
      SharedServiceScope → Option (String × PlacementProducer) → Blocked → Blocked
  block_found scope none b = b
  block_found scope (some found) b =
      (scope ∷ b.0, b.1 ++ (migration_needs_drain scope found.0 found.1 ∷ []))

  abbrev pub block_listed :
      SharedServiceScope → BoxType → Result String (List PlacementProducer) → Blocked → Blocked
  block_listed scope box (err e) b = (scope ∷ b.0, b.1 ++ (producers_not_listed e ∷ []))
  block_listed scope box (ok producers) b =
      let sidecars = wired_sidecars box.components.dataplane in
      block_found scope
        (old_producer scope.1 sidecars (sort_strings (keys box.operators ++ sidecars)) producers) b

  module _ (listings : String → Listings) where
    abbrev pub block_scope : SharedServiceScope → Result Error BoxType → Blocked → Blocked
    block_scope scope (err e) b = b
    block_scope scope (ok box) b =
        if is_empty box.operators && is_empty (wired_sidecars box.components.dataplane)
        then b
        else block_listed scope box (list_placement_producers (listings scope.0)) b

    unfoldable pub scopes_loop : YanetConfigSpec → List SharedServiceScope → Blocked → Blocked
    unfolding old_producer find_box_type list_placement_producers sort_strings
    scopes_loop config [] b = b
    scopes_loop config (s ∷ ss) b =
        scopes_loop config ss (block_scope s (find_box_type config s.1) b)

    -- A scope that stands in the list more than once is a member of the set once.
    abbrev pub distinct_scopes : List SharedServiceScope → List SharedServiceScope
    distinct_scopes [] = []
    distinct_scopes (s ∷ ss) =
        let rest = distinct_scopes ss in if contains ss s then rest else s ∷ rest

    unfoldable pub blocked_shared_service_placement_scopes :
        YanetConfigSpec → List SharedServiceScope → Blocked
    unfolding scopes_loop sort_by
    blocked_shared_service_placement_scopes config scopes =
        scopes_loop config (sort_by scope_precedes (distinct_scopes scopes)) ([], [])
