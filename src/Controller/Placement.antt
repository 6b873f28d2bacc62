-- ===== src/Controller/Placement.antt =====
-- validateOperatorPlacementTransition, listPlacementProducers and incompatibleOperatorPlacement
-- (internal/controller/operator_placement.go), with podMayUseNode (yanet_reconciler.go). The
-- matching of a label selector is a parameter, `matches`, and the results of the List calls are
-- arguments.
pub mod Safe
use yanet_operator.Base.{
  ℕ, Bool, true, false, not, ◌||◌, ◌&&◌, Option, none, some, List, [], ◌∷◌, ◌++◌, String, ◌<>◌,
  ◌==◌, if◌then◌else◌, nat_eq, string_eq, int_eq, option_eq, ltb, Result, ok, err, ◌>>=◌, ◌>>◌,
  fail_if, ℤ, pos, is_empty,
}
use yanet_operator.Base.Dict.{Dict, lookup}
use yanet_operator.Base.Text.{text_lt}
use yanet_operator.Base.Sort.{sort_by}
use yanet_operator.Kube.{Node}
use yanet_operator.Resolve.{ResolvedComponent, ResolvedSidecar, ComponentKind, operator}
use yanet_operator.Manifests.Workload.{label_yanet, label_component, label_node}
use yanet_operator.Manifests.Names.{operator_membership_label}

-- The labels and the placement of a pod template.
pub record Template : Type 0 where
  pub labels : Dict String String
  pub node_name : String
  pub node_selector : Dict String String

-- A Deployment or a ReplicaSet, and a pod.
pub record LiveSet : Type 0 where
  pub name : String
  pub generation : ℕ
  pub replicas : Option ℤ
  pub observed_generation : ℕ
  pub status_replicas : ℤ
  pub template : Template

pub record LivePod : Type 0 where
  pub name : String
  pub phase : String
  pub template : Template

pub record PlacementProducer : Type 0 where
  pub kind : String
  pub name : String
  pub template : Template

pub record Listings : Type 0 where
  pub deployments : Result String (List LiveSet)
  pub replica_sets : Result String (List LiveSet)
  pub pods : Result String (List LivePod)

pub record RenderedWorkload : Type 0 where
  pub replicas : Option ℤ
  pub component : ResolvedComponent

-- A role that the nodes are to run.
pub record Role : Type 0 where
  pub name : String
  pub colocated : Bool
  pub node : Node

pub data PlacementError : Type 0 where
  list_failed : String → PlacementError
  unsafe_migration : Role → PlacementProducer → PlacementError

abbrev pub is_zero : Option ℤ → Bool
is_zero replicas = replicas == some (pos 0)

abbrev pub still_produces : LiveSet → Bool
still_produces s =
    not (is_zero s.replicas)
    || not (s.status_replicas == pos 0)
    || ltb s.observed_generation s.generation

abbrev pub is_running : LivePod → Bool
is_running p = not (p.phase == "Succeeded") && not (p.phase == "Failed")

abbrev pub producers_of_sets : String → List LiveSet → List PlacementProducer
producers_of_sets kind [] = []
producers_of_sets kind (s ∷ ss) =
    let rest = producers_of_sets kind ss in
    if still_produces s
    then record { kind = kind; name = s.name; template = s.template } ∷ rest
    else rest

abbrev pub producers_of_pods : List LivePod → List PlacementProducer
producers_of_pods [] = []
producers_of_pods (p ∷ ps) =
    let rest = producers_of_pods ps in
    if is_running p
    then record { kind = "Pod"; name = p.name; template = p.template } ∷ rest
    else rest

abbrev pub producer_precedes : PlacementProducer → PlacementProducer → Bool
producer_precedes p q = text_lt (p.kind <> ("/" <> p.name)) (q.kind <> ("/" <> q.name))

abbrev pub all_producers : List LiveSet → List LiveSet → List LivePod → List PlacementProducer
all_producers deployments sets pods =
    producers_of_sets "Deployment" deployments
    ++ (producers_of_sets "ReplicaSet" sets ++ producers_of_pods pods)

unfoldable pub list_placement_producers : Listings → Result String (List PlacementProducer)
unfolding sort_by
list_placement_producers listings = listings.deployments >>= λ deployments.
    listings.replica_sets >>= λ sets.
    listings.pods >>= λ pods. ok (sort_by producer_precedes (all_producers deployments sets pods))

-- `labels[key]`, which is "" for a missing key.
abbrev pub label_value : String → Dict String String → String
label_value key labels = elim (lookup key labels) [ none ↦ "" | some v ↦ v ]

abbrev pub is_operator : ComponentKind → Bool
is_operator operator = true
is_operator k = false

abbrev pub sidecar_roles : Node → List ResolvedSidecar → List Role
sidecar_roles node [] = []
sidecar_roles node (s ∷ ss) =
    let rest = sidecar_roles node ss in
    if s.enabled then record { name = s.name; colocated = true; node = node } ∷ rest else rest

abbrev pub own_role : Node → ResolvedComponent → List Role
own_role node c =
    if is_operator c.kind then record { name = c.name; colocated = false; node = node } ∷ [] else []

unfoldable pub workload_roles : Node → List RenderedWorkload → List Role
workload_roles node [] = []
workload_roles node (w ∷ ws) =
    let rest = workload_roles node ws in
    if is_zero w.replicas
    then rest
    else own_role node w.component ++ (sidecar_roles node w.component.sidecars ++ rest)

abbrev rendered_for : Option (List RenderedWorkload) → List RenderedWorkload
rendered_for none = []
rendered_for (some ws) = ws

unfoldable pub desired_roles : List Node → Dict String (List RenderedWorkload) → List Role
unfolding workload_roles
desired_roles [] workloads = []
desired_roles (n ∷ ns) workloads =
    workload_roles n (rendered_for (lookup n.name workloads)) ++ desired_roles ns workloads

abbrev pub role_precedes : Role → Role → Bool
role_precedes r s = text_lt (r.node.name <> ("/" <> r.name)) (s.node.name <> ("/" <> s.name))

module _ (short_key : String → String) where
  unfoldable pub incompatible_operator_placement : Dict String String → String → Bool → Bool
  unfolding operator_membership_label
  incompatible_operator_placement labels name colocated =
      let standalone = label_value label_component labels == name in
      let sidecar = label_value (operator_membership_label short_key name) labels == name in
      colocated && standalone || not colocated && sidecar

  module _ (matches : Dict String String → Dict String String → Bool) where
    abbrev pub pod_may_use_node : Template → Node → Bool
    pod_may_use_node t node =
        if not (t.node_name == "")
        then t.node_name == node.name
        else matches t.node_selector node.labels

    abbrev pub matches_node : Template → Node → Bool
    matches_node t node =
        if t.node_name == "" && not (label_value label_node t.labels == "")
        then label_value label_node t.labels == node.name
        else pod_may_use_node t node

    -- The closure check.
    abbrev pub is_unsafe : String → Role → Template → Bool
    is_unsafe yanet_name target t =
        if not (label_value label_yanet t.labels == yanet_name) || not (matches_node t target.node)
        then false
        else incompatible_operator_placement t.labels target.name target.colocated

    unfoldable pub producers_loop :
        String → Role → List PlacementProducer → Result PlacementError (Unit {0})
    unfolding incompatible_operator_placement
    producers_loop yanet_name target [] = ok tt
    producers_loop yanet_name target (p ∷ ps) =
        fail_if (is_unsafe yanet_name target p.template) (unsafe_migration target p)
        >> producers_loop yanet_name target ps

    unfoldable pub roles_loop :
        String → List PlacementProducer → List Role → Result PlacementError (Unit {0})
    unfolding producers_loop
    roles_loop yanet_name producers [] = ok tt
    roles_loop yanet_name producers (r ∷ rs) =
        producers_loop yanet_name r producers >> roles_loop yanet_name producers rs

    abbrev pub with_producers :
        String
        → List Role
        → Result String (List PlacementProducer)
        → Result PlacementError (Unit {0})
    with_producers yanet_name desired (err e) = err (list_failed e)
    with_producers yanet_name desired (ok producers) =
        roles_loop yanet_name producers (sort_by role_precedes desired)

    unfoldable pub validate_operator_placement_transition :
        String
        → List Node
        → Dict String (List RenderedWorkload)
        → Listings
        → Result PlacementError (Unit {0})
    unfolding roles_loop sort_by desired_roles list_placement_producers
    validate_operator_placement_transition yanet_name nodes workloads listings =
        let desired = desired_roles nodes workloads in
        if is_empty desired
        then ok tt
        else with_producers yanet_name desired (list_placement_producers listings)
