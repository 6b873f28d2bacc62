-- ===== src/Controller/Placement/Safe.antt =====
-- Which transitions the placement guard accepts (internal/controller/operator_placement.go).
use yanet_operator.Base.{
  ◌≡◌, ◌↔◌, ◌≢◌, ◌⊎◌, ◌≤◌, Bool, true, false, some, List, [], ◌∷◌, ◌++◌, arith, String,
  if◌then◌else◌, nat_eq, string_eq, int_eq, option_eq, ok, pos, All, is_empty,
}
use yanet_operator.Base.Dict.{Dict}
use yanet_operator.Base.Sort.{sort_by, All-sort_by}
use yanet_operator.Kube.{Node}
use yanet_operator.Manifests.Workload.{label_yanet, label_component}
use yanet_operator.Manifests.Names.{operator_membership_label}
use yanet_operator.Controller.Placement.{
  Template, still_produces, is_running, LiveSet, LivePod, PlacementProducer, RenderedWorkload, Role,
  producers_of_sets, producers_of_pods, all_producers, list_placement_producers, label_value,
  desired_roles, role_precedes, producer_precedes, incompatible_operator_placement, matches_node,
  is_unsafe, producers_loop, roles_loop, validate_operator_placement_transition,
}

All-append_iff :
    (P : PlacementProducer → Type 0) (xs ys : List PlacementProducer)
    → All P (xs ++ ys) ↔ (All P xs × All P ys)
All-append_iff P [] ys = ground arith
All-append_iff P (x ∷ xs) ys = ground (arith, All-append_iff P xs ys)

-- Scaled to zero, with no pod left and the scaling observed.
abbrev pub IsDrained : LiveSet → Type 0
IsDrained s =
    (s.replicas ≡ some (pos 0))
    × (s.status_replicas ≡ pos 0)
    × (s.generation ≤ s.observed_generation)

abbrev pub IsTerminated : LivePod → Type 0
IsTerminated p = (p.phase ≡ "Succeeded") ⊎ (p.phase ≡ "Failed")

still_produces_iff : (s : LiveSet) → (still_produces s ≡ false) ↔ IsDrained s
still_produces_iff s = ground arith

is_running_iff : (p : LivePod) → (is_running p ≡ false) ↔ IsTerminated p
is_running_iff p = ground arith

module _ (P : Template → Type 0) where
  abbrev OfTemplate : PlacementProducer → Type 0
  OfTemplate p = P p.template

  All-producers_of_sets :
      (kind : String) (ss : List LiveSet)
      → All OfTemplate (producers_of_sets kind ss)
        ↔ All (λ (s : LiveSet). IsDrained s ⊎ P s.template) ss
  All-producers_of_sets kind [] = ground arith
  All-producers_of_sets kind (s ∷ ss) =
      ground (arith, All-producers_of_sets kind ss, still_produces_iff s)

  All-producers_of_pods :
      (ps : List LivePod)
      → All OfTemplate (producers_of_pods ps)
        ↔ All (λ (p : LivePod). IsTerminated p ⊎ P p.template) ps
  All-producers_of_pods [] = ground arith
  All-producers_of_pods (p ∷ ps) = ground (arith, All-producers_of_pods ps, is_running_iff p)

  -- Each object listed is drained or satisfies the predicate.
  abbrev pub Everywhere : List LiveSet → List LiveSet → List LivePod → Type 0
  Everywhere deployments sets pods =
      All (λ (s : LiveSet). IsDrained s ⊎ P s.template) deployments
      × All (λ (s : LiveSet). IsDrained s ⊎ P s.template) sets
      × All (λ (p : LivePod). IsTerminated p ⊎ P p.template) pods

  All-all_producers :
      (deployments sets : List LiveSet) (pods : List LivePod)
      → All OfTemplate (sort_by producer_precedes (all_producers deployments sets pods))
        ↔ Everywhere deployments sets pods
  All-all_producers deployments sets pods = ground (
    arith,
    All-sort_by producer_precedes OfTemplate (all_producers deployments sets pods),
    All-append_iff OfTemplate (producers_of_sets "Deployment" deployments)
        (producers_of_sets "ReplicaSet" sets ++ producers_of_pods pods),
    All-append_iff OfTemplate (producers_of_sets "ReplicaSet" sets) (producers_of_pods pods),
    All-producers_of_sets "Deployment" deployments,
    All-producers_of_sets "ReplicaSet" sets,
    All-producers_of_pods pods,
  )

module _ (short_key : String → String) (matches : Dict String String → Dict String String → Bool)
    (yanet_name : String) where
  -- The label by which a role's workload is marked in the other placement.
  abbrev pub opposite_label : Role → String
  opposite_label r =
      if r.colocated then label_component else operator_membership_label short_key r.name

  -- A pod of the template that belongs to the installation and may run on the role's node does not
  -- run the role in the other placement.
  abbrev pub IsSafe : Role → Template → Type 0
  IsSafe r t =
      label_value label_yanet t.labels ≡ yanet_name
      → matches_node short_key matches t r.node ≡ true
      → label_value (opposite_label r) t.labels ≢ r.name

  is_unsafe_iff :
      (r : Role) (t : Template) → (is_unsafe short_key matches yanet_name r t ≡ false) ↔ IsSafe r t
  unfolding incompatible_operator_placement
  is_unsafe_iff r t = ground arith

  producers_loop_iff :
      (r : Role) (ps : List PlacementProducer)
      → (producers_loop short_key matches yanet_name r ps ≡ ok tt)
        ↔ All (λ (p : PlacementProducer). IsSafe r p.template) ps
  unfolding producers_loop
  producers_loop_iff r [] = ground arith
  producers_loop_iff r (p ∷ ps) =
      ground (arith, producers_loop_iff r ps, is_unsafe_iff r p.template)

  roles_loop_iff :
      (ps : List PlacementProducer) (rs : List Role)
      → (roles_loop short_key matches yanet_name ps rs ≡ ok tt)
        ↔ All (λ (r : Role). All (λ (p : PlacementProducer). IsSafe r p.template) ps) rs
  unfolding roles_loop
  roles_loop_iff ps [] = ground arith
  roles_loop_iff ps (r ∷ rs) = ground (arith, roles_loop_iff ps rs, producers_loop_iff r ps)

  guard_iff :
      (ps : List PlacementProducer) (rs : List Role)
      → ((if is_empty rs
            then ok tt
            else roles_loop short_key matches yanet_name ps (sort_by role_precedes rs))
          ≡ ok tt)
        ↔ All (λ (r : Role). All (λ (p : PlacementProducer). IsSafe r p.template) ps) rs
  guard_iff ps [] = ground arith
  guard_iff ps (r ∷ rs) = ground (
    arith,
    roles_loop_iff ps (sort_by role_precedes (r ∷ rs)),
    All-sort_by role_precedes
        (λ (s : Role). All (λ (p : PlacementProducer). IsSafe s p.template) ps) (r ∷ rs),
  )

  All-Everywhere :
      (deployments sets : List LiveSet) (pods : List LivePod) (rs : List Role)
      → All
          (λ (r : Role).
            All
              (λ (p : PlacementProducer). IsSafe r p.template)
              (sort_by producer_precedes (all_producers deployments sets pods)))
          rs
        ↔ All (λ (r : Role). Everywhere (IsSafe r) deployments sets pods) rs
  All-Everywhere deployments sets pods [] = ground arith
  All-Everywhere deployments sets pods (r ∷ rs) = ground (
    arith,
    All-Everywhere deployments sets pods rs,
    All-all_producers (IsSafe r) deployments sets pods,
  )

  -- If the live objects of the namespace can be listed, the transition is accepted exactly when, for
  -- every role that is to run on a node, each live Deployment, ReplicaSet and pod is drained or
  -- terminated, or does not run the role in the other placement on that node for this installation.
  pub validate_operator_placement_transition_iff :
      (nodes : List Node) (workloads : Dict String (List RenderedWorkload))
      (deployments sets : List LiveSet) (pods : List LivePod)
      → (validate_operator_placement_transition short_key matches yanet_name nodes workloads
            (record { deployments = ok deployments; replica_sets = ok sets; pods = ok pods })
          ≡ ok tt)
        ↔ All
            (λ (r : Role). Everywhere (IsSafe r) deployments sets pods)
            (desired_roles nodes workloads)
  unfolding validate_operator_placement_transition list_placement_producers
  validate_operator_placement_transition_iff nodes workloads deployments sets pods =
      let ps = sort_by producer_precedes (all_producers deployments sets pods) in
      let guard = guard_iff ps (desired_roles nodes workloads) in
      let spread = All-Everywhere deployments sets pods (desired_roles nodes workloads) in
      (λ h. spread.0 (guard.0 h), λ h. guard.1 (spread.1 h))
