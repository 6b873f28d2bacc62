-- ===== src/Controller/Prune/Orphans/References.antt =====
-- The ConfigMaps that a pass of pruneOrphans finds in use.
use yanet_operator.Base.{
  ◌≡◌, refl, inl, inr, true, false, ◌||◌, Option, none, some, List, [], ◌∷◌, arith, String,
  contains, nat_eq, string_eq, int_eq, option_eq, All, Bool-cases,
}
use yanet_operator.Kube.{Deployment, PodSpec, Volume, EnvContainer}
use yanet_operator.Controller.Ownership.{Yanet, controlled_by_yanet}
use yanet_operator.Controller.Prune.Orphans.{
  collect_pod_config_map_refs, is_rolling, deployment_refs, rollout_pending, pod_refs, note,
  note_all, projected_refs, volume_refs, container_refs,
}

-- A set collected on top of another one.
note-contains :
    (n : Option String) (seen : List String) (a : String)
    → contains (note n seen) a ≡ (contains (note n []) a || contains seen a)
note-contains none seen a = refl
note-contains (some n) seen a = ground arith

note_all-contains :
    (ns : List (Option String)) (seen : List String) (a : String)
    → contains (note_all ns seen) a ≡ (contains (note_all ns []) a || contains seen a)
note_all-contains [] seen a = refl
note_all-contains (n ∷ ns) seen a = ground (
  arith,
  note_all-contains ns (note n seen) a,
  note_all-contains ns (note n []) a,
  note-contains n seen a,
)

projected_refs-contains :
    (ns : Option (List (Option String))) (seen : List String) (a : String)
    → contains (projected_refs ns seen) a ≡ (contains (projected_refs ns []) a || contains seen a)
projected_refs-contains none seen a = refl
projected_refs-contains (some ns) seen a = note_all-contains ns seen a

volume_refs-contains :
    (vs : List Volume) (seen : List String) (a : String)
    → contains (volume_refs vs seen) a ≡ (contains (volume_refs vs []) a || contains seen a)
volume_refs-contains [] seen a = refl
volume_refs-contains (v ∷ vs) seen a = ground (
  arith,
  volume_refs-contains vs (projected_refs v.projected (note v.config_map seen)) a,
  volume_refs-contains vs (projected_refs v.projected (note v.config_map [])) a,
  projected_refs-contains v.projected (note v.config_map seen) a,
  projected_refs-contains v.projected (note v.config_map []) a,
  note-contains v.config_map seen a,
)

container_refs-contains :
    (cs : List EnvContainer) (seen : List String) (a : String)
    → contains (container_refs cs seen) a ≡ (contains (container_refs cs []) a || contains seen a)
container_refs-contains [] seen a = refl
container_refs-contains (c ∷ cs) seen a = ground (
  arith,
  container_refs-contains cs (note_all c.env (note_all c.env_from seen)) a,
  container_refs-contains cs (note_all c.env (note_all c.env_from [])) a,
  note_all-contains c.env (note_all c.env_from seen) a,
  note_all-contains c.env (note_all c.env_from []) a,
  note_all-contains c.env_from seen a,
)

collect-contains :
    (pod : PodSpec) (seen : List String) (a : String)
    → contains (collect_pod_config_map_refs pod seen) a
      ≡ (contains (collect_pod_config_map_refs pod []) a || contains seen a)
unfolding collect_pod_config_map_refs
collect-contains pod seen a = ground (
  arith,
  container_refs-contains pod.init_containers
      (container_refs pod.containers (volume_refs pod.volumes seen)) a,
  container_refs-contains pod.init_containers
      (container_refs pod.containers (volume_refs pod.volumes [])) a,
  container_refs-contains pod.containers (volume_refs pod.volumes seen) a,
  container_refs-contains pod.containers (volume_refs pod.volumes []) a,
  volume_refs-contains pod.volumes seen a,
)

-- The pod does not name the ConfigMap.
abbrev pub IsUnnamedBy : String → PodSpec → Type 0
IsUnnamedBy name pod = contains (collect_pod_config_map_refs pod []) name ≡ false

pub pod_refs-unnamed :
    (ps : List PodSpec) (seen : List String) (a : String)
    → contains (pod_refs ps seen) a ≡ false
    → (contains seen a ≡ false) × All (IsUnnamedBy a) ps
unfolding pod_refs
pod_refs-unnamed [] seen a h = (h, tt)
pod_refs-unnamed (p ∷ ps) seen a h =
    ground (
      arith,
      pod_refs-unnamed ps (collect_pod_config_map_refs p seen) a h,
      collect-contains p seen a,
    )

module _ (yanet : Yanet) where
  abbrev pub IsUnusedBy : String → Deployment → Type 0
  IsUnusedBy name d = controlled_by_yanet d.meta yanet ≡ true → IsUnnamedBy name d.pod

  abbrev pub IsSettled : Deployment → Type 0
  IsSettled d = controlled_by_yanet d.meta yanet ≡ true → is_rolling d ≡ false

  pub deployment_refs-unused :
      (ds : List Deployment) (seen : List String) (a : String)
      → contains (deployment_refs yanet ds seen) a ≡ false
      → (contains seen a ≡ false) × All (IsUnusedBy a) ds
  unfolding deployment_refs
  deployment_refs-unused [] seen a h = (h, tt)
  deployment_refs-unused (d ∷ ds) seen a h = elim (Bool-cases (controlled_by_yanet d.meta yanet)) [
    | inl own ↦ ground (
      arith,
      own,
      deployment_refs-unused ds (collect_pod_config_map_refs d.pod seen) a,
      collect-contains d.pod seen a,
    )
    | inr other ↦ ground (arith, other, deployment_refs-unused ds seen a)
  ]

  pub rollout_pending-IsSettled :
      (ds : List Deployment) → rollout_pending yanet ds ≡ false → All IsSettled ds
  unfolding rollout_pending
  rollout_pending-IsSettled [] h = tt
  rollout_pending-IsSettled (d ∷ ds) h = ground (arith, rollout_pending-IsSettled ds)
