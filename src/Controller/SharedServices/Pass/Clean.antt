-- ===== src/Controller/SharedServices/Pass/Clean.antt =====
-- The loops of reconcileSharedServices (internal/controller/shared_services.go), where they end without
-- an error and without having met the kill switch.
use yanet_operator.Base.{
  ◌≡◌, refl, sym, ◌∙◌, ◌≢◌, inl, inr, Bool, true, false, Option, none, some, List, [], ◌∷◌, arith,
  String, ◌==◌, contains, if◌then◌else◌, nat_eq, string_eq, int_eq, option_eq, Result, ok, err, All,
  Bool-cases, is_empty,
}
use yanet_operator.Base.{pair_eq, subst}
use yanet_operator.Base.Dict.{lookup}
use yanet_operator.Kube.{OwnerReference}
use yanet_operator.Manifests.Services.{ServiceSpec, Service}
use yanet_operator.Controller.Apply.{ApplyError, Comparison}
use yanet_operator.Controller.SharedServices.{
  SharedServiceKey, SharedServiceScope, Table, key_of, not_applied, not_deleted,
  services_not_listed,
}
use yanet_operator.Controller.SharedServices.Told.{append-is_empty}
use yanet_operator.Controller.SharedServices.Apply.{Applied, apply_shared_service}
use yanet_operator.Controller.SharedServices.Pass.{
  Cluster, Progress, DeleteAnswer, deleted, gone, delete_failed, labelled_scope, note_applied,
  note_deleted, apply_one, prune_one, is_kept, prune_listed, prune_unless_stopped, apply_loop,
  prune_services,
}

-- No error so far, and no stop.
abbrev pub IsClean : Progress → Type 0
IsClean p = (is_empty p.errors ≡ true) × (p.stopped ≡ false)

pub contains-of_empty :
    (xs : List SharedServiceKey) (k : SharedServiceKey) → is_empty xs ≡ true → contains xs k ≡ false
contains-of_empty [] k h = refl
contains-of_empty (x ∷ xs) k h = cc

pub All-contains :
    (P : SharedServiceKey → Type 0) (xs : List SharedServiceKey) (k : SharedServiceKey)
    → contains xs k ≡ true
    → All P xs
    → P k
All-contains P [] k h hs = cc
All-contains P (x ∷ xs) k h hs = elim (Bool-cases (k == x)) [
  | inl e ↦ let q : x ≡ k = ground (arith, e) in subst P q hs.0
  | inr e ↦ All-contains P xs k (ground (arith, e, h)) hs.1
]

module _ (cluster : Cluster) (comparison : Comparison ServiceSpec) (table : Table) where
  -- The Service under the key was applied without an error, if its scope has no old producers.
  abbrev pub IsApplied : List SharedServiceScope → SharedServiceKey → Option Service → Type 0
  IsApplied migrating k none = Unit
  IsApplied migrating k (some s) =
      contains migrating (labelled_scope s) ≡ false
      → (apply_shared_service comparison s (cluster.encounter k)).outcome ≡ ok tt

  note_applied-IsClean :
      (k : SharedServiceKey) (s : Service) (applied : Applied) (p : Progress)
      → IsClean (note_applied cluster k s applied p)
      → IsClean p × (applied.outcome ≡ ok tt)
  note_applied-IsClean k s applied p h = noted applied.outcome h
    where
      noted :
          (o : Result ApplyError (Unit {0}))
          → IsClean (note_applied cluster k s (record applied { outcome = o }) p)
          → IsClean p × (o ≡ ok tt)
      noted (ok u) c = (c, refl)
      noted (err e) c =
          let q : true ≡ false = sym c.0 ∙ append-is_empty p.errors (not_applied k e) in cc

  apply_one-IsClean :
      (R : Type 0) (migrating : List SharedServiceScope) (k : SharedServiceKey) (o : Option Service)
      (next : Progress → Progress)
      → ((q : Progress) → IsClean (next q) → IsClean q × R)
      → (p : Progress) → IsClean (apply_one cluster comparison table migrating k o next p)
      → IsClean p × (IsApplied migrating k o × R)
  apply_one-IsClean R migrating k none next h p c = let (q, r) = h p c in (q, (tt, r))
  apply_one-IsClean R migrating k (some s) next h p c =
      one (contains migrating (labelled_scope s)) (cluster.stopped_apply k) refl c
    where
      applied : Applied
      applied = apply_shared_service comparison s (cluster.encounter k)

      one :
          (m t : Bool)
          → contains migrating (labelled_scope s) ≡ m
          → IsClean (
              if m
              then next p
              else if t
              then record p { stopped = true }
              else next (note_applied cluster k s applied p))
          → IsClean p × (IsApplied migrating k (some s) × R)
      one true t e d = let (q, r) = h p d in (q, ((λ f. let b : true ≡ false = sym e ∙ f in cc), r))
      one false true e d = let b : true ≡ false = d.1 in cc
      one false false e d =
          let (q, r) = h (note_applied cluster k s applied p) d in
          let (q', done) = note_applied-IsClean k s applied p q in (q', ((λ f. done), r))

  pub IsApplied-found :
      (migrating : List SharedServiceScope) (k : SharedServiceKey) (o : Option Service)
      → o ≢ none
      → is_empty migrating ≡ true
      → IsApplied migrating k o
      → (s : Service) × (o ≡ some s)
        × ((apply_shared_service comparison s (cluster.encounter k)).outcome ≡ ok tt)
  IsApplied-found migrating k none n h a = absurd (n refl)
  IsApplied-found migrating k (some s) n h a =
      (s, refl, a (contains-of_empty migrating (labelled_scope s) h))

  abbrev pub AllApplied : List SharedServiceScope → List SharedServiceKey → Type 0
  AllApplied migrating ks =
      All (λ (k : SharedServiceKey). IsApplied migrating k (lookup k table.desired)) ks

  pub apply_loop-IsClean :
      (migrating : List SharedServiceScope) (ks : List SharedServiceKey) (p : Progress)
      → IsClean (apply_loop cluster comparison table migrating ks p)
      → IsClean p × AllApplied migrating ks
  unfolding apply_loop
  apply_loop-IsClean migrating [] p c = (c, tt)
  apply_loop-IsClean migrating (k ∷ ks) p c =
      apply_one-IsClean (AllApplied migrating ks) migrating k (lookup k table.desired)
        (apply_loop cluster comparison table migrating ks) (apply_loop-IsClean migrating ks) p c

  note_deleted-IsClean :
      (s : Service) (answer : DeleteAnswer) (p : Progress)
      → IsClean (note_deleted cluster comparison table s answer p)
      → IsClean p
  note_deleted-IsClean s deleted p c = c
  note_deleted-IsClean s gone p c = c
  note_deleted-IsClean s (delete_failed e) p c =
      let q : true ≡ false = sym c.0 ∙ append-is_empty p.errors (not_deleted (key_of s) e) in cc

  prune_one-IsClean :
      (owner : OwnerReference) (s : Service) (next : Progress → Progress)
      → ((q : Progress) → IsClean (next q) → IsClean q)
      → (p : Progress) → IsClean (prune_one cluster comparison table owner s next p)
      → IsClean p
  prune_one-IsClean owner s next h p c =
      one (is_kept cluster comparison table owner p.protected_scopes s)
        (cluster.stopped_delete (key_of s)) c
    where
      one :
          (m t : Bool)
          → IsClean (
              if m
              then next p
              else if t
              then record p { stopped = true }
              else next (note_deleted cluster comparison table s (cluster.delete (key_of s)) p))
          → IsClean p
      one true t d = h p d
      one false true d = let b : true ≡ false = d.1 in cc
      one false false d = note_deleted-IsClean s (cluster.delete (key_of s)) p (h _ d)

  prune_services-IsClean :
      (owner : OwnerReference) (ss : List Service) (p : Progress)
      → IsClean (prune_services cluster comparison table owner ss p)
      → IsClean p
  unfolding prune_services
  prune_services-IsClean owner [] p c = c
  prune_services-IsClean owner (s ∷ ss) p c =
      prune_one-IsClean owner s (prune_services cluster comparison table owner ss)
        (prune_services-IsClean owner ss) p c

  pub prune_unless_stopped-IsClean :
      (owner : OwnerReference) (p : Progress)
      → IsClean (prune_unless_stopped cluster comparison table owner p)
      → IsClean p
  prune_unless_stopped-IsClean owner p c = one p.stopped cluster.services c
    where
      one :
          (b : Bool) (r : Result String (List Service))
          → IsClean (if b then p else prune_listed cluster comparison table owner r p)
          → IsClean p
      one true r d = d
      one false (err e) d =
          let q : true ≡ false = sym d.0 ∙ append-is_empty p.errors (services_not_listed e) in cc
      one false (ok ss) d = prune_services-IsClean owner ss p d
