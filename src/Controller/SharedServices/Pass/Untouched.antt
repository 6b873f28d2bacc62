-- ===== src/Controller/SharedServices/Pass/Untouched.antt =====
-- What a pass of reconcileSharedServices sends (internal/controller/shared_services.go).
use yanet_operator.Base.{
  ◌≡◌, refl, sym, ◌∙◌, inl, inr, true, false, Option, none, some, List, [], ◌∷◌, arith, contains,
  nat_eq, string_eq, int_eq, option_eq, Result, ok, err, All, Bool-cases,
}
use mathlib.Core.Option.{some-ne-none}
use yanet_operator.Base.{pair_eq, All-append, subst}
use yanet_operator.Base.Dict.{lookup, has, has-lookup}
use yanet_operator.Kube.{OwnerReference}
use yanet_operator.Manifests.Services.{ServiceSpec, Service}
use yanet_operator.Controller.Apply.{ApplyError, Comparison}
use yanet_operator.Controller.SharedServices.{SharedServiceKey, SharedServiceScope, Table, key_of}
use yanet_operator.Controller.SharedServices.Apply.{
  Applied, ServiceWrite, create_service, update_service, delete_service, apply_shared_service,
  controlled_by,
}
use yanet_operator.Controller.SharedServices.Apply.About.{
  IsFaithful, IsAbout, apply_shared_service-IsAbout,
}
use yanet_operator.Controller.SharedServices.Pass.{
  Cluster, Progress, DeleteAnswer, deleted, gone, delete_failed, labelled_scope, note_applied,
  apply_one, prune_one, apply_loop, is_kept, note_deleted, prune_services,
}

-- Every Service of the table stands under its key.
abbrev pub IsKeyed : Table → Type 0
IsKeyed t = (k : SharedServiceKey) (s : Service) → lookup k t.desired ≡ some s → key_of s ≡ k

module _ (cluster : Cluster) (comparison : Comparison ServiceSpec) (table : Table)
    (owner : OwnerReference) (base : List SharedServiceScope) where
  -- A creation or an update is of a desired Service. A deletion is of a Service that the owner
  -- controls, that is neither desired nor blocked, and whose scope is not protected.
  abbrev pub IsPermitted : ServiceWrite → Type 0
  IsPermitted (create_service s) = has (key_of s) table.desired ≡ true
  IsPermitted (update_service s) = has (key_of s) table.desired ≡ true
  IsPermitted (delete_service s) =
      (controlled_by s.meta.controller owner ≡ true)
      × (has (key_of s) table.desired ≡ false)
      × (contains table.blocked (key_of s) ≡ false)
      × (contains base (labelled_scope s) ≡ false)

  -- What is protected at first stays so, and what was sent was permitted.
  abbrev pub IsSound : Progress → Type 0
  IsSound p =
      All IsPermitted p.sent
      × ((sc : SharedServiceScope)
          → contains base sc ≡ true
          → contains p.protected_scopes sc ≡ true)

  All-IsAbout :
      (k : SharedServiceKey) (ws : List ServiceWrite)
      → has k table.desired ≡ true
      → All (IsAbout k) ws
      → All IsPermitted ws
  All-IsAbout k [] h hs = tt
  All-IsAbout k (create_service s ∷ ws) h hs =
      (subst (λ j. has j table.desired ≡ true) (sym hs.0) h, All-IsAbout k ws h hs.1)
  All-IsAbout k (update_service s ∷ ws) h hs =
      (subst (λ j. has j table.desired ≡ true) (sym hs.0) h, All-IsAbout k ws h hs.1)
  All-IsAbout k (delete_service s ∷ ws) h hs = absurd hs.0

  note_applied-IsSound :
      (k : SharedServiceKey) (s : Service) (applied : Applied) (p : Progress)
      → All IsPermitted applied.sent
      → IsSound p
      → IsSound (note_applied cluster k s applied p)
  note_applied-IsSound k s applied p h g = noted applied.outcome
    where
      noted :
          (o : Result ApplyError (Unit {0}))
          → IsSound (note_applied cluster k s (record applied { outcome = o }) p)
      noted (ok u) = (All-append IsPermitted p.sent applied.sent g.0 h, g.1)
      noted (err e) =
          (All-append IsPermitted p.sent applied.sent g.0 h, λ sc e'. ground (arith, g.1 sc e'))

  apply_one-IsSound :
      IsKeyed table
      → ((k : SharedServiceKey) → IsFaithful k (cluster.encounter k))
      → (migrating : List SharedServiceScope) (k : SharedServiceKey) (o : Option Service)
      → lookup k table.desired ≡ o
      → (next : Progress → Progress) → ((q : Progress) → IsSound q → IsSound (next q))
      → (p : Progress) → IsSound p
      → IsSound (apply_one cluster comparison table migrating k o next p)
  apply_one-IsSound keyed faithful migrating k none e next h p g = h p g
  apply_one-IsSound keyed faithful migrating k (some s) e next h p g =
      let applied = apply_shared_service comparison s (cluster.encounter k) in
      let permitted =
        All-IsAbout k applied.sent
          ((has-lookup k table.desired).1 (λ n. some-ne-none s (sym e ∙ n)))
          (apply_shared_service-IsAbout comparison s k (cluster.encounter k) (keyed k s e)
            (faithful k)) in
      let noted =
        h (note_applied cluster k s applied p) (note_applied-IsSound k s applied p permitted g) in
      elim (Bool-cases (contains migrating (labelled_scope s))) [
        | inl m ↦ rw m (h p g)
        | inr m ↦
            rw m
              (elim (Bool-cases (cluster.stopped_apply k)) [ inl t ↦ rw t g | inr t ↦ rw t noted ])
      ]

  pub apply_loop-IsSound :
      IsKeyed table
      → ((k : SharedServiceKey) → IsFaithful k (cluster.encounter k))
      → (migrating : List SharedServiceScope) (ks : List SharedServiceKey) (p : Progress)
      → IsSound p
      → IsSound (apply_loop cluster comparison table migrating ks p)
  unfolding apply_loop
  apply_loop-IsSound keyed faithful migrating [] p g = g
  apply_loop-IsSound keyed faithful migrating (k ∷ ks) p g =
      apply_one-IsSound keyed faithful migrating k (lookup k table.desired) refl
        (apply_loop cluster comparison table migrating ks)
        (apply_loop-IsSound keyed faithful migrating ks) p g

  note_deleted-IsSound :
      (s : Service) (answer : DeleteAnswer) (p : Progress)
      → IsPermitted (delete_service s)
      → IsSound p
      → IsSound (note_deleted cluster comparison table s answer p)
  note_deleted-IsSound s deleted p h g = (All-append IsPermitted p.sent _ g.0 (h, tt), g.1)
  note_deleted-IsSound s gone p h g = (All-append IsPermitted p.sent _ g.0 (h, tt), g.1)
  note_deleted-IsSound s (delete_failed e) p h g =
      (All-append IsPermitted p.sent _ g.0 (h, tt), g.1)

  prune_one-IsSound :
      (s : Service) (next : Progress → Progress)
      → ((q : Progress) → IsSound q → IsSound (next q))
      → (p : Progress) → IsSound p
      → IsSound (prune_one cluster comparison table owner s next p)
  prune_one-IsSound s next h p g =
      elim (Bool-cases (is_kept cluster comparison table owner p.protected_scopes s)) [
        | inl m ↦ rw m (h p g)
        | inr m ↦ rw m (elim (Bool-cases (cluster.stopped_delete (key_of s))) [
          | inl t ↦ rw t g
          | inr t ↦ rw t (
              h (note_deleted cluster comparison table s (cluster.delete (key_of s)) p)
                (note_deleted-IsSound s (cluster.delete (key_of s)) p (permitted m) g))
        ])
      ]
    where
      permitted :
          is_kept cluster comparison table owner p.protected_scopes s ≡ false
          → IsPermitted (delete_service s)
      permitted m = ground (arith, g.1 (labelled_scope s))

  pub prune_services-IsSound :
      (ss : List Service) (p : Progress)
      → IsSound p
      → IsSound (prune_services cluster comparison table owner ss p)
  unfolding prune_services
  prune_services-IsSound [] p g = g
  prune_services-IsSound (s ∷ ss) p g =
      prune_one-IsSound s (prune_services cluster comparison table owner ss)
        (prune_services-IsSound ss) p g
