-- ===== src/Controller/Lifecycle/Finalized.antt =====
-- When the finalizer of an installation is removed (internal/controller/yanet_reconciler.go:
-- handleYanetDeletion).
use yanet_operator.Base.{
  ◌≡◌, refl, sym, ◌∙◌, ◌↔◌, Bool, true, false, not, none, some, List, [], ◌∷◌, arith, String,
  contains, if◌then◌else◌, nat_eq, string_eq, int_eq, option_eq, Result, ok, err, All,
}
use yanet_operator.Kube.{Deployment}
use yanet_operator.Controller.Ownership.{Yanet, controlled_by_yanet}
use yanet_operator.Controller.Prune.{Oracle, Write}
use yanet_operator.Controller.Prune.Orphans.{Reads, Loop, prune_orphans}
use yanet_operator.Controller.Lifecycle.{
  Snapshot, Lifecycle, UpdateAnswer, yanet_finalizer, update_done, object_gone, update_failed,
  error_of_removal, remove_finalizer, some_controlled, check_global_stop, settled, remove_now,
  after_listing, after_cleanup, nothing_desired, handle_yanet_deletion,
}

-- No Deployment of the list is controlled by the installation.
abbrev pub IsAbandoned : Yanet → List Deployment → Type 0
IsAbandoned yanet ds = All (λ (d : Deployment). controlled_by_yanet d.meta yanet ≡ false) ds

some_controlled-IsAbandoned :
    (yanet : Yanet) (ds : List Deployment) → some_controlled yanet ds ≡ false → IsAbandoned yanet ds
some_controlled-IsAbandoned yanet [] h = tt
some_controlled-IsAbandoned yanet (d ∷ ds) h =
    let rest = some_controlled-IsAbandoned yanet ds in (ground arith, rest (ground arith))

IsAbandoned-some_controlled :
    (yanet : Yanet) (ds : List Deployment) → IsAbandoned yanet ds → some_controlled yanet ds ≡ false
IsAbandoned-some_controlled yanet [] h = refl
IsAbandoned-some_controlled yanet (d ∷ ds) h =
    let rest = IsAbandoned-some_controlled yanet ds h.1 in rw h.0 rest

-- The API server has done the update, or the installation is gone.
abbrev pub IsAnswered : UpdateAnswer → Type 0
IsAnswered update_done = Unit
IsAnswered object_gone = Unit
IsAnswered (update_failed e) = ⊥

IsAnswered-error : (answer : UpdateAnswer) → (error_of_removal answer ≡ none) ↔ IsAnswered answer
IsAnswered-error update_done = (ground arith, ground arith)
IsAnswered-error object_gone = (ground arith, ground arith)
IsAnswered-error (update_failed e) = (ground arith, ground arith)

module _ (snapshot : Snapshot) (yanet : Yanet) where
  -- The update without the finalizer is sent.
  abbrev IsAsked : Lifecycle → Type 0
  IsAsked l = l.updated ≡ some (remove_finalizer yanet.meta.finalizers)

  abbrev pub IsClear : Result String (List Deployment) → Type 0
  IsClear (err e) = ⊥
  IsClear (ok ds) = IsAbandoned yanet ds

  remove_now-IsAsked :
      (writes : List Write) (answer : UpdateAnswer)
      → IsAsked (remove_now snapshot yanet writes answer) ↔ (check_global_stop snapshot ≡ false)
  remove_now-IsAsked writes answer = (ground arith, ground arith)

  after_listing-IsAsked :
      (writes : List Write) (answer : UpdateAnswer) (listed : Result String (List Deployment))
      → IsAsked (after_listing snapshot yanet writes answer listed)
        ↔ (IsClear listed × (check_global_stop snapshot ≡ false))
  after_listing-IsAsked writes answer (err e) = (ground arith, ground arith)
  after_listing-IsAsked writes answer (ok ds) =
      let now = remove_now-IsAsked writes answer in
      let abandoned = some_controlled-IsAbandoned yanet ds in
      let controlled = IsAbandoned-some_controlled yanet ds in (ground arith, ground arith)

  after_cleanup-IsAsked :
      (answer : UpdateAnswer) (listed : Result String (List Deployment)) (l : Loop)
      → IsAsked (after_cleanup snapshot yanet answer listed l)
        ↔ ((l.1 ≡ none) × (IsClear listed × (check_global_stop snapshot ≡ false)))
  after_cleanup-IsAsked answer listed (pass, some e) = (ground arith, ground arith)
  after_cleanup-IsAsked answer listed (pass, none) =
      let rest = after_listing-IsAsked pass.writes answer listed in
      (λ h. (refl, rest.0 h), λ h. rest.1 h.1)

  after_listing-error :
      (writes : List Write) (answer : UpdateAnswer) (listed : Result String (List Deployment))
      → IsAsked (after_listing snapshot yanet writes answer listed)
      → (after_listing snapshot yanet writes answer listed).error ≡ error_of_removal answer
  after_listing-error writes answer (err e) h = ground (arith, h)
  after_listing-error writes answer (ok ds) h = ground (arith, h)

  after_cleanup-error :
      (answer : UpdateAnswer) (listed : Result String (List Deployment)) (l : Loop)
      → IsAsked (after_cleanup snapshot yanet answer listed l)
      → (after_cleanup snapshot yanet answer listed l).error ≡ error_of_removal answer
  after_cleanup-error answer listed (pass, some e) h = ground (arith, h)
  after_cleanup-error answer listed (pass, none) h = after_listing-error pass.writes answer listed h

  handle_yanet_deletion-error :
      (oracle : Oracle) (reads : Reads) (listed : Result String (List Deployment))
      (answer : UpdateAnswer)
      → (let l = handle_yanet_deletion snapshot yanet oracle reads listed answer in
          IsAsked l → l.error ≡ error_of_removal answer)
  unfolding handle_yanet_deletion
  handle_yanet_deletion-error oracle reads listed answer =
      let l = prune_orphans oracle yanet nothing_desired true reads in
      elim (contains yanet.meta.finalizers yanet_finalizer)
        as (λ (b : Bool).
          (let r =
              if not b
              then settled snapshot yanet [] 0 none
              else after_cleanup snapshot yanet answer listed l in
            IsAsked r → r.error ≡ error_of_removal answer)) [
              | true ↦ after_cleanup-error answer listed l
              | false ↦ λ h. ground (arith, h)
            ]

  handle_yanet_deletion_asked :
      (oracle : Oracle) (reads : Reads) (listed : Result String (List Deployment))
      (answer : UpdateAnswer)
      → ((handle_yanet_deletion snapshot yanet oracle reads listed answer).updated
          ≡ some (remove_finalizer yanet.meta.finalizers))
        ↔ ((contains yanet.meta.finalizers yanet_finalizer ≡ true)
            × (((prune_orphans oracle yanet nothing_desired true reads).1 ≡ none)
                × (IsClear listed × (check_global_stop snapshot ≡ false))))
  unfolding handle_yanet_deletion
  handle_yanet_deletion_asked oracle reads listed answer =
      let l = prune_orphans oracle yanet nothing_desired true reads in
      let rest = after_cleanup-IsAsked answer listed l in
      elim (contains yanet.meta.finalizers yanet_finalizer)
        as (λ (b : Bool).
          (IsAsked (
            if not b
            then settled snapshot yanet [] 0 none
            else after_cleanup snapshot yanet answer listed l))
          ↔ ((b ≡ true)
              × ((l.1 ≡ none) × (IsClear listed × (check_global_stop snapshot ≡ false))))) [
                | true ↦ (λ h. (refl, rest.0 h), λ h. rest.1 h.1)
                | false ↦ (ground arith, ground arith)
              ]

  -- The cleanup of an installation under deletion is done: it has the finalizer, the prune with nothing
  -- desired ended without an error, the Deployments were then listed and none of them is controlled by the
  -- installation, and the kill switch is off.
  abbrev pub IsCleaned : Oracle → Reads → Result String (List Deployment) → Type 0
  IsCleaned oracle reads listed =
      (contains yanet.meta.finalizers yanet_finalizer ≡ true)
      × (((prune_orphans oracle yanet nothing_desired true reads).1 ≡ none)
          × (IsClear listed × (check_global_stop snapshot ≡ false)))

  -- For an installation under deletion the update that takes the finalizer off is sent exactly when it has
  -- the finalizer, the prune with nothing desired ended without an error, the Deployments were then listed
  -- and none of them is controlled by the installation, and the kill switch is off. It is sent and no
  -- error is returned exactly when, moreover, the update was done or the installation was found gone.
  pub handle_yanet_deletion_iff :
      (oracle : Oracle) (reads : Reads) (listed : Result String (List Deployment))
      (answer : UpdateAnswer)
      → (let l = handle_yanet_deletion snapshot yanet oracle reads listed answer in
          let asked = l.updated ≡ some (remove_finalizer yanet.meta.finalizers) in
          (asked ↔ IsCleaned oracle reads listed)
          × ((asked × (l.error ≡ none)) ↔ (IsCleaned oracle reads listed × IsAnswered answer)))
  handle_yanet_deletion_iff oracle reads listed answer =
      let sent = handle_yanet_deletion_asked oracle reads listed answer in
      let error = handle_yanet_deletion-error oracle reads listed answer in
      let answered = IsAnswered-error answer in
      (
        sent,
        (
          λ h. (sent.0 h.0, answered.0 (sym (error h.0) ∙ h.1)),
          λ h. let asked = sent.1 h.0 in (asked, error asked ∙ answered.1 h.1),
        ),
      )
