-- ===== src/Manifests/Identity/Slots.antt =====
-- The native sidecars after RestoreWorkloadIdentity (internal/manifests/labels.go).
use yanet_operator.Base.{
  ◌≡◌, refl, sym, ap, ◌∙◌, inl, inr, true, false, Option, none, some, List, [], ◌∷◌, ◌++◌, map,
  arith, String, ◌==◌, contains, if◌then◌else◌, nat_eq, string_eq, int_eq, option_eq, All,
  Bool-cases,
}
use yanet_operator.Base.{subst}
use mathlib.Core.Option.{some-injective, none-ne-some}
use yanet_operator.Base.Dict.{Dict, lookup, insert, lookup-insert}
use yanet_operator.Manifests.Workload.{PodContainer}
use yanet_operator.Manifests.Identity.{
  pod_container_names, container_or, patched_managed, more_managed, restored_expected, restore_loop,
  restore_native_sidecars,
}

-- The containers with a name of the list, in order, and the others.
abbrev pub named_in : List String → List PodContainer → List PodContainer
named_in managed [] = []
named_in managed (c ∷ cs) =
    let rest = named_in managed cs in if contains managed c.name then c ∷ rest else rest

abbrev pub not_named_in : List String → List PodContainer → List PodContainer
not_named_in managed [] = []
not_named_in managed (c ∷ cs) =
    let rest = not_named_in managed cs in if contains managed c.name then rest else c ∷ rest

-- A container's name and restart policy.
abbrev pub slots : List PodContainer → List (String × Option String)
slots [] = []
slots (c ∷ cs) = (c.name, c.restart_policy) ∷ slots cs

abbrev AllIn : List String → List PodContainer → Type 0
AllIn managed cs = All (λ (c : PodContainer). contains managed c.name ≡ true) cs

-- Each container of the map stands under its name.
abbrev IsNamed : Dict String PodContainer → Type 0
IsNamed d = (k : String) (c : PodContainer) → lookup k d ≡ some c → c.name ≡ k

insert-IsNamed :
    (d : Dict String PodContainer) (c : PodContainer) → IsNamed d → IsNamed (insert c.name c d)
insert-IsNamed d c h k b e = elim (Bool-cases (k == c.name)) [
  | inl same ↦ ground (arith, some-injective c b (ground (arith, lookup-insert k c.name c d)))
  | inr other ↦ h k b (ground (arith, lookup-insert k c.name c d))
]

container_or-name :
    (found : Option PodContainer) (baseline : PodContainer)
    → ((c : PodContainer) → found ≡ some c → c.name ≡ baseline.name)
    → (container_or found baseline).name ≡ baseline.name
container_or-name none baseline h = refl
container_or-name (some c) baseline h = h c refl

slots-restored_expected :
    (patched : Dict String PodContainer) (bs : List PodContainer)
    → IsNamed patched
    → slots (restored_expected patched bs) ≡ slots bs
unfolding restored_expected
slots-restored_expected patched [] h = refl
slots-restored_expected patched (b ∷ bs) h =
    rw
      (container_or-name (lookup b.name patched) b (h b.name), slots-restored_expected patched bs h)
      refl

module _ (managed : List String) where
  patched_managed-IsNamed :
      (cs : List PodContainer) (patched : Dict String PodContainer)
      → IsNamed patched
      → IsNamed (patched_managed managed cs patched)
  unfolding patched_managed
  patched_managed-IsNamed [] patched h = h
  patched_managed-IsNamed (c ∷ cs) patched h = elim (Bool-cases (contains managed c.name)) [
    | inl e ↦
        rw e (patched_managed-IsNamed cs (insert c.name c patched) (insert-IsNamed patched c h))
    | inr e ↦ rw e (patched_managed-IsNamed cs patched h)
  ]

  named_in-append :
      (xs ys : List PodContainer)
      → named_in managed (xs ++ ys) ≡ named_in managed xs ++ named_in managed ys
  named_in-append [] ys = refl
  named_in-append (x ∷ xs) ys = ground (arith, named_in-append xs ys)

  not_named_in-append :
      (xs ys : List PodContainer)
      → not_named_in managed (xs ++ ys) ≡ not_named_in managed xs ++ not_named_in managed ys
  not_named_in-append [] ys = refl
  not_named_in-append (x ∷ xs) ys = ground (arith, not_named_in-append xs ys)

  named_in-all : (xs : List PodContainer) → AllIn managed xs → named_in managed xs ≡ xs
  named_in-all [] h = refl
  named_in-all (x ∷ xs) h = ground (arith, named_in-all xs h.1)

  not_named_in-all : (xs : List PodContainer) → AllIn managed xs → not_named_in managed xs ≡ []
  not_named_in-all [] h = refl
  not_named_in-all (x ∷ xs) h = ground (arith, not_named_in-all xs h.1)

  append_nil : (xs : List PodContainer) → xs ++ [] ≡ xs
  append_nil [] = refl
  append_nil (x ∷ xs) = ap (λ ys. x ∷ ys) (append_nil xs)

  -- Nothing is placed where nothing is managed.
  named_in-restore_loop :
      (cs next : List PodContainer)
      → AllIn managed next
      → named_in managed (restore_loop managed next cs)
        ≡ (if more_managed managed cs then next else [])
  unfolding restore_loop more_managed
  named_in-restore_loop [] next h = refl
  named_in-restore_loop (c ∷ cs) [] h = ground (arith, named_in-restore_loop cs [] tt)
  named_in-restore_loop (c ∷ cs) (n ∷ ns) h = ground (
    arith,
    named_in-restore_loop cs (n ∷ ns) h,
    named_in-restore_loop cs ns h.1,
    named_in-restore_loop cs [] tt,
    named_in-append ns (restore_loop managed [] cs),
    named_in-all ns h.1,
    append_nil ns,
  )

  not_named_in-restore_loop :
      (cs next : List PodContainer)
      → AllIn managed next
      → not_named_in managed (restore_loop managed next cs) ≡ not_named_in managed cs
  unfolding restore_loop
  not_named_in-restore_loop [] next h = refl
  not_named_in-restore_loop (c ∷ cs) [] h = ground (arith, not_named_in-restore_loop cs [] tt)
  not_named_in-restore_loop (c ∷ cs) (n ∷ ns) h = ground (
    arith,
    not_named_in-restore_loop cs (n ∷ ns) h,
    not_named_in-restore_loop cs ns h.1,
    not_named_in-restore_loop cs [] tt,
    not_named_in-append ns (restore_loop managed [] cs),
    not_named_in-all ns h.1,
  )

  -- What restoreNativeSidecars makes of the restored containers.
  abbrev put_back : List PodContainer → List PodContainer → List PodContainer
  put_back next cs = elim (more_managed managed cs) [
    | false ↦ next ++ restore_loop managed [] cs
    | true ↦ restore_loop managed next cs
  ]

  named_in-put_back :
      (cs next : List PodContainer)
      → AllIn managed next
      → named_in managed (put_back next cs) ≡ next
  named_in-put_back cs next h = ground (
    arith,
    named_in-restore_loop cs next h,
    named_in-restore_loop cs [] tt,
    named_in-append next (restore_loop managed [] cs),
    named_in-all next h,
    append_nil next,
  )

  not_named_in-put_back :
      (cs next : List PodContainer)
      → AllIn managed next
      → not_named_in managed (put_back next cs) ≡ not_named_in managed cs
  not_named_in-put_back cs next h = ground (
    arith,
    not_named_in-restore_loop cs next h,
    not_named_in-restore_loop cs [] tt,
    not_named_in-append next (restore_loop managed [] cs),
    not_named_in-all next h,
  )

pod_container_names-of_slots :
    (xs ys : List PodContainer)
    → slots xs ≡ slots ys
    → pod_container_names xs ≡ pod_container_names ys
pod_container_names-of_slots xs ys e =
    sym (names xs) ∙ ap (map (λ (p : String × Option String). p.0)) e ∙ names ys
  where
    names :
        (zs : List PodContainer)
        → map (λ (p : String × Option String). p.0) (slots zs) ≡ pod_container_names zs
    names [] = refl
    names (z ∷ zs) = ap (λ ns. z.name ∷ ns) (names zs)

all-AllIn :
    (xs : List PodContainer) (managed : List String)
    → ((k : String) → contains (pod_container_names xs) k ≡ true → contains managed k ≡ true)
    → AllIn managed xs
all-AllIn [] managed h = tt
all-AllIn (x ∷ xs) managed h =
    (h x.name (ground arith), all-AllIn xs managed (λ k e. h k (ground arith)))

-- Whatever containers a patch leaves, after the captured native sidecars are put back those of
-- their names are the captured ones in the captured order, each with its restart policy, and the
-- other init containers are those of the patched pod in its order.
pub restore_native_sidecars-slots :
    (expected init_containers : List PodContainer)
    → (let restored = restore_native_sidecars expected init_containers in
        let managed = pod_container_names expected in
        (slots (named_in managed restored) ≡ slots expected)
        × (not_named_in managed restored ≡ not_named_in managed init_containers))
unfolding restore_native_sidecars
restore_native_sidecars-slots expected init_containers =
    let managed = pod_container_names expected in
    let patched = patched_managed managed init_containers [] in
    let back = restored_expected patched expected in
    let same =
      slots-restored_expected patched expected
        (patched_managed-IsNamed managed init_containers [] (λ k c e. absurd (none-ne-some c e))) in
    let inside = all-AllIn back managed (λ k e.
      subst (λ names. contains names k ≡ true) (pod_container_names-of_slots back expected same)
        e) in
    (
      ap slots (named_in-put_back managed init_containers back inside) ∙ same,
      not_named_in-put_back managed init_containers back inside,
    )
