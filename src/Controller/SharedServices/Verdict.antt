-- ===== src/Controller/SharedServices/Verdict.antt =====
-- What the planning of reconcileSharedServices (internal/controller/shared_services.go) makes of a
-- list of valid Services, key by key.
use yanet_operator.Base.{
  ◌≡◌, refl, sym, ap, ◌∙◌, ◌↔◌, ◌⊎◌, inl, inr, Bool, true, false, not, ◌||◌, ◌&&◌, none, some, List,
  [], ◌∷◌, ◌++◌, arith, ◌==◌, contains, if◌then◌else◌, nat_eq, string_eq, int_eq, option_eq, All,
  Bool-cases, is_empty,
}
use yanet_operator.Base.{pair_eq, Pairs, subst}
use yanet_operator.Base.Dict.{lookup, has, lookup-insert, lookup-erase, has-lookup}
use yanet_operator.Manifests.Services.{ServiceSpec, Service}
use yanet_operator.Controller.SharedServices.{
  SharedServiceKey, key_of, Table, empty_table, differs_from, put_service,
}

abbrev pub with_key : SharedServiceKey → List Service → List Service
with_key k [] = []
with_key k (s ∷ ss) = let rest = with_key k ss in if k == key_of s then s ∷ rest else rest

-- What stands under a key.
data Verdict : Type 0 where
  absent ambiguous : Verdict
  kept : Service → Verdict

module _ (same_spec : ServiceSpec → ServiceSpec → Bool) where
  abbrev pub Same : Service → Service → Type 0
  Same s r = same_spec s.spec r.spec ≡ true

  abbrev pub put_list : List Service → Table → Table
  put_list [] t = t
  put_list (s ∷ ss) t = put_list ss (put_service same_spec s t)

  pub put_list-append :
      (xs ys : List Service) (t : Table) → put_list (xs ++ ys) t ≡ put_list ys (put_list xs t)
  put_list-append [] ys t = refl
  put_list-append (x ∷ xs) ys t = put_list-append xs ys (put_service same_spec x t)

  abbrev step : Verdict → Service → Verdict
  step absent s = kept s
  step ambiguous s = ambiguous
  step (kept p) s = if same_spec p.spec s.spec then kept s else ambiguous

  abbrev run : Verdict → List Service → Verdict
  run v [] = v
  run v (s ∷ ss) = run (step v s) ss

  abbrev Shows : SharedServiceKey → Verdict → Table → Type 0
  Shows k absent t = (lookup k t.desired ≡ none) × (contains t.blocked k ≡ false)
  Shows k ambiguous t = (lookup k t.desired ≡ none) × (contains t.blocked k ≡ true)
  Shows k (kept s) t = (lookup k t.desired ≡ some s) × (contains t.blocked k ≡ false)

  pub lookup-put_service :
      (k : SharedServiceKey) (s : Service) (t : Table)
      → lookup k (put_service same_spec s t).desired ≡ (
          if k == key_of s && not (contains t.blocked k)
          then if differs_from same_spec (lookup k t.desired) s then none else some s
          else lookup k t.desired)
  unfolding put_service
  lookup-put_service k s t =
      ground (arith, lookup-insert k (key_of s) s t.desired, lookup-erase k (key_of s) t.desired)

  contains-put_service :
      (k : SharedServiceKey) (s : Service) (t : Table)
      → contains (put_service same_spec s t).blocked k
        ≡ (contains t.blocked k || k == key_of s && differs_from same_spec (lookup k t.desired) s)
  unfolding put_service
  contains-put_service k s t = ground arith

  Shows-put_same :
      (k : SharedServiceKey) (v : Verdict) (s : Service) (t : Table)
      → (k == key_of s) ≡ true
      → Shows k v t
      → Shows k (step v s) (put_service same_spec s t)
  Shows-put_same k absent s t e h =
      rw (lookup-put_service k s t, contains-put_service k s t, e, h.0, h.1) (refl, refl)
  Shows-put_same k ambiguous s t e h =
      rw (lookup-put_service k s t, contains-put_service k s t, e, h.0, h.1) (refl, refl)
  Shows-put_same k (kept p) s t e h = elim (Bool-cases (same_spec p.spec s.spec)) [
    | inl same ↦
        rw (same) (
          rw (lookup-put_service k s t, contains-put_service k s t, e, h.0, h.1, same) (refl, refl))
    | inr other ↦
        rw (other) (
          rw (lookup-put_service k s t, contains-put_service k s t, e, h.0, h.1, other)
            (refl, refl))
  ]

  Shows-put_other :
      (k : SharedServiceKey) (v : Verdict) (s : Service) (t : Table)
      → (k == key_of s) ≡ false
      → Shows k v t
      → Shows k v (put_service same_spec s t)
  Shows-put_other k absent s t e h =
      rw (lookup-put_service k s t, contains-put_service k s t, e, h.0, h.1) (refl, refl)
  Shows-put_other k ambiguous s t e h =
      rw (lookup-put_service k s t, contains-put_service k s t, e, h.0, h.1) (refl, refl)
  Shows-put_other k (kept p) s t e h =
      rw (lookup-put_service k s t, contains-put_service k s t, e, h.0, h.1) (refl, refl)

  Shows-put_list :
      (k : SharedServiceKey) (v : Verdict) (ss : List Service) (t : Table)
      → Shows k v t
      → Shows k (run v (with_key k ss)) (put_list ss t)
  Shows-put_list k v [] t h = h
  Shows-put_list k v (s ∷ ss) t h = elim (Bool-cases (k == key_of s)) [
    | inl e ↦
        rw e
          (Shows-put_list k (step v s) ss (put_service same_spec s t) (Shows-put_same k v s t e h))
    | inr e ↦ rw e (Shows-put_list k v ss (put_service same_spec s t) (Shows-put_other k v s t e h))
  ]

  -- Two Services in a row that agree pass the agreement on.
  run-ambiguous : (gs : List Service) → run ambiguous gs ≡ ambiguous
  run-ambiguous [] = refl
  run-ambiguous (g ∷ gs) = run-ambiguous gs

  run-Pairs :
      (p : Service) (gs : List Service)
      → Pairs Same (p ∷ gs)
      → (s : Service) × (run (kept p) gs ≡ kept s)
  run-Pairs p [] h = (p, refl)
  run-Pairs p (g ∷ gs) h = rw (h.0.0) (run-Pairs g gs h.1)

  -- What the table holds under a key, by the Services that have it.
  abbrev pub Agreed : SharedServiceKey → List Service → Table → Type 0
  Agreed k gs t =
      ((has k t.desired ≡ true) ↔ ((is_empty gs ≡ false) × Pairs Same gs))
      × ((contains t.blocked k ≡ true) ↔ ¬ (Pairs Same gs))

  module _ (trans : (s r q : Service) → Same s r → Same r q → Same s q) where
    All-Same : (p g : Service) (gs : List Service) → Same p g → All (Same g) gs → All (Same p) gs
    All-Same p g [] h hs = tt
    All-Same p g (x ∷ gs) h hs = (trans p g x h hs.0, All-Same p g gs h hs.1)

    Pairs-run : (p s : Service) (gs : List Service) → run (kept p) gs ≡ kept s → Pairs Same (p ∷ gs)
    Pairs-run p s [] h = (tt, tt)
    Pairs-run p s (g ∷ gs) h = elim (Bool-cases (same_spec p.spec g.spec)) [
      | inl e ↦
          let rest =
            Pairs-run g s gs
              (subst (λ v. run v gs ≡ kept s) (ap (λ b. if b then kept g else ambiguous) e) h) in
          ((e, All-Same p g gs e rest.0), rest)
      | inr e ↦
          let clash : ambiguous ≡ kept s =
            sym (run-ambiguous gs)
            ∙ subst (λ v. run v gs ≡ kept s) (ap (λ b. if b then kept g else ambiguous) e) h in
          cc
    ]

    run-kept :
        (p : Service) (gs : List Service)
        → ((s : Service) × (run (kept p) gs ≡ kept s)) ⊎ (run (kept p) gs ≡ ambiguous)
    run-kept p [] = inl (p, refl)
    run-kept p (g ∷ gs) = elim (Bool-cases (same_spec p.spec g.spec)) [
      | inl e ↦ rw e (run-kept g gs)
      | inr e ↦ rw e (inr (run-ambiguous gs))
    ]

    run-Agreed :
        (k : SharedServiceKey) (gs : List Service) (t : Table)
        → Shows k (run absent gs) t
        → Agreed k gs t
    run-Agreed k [] t h = ground (arith, has-lookup k t.desired)
    run-Agreed k (g ∷ gs) t h = elim (run-kept g gs) [
      | inl (s, e) ↦
          let shown : Shows k (kept s) t = subst (λ v. Shows k v t) e h in
          let pairs = Pairs-run g s gs e in
          ground (arith, has-lookup k t.desired, shown.0, shown.1, pairs)
      | inr e ↦
          let shown : Shows k ambiguous t = subst (λ v. Shows k v t) e h in
          let differ : ¬ (Pairs Same (g ∷ gs)) = λ ps.
            let (s, e') = run-Pairs g gs ps in let b : kept s ≡ ambiguous = sym e' ∙ e in cc in
          ground (arith, has-lookup k t.desired, shown.0, shown.1, differ)
    ]

    pub put_list-Agreed :
        (k : SharedServiceKey) (ss : List Service)
        → Agreed k (with_key k ss) (put_list ss empty_table)
    put_list-Agreed k ss =
        run-Agreed k (with_key k ss) (put_list ss empty_table)
          (Shows-put_list k absent ss empty_table (refl, refl))
