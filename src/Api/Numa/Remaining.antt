-- ===== src/Api/Numa/Remaining.antt =====
-- validateDisabledNuma leaves at least one NUMA domain: the counting argument.
use yanet_operator.Base.{
  ◌≡◌, refl, ◌↔◌, ℕ, zero, suc, ◌≤◌, ◌<◌, false, ◌||◌, Option, none, some, inl, inr, List, [], ◌∷◌,
  arith, ok, ◌>>◌, contains, if◌then◌else◌, ℤ, pos, negsuc, ◌<ℤ◌, int_eq, All, Distinct, Bool-cases,
  >>=-eq-ok,
}
use yanet_operator.Api.Types.{ControlplaneSpec}
use yanet_operator.Api.Numa.{
  validate_controlplane_numa, IsIndex, collect_indices, count_below, numa_or_one, check_numa,
  check_remaining, validate_disabled_numa, count_below-suc, count_below-zero,
}

module _ (seen : List ℤ) (h : All IsIndex seen) (d : Distinct seen) where
  count_below-le : (k : ℕ) → count_below (pos k) seen ≤ k
  count_below-le zero = omega (arith, count_below-zero seen h)
  count_below-le (suc k) = ground (arith, count_below-suc k seen h d, count_below-le k)

  missing :
      (k : ℕ) → count_below (pos k) seen < k → (i : ℕ) × (i < k) × (contains seen (pos i) ≡ false)
  missing zero lt = elim lt [ ]
  missing (suc k) lt = elim (Bool-cases (contains seen (pos k))) [
    | inl m ↦
        let (i, below, free) = missing k (ground (arith, count_below-suc k seen h d)) in
        (i, omega arith, free)
    | inr free ↦ (k, omega arith, free)
  ]

  count_below-lt : (k i : ℕ) → i < k → contains seen (pos i) ≡ false → count_below (pos k) seen < k
  count_below-lt zero i lt free = elim lt [ ]
  count_below-lt (suc k) i lt free =
      ground (arith, count_below-suc k seen h d, count_below-le k, count_below-lt k i)

collect_indices_lem :
    (a : ℤ) (seen ns s : List ℤ)
    → collect_indices seen ns ≡ ok s
    → All IsIndex seen
    → Distinct seen
    → All IsIndex ns
      × All IsIndex s
      × Distinct s
      × (contains s a ≡ (contains seen a || contains ns a))
unfolding collect_indices
collect_indices_lem a seen [] s e h d = ground arith
collect_indices_lem a seen (n ∷ ns) s e h d = elim (Bool-cases (contains seen n)) [
  | inl old ↦ ground (arith, collect_indices_lem a seen ns s)
  | inr new ↦ ground (arith, collect_indices_lem a (n ∷ seen) ns s)
]

collect_indices_total :
    (seen ns : List ℤ) → All IsIndex ns → (s : List ℤ) × (collect_indices seen ns ≡ ok s)
unfolding collect_indices
collect_indices_total seen [] h = (seen, refl)
collect_indices_total seen (n ∷ ns) h =
    let (s, e) = collect_indices_total (if contains seen n then seen else n ∷ seen) ns h.1 in
    (s, ground arith)

-- The index is below the count and not disabled.
abbrev pub IsEnabled : ℤ → List ℤ → ℕ → Type 0
IsEnabled count disabled i = (pos i <ℤ count) × (contains disabled (pos i) ≡ false)

check_remaining_lem :
    (k : ℕ) (ns : List ℤ)
    → check_remaining ns (pos (suc k)) ≡ ok tt
    → All IsIndex ns × ((i : ℕ) × IsEnabled (pos (suc k)) ns i)
check_remaining_lem k [] e = (tt, (0, (omega arith, refl)))
check_remaining_lem k (n ∷ ns) e =
    let (s, c, e') = >>=-eq-ok (collect_indices [] (n ∷ ns)) _ e in
    let (h, index, distinct, _) = collect_indices_lem (pos 0) [] (n ∷ ns) s c tt tt in
    let (i, below, free) = missing s index distinct (suc k) (ground arith) in
    let (_, _, _, same) = collect_indices_lem (pos i) [] (n ∷ ns) s c tt tt in
    (h, (i, (omega arith, ground arith)))

check_remaining_total :
    (k : ℕ) (ns : List ℤ) (i : ℕ)
    → All IsIndex ns
    → IsEnabled (pos k) ns i
    → check_remaining ns (pos k) ≡ ok tt
check_remaining_total k [] i h free = refl
check_remaining_total k (n ∷ ns) i h free =
    let (s, e) = collect_indices_total [] (n ∷ ns) h in
    let (_, index, distinct, same) = collect_indices_lem (pos i) [] (n ∷ ns) s e tt tt in
    ground (arith, count_below-lt s index distinct k i)

abbrev pub IsCount : Option ℤ → Type 0
IsCount none = Unit
IsCount (some count) = (pos 0 <ℤ count) × (count <ℤ pos 5)

abbrev pub HasDomain : ControlplaneSpec → Type 0
HasDomain cp =
    IsCount cp.numa
    × All IsIndex cp.disabled_numa
    × ((i : ℕ) × IsEnabled (numa_or_one cp.numa) cp.disabled_numa i)

check_numa_iff : (numa : Option ℤ) → (check_numa numa ≡ ok tt) ↔ IsCount numa
unfolding validate_controlplane_numa
check_numa_iff none = ground arith
check_numa_iff (some (pos n)) = ground arith
check_numa_iff (some (negsuc n)) = ground arith

numa_or_one_lem : (numa : Option ℤ) → IsCount numa → (k : ℕ) × (numa_or_one numa ≡ pos (suc k))
numa_or_one_lem none h = (0, refl)
numa_or_one_lem (some (pos zero)) h = absurd (omega arith)
numa_or_one_lem (some (pos (suc k))) h = (k, refl)
numa_or_one_lem (some (negsuc n)) h = absurd (omega arith)

remaining :
    (numa : Option ℤ) (ns : List ℤ)
    → IsCount numa
    → check_remaining ns (numa_or_one numa) ≡ ok tt
    → All IsIndex ns × ((i : ℕ) × IsEnabled (numa_or_one numa) ns i)
remaining numa ns c e =
    let (k, q) = numa_or_one_lem numa c in rw q (check_remaining_lem k ns (rw q at e))

-- The controlplane settings are admitted exactly when the NUMA count, if given, is between 1 and
-- 4, no disabled index is negative, and some index below the count (below 1 if none is given) is
-- not disabled.
pub validate_disabled_numa_iff :
    (cp : ControlplaneSpec) → (validate_disabled_numa cp ≡ ok tt) ↔ HasDomain cp
unfolding validate_disabled_numa
validate_disabled_numa_iff cp = (forth, back)
  where
    forth :
        (check_numa cp.numa >> check_remaining cp.disabled_numa (numa_or_one cp.numa)) ≡ ok tt
        → HasDomain cp
    forth e =
        let (_, n, r) = >>=-eq-ok (check_numa cp.numa) _ e in
        let c = (check_numa_iff cp.numa).0 n in
        let (h, i) = remaining cp.numa cp.disabled_numa c r in (c, h, i)

    back :
        HasDomain cp
        → (check_numa cp.numa >> check_remaining cp.disabled_numa (numa_or_one cp.numa)) ≡ ok tt
    back (c, h, (i, en)) =
        let (k, q) = numa_or_one_lem cp.numa c in
        rw ((check_numa_iff cp.numa).1 c)
          (rw q (check_remaining_total (suc k) cp.disabled_numa i h (rw q at en)))
