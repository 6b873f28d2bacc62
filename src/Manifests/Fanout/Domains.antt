-- ===== src/Manifests/Fanout/Domains.antt =====
-- Which domains the controlplane has Deployments for.
use yanet_operator.Base.{
  ◌≡◌, ℕ, zero, suc, ◌+◌, true, not, ◌&&◌, Option, none, some, List, arith, contains, nat_eq,
  string_eq, int_eq, option_eq, ltb, leb, ok, ℤ, pos, negsuc, ◌<ℤ◌,
}
use yanet_operator.Api.Types.{ControlplaneSpec}
use yanet_operator.Api.Numa.{validate_disabled_numa, numa_or_one}
use yanet_operator.Api.Numa.Remaining.{validate_disabled_numa_iff, IsCount}
use yanet_operator.Resolve.{Resolved, int32_value}
use yanet_operator.Manifests.Fanout.{effective_numa, rounds, fanout_from, controlplane_fanout}

contains-fanout_from :
    (disabled : List ℤ) (j i n : ℕ)
    → contains (fanout_from disabled i n) j
      ≡ (leb i j && ltb j (i + n) && not (contains disabled (pos j)))
unfolding fanout_from
contains-fanout_from disabled j i zero = ground arith
contains-fanout_from disabled j i (suc n) =
    ground (arith, contains-fanout_from disabled j (suc i) n)

-- A domain has a Deployment exactly when it lies below the effective count and is not disabled.
pub contains-controlplane_fanout :
    (S : Type 0) (component : Resolved S) (j : ℕ)
    → contains (controlplane_fanout S component) j ≡ (
        ltb j (rounds (effective_numa component.numa))
        && not (contains component.disabled_numa (pos j)))
unfolding controlplane_fanout
contains-controlplane_fanout S component j = ground (
  arith,
  contains-fanout_from component.disabled_numa j 0 (rounds (effective_numa component.numa)),
)

below_effective :
    (numa : Option ℤ) (i : ℕ)
    → IsCount numa
    → pos i <ℤ numa_or_one numa
    → ltb i (rounds (effective_numa (int32_value numa (pos 0)))) ≡ true
unfolding effective_numa int_eq native.Mathlib.Decide.ℕ_discrete
below_effective none i c h = ground arith
below_effective (some (pos zero)) i c h = absurd (omega arith)
below_effective (some (pos (suc k))) i c h = ground arith
below_effective (some (negsuc n)) i c h = absurd (omega arith)

-- If the palette's controlplane settings are admitted, a component with its count and its disabled
-- indices has a Deployment for some domain.
pub controlplane_fanout-of_admitted :
    (S : Type 0) (cp : ControlplaneSpec) (component : Resolved S)
    → validate_disabled_numa cp ≡ ok tt
    → component.numa ≡ int32_value cp.numa (pos 0)
    → component.disabled_numa ≡ cp.disabled_numa
    → (i : ℕ) × (contains (controlplane_fanout S component) i ≡ true)
controlplane_fanout-of_admitted S cp component h n d =
    let (c, x, (i, e)) = (validate_disabled_numa_iff cp).0 h in
    (i, ground (arith, contains-controlplane_fanout S component i, below_effective cp.numa i c e.0))
