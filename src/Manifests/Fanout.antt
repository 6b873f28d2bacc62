-- ===== src/Manifests/Fanout.antt =====
-- The NUMA domains that the controlplane has Deployments for: buildControlplaneFanout, with
-- effectiveNuma and disabledNumaSet (internal/manifests/builder.go). The loop of WithRuntimeNetwork
-- (runtime_network.go) over the gateways is the same.
pub mod Domains
use yanet_operator.Base.{
  ℕ, zero, suc, List, [], ◌∷◌, ◌==◌, contains, if◌then◌else◌, nat_eq, string_eq, int_eq, option_eq,
  ℤ, pos, negsuc,
}
use yanet_operator.Resolve.{Resolved}

unfoldable pub effective_numa : ℤ → ℤ
effective_numa numa = if numa == pos 0 then pos 1 else numa

-- The loop's rounds: none for a negative count.
abbrev pub rounds : ℤ → ℕ
rounds (pos n) = n
rounds (negsuc n) = 0

-- The loop from an index on. Membership in the set of disabled indices is that in its list.
unfoldable pub fanout_from : List ℤ → ℕ → ℕ → List ℕ
fanout_from disabled i zero = []
fanout_from disabled i (suc n) =
    let rest = fanout_from disabled (suc i) n in
    if contains disabled (pos i) then rest else i ∷ rest

unfoldable pub controlplane_fanout : (S : Type 0) → Resolved S → List ℕ
unfolding effective_numa fanout_from
controlplane_fanout S component =
    fanout_from component.disabled_numa 0 (rounds (effective_numa component.numa))
