-- ===== src/Manifests/Ports/Slots.antt =====
-- The ports of the sidecars of a palette.
use yanet_operator.Base.{
  ◌≡◌, sym, ap, ◌∙◌, ◌≢◌, ℕ, zero, suc, ◌+◌, ◌*◌, ◌≤◌, ◌<◌, some, List, [], ◌∷◌, arith, String,
  nat_eq, string_eq, int_eq, option_eq, ok, pos, length, get_elem?,
}
use yanet_operator.Api.Listeners.{runtime_grpc_port, runtime_http_port, max_dataplane_sidecars}
use yanet_operator.Api.Types.{
  BoxDataplane, BoxDataplaneSidecar, SidecarSpec, YanetConfigSpec, YanetSpec,
}
use mathlib.Core.Option.{some-ne-none, some-injective}
use yanet_operator.Base.{subst}
use yanet_operator.Base.Dict.{Dict}
use yanet_operator.Resolve.{ResolvedSidecar, sidecar}
use yanet_operator.Resolve.Sidecars.{resolve_dataplane_sidecars}
use yanet_operator.Resolve.Sidecars.Slots.{
  IsSlotted, resolve_dataplane_sidecars-IsSlotted, resolve_dataplane_sidecars_iff,
}
use yanet_operator.Manifests.Ports.{runtime_port_pair}

get_elem-slot :
    (slots : Dict String BoxDataplaneSidecar) (index : ℕ) (ss : List SidecarSpec)
    (rs : List ResolvedSidecar)
    → IsSlotted slots index ss rs
    → (i : ℕ) (r : ResolvedSidecar) → get_elem? rs i ≡ some r
    → (r.kind ≡ sidecar) × (r.port_index ≡ pos (index + i)) × (i < length ss)
get_elem-slot slots index [] [] h i r e = absurd (some-ne-none r (sym e))
get_elem-slot slots index [] (q ∷ rs) h i r e = ground (arith, h)
get_elem-slot slots index (s ∷ ss) [] h i r e = absurd h
get_elem-slot slots index (s ∷ ss) (q ∷ rs) h zero r e =
    subst (λ x. (x.kind ≡ sidecar) × (x.port_index ≡ pos (index + 0)) × (0 < suc (length ss)))
      (some-injective q r e) (h.0, h.2 ∙ ap pos (omega arith), omega arith)
get_elem-slot slots index (s ∷ ss) (q ∷ rs) h (suc i) r e =
    let (k, p, l) = get_elem-slot slots (suc index) ss rs h.6 i r e in
    (k, p ∙ ap pos (omega arith), omega arith)

runtime_port_pair-slot :
    (r : ResolvedSidecar) (i : ℕ)
    → r.kind ≡ sidecar
    → r.port_index ≡ pos i
    → i < max_dataplane_sidecars
    → runtime_port_pair ⊥ r ≡ ok (runtime_grpc_port + 2 * i, runtime_http_port + 2 * i)
unfolding runtime_port_pair
runtime_port_pair-slot r i k p h = ground arith

-- The sidecar at an index of a resolved palette has the two ports of its own slot, both within the
-- range of TCP ports, and no port of a sidecar is a port of one at another index.
pub runtime_port_pair-disjoint :
    (short_key : String → String) (config : YanetConfigSpec) (yanet : YanetSpec)
    (box : BoxDataplane) (rs : List ResolvedSidecar)
    → resolve_dataplane_sidecars short_key config yanet box ≡ ok rs
    → (i j : ℕ) (r s : ResolvedSidecar) → get_elem? rs i ≡ some r
    → get_elem? rs j ≡ some s
    → i ≢ j
    → (a b c d : ℕ) × (runtime_port_pair ⊥ r ≡ ok (a, b))
      × (runtime_port_pair ⊥ s ≡ ok (c, d))
      × (a ≤ 65535)
      × (b ≤ 65535)
      × (a ≢ b)
      × (a ≢ c)
      × (a ≢ d)
      × (b ≢ c)
      × (b ≢ d)
runtime_port_pair-disjoint short_key config yanet box rs e i j r s ri sj h =
    let slotted = resolve_dataplane_sidecars-IsSlotted short_key config yanet box rs e in
    let fits = ((resolve_dataplane_sidecars_iff short_key config yanet box).0 (rs, e)).0 in
    let (rk, rp, ib) =
      get_elem-slot box.sidecars 0 config.components.dataplane.sidecars rs slotted i r ri in
    let (sk, sp, jb) =
      get_elem-slot box.sidecars 0 config.components.dataplane.sidecars rs slotted j s sj in
    (
      runtime_grpc_port + 2 * i,
      runtime_http_port + 2 * i,
      runtime_grpc_port + 2 * j,
      runtime_http_port + 2 * j,
      runtime_port_pair-slot r i rk (rp ∙ ap pos (omega arith)) (omega arith),
      runtime_port_pair-slot s j sk (sp ∙ ap pos (omega arith)) (omega arith),
      omega arith,
      omega arith,
      λ q. omega arith,
      λ q. omega arith,
      λ q. omega arith,
      λ q. omega arith,
      λ q. omega arith,
    )
