-- ===== src/Manifests/Concurrent/Accepted.antt =====
-- Which pods validateConcurrentPodPorts accepts.
use yanet_operator.Base.{
  ◌≡◌, refl, ◌↔◌, ◌⊎◌, true, false, some, List, [], ◌∷◌, arith, String, contains, if◌then◌else◌,
  nat_eq, string_eq, int_eq, option_eq, ok, >>=-eq-ok, All,
}
use yanet_operator.Base.{pair_eq, subst, ok_inj}
use yanet_operator.Base.Dict.{Dict, lookup, insert, lookup-insert}
use yanet_operator.Manifests.Concurrent.{
  ContainerPort, Container, PodContainers, PortKey, key, is_other, check_ports, reserve,
  containers_loop, init_containers_loop, validate_concurrent_pod_ports,
}

abbrev keys_of : List ContainerPort → List PortKey
keys_of [] = []
keys_of (p ∷ ps) = key p ∷ keys_of ps

-- The two use no port of the same number and protocol, or have the same name.
abbrev pub Compatible : Container → Container → Type 0
Compatible d c = (d.name ≡ c.name) ⊎ All (λ p. contains (keys_of d.ports) (key p) ≡ false) c.ports

abbrev Fits : Dict PortKey String → String → List ContainerPort → Type 0
Fits occupied name ps = All (λ p. is_other (lookup (key p) occupied) name ≡ false) ps

check_ports_iff :
    (occupied : Dict PortKey String) (name : String) (ps : List ContainerPort)
    → (check_ports occupied name ps ≡ ok tt) ↔ Fits occupied name ps
unfolding check_ports
check_ports_iff occupied name [] = ground arith
check_ports_iff occupied name (p ∷ ps) = ground (arith, check_ports_iff occupied name ps)

lookup-reserve :
    (k : PortKey) (name : String) (ps : List ContainerPort) (occupied : Dict PortKey String)
    → lookup k (reserve name ps occupied)
      ≡ (if contains (keys_of ps) k then some name else lookup k occupied)
unfolding reserve
lookup-reserve k name [] occupied = refl
lookup-reserve k name (p ∷ ps) occupied = ground (
  arith,
  lookup-reserve k name ps (insert (key p) name occupied),
  lookup-insert k (key p) name occupied,
)

-- A recorded owner of a key that the container has is the container's name.
Fits-key :
    (occupied : Dict PortKey String) (name : String) (ps : List ContainerPort) (k : PortKey)
    → Fits occupied name ps
    → contains (keys_of ps) k ≡ true
    → is_other (lookup k occupied) name ≡ false
Fits-key occupied name [] k f h = cc
Fits-key occupied name (p ∷ ps) k f h = ground (arith, Fits-key occupied name ps k f.1)

Fits-reserve_one :
    (occupied : Dict PortKey String) (d : Container) (name : String) (p : ContainerPort)
    → Fits occupied d.name d.ports
    → (is_other (lookup (key p) (reserve d.name d.ports occupied)) name ≡ false) ↔ (
        ((d.name ≡ name) ⊎ (contains (keys_of d.ports) (key p) ≡ false))
        × (is_other (lookup (key p) occupied) name ≡ false))
Fits-reserve_one occupied d name p f = ground (
  arith,
  lookup-reserve (key p) d.name d.ports occupied,
  Fits-key occupied d.name d.ports (key p) f,
)

Fits-reserve :
    (occupied : Dict PortKey String) (d : Container) (name : String) (ps : List ContainerPort)
    → Fits occupied d.name d.ports
    → Fits (reserve d.name d.ports occupied) name ps ↔ (
        ((d.name ≡ name) ⊎ All (λ p. contains (keys_of d.ports) (key p) ≡ false) ps)
        × Fits occupied name ps)
Fits-reserve occupied d name [] f = ground arith
Fits-reserve occupied d name (p ∷ ps) f =
    ground (arith, Fits-reserve occupied d name ps f, Fits-reserve_one occupied d name p f)

-- The map of owners stands for the containers reserved so far.
abbrev Represents : Dict PortKey String → List Container → Type 0
Represents occupied reserved =
    (c : Container) → Fits occupied c.name c.ports ↔ All (λ d. Compatible d c) reserved

empty-Represents : Represents [] []
empty-Represents c = (λ f. tt, λ t. none_there c.ports)
  where
    none_there : (ps : List ContainerPort) → Fits [] c.name ps
    none_there [] = tt
    none_there (p ∷ ps) = (refl, none_there ps)

reserve-Represents :
    (occupied : Dict PortKey String) (reserved : List Container) (d : Container)
    → Represents occupied reserved
    → Fits occupied d.name d.ports
    → Represents (reserve d.name d.ports occupied) (d ∷ reserved)
reserve-Represents occupied reserved d r f c =
    ground (arith, Fits-reserve occupied d c.name c.ports f, r c)

-- Each container is compatible with those reserved before it, whose list grows.
abbrev pub Admits : List Container → List Container → Type 0
Admits reserved [] = Unit
Admits reserved (c ∷ cs) = All (λ d. Compatible d c) reserved × Admits (c ∷ reserved) cs

-- The same for the init containers: one that restarts must be compatible with every container that
-- keeps running, another one with the restarting ones before it.
abbrev pub InitsAdmit : List Container → List Container → List Container → Type 0
InitsAdmit persistent sidecars [] = Unit
InitsAdmit persistent sidecars (c ∷ cs) = elim c.restarts_always [
  | true ↦ All (λ d. Compatible d c) persistent × InitsAdmit (c ∷ persistent) (c ∷ sidecars) cs
  | false ↦ All (λ d. Compatible d c) sidecars × InitsAdmit persistent sidecars cs
]

abbrev pub stack : List Container → List Container → List Container
stack [] reserved = reserved
stack (c ∷ cs) reserved = stack cs (c ∷ reserved)

containers_loop_sound :
    (occupied out : Dict PortKey String) (reserved cs : List Container)
    → Represents occupied reserved
    → containers_loop occupied cs ≡ ok out
    → Admits reserved cs × Represents out (stack cs reserved)
unfolding containers_loop
containers_loop_sound occupied out reserved [] r e =
    (tt, subst (λ o. Represents o reserved) (ok_inj e) r)
containers_loop_sound occupied out reserved (c ∷ cs) r e =
    let (_, q, e') = >>=-eq-ok (check_ports occupied c.name c.ports) _ e in
    let f = (check_ports_iff occupied c.name c.ports).0 q in
    let (a, r') =
      containers_loop_sound (reserve c.name c.ports occupied) out (c ∷ reserved) cs
        (reserve-Represents occupied reserved c r f) e' in
    (((r c).0 f, a), r')

containers_loop_complete :
    (occupied : Dict PortKey String) (reserved cs : List Container)
    → Represents occupied reserved
    → Admits reserved cs
    → (out : Dict PortKey String) × (containers_loop occupied cs ≡ ok out)
unfolding containers_loop
containers_loop_complete occupied reserved [] r a = (occupied, refl)
containers_loop_complete occupied reserved (c ∷ cs) r a =
    let f = (r c).1 a.0 in
    let (out, q) =
      containers_loop_complete (reserve c.name c.ports occupied) (c ∷ reserved) cs
        (reserve-Represents occupied reserved c r f) a.1 in
    (out, rw ((check_ports_iff occupied c.name c.ports).1 f) q)

-- What keeps running includes the restarting init containers.
abbrev Covers : List Container → List Container → Type 0
Covers persistent sidecars =
    (c : Container) → All (λ d. Compatible d c) persistent → All (λ d. Compatible d c) sidecars

init_containers_loop_iff :
    (occupied running : Dict PortKey String) (persistent sidecars cs : List Container)
    → Represents occupied persistent
    → Represents running sidecars
    → Covers persistent sidecars
    → (init_containers_loop occupied running cs ≡ ok tt) ↔ InitsAdmit persistent sidecars cs
unfolding init_containers_loop
init_containers_loop_iff occupied running persistent sidecars [] rp rs v = ground arith
init_containers_loop_iff occupied running persistent sidecars (c ∷ cs) rp rs v =
    let restarting = λ (f : Fits occupied c.name c.ports).
      init_containers_loop_iff (reserve c.name c.ports occupied) (reserve c.name c.ports running)
        (c ∷ persistent) (c ∷ sidecars) cs (reserve-Represents occupied persistent c rp f)
        (reserve-Represents running sidecars c rs ((rs c).1 (v c ((rp c).0 f))))
        (λ x h. (h.0, v x h.1)) in
    ground (
      arith,
      rp c,
      rs c,
      check_ports_iff occupied c.name c.ports,
      check_ports_iff running c.name c.ports,
      restarting,
      init_containers_loop_iff occupied running persistent sidecars cs rp rs v,
    )

-- A pod is accepted exactly when any two of its containers are compatible, a restarting init
-- container is compatible with every container and every restarting init container before it, and
-- any other init container with the restarting ones before it: compatible containers use no port
-- of the same number and protocol, or have the same name.
pub validate_concurrent_pod_ports_iff :
    (pod : PodContainers)
    → (validate_concurrent_pod_ports pod ≡ ok tt)
      ↔ (Admits [] pod.containers × InitsAdmit (stack pod.containers []) [] pod.init_containers)
unfolding validate_concurrent_pod_ports
validate_concurrent_pod_ports_iff pod = (
  λ e.
      let (out, q, e') = >>=-eq-ok (containers_loop [] pod.containers) _ e in
      let (a, r) = containers_loop_sound [] out [] pod.containers empty-Represents q in
      (
        a,
        (init_containers_loop_iff out [] (stack pod.containers []) [] pod.init_containers r
              empty-Represents (λ c h. tt)).0
            e',
      ),
  λ (a, i).
      let (out, q) = containers_loop_complete [] [] pod.containers empty-Represents a in
      let (_, r) = containers_loop_sound [] out [] pod.containers empty-Represents q in
      rw q (
        (init_containers_loop_iff out [] (stack pod.containers []) [] pod.init_containers r
            empty-Represents (λ c h. tt)).1
          i),
)
