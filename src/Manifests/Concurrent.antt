-- ===== src/Manifests/Concurrent.antt =====
-- validateConcurrentPodPorts (internal/manifests/pod_ports.go).
pub mod Accepted
use yanet_operator.Base.{
  Bool, true, false, not, Option, none, some, List, [], ◌∷◌, String, ◌==◌, if◌then◌else◌, nat_eq,
  string_eq, int_eq, option_eq, Result, ok, ◌>>=◌, ◌>>◌, fail_if, ℤ,
}
use yanet_operator.Base.{pair_eq}
use yanet_operator.Base.Dict.{Dict, lookup, insert}

-- containerPort and protocol of a corev1.ContainerPort.
pub record ContainerPort : Type 0 where
  pub number : ℤ
  pub protocol : String

-- `restarts_always` tells that the restart policy is set to Always.
pub record Container : Type 0 where
  pub name : String
  pub ports : List ContainerPort
  pub restarts_always : Bool

pub record PodContainers : Type 0 where
  pub containers : List Container
  pub init_containers : List Container

abbrev pub PortKey : Type 0
PortKey = ℤ × String

-- The closure key: an empty protocol is TCP.
abbrev pub key : ContainerPort → PortKey
key port = (port.number, if port.protocol == "" then "TCP" else port.protocol)

-- The owner recorded, the container and the port.
pub data Clash : Type 0 where
  same_port : String → String → ContainerPort → Clash

abbrev pub is_other : Option String → String → Bool
is_other none name = false
is_other (some owner) name = not (owner == name)

abbrev owner_name : Option String → String
owner_name none = ""
owner_name (some owner) = owner

-- The closure check.
unfoldable pub check_ports :
    Dict PortKey String → String → List ContainerPort → Result Clash (Unit {0})
check_ports occupied name [] = ok tt
check_ports occupied name (p ∷ ps) =
    fail_if (is_other (lookup (key p) occupied) name)
      (same_port (owner_name (lookup (key p) occupied)) name p)
    >> check_ports occupied name ps

-- The closure reserve.
unfoldable pub reserve : String → List ContainerPort → Dict PortKey String → Dict PortKey String
unfolding insert
reserve name [] occupied = occupied
reserve name (p ∷ ps) occupied = reserve name ps (insert (key p) name occupied)

unfoldable pub containers_loop :
    Dict PortKey String → List Container → Result Clash (Dict PortKey String)
unfolding check_ports reserve
containers_loop persistent [] = ok persistent
containers_loop persistent (c ∷ cs) =
    check_ports persistent c.name c.ports >> containers_loop (reserve c.name c.ports persistent) cs

unfoldable pub init_containers_loop :
    Dict PortKey String → Dict PortKey String → List Container → Result Clash (Unit {0})
unfolding check_ports reserve
init_containers_loop persistent sidecars [] = ok tt
init_containers_loop persistent sidecars (c ∷ cs) = elim c.restarts_always [
  | true ↦
      check_ports persistent c.name c.ports
      >> init_containers_loop (reserve c.name c.ports persistent) (reserve c.name c.ports sidecars)
          cs
  | false ↦ check_ports sidecars c.name c.ports >> init_containers_loop persistent sidecars cs
]

unfoldable pub validate_concurrent_pod_ports : PodContainers → Result Clash (Unit {0})
unfolding containers_loop init_containers_loop
validate_concurrent_pod_ports pod = containers_loop [] pod.containers >>= λ persistent.
    init_containers_loop persistent [] pod.init_containers
