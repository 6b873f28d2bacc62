-- ===== src/Manifests/Ports.antt =====
-- The listeners of a role and its runtime ports (internal/manifests/listeners.go). The names of
-- target ports and of containers that hold a hash or a spelling of the kind are parameters.
pub mod Slots
use yanet_operator.Base.{
  ℕ, ◌+◌, ◌*◌, Bool, true, false, Option, none, some, List, [], ◌∷◌, map, String, ◌==◌,
  if◌then◌else◌, nat_eq, string_eq, int_eq, option_eq, ltb, Result, ok, err, ℤ, pos, negsuc,
}
use yanet_operator.Api.Listeners.{runtime_grpc_port, runtime_http_port, max_dataplane_sidecars}
use yanet_operator.Resolve.{ComponentKind, controlplane, dataplane, sidecar, Resolved}

pub record ListenerPort : Type 0 where
  pub name : String
  pub target_port_name : String
  pub service_port : ℕ

pub data PortError : Type 0 where
  invalid_slot : String → PortError

abbrev pub is_sidecar : ComponentKind → Bool
is_sidecar sidecar = true
is_sidecar k = false

-- Slices of the two protocols, which a controlplane listens on and a role without a declared list
-- has by default.
abbrev pub listener_names_of : ComponentKind → Option (List String) → List String
listener_names_of controlplane declared = "grpc" ∷ "http" ∷ []
listener_names_of k none = "grpc" ∷ []
listener_names_of k (some ls) = ls

module _ (S : Type 0) where
  -- IsColocated
  abbrev pub is_colocated : Resolved S → Bool
  is_colocated component = is_sidecar component.kind

  -- The slot's bounds are tested before the offset is taken, so that no int32 wraps.
  abbrev pub slot_pair : String → ℤ → Result PortError (ℕ × ℕ)
  slot_pair name (negsuc i) = err (invalid_slot name)
  slot_pair name (pos i) =
      if ltb i max_dataplane_sidecars
      then ok (runtime_grpc_port + 2 * i, runtime_http_port + 2 * i)
      else err (invalid_slot name)

  unfoldable pub runtime_port_pair : Resolved S → Result PortError (ℕ × ℕ)
  runtime_port_pair component =
      if is_colocated component
      then slot_pair component.name component.port_index
      else ok (runtime_grpc_port, runtime_http_port)

  module _ (colocated_target_port : String → String → String) where
    abbrev pub listener_port : Resolved S → String → ListenerPort
    listener_port component name = record {
      name = name;
      target_port_name =
          if is_colocated component then colocated_target_port component.name name else "";
      service_port = if name == "http" then runtime_http_port else runtime_grpc_port;
    }

    abbrev pub ports_of : Resolved S → ComponentKind → List ListenerPort
    ports_of component dataplane = []
    ports_of component k =
        map (listener_port component) (listener_names_of k component.listener_names)

    unfoldable pub listener_ports : Resolved S → List ListenerPort
    listener_ports component = ports_of component component.kind
