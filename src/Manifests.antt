-- ===== src/Manifests.antt =====
-- The manifests (internal/manifests).
pub mod Ports
pub mod Concurrent
pub mod Fanout
pub mod Workload
pub mod Identity
pub mod Names
pub mod Services
