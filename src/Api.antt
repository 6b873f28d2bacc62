-- ===== src/Api.antt =====
-- The v1alpha1 API: its types and the admission checks (api/v1alpha1).
pub mod Types
pub mod Errors
pub mod Names
pub mod Listeners
pub mod Numa
pub mod Networks
pub mod Unique
pub mod Hugepages
pub mod Overrides
pub mod Boxes
pub mod Admission
