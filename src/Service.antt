-- ===== src/Service.antt =====
-- crates/supgang/src/service: the parts of the service that decide without input or output.
pub mod Admission
pub mod Retry
pub mod Paths
