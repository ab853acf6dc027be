-- ===== src/Core.antt =====
-- The crate `pq-core` (crates/pq-core/src): errors, the trait layer, the ML-DSA binding and the
-- SLH-DSA sketch.
pub mod Error
pub mod Traits
pub mod Contract
pub mod MlDsa
pub mod SlhDsa
pub mod Adapter
