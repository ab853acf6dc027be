-- ===== src/Phase0.antt =====
-- phase0: the first measurements, whose contracts call the crate ml-dsa directly.
pub mod External
pub mod Account
pub mod Contract
pub mod Harness
