-- ===== src/Phase0/Harness.antt =====
-- phase0/harness: programs that measure the contracts of phase0, with keys and signatures of the
-- crate ml-dsa itself.
pub mod External
pub mod Format
pub mod Signed
pub mod Probe
pub mod Entry
pub mod Envelope
pub mod Submit
pub mod Simulate
pub mod Account
pub mod Vectors
