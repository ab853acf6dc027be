-- ===== src/Stellar.antt =====
-- The crate `pq-stellar` (crates/pq-stellar/src): the Soroban adapter over any signature scheme.
pub mod External
pub mod Error
pub mod Display
pub mod Payload
pub mod Auth
pub mod SchemeId
pub mod Tests
