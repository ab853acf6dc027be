-- ===== src/Contracts.antt =====
-- The Soroban contracts (contracts/): the account that a post-quantum signature guards, and the
-- verifier that measures cost; and the client of crates/pq-stellar against the account.
pub mod Host
pub mod Account
pub mod Verifier
pub mod Flow
