-- ===== src/Stellar/Error.antt =====
-- crates/pq-stellar/src/error.rs. The `From` instance is the constructor `pq`, used in `map_err`.
use soroban_ml_dsa.Prelude.{String}
use soroban_ml_dsa.Core.Error.{PqError}

pub data StellarError : Type 0 where
  pq : PqError → StellarError
  xdr : String → StellarError
  encoding : String → StellarError
