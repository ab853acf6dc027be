-- ===== src/Stellar/Tests/MlDsa.antt =====
-- ML-DSA as a scheme for the adapter's tests of crates/pq-stellar/tests/roundtrip.rs.
use soroban_ml_dsa.Prelude.{arith}
use soroban_ml_dsa.Core.Traits.{check_context, copy_prefix}
use soroban_ml_dsa.Core.MlDsa.{Params, scheme, sign_into, vk_write_to}
use soroban_ml_dsa.Core.MlDsa.External.{Backend}
use soroban_ml_dsa.Stellar.Tests.Rounds.{IsExact}

module _ (p : Params) (M : Backend) where
  pub scheme-IsExact : IsExact (scheme p M)
  unfolding sign_into vk_write_to copy_prefix check_context
  scheme-IsExact = record {
    sign = λ k message context out h. ground arith;
    write = λ v out h. ground arith;
  }
