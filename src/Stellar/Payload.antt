-- ===== src/Stellar/Payload.antt =====
-- crates/pq-stellar/src/payload.rs: the 32 bytes that an authorization signature covers.
pub mod Binding
use soroban_ml_dsa.Prelude.{ℕ, String, Bytes, Run, ok, ◌>>=◌, ok_or}
use soroban_ml_dsa.Prelude.Int.{ℤ}
use soroban_ml_dsa.Prelude.Texts.{as_bytes}
use soroban_ml_dsa.Stellar.External.{Xdr, HashIdPreimageSorobanAuthorization}
use soroban_ml_dsa.Stellar.Error.{StellarError, xdr}

unfoldable pub network_id : (Bytes → Bytes) → String → Bytes
unfolding as_bytes
network_id sha256 passphrase = sha256 (as_bytes passphrase)

abbrev pub testnet_passphrase : String
testnet_passphrase = "Test SDF Network ; September 2015"

abbrev pub mainnet_passphrase : String
mainnet_passphrase = "Public Global Stellar Network ; September 2015"

pub record AuthorizationPayload (X : Xdr) : Type 0 where
  pub network_id : Bytes
  pub nonce : ℤ
  pub signature_expiration_ledger : ℕ
  pub invocation : X.SorobanAuthorizedInvocation

module _ (X : Xdr) (sha256 : Bytes → Bytes) where
  unfoldable pub signature_payload : AuthorizationPayload X → Run StellarError Bytes
  signature_payload payload = do
    let preimage : HashIdPreimageSorobanAuthorization X.SorobanAuthorizedInvocation = record {
      network_id = payload.network_id;
      nonce = payload.nonce;
      signature_expiration_ledger = payload.signature_expiration_ledger;
      invocation = payload.invocation;
    }
    bytes ← ok_or (xdr "failed to encode HashIdPreimage") (X.to_xdr preimage)
    ok (sha256 bytes)
