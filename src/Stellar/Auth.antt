-- ===== src/Stellar/Auth.antt =====
-- crates/pq-stellar/src/auth.rs, but for `SchemeId`: authorization entries over any scheme.
pub mod RoundTrip
pub mod Errors
use soroban_ml_dsa.Prelude.{
  String, some, none, Bytes, take, zeros, Run, ok, ◌>>=◌, ◌>>◌, map_err, ok_or,
}
use soroban_ml_dsa.Core.Traits.{PqScheme}
use soroban_ml_dsa.Stellar.External.{
  Xdr, SorobanAddressCredentials, SorobanCredentials, address, SorobanAuthorizationEntry,
}
use soroban_ml_dsa.Stellar.Error.{StellarError, pq, encoding}
use soroban_ml_dsa.Stellar.Payload.{AuthorizationPayload, signature_payload}

abbrev pub Entry : Xdr → Type 0
Entry X = SorobanAuthorizationEntry X.ScAddress X.ScVal X.SorobanAuthorizedInvocation

module _ (X : Xdr) where
  unfoldable pub bytes_to_scval : Bytes → Run StellarError X.ScVal
  bytes_to_scval b = do
    s ← ok_or (encoding "byte string exceeds XDR limit") (X.sc_bytes b)
    ok (X.scval_bytes s)

module _ (X : Xdr) (S : PqScheme) where
  unfoldable pub encode_verifying_key : S.VerifyingKey → Run StellarError X.ScVal
  encode_verifying_key vk = do
    let (result, buf) = S.verifier.encode.write_to vk (zeros S.verifying_key_len)
    n ← map_err pq result
    bytes_to_scval X (take n buf)

module _ (X : Xdr) (sha256 : Bytes → Bytes) (S : PqScheme) where
  unfoldable pub sign_authorization :
      S.SigningKey → AuthorizationPayload X → Bytes → Run StellarError Bytes
  sign_authorization signing_key payload context = do
    msg ← signature_payload X sha256 payload
    let (result, sig) = S.signer.sign_into signing_key msg context (zeros S.signature_len)
    n ← map_err pq result
    ok (take n sig)

  unfoldable pub build_auth_entry :
      X.ScAddress → S.SigningKey → AuthorizationPayload X → Bytes → Run StellarError (Entry X)
  build_auth_entry account signing_key payload context = do
    sig ← sign_authorization signing_key payload context
    signature ← bytes_to_scval X sig
    ok (record {
      credentials = address (record {
        address = account;
        nonce = payload.nonce;
        signature_expiration_ledger = payload.signature_expiration_ledger;
        signature = signature;
      });
      root_invocation = payload.invocation;
    })

  unfoldable pub verify_authorization :
      S.VerifyingKey → AuthorizationPayload X → Bytes → Bytes → Run StellarError (Unit {0})
  verify_authorization verifying_key payload context signature = do
    msg ← signature_payload X sha256 payload
    map_err pq (S.verifier.verify verifying_key msg context signature)
    ok tt
