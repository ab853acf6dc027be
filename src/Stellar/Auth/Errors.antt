-- ===== src/Stellar/Auth/Errors.antt =====
-- When the functions of crates/pq-stellar/src/auth.rs succeed, and how errors pass through them.
use soroban_ml_dsa.Prelude.{◌≡◌, ◌≢◌, ◌↔◌, arith, Bytes, ok, err, panic}
use soroban_ml_dsa.Core.Error.{PqError}
use soroban_ml_dsa.Core.Traits.{PqScheme}
use soroban_ml_dsa.Core.Contract
use soroban_ml_dsa.Stellar.External.{Xdr}
use soroban_ml_dsa.Stellar.Error.{StellarError, pq}
use soroban_ml_dsa.Stellar.Payload.{AuthorizationPayload, signature_payload}
use soroban_ml_dsa.Stellar.Auth.{verify_authorization}

module _ (X : Xdr) (sha256 : Bytes → Bytes) (S : PqScheme) where
  -- `verify_authorization` returns `Ok` exactly when the payload encodes and the scheme accepts the
  -- signature over its 32 bytes; the scheme's error comes back wrapped exactly when the payload
  -- encodes and the scheme refuses with it, and an error of the encoding comes back as it is.
  pub verify_authorization_cases :
      (vk : S.VerifyingKey) (payload : AuthorizationPayload X) (context signature : Bytes)
      → let result = verify_authorization X sha256 S vk payload context signature in
        ((result ≡ ok tt) ↔ (
          (msg : Bytes) × (signature_payload X sha256 payload ≡ ok msg)
          × (S.verifier.verify vk msg context signature ≡ ok tt)))
        × ((e : PqError)
            → (result ≡ err (pq e)) ↔ (
                (msg : Bytes) × (signature_payload X sha256 payload ≡ ok msg)
                × (S.verifier.verify vk msg context signature ≡ err e)))
        × ((e : StellarError) → signature_payload X sha256 payload ≡ err e → result ≡ err e)
  unfolding verify_authorization signature_payload
  verify_authorization_cases vk payload context signature = (
    (λ h. ground arith, λ a. ground arith),
    λ e. (λ h. ground arith, λ a. ground arith),
    λ e h. ground arith,
  )

  -- Over a lawful scheme no payload, context or signature makes `verify_authorization` panic.
  pub verify_authorization_safe :
      Contract.IsLawful S
      → (vk : S.VerifyingKey) (payload : AuthorizationPayload X) (context signature : Bytes)
      → verify_authorization X sha256 S vk payload context signature ≢ panic
  unfolding verify_authorization signature_payload
  verify_authorization_safe L vk payload context signature = grind (arith, L.verify_safe)
