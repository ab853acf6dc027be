-- ===== src/Core/MlDsa/Verify.antt =====
-- `VerifyingKey::verify` of crates/pq-core/src/schemes/mldsa.rs: when it accepts, and what it says
-- when it does not.
use soroban_ml_dsa.Prelude.{◌≤◌, ◌<◌, ◌≡◌, ◌≢◌, ◌↔◌, ◌⊎◌, true, some, arith, Bytes, length}
use soroban_ml_dsa.Prelude.{ok, err, panic}
use soroban_ml_dsa.Core.Error.{
  max_context_len, context_too_long, invalid_length, malformed_encoding, verification_failed,
}
use soroban_ml_dsa.Core.MlDsa.{Params, verify}
use soroban_ml_dsa.Core.MlDsa.External.{Backend}

module _ (p : Params) (M : Backend) where
  -- A signature of the right length that decodes and that the backend accepts, under a context
  -- of at most 255 bytes.
  abbrev pub Accepts : M.VerifyingKey → Bytes → Bytes → Bytes → Type 0
  Accepts vk message context signature =
      (length context ≤ max_context_len)
      × (length signature ≡ p.sig_len)
      × ((enc : M.EncodedSignature.Array) × (sig : M.Signature) × (M.EncodedSignature.try_from
              signature
            ≡ some enc)
          × (M.sig_decode enc ≡ some sig)
          × (M.verify_with_context vk message context sig ≡ true))

  -- The context is checked before the length, and with both in order there are two verdicts only.
  abbrev pub Verdict : M.VerifyingKey → Bytes → Bytes → Bytes → Type 0
  Verdict vk message context signature =
      let result = verify p M vk message context signature in
      ((max_context_len < length context) × (result ≡ err (context_too_long (length context))))
      ⊎ ((length context ≤ max_context_len)
          × (length signature ≢ p.sig_len)
          × (result ≡ err (invalid_length p.sig_len (length signature))))
      ⊎ ((length context ≤ max_context_len)
          × (length signature ≡ p.sig_len)
          × ((result ≡ ok tt) ⊎ (result ≡ err verification_failed)))

  -- `verify` returns `Ok` exactly when the context has at most 255 bytes, the signature has the
  -- declared length and decodes, and the backend accepts it under that message and context.
  pub verify_iff :
      (vk : M.VerifyingKey) (message context signature : Bytes)
      → (verify p M vk message context signature ≡ ok tt) ↔ Accepts vk message context signature
  unfolding verify
  verify_iff vk message context signature = (λ h. ground arith, λ a. ground arith)

  -- Every call ends in one of four ways: an over-long context is reported first, a wrong signature
  -- length next, each with the length met; all else is `Ok` or the one error `VerificationFailed`.
  pub verify-Verdict :
      (vk : M.VerifyingKey) (message context signature : Bytes)
      → Verdict vk message context signature
  unfolding verify
  verify-Verdict vk message context signature = ground arith

  -- No input makes `verify` panic, and none is reported as a malformed encoding.
  pub verify_safe :
      (vk : M.VerifyingKey) (message context signature : Bytes)
      → (verify p M vk message context signature ≢ panic)
        × (verify p M vk message context signature ≢ err malformed_encoding)
  unfolding verify
  verify_safe vk message context signature = ground arith

  -- With both lengths in order the verdict is one of two.
  pub verify_sized :
      (vk : M.VerifyingKey) (message context signature : Bytes)
      → length context ≤ max_context_len
      → length signature ≡ p.sig_len
      → (verify p M vk message context signature ≡ ok tt)
        ⊎ (verify p M vk message context signature ≡ err verification_failed)
  unfolding verify
  verify_sized vk message context signature c s = ground arith
