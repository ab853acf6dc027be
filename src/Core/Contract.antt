-- ===== src/Core/Contract.antt =====
-- What callers rely on from an implementation of the traits of crates/pq-core/src/traits.rs, as
-- their documentation promises it.
use soroban_ml_dsa.Prelude.{
  ℕ, ◌≤◌, ◌<◌, ◌≡◌, ◌≢◌, ◌↔◌, ◌++◌, Bytes, length, take, drop, ok, err, panic,
}
use soroban_ml_dsa.Core.Error.{
  max_context_len, invalid_length, buffer_too_small, context_too_long, verification_failed,
}
use soroban_ml_dsa.Core.Traits.{PqEncode, PqScheme}

pub record IsLawful (S : PqScheme) : Type 0 where
  pub seed_total :
      (seed : Bytes)
      → length seed ≡ S.seed_len
      → (kp : S.Keypair) × (S.keypair.from_seed seed ≡ ok kp)
  -- A buffer of the declared length is enough to sign.
  pub sign_total :
      (k : S.SigningKey) (message context out : Bytes)
      → length context ≤ max_context_len
      → length out ≡ S.signature_len
      → (n : ℕ) × (out' : Bytes) × (S.signer.sign_into k message context out ≡ (ok n, out'))
  -- The key pair of a seed accepts its own signatures, under the context of the signing.
  pub verify-sign :
      (seed message context out : Bytes) {kp : S.Keypair} {n : ℕ} {out' : Bytes}
      → S.keypair.from_seed seed ≡ ok kp
      → S.signer.sign_into (S.keypair.signing_key kp) message context out ≡ (ok n, out')
      → S.verifier.verify (S.keypair.verifying_key kp) message context (take n out') ≡ ok tt
  pub write_total :
      (v : S.VerifyingKey) (out : Bytes)
      → length out ≡ S.verifying_key_len
      → (n : ℕ) × (out' : Bytes) × (S.verifier.encode.write_to v out ≡ (ok n, out'))
  pub read-write :
      (v : S.VerifyingKey) (out : Bytes) {n : ℕ} {out' : Bytes}
      → S.verifier.encode.write_to v out ≡ (ok n, out')
      → S.verifier.encode.from_bytes (take n out') ≡ ok v
  -- Writing into a buffer never changes its length.
  pub length-sign :
      (k : S.SigningKey) (message context out : Bytes)
      → length (S.signer.sign_into k message context out).1 ≡ length out
  pub length-write :
      (v : S.VerifyingKey) (out : Bytes) → length (S.verifier.encode.write_to v out).1 ≡ length out
  -- Bytes from outside cannot make the verifying side panic.
  pub read_safe : (bytes : Bytes) → S.verifier.encode.from_bytes bytes ≢ panic
  pub verify_safe :
      (v : S.VerifyingKey) (message context signature : Bytes)
      → S.verifier.verify v message context signature ≢ panic

-- The canonical encoding of a value has the declared length. It is written whole into any buffer that
-- holds it, is never truncated, and reads back as the same value.
pub record IsEncoding (A : Type 0) (E : PqEncode A) (len : ℕ) (a : A) : Type 0 where
  pub declared : E.encoded_len a ≡ len
  pub write_small_buffer :
      (out : Bytes)
      → length out < len
      → E.write_to a out ≡ (err (buffer_too_small len (length out)), out)
  pub write_fits :
      (out : Bytes)
      → len ≤ length out
      → (bytes : Bytes) × (length bytes ≡ len)
        × (E.write_to a out ≡ (ok len, bytes ++ drop len out))
        × (E.from_bytes bytes ≡ ok a)

-- What the documentation of the traits and of `PqError` promises of a scheme with signatures of a
-- fixed length, where `Accepts` says which signatures are valid. It leaves out that decoding a key
-- rejects a structurally invalid encoding: the signing keys of ML-DSA are documented to be decoded
-- from trusted bytes only.
pub record KeepsPromises (S : PqScheme) (Accepts : S.VerifyingKey → Bytes → Bytes → Bytes → Type 0)
    : Type 0 where
  pub lawful : IsLawful S
  -- `verify` returns `Ok` only on success, and on every success.
  pub verify_iff :
      (v : S.VerifyingKey) (message context signature : Bytes)
      → (S.verifier.verify v message context signature ≡ ok tt)
        ↔ Accepts v message context signature
  -- Every cryptographic failure is the one error `VerificationFailed`.
  pub verify_refused :
      (v : S.VerifyingKey) (message context signature : Bytes)
      → length context ≤ max_context_len
      → length signature ≡ S.signature_len
      → ¬ (Accepts v message context signature)
      → S.verifier.verify v message context signature ≡ err verification_failed
  pub verify_other_length :
      (v : S.VerifyingKey) (message context signature : Bytes)
      → length context ≤ max_context_len
      → length signature ≢ S.signature_len
      → S.verifier.verify v message context signature
        ≡ err (invalid_length S.signature_len (length signature))
  pub verify_long_context :
      (v : S.VerifyingKey) (message context signature : Bytes)
      → max_context_len < length context
      → S.verifier.verify v message context signature ≡ err (context_too_long (length context))
  -- A seed of another length is never padded or truncated.
  pub seed_other_length :
      (seed : Bytes)
      → length seed ≢ S.seed_len
      → S.keypair.from_seed seed ≡ err (invalid_length S.seed_len (length seed))
  pub sign_long_context :
      (k : S.SigningKey) (message context out : Bytes)
      → max_context_len < length context
      → S.signer.sign_into k message context out ≡ (err (context_too_long (length context)), out)
  -- Nothing is written into a buffer that is too small.
  pub sign_small_buffer :
      (k : S.SigningKey) (message context out : Bytes)
      → length context ≤ max_context_len
      → length out < S.signature_len
      → S.signer.sign_into k message context out
        ≡ (err (buffer_too_small S.signature_len (length out)), out)
  -- A signature fills the declared length and leaves the bytes behind it alone.
  pub sign_fits :
      (k : S.SigningKey) (message context out : Bytes)
      → length context ≤ max_context_len
      → S.signature_len ≤ length out
      → (signature : Bytes) × (length signature ≡ S.signature_len)
        × (S.signer.sign_into k message context out
            ≡ (ok S.signature_len, signature ++ drop S.signature_len out))
  -- The verifying key that a signing key derives accepts what it signs.
  pub verify-sign_derived :
      (k : S.SigningKey) (message context out : Bytes) {n : ℕ} {out' : Bytes}
      → S.signer.sign_into k message context out ≡ (ok n, out')
      → let derived = S.signer.verifying_key k in
        derived.methods.verify derived.value message context (take n out') ≡ ok tt
  pub verifying_key_encodes :
      (v : S.VerifyingKey) → IsEncoding S.VerifyingKey S.verifier.encode S.verifying_key_len v
  pub signing_key_encodes :
      (k : S.SigningKey) → IsEncoding S.SigningKey S.signer.encode S.signing_key_len k
  pub verifying_key_other_length :
      (bytes : Bytes)
      → length bytes ≢ S.verifying_key_len
      → S.verifier.encode.from_bytes bytes ≡ err (invalid_length S.verifying_key_len (length bytes))
  pub signing_key_other_length :
      (bytes : Bytes)
      → length bytes ≢ S.signing_key_len
      → S.signer.encode.from_bytes bytes ≡ err (invalid_length S.signing_key_len (length bytes))
