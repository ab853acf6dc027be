-- ===== src/Core/MlDsa/Promises.antt =====
-- The binding of crates/pq-core/src/schemes/mldsa.rs beside the documentation of traits.rs.
use soroban_ml_dsa.Prelude.{
  ◌≤◌, ◌<◌, ◌≡◌, ◌≢◌, inl, inr, refl, arith, ◌++◌, Bytes, length, drop, ok, err,
}
use soroban_ml_dsa.Core.Error.{
  max_context_len, invalid_length, buffer_too_small, verification_failed,
}
use soroban_ml_dsa.Core.Contract
use soroban_ml_dsa.Core.MlDsa.{
  Params, scheme, verify, sign_into, sk_write_to, sk_from_bytes, vk_encoding, sk_encoding,
}
use soroban_ml_dsa.Core.MlDsa.External
use soroban_ml_dsa.Core.MlDsa.External.{Backend}
use soroban_ml_dsa.Core.MlDsa.Encode.{
  vk_bytes, sk_bytes, vk_write_to_cases, vk_from_bytes-vk_bytes, vk_from_bytes_cases,
  sk_write_to_fits, sk_from_bytes-sk_bytes,
}
use soroban_ml_dsa.Core.MlDsa.Keys.{from_seed_cases, scheme-IsLawful}
use soroban_ml_dsa.Core.MlDsa.Sign.{sig_bytes, sign_into_cases, verify-sign_into_ok}
use soroban_ml_dsa.Core.MlDsa.Verify.{Accepts, verify_iff, verify-Verdict}

module _ (p : Params) (M : Backend) where
  verify_refused :
      (vk : M.VerifyingKey) (message context signature : Bytes)
      → length context ≤ max_context_len
      → length signature ≡ p.sig_len
      → ¬ (Accepts p M vk message context signature)
      → verify p M vk message context signature ≡ err verification_failed
  verify_refused vk message context signature c s refused =
      elim (verify-Verdict p M vk message context signature) [
        | inl (long, _) ↦ absurd (omega arith)
        | inr (inl (_, ne, _)) ↦ absurd (ne s)
        | inr (inr (_, _, inl good)) ↦
            absurd (refused ((verify_iff p M vk message context signature).0 good))
        | inr (inr (_, _, inr bad)) ↦ bad
      ]

  sk_write_to_small :
      (k : M.ExpandedSigningKey) (out : Bytes)
      → length out < p.sk_len
      → sk_write_to p M k out ≡ (err (buffer_too_small p.sk_len (length out)), out)
  unfolding sk_write_to
  sk_write_to_small k out h = ground arith

  sk_from_bytes_other_length :
      (bytes : Bytes)
      → length bytes ≢ p.sk_len
      → sk_from_bytes p M bytes ≡ err (invalid_length p.sk_len (length bytes))
  unfolding sk_from_bytes
  sk_from_bytes_other_length bytes h = ground arith

module _ (p : Params) (M : Backend) (L : External.IsLawful M p.vk_len p.sk_len p.sig_len) where
  sign_fits :
      (k : M.ExpandedSigningKey) (message context out : Bytes)
      → length context ≤ max_context_len
      → p.sig_len ≤ length out
      → (signature : Bytes) × (length signature ≡ p.sig_len)
        × (sign_into p M k message context out ≡ (ok p.sig_len, signature ++ drop p.sig_len out))
  sign_fits k message context out c o = elim (sign_into_cases p M L k message context out) [
    | inl (long, _) ↦ absurd (omega arith)
    | inr (inl (_, short, _)) ↦ absurd (omega arith)
    | inr (inr (_, _, (s, _, r))) ↦
        (sig_bytes p M s, L.sig_array.length-as_slice (M.sig_encode s), r)
  ]

  vk_encoding-IsEncoding :
      (v : M.VerifyingKey) → Contract.IsEncoding M.VerifyingKey (vk_encoding p M) p.vk_len v
  vk_encoding-IsEncoding v = record {
    declared = refl;
    write_small_buffer = λ out h. ground (arith, vk_write_to_cases p M L v out);
    write_fits = λ out h. (
      vk_bytes p M v,
      L.vk_array.length-as_slice (M.vk_encode v),
      ground (arith, vk_write_to_cases p M L v out),
      vk_from_bytes-vk_bytes p M L v,
    );
  }

  sk_encoding-IsEncoding :
      (k : M.ExpandedSigningKey)
      → Contract.IsEncoding M.ExpandedSigningKey (sk_encoding p M) p.sk_len k
  sk_encoding-IsEncoding k = record {
    declared = refl;
    write_small_buffer = sk_write_to_small p M k;
    write_fits = λ out h. (
      sk_bytes p M k,
      L.sk_array.length-as_slice (M.to_expanded k),
      sk_write_to_fits p M L k out h,
      sk_from_bytes-sk_bytes p M L k,
    );
  }

  -- Over a lawful backend, the ML-DSA binding at each parameter set whose declared lengths are those
  -- of the backend: `verify` returns `Ok` exactly for a signature that the backend accepts, and
  -- `VerificationFailed` for every other of the declared length under a context of at most 255
  -- bytes. Verifying and signing report a longer context as `ContextTooLong`; otherwise a signature
  -- of another length is `InvalidLength`, as is a seed or a key, and a small buffer
  -- `BufferTooSmall`, with nothing written. In all other cases seeds derive keys, signing and
  -- writing fill the declared length, keys read back as they were written, and signatures verify,
  -- by the key of the pair and by the one that the signing key derives. Writing never changes the
  -- length of a buffer, and decoding a verifying key or verifying never panics.
  pub scheme-KeepsPromises : Contract.KeepsPromises (scheme p M) (Accepts p M)
  scheme-KeepsPromises = record {
    lawful = scheme-IsLawful p M L;
    verify_iff = verify_iff p M;
    verify_refused = verify_refused p M;
    verify_other_length = λ v m c s h ne. ground (arith, verify-Verdict p M v m c s);
    verify_long_context = λ v m c s h. ground (arith, verify-Verdict p M v m c s);
    seed_other_length = λ seed ne. ground (arith, from_seed_cases p M seed);
    sign_long_context = λ k m c out h. ground (arith, sign_into_cases p M L k m c out);
    sign_small_buffer = λ k m c out h o. ground (arith, sign_into_cases p M L k m c out);
    sign_fits = sign_fits;
    verify-sign_derived = verify-sign_into_ok p M L;
    verifying_key_encodes = vk_encoding-IsEncoding;
    signing_key_encodes = sk_encoding-IsEncoding;
    verifying_key_other_length = λ bytes ne. ground (arith, vk_from_bytes_cases p M L bytes);
    signing_key_other_length = sk_from_bytes_other_length p M;
  }
