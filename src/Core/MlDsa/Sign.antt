-- ===== src/Core/MlDsa/Sign.antt =====
-- `SigningKey::sign_into` of crates/pq-core/src/schemes/mldsa.rs, over a lawful backend.
use soroban_ml_dsa.Prelude.{
  ℕ, ◌≤◌, ◌<◌, ◌≡◌, ◌⊎◌, inl, inr, ◌++◌, some, arith, Bytes, length, take, drop,
}
use soroban_ml_dsa.Prelude.{ok, err}
use soroban_ml_dsa.Core.Error.{max_context_len, buffer_too_small, context_too_long}
use soroban_ml_dsa.Core.Traits.Copy.{take-copy, length-copy_prefix}
use soroban_ml_dsa.Core.MlDsa.{Params, sign_into, verify}
use soroban_ml_dsa.Core.MlDsa.External.{Backend, IsLawful}

module _ (p : Params) (M : Backend) where
  abbrev pub sig_bytes : M.Signature → Bytes
  sig_bytes s = M.EncodedSignature.as_slice (M.sig_encode s)

  pub length-sign_into :
      (k : M.ExpandedSigningKey) (message context out : Bytes)
      → length (sign_into p M k message context out).1 ≡ length out
  unfolding sign_into
  length-sign_into k message context out = grind (arith, length-copy_prefix)

module _ (p : Params) (M : Backend) (L : IsLawful M p.vk_len p.sk_len p.sig_len) where
  -- `sign_into` reports an over-long context first and a buffer that is too small next, and then
  -- leaves the buffer alone; otherwise it writes the backend's signature in front and keeps every
  -- byte behind it.
  pub sign_into_cases :
      (k : M.ExpandedSigningKey) (message context out : Bytes)
      → let result = sign_into p M k message context out in
        ((max_context_len < length context)
          × (result ≡ (err (context_too_long (length context)), out)))
        ⊎ ((length context ≤ max_context_len)
            × (length out < p.sig_len)
            × (result ≡ (err (buffer_too_small p.sig_len (length out)), out)))
        ⊎ ((length context ≤ max_context_len)
            × (p.sig_len ≤ length out)
            × ((s : M.Signature) × (M.sign_deterministic k message context ≡ some s)
                × (result ≡ (ok p.sig_len, sig_bytes p M s ++ drop p.sig_len out))))
  unfolding sign_into
  sign_into_cases k message context out =
      grind (arith, L.sign_total k message context, L.sig_array.length-as_slice)

  verify-sig_bytes :
      (k : M.ExpandedSigningKey) (message context : Bytes) (s : M.Signature)
      → length context ≤ max_context_len
      → M.sign_deterministic k message context ≡ some s
      → verify p M (M.verifying_key k) message context (sig_bytes p M s) ≡ ok tt
  unfolding verify
  verify-sig_bytes k message context s c e =
      let enc = M.sig_encode s in
      ground (
        arith,
        L.sig_array.length-as_slice enc,
        L.sig_array.try_from-as_slice enc,
        L.sig_decode-encode s,
        L.verify-sign k message context e,
      )

  -- With a context of at most 255 bytes and a buffer of at least the signature's length,
  -- `sign_into` succeeds, and the bytes that it has written verify under the matching key for the
  -- same message and context.
  pub verify-sign_into :
      (k : M.ExpandedSigningKey) (message context out : Bytes)
      → length context ≤ max_context_len
      → p.sig_len ≤ length out
      → let (result, out') = sign_into p M k message context out in
        (result ≡ ok p.sig_len)
        × (verify p M (M.verifying_key k) message context (take p.sig_len out') ≡ ok tt)
  verify-sign_into k message context out c o = elim (sign_into_cases k message context out) [
    | inl (long, _) ↦ absurd (omega arith)
    | inr (inl (_, short, _)) ↦ absurd (omega arith)
    | inr (inr (_, _, (s, e, r))) ↦ (
      rw r,
      rw
          (
            r,
            take-copy p.sig_len (sig_bytes p M s) out
                (L.sig_array.length-as_slice (M.sig_encode s)),
          )
          (verify-sig_bytes k message context s c e),
    )
  ]

  -- Whatever `sign_into` reports as written verifies.
  pub verify-sign_into_ok :
      (k : M.ExpandedSigningKey) (message context out : Bytes) {n : ℕ} {out' : Bytes}
      → sign_into p M k message context out ≡ (ok n, out')
      → verify p M (M.verifying_key k) message context (take n out') ≡ ok tt
  verify-sign_into_ok k message context out {n} {out'} e =
      elim (sign_into_cases k message context out) [
        | inl (_, r) ↦ absurd (cc)
        | inr (inl (_, _, r)) ↦ absurd (cc)
        | inr (inr (c, o, (s, f, r))) ↦
            let (_, v) = verify-sign_into k message context out c o in ground (arith, v)
      ]
