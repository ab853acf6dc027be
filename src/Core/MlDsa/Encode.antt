-- ===== src/Core/MlDsa/Encode.antt =====
-- The two `PqEncode` implementations of crates/pq-core/src/schemes/mldsa.rs, over a lawful backend.
use soroban_ml_dsa.Prelude.{
  ◌≤◌, ◌<◌, ◌≡◌, ◌≢◌, ◌↔◌, ◌⊎◌, inl, inr, ◌++◌, none, some, arith, Bytes, length, take, drop,
}
use soroban_ml_dsa.Prelude.{ok, err, panic}
use soroban_ml_dsa.Core.Error.{buffer_too_small, invalid_length}
use soroban_ml_dsa.Core.Traits.Copy.{copy_prefix_lem, take-copy, length-copy_prefix}
use soroban_ml_dsa.Core.MlDsa.{Params, vk_write_to, vk_from_bytes, sk_write_to, sk_from_bytes}
use soroban_ml_dsa.Core.MlDsa.External.{Backend, IsLawful}

module _ (p : Params) (M : Backend) where
  abbrev pub vk_bytes : M.VerifyingKey → Bytes
  vk_bytes v = M.EncodedVerifyingKey.as_slice (M.vk_encode v)

  abbrev pub sk_bytes : M.ExpandedSigningKey → Bytes
  sk_bytes k = M.ExpandedSigningKeyBytes.as_slice (M.to_expanded k)

  pub length-vk_write_to :
      (v : M.VerifyingKey) (out : Bytes) → length (vk_write_to p M v out).1 ≡ length out
  unfolding vk_write_to
  length-vk_write_to v out = ground (arith, length-copy_prefix p.vk_len (vk_bytes v) out)

  pub length-vk_from_bytes :
      (bytes : Bytes) {v : M.VerifyingKey}
      → vk_from_bytes p M bytes ≡ ok v
      → length bytes ≡ p.vk_len
  unfolding vk_from_bytes
  length-vk_from_bytes bytes h = ground arith

module _ (p : Params) (M : Backend) (L : IsLawful M p.vk_len p.sk_len p.sig_len) where
  -- `VerifyingKey::write_to` reports a buffer that is too small and leaves it alone; otherwise it
  -- puts the encoding in front and keeps every byte behind it.
  pub vk_write_to_cases :
      (v : M.VerifyingKey) (out : Bytes)
      → ((length out < p.vk_len)
          × (vk_write_to p M v out ≡ (err (buffer_too_small p.vk_len (length out)), out)))
        ⊎ ((p.vk_len ≤ length out)
            × (vk_write_to p M v out ≡ (ok p.vk_len, vk_bytes p M v ++ drop p.vk_len out)))
  unfolding vk_write_to
  vk_write_to_cases v out = ground (
    arith,
    copy_prefix_lem p.vk_len (vk_bytes p M v) out,
    L.vk_array.length-as_slice (M.vk_encode v),
  )

  pub vk_from_bytes-vk_bytes : (v : M.VerifyingKey) → vk_from_bytes p M (vk_bytes p M v) ≡ ok v
  unfolding vk_from_bytes
  vk_from_bytes-vk_bytes v =
      let enc = M.vk_encode v in
      ground (
        arith,
        L.vk_array.length-as_slice enc,
        L.vk_array.try_from-as_slice enc,
        L.vk_decode-encode v,
      )

  -- What `VerifyingKey::write_to` has written reads back as the same key.
  pub vk_from_bytes-write_to :
      (v : M.VerifyingKey) (out : Bytes)
      → p.vk_len ≤ length out
      → vk_from_bytes p M (take p.vk_len (vk_write_to p M v out).1) ≡ ok v
  vk_from_bytes-write_to v out h = elim (vk_write_to_cases v out) [
    | inl (short, _) ↦ absurd (omega arith)
    | inr (_, e) ↦
        rw (e, take-copy p.vk_len (vk_bytes p M v) out (L.vk_array.length-as_slice (M.vk_encode v)))
          (vk_from_bytes-vk_bytes v)
  ]

  pub sk_write_to_fits :
      (k : M.ExpandedSigningKey) (out : Bytes)
      → p.sk_len ≤ length out
      → sk_write_to p M k out ≡ (ok p.sk_len, sk_bytes p M k ++ drop p.sk_len out)
  unfolding sk_write_to
  sk_write_to_fits k out h = ground (
    arith,
    copy_prefix_lem p.sk_len (sk_bytes p M k) out,
    L.sk_array.length-as_slice (M.to_expanded k),
  )

  pub sk_from_bytes-sk_bytes :
      (k : M.ExpandedSigningKey) → sk_from_bytes p M (sk_bytes p M k) ≡ ok k
  unfolding sk_from_bytes
  sk_from_bytes-sk_bytes k =
      let enc = M.to_expanded k in
      ground (
        arith,
        L.sk_array.length-as_slice enc,
        L.sk_array.try_from-as_slice enc,
        L.from_expanded-to_expanded k,
      )

  -- What `SigningKey::write_to` has written reads back as the same key, without a panic.
  pub sk_from_bytes-write_to :
      (k : M.ExpandedSigningKey) (out : Bytes)
      → p.sk_len ≤ length out
      → sk_from_bytes p M (take p.sk_len (sk_write_to p M k out).1) ≡ ok k
  sk_from_bytes-write_to k out h =
      rw
        (
          sk_write_to_fits k out h,
          take-copy p.sk_len (sk_bytes p M k) out (L.sk_array.length-as_slice (M.to_expanded k)),
        )
        (sk_from_bytes-sk_bytes k)

  pub vk_from_bytes_sized :
      (bytes : Bytes)
      → length bytes ≡ p.vk_len
      → (v : M.VerifyingKey) × (vk_from_bytes p M bytes ≡ ok v)
  unfolding vk_from_bytes
  vk_from_bytes_sized bytes h =
      let (a, e, _) = L.vk_array.try_from_sized bytes h in (M.vk_decode a, ground arith)

  -- `VerifyingKey::from_bytes` accepts every byte string of the declared length and reports any
  -- other length.
  pub vk_from_bytes_cases :
      (bytes : Bytes)
      → ((length bytes ≡ p.vk_len) × ((v : M.VerifyingKey) × (vk_from_bytes p M bytes ≡ ok v)))
        ⊎ ((length bytes ≢ p.vk_len)
            × (vk_from_bytes p M bytes ≡ err (invalid_length p.vk_len (length bytes))))
  unfolding vk_from_bytes
  vk_from_bytes_cases bytes = ground (arith, L.vk_array.try_from_sized bytes)

  -- `SigningKey::from_bytes` panics exactly on a string of the declared length that the backend's
  -- unvalidated decoder panics on.
  pub sk_from_bytes_panics :
      (bytes : Bytes)
      → (sk_from_bytes p M bytes ≡ panic) ↔ (
          (length bytes ≡ p.sk_len)
          × ((enc : M.ExpandedSigningKeyBytes.Array) × (M.ExpandedSigningKeyBytes.try_from bytes
                ≡ some enc)
              × (M.from_expanded enc ≡ none)))
  unfolding sk_from_bytes
  sk_from_bytes_panics bytes = (λ h. ground arith, λ a. ground arith)
