-- ===== src/Phase0/Account/Check.antt =====
-- `__check_auth` of phase0/account/src/lib.rs: each of its results, and when it approves.
use soroban_ml_dsa.Prelude.{
  ℕ_discrete, ◌≡◌, ◌≢◌, ◌↔◌, ◌⊎◌, inl, inr, ◌∙◌, arith, true, false, some, none, [], Bytes, length,
  Option-cases, Run, ok, err, refl, ◌>>=◌, ok_or, ensure,
}
use soroban_ml_dsa.Core.MlDsa.{mldsa65, vk_from_bytes}
use soroban_ml_dsa.Core.MlDsa.External.{Backend}
use soroban_ml_dsa.Core.MlDsa.Encode.{length-vk_from_bytes}
use soroban_ml_dsa.Core.MlDsa.Verify.{Accepts}
use soroban_ml_dsa.Contracts.Host
use soroban_ml_dsa.Contracts.Host.{Sdk, Ledger}
use soroban_ml_dsa.Contracts.Account.Check.{copy_zeros}
use soroban_ml_dsa.Phase0.External
use soroban_ml_dsa.Phase0.External.{Calls, decode_slice}
use soroban_ml_dsa.Phase0.Account.{
  DataKey, pub_key, Error, not_inited, bad_pub_key_len, bad_sig_len, sig_verify_failed, check_auth,
}
use soroban_ml_dsa.Phase0.Contract.Agreement.{vk_from_bytes-key_from}

decode_slice-eq-some :
    (M : Backend) (b : Bytes) {s : M.Signature}
    → decode_slice M b ≡ some s
    → (enc : M.EncodedSignature.Array) × (M.EncodedSignature.try_from b ≡ some enc)
      × (M.sig_decode enc ≡ some s)
decode_slice-eq-some M b h = ground arith

module _ (M : Backend) (N : Calls M) (K : Sdk) (H : Ledger DataKey) where
  -- The result once a key and a signature of the right lengths are at hand.
  abbrev pub Sized : Bytes → Bytes → Bytes → Run Error (Unit {0}) → Type 0
  Sized stored payload signature result =
      let vk = M.vk_decode (N.key_from stored) in
      ((decode_slice M signature ≡ none) × (result ≡ err bad_sig_len))
      ⊎ ((s : M.Signature) × (decode_slice M signature ≡ some s)
          × (((M.verify_with_context vk payload [] s ≡ true) × (result ≡ ok tt))
              ⊎ ((M.verify_with_context vk payload [] s ≡ false)
                  × (result ≡ err sig_verify_failed))))

  abbrev run_direct : Bytes → Bytes → Bytes → Run Error (Unit {0})
  run_direct stored payload signature = ok_or bad_sig_len (N.sig_try_from signature) >>= λ s.
      ensure (N.verify (M.vk_decode (N.key_from stored)) payload s) sig_verify_failed

  check_auth_run :
      Host.IsLawful K
      → (env : H.Env) (payload signature : Bytes) {stored : Bytes} → H.get env pub_key ≡ some stored
      → length stored ≡ 1952
      → length signature ≡ 3309
      → length payload ≡ 32
      → check_auth M N K H env payload signature ≡ run_direct stored payload signature
  unfolding check_auth
  check_auth_run LK env payload signature {stored} g s t u =
      ground
        (arith, copy_zeros K LK stored s, copy_zeros K LK signature t, copy_zeros K LK payload u)

  run_direct-Sized :
      External.IsLawful M N mldsa65.vk_len
      → (stored payload signature : Bytes)
      → Sized stored payload signature (run_direct stored payload signature)
  run_direct-Sized LN stored payload signature =
      rw (LN.sig_try_from_lem signature) (elim (Option-cases (decode_slice M signature)) [
        | inl bad ↦ inl (bad, rw bad refl)
        | inr (s, d) ↦ inr (
          s,
          d,
          rw d (rw (LN.verify_lem (M.vk_decode (N.key_from stored)) payload s) (ground arith)),
        )
      ])

  -- Over a lawful `ml-dsa` and SDK and a payload of 32 bytes, `__check_auth` of phase0 reports the
  -- first thing that is wrong: no stored key, a stored key of another length, a signature of
  -- another length or, under the same error, one that does not decode, a signature that does not
  -- verify under the empty context. With all in order it approves, and it never traps.
  pub direct_check_auth_cases :
      External.IsLawful M N mldsa65.vk_len
      → Host.IsLawful K
      → (env : H.Env) (payload signature : Bytes) → length payload ≡ 32
      → let result = check_auth M N K H env payload signature in
        ((H.get env pub_key ≡ none) × (result ≡ err not_inited))
        ⊎ ((stored : Bytes) × (H.get env pub_key ≡ some stored)
            × (((length stored ≢ 1952) × (result ≡ err bad_pub_key_len))
                ⊎ ((length stored ≡ 1952) × (length signature ≢ 3309) × (result ≡ err bad_sig_len))
                ⊎ ((length stored ≡ 1952)
                    × (length signature ≡ 3309)
                    × Sized stored payload signature result)))
  unfolding check_auth
  direct_check_auth_cases LN LK env payload signature u = elim (Option-cases (H.get env pub_key)) [
    | inl missing ↦ inl (missing, ground arith)
    | inr (stored, g) ↦ inr (
      stored,
      g,
      elim (ℕ_discrete (length stored) 1952) [
        | no ne ↦ inl (ne, ground arith)
        | yes s ↦ inr (elim (ℕ_discrete (length signature) 3309) [
          | no ne ↦ inl (s, ne, ground (arith, copy_zeros K LK stored s))
          | yes t ↦ inr (
            s,
            t,
            rw (check_auth_run LK env payload signature g s t u)
                (run_direct-Sized LN stored payload signature),
          )
        ])
      ],
    )
  ]

  -- Over a lawful `ml-dsa` and SDK and a payload of 32 bytes, `__check_auth` of phase0 approves
  -- exactly when the stored bytes decode as a key of pq-core that accepts the signature over the
  -- payload under the empty context.
  pub direct_check_auth_iff :
      External.IsLawful M N mldsa65.vk_len
      → Host.IsLawful K
      → (env : H.Env) (payload signature : Bytes) → length payload ≡ 32
      → (check_auth M N K H env payload signature ≡ ok tt) ↔ (
          (stored : Bytes) × (vk : M.VerifyingKey) × (H.get env pub_key ≡ some stored)
          × (vk_from_bytes mldsa65 M stored ≡ ok vk)
          × Accepts mldsa65 M vk payload [] signature)
  direct_check_auth_iff LN LK env payload signature u = (
    λ h. elim (direct_check_auth_cases LN LK env payload signature u) [
      | inl (_, r) ↦ cc
      | inr (_, _, inl (_, r)) ↦ cc
      | inr (_, _, inr (inl (_, _, r))) ↦ cc
      | inr (_, _, inr (inr (_, _, inl (_, r)))) ↦ cc
      | inr (_, _, inr (inr (_, _, inr (_, _, inr (_, r))))) ↦ cc
      | inr (stored, g, inr (inr (s, t, inr (sig, e, inl (v, _))))) ↦
          let (enc, e', d) = decode_slice-eq-some M signature e in
          let key = vk_from_bytes-key_from mldsa65 M N K LN LK stored s in
          (stored, M.vk_decode (N.key_from stored), g, key, (omega arith, t, (enc, sig, e', d, v)))
    ],
    λ (stored, vk, g, d, (_, t, (enc, sig, e, f, v))).
        let s = length-vk_from_bytes mldsa65 M stored d in
        let key = vk_from_bytes-key_from mldsa65 M N K LN LK stored s in
        let same : M.vk_decode (N.key_from stored) ≡ vk = cc in
        check_auth_run LK env payload signature g s t u
        ∙ grind (arith, LN.sig_try_from_lem signature, LN.verify_lem vk payload sig),
  )
