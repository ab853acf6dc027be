-- ===== src/Contracts/Account/Check.antt =====
-- `__check_auth` of contracts/pq-account/src/lib.rs: when it approves, and each of its errors.
use soroban_ml_dsa.Prelude.{
  ℕ, ℕ_discrete, ◌≤◌, ◌≡◌, ◌≢◌, ◌↔◌, ◌⊎◌, inl, inr, ◌∙◌, refl, arith, Bytes, length, zeros,
  length-zeros, sym, some, none, Option-cases, subst,
}
use soroban_ml_dsa.Prelude.{Run, ok, err, ◌>>=◌, map_err}
use soroban_ml_dsa.Core.Error.{max_context_len}
use soroban_ml_dsa.Core.MlDsa.{mldsa65, vk_from_bytes, verify}
use soroban_ml_dsa.Core.MlDsa.External
use soroban_ml_dsa.Core.MlDsa.External.{Backend}
use soroban_ml_dsa.Core.MlDsa.Encode.{length-vk_from_bytes, vk_from_bytes_sized}
use soroban_ml_dsa.Core.MlDsa.Verify.{Accepts, verify_iff, verify_sized}
use soroban_ml_dsa.Contracts.Host
use soroban_ml_dsa.Contracts.Host.{Sdk, Ledger}
use soroban_ml_dsa.Contracts.Account.{
  DataKey, pub_key, Error, not_inited, bad_pub_key_len, bad_sig_len, sig_verify_failed, vk_len,
  sig_len, context, check_auth,
}

pub context-short : length context ≤ max_context_len
unfolding context
context-short = omega arith

pub copy_zeros :
    (K : Sdk)
    → Host.IsLawful K
    → (b : Bytes) {n : ℕ} → length b ≡ n
    → K.copy_into_slice b (zeros n) ≡ some b
copy_zeros K LK b {n} h = LK.copy_same_length b (zeros n) (h ∙ sym (length-zeros n))

module _ (M : Backend) (K : Sdk) (H : Ledger DataKey) where
  abbrev pub run_check : Bytes → Bytes → Bytes → Run Error (Unit {0})
  run_check stored payload signature =
      map_err (λ _. bad_pub_key_len) (vk_from_bytes mldsa65 M stored) >>= λ vk.
      map_err (λ _. sig_verify_failed) (verify mldsa65 M vk payload context signature)

  pub check_auth_sized :
      Host.IsLawful K
      → (env : H.Env) (payload signature : Bytes) {stored : Bytes} → H.get env pub_key ≡ some stored
      → length stored ≡ vk_len
      → length signature ≡ sig_len
      → length payload ≡ 32
      → check_auth M K H env payload signature ≡ run_check stored payload signature
  unfolding check_auth
  check_auth_sized LK env payload signature {stored} g s t u =
      ground
        (arith, copy_zeros K LK stored s, copy_zeros K LK signature t, copy_zeros K LK payload u)

  pub check_auth-eq-ok :
      (env : H.Env) (payload signature : Bytes)
      → check_auth M K H env payload signature ≡ ok tt
      → (stored : Bytes) × (H.get env pub_key ≡ some stored)
        × (length stored ≡ vk_len)
        × (length signature ≡ sig_len)
  unfolding check_auth
  check_auth-eq-ok env payload signature h = ground arith

  pub run_check_iff :
      (stored payload signature : Bytes)
      → (run_check stored payload signature ≡ ok tt) ↔ (
          (vk : M.VerifyingKey) × (vk_from_bytes mldsa65 M stored ≡ ok vk)
          × (verify mldsa65 M vk payload context signature ≡ ok tt))
  run_check_iff stored payload signature = (λ h. ground arith, λ a. ground arith)

  -- Over a lawful SDK and a payload of 32 bytes, `__check_auth` approves exactly when the stored
  -- bytes decode as a verifying key and the backend accepts the signature, of the declared length,
  -- over that payload under the context of this account.
  pub check_auth_iff :
      Host.IsLawful K
      → (env : H.Env) (payload signature : Bytes) → length payload ≡ 32
      → (check_auth M K H env payload signature ≡ ok tt) ↔ (
          (stored : Bytes) × (vk : M.VerifyingKey) × (H.get env pub_key ≡ some stored)
          × (vk_from_bytes mldsa65 M stored ≡ ok vk)
          × Accepts mldsa65 M vk payload context signature)
  check_auth_iff LK env payload signature u = (
    λ h.
        let (stored, g, s, t) = check_auth-eq-ok env payload signature h in
        let run = check_auth_sized LK env payload signature g s t u in
        let (vk, d, v) = (run_check_iff stored payload signature).0 (sym run ∙ h) in
        (stored, vk, g, d, (verify_iff mldsa65 M vk payload context signature).0 v),
    λ (stored, vk, g, d, a).
        let s = length-vk_from_bytes mldsa65 M stored d in
        let v = (verify_iff mldsa65 M vk payload context signature).1 a in
        check_auth_sized LK env payload signature g s a.1 u
        ∙ (run_check_iff stored payload signature).1 (vk, d, v),
  )

  -- With a stored key that decodes to `vk`, the approved signatures are those that `vk` accepts.
  pub check_auth_for_key :
      Host.IsLawful K
      → (env : H.Env) (payload signature : Bytes) {stored : Bytes} {vk : M.VerifyingKey}
      → length payload ≡ 32
      → H.get env pub_key ≡ some stored
      → vk_from_bytes mldsa65 M stored ≡ ok vk
      → (check_auth M K H env payload signature ≡ ok tt)
        ↔ Accepts mldsa65 M vk payload context signature
  check_auth_for_key LK env payload signature {stored} {vk} u g d =
      let iff = check_auth_iff LK env payload signature u in
      (
        λ h.
            let (stored', vk', g', d', a) = iff.0 h in
            let same : vk' ≡ vk = cc in
            subst (λ v. Accepts mldsa65 M v payload context signature) same a,
        λ a. iff.1 (stored, vk, g, d, a),
      )

  -- What the stored key says of a signature, and what `__check_auth` makes of it.
  abbrev pub Judged : Bytes → Bytes → Bytes → Run Error (Unit {0}) → Type 0
  Judged stored payload signature result =
      (vk : M.VerifyingKey) × (vk_from_bytes mldsa65 M stored ≡ ok vk)
      × ((Accepts mldsa65 M vk payload context signature × (result ≡ ok tt))
          ⊎ (¬ (Accepts mldsa65 M vk payload context signature) × (result ≡ err sig_verify_failed)))

  run_check-Judged :
      External.IsLawful M mldsa65.vk_len mldsa65.sk_len mldsa65.sig_len
      → (stored payload signature : Bytes) → length stored ≡ vk_len
      → length signature ≡ sig_len
      → Judged stored payload signature (run_check stored payload signature)
  run_check-Judged LM stored payload signature s t =
      let (vk, d) = vk_from_bytes_sized mldsa65 M LM stored s in
      let accepted = verify_iff mldsa65 M vk payload context signature in
      (
        vk,
        d,
        elim (verify_sized mldsa65 M vk payload context signature context-short t) [
          | inl good ↦ inl (accepted.0 good, rw (d, good) refl)
          | inr bad ↦ inr (λ a. let no_way = accepted.1 a in absurd cc, rw (d, bad) refl)
        ],
      )

  pub check_auth-Judged :
      External.IsLawful M mldsa65.vk_len mldsa65.sk_len mldsa65.sig_len
      → Host.IsLawful K
      → (env : H.Env) (payload signature : Bytes) {stored : Bytes} → H.get env pub_key ≡ some stored
      → length stored ≡ vk_len
      → length signature ≡ sig_len
      → length payload ≡ 32
      → Judged stored payload signature (check_auth M K H env payload signature)
  check_auth-Judged LM LK env payload signature {stored} g s t u =
      rw (check_auth_sized LK env payload signature g s t u)
        (run_check-Judged LM stored payload signature s t)

  -- Over a lawful backend and SDK and a payload of 32 bytes, `__check_auth` reports the first thing
  -- that is wrong: no stored key, a stored key of another length, a signature of another length.
  -- With the lengths in order the stored bytes decode as a key; if that key accepts the signature
  -- over the payload under the context of this account it approves, and otherwise it reports
  -- `SigVerifyFailed`. It never traps.
  pub check_auth_cases :
      External.IsLawful M mldsa65.vk_len mldsa65.sk_len mldsa65.sig_len
      → Host.IsLawful K
      → (env : H.Env) (payload signature : Bytes) → length payload ≡ 32
      → let result = check_auth M K H env payload signature in
        ((H.get env pub_key ≡ none) × (result ≡ err not_inited))
        ⊎ ((stored : Bytes) × (H.get env pub_key ≡ some stored)
            × (((length stored ≢ vk_len) × (result ≡ err bad_pub_key_len))
                ⊎ ((length stored ≡ vk_len)
                    × (length signature ≢ sig_len)
                    × (result ≡ err bad_sig_len))
                ⊎ ((length stored ≡ vk_len)
                    × (length signature ≡ sig_len)
                    × Judged stored payload signature result)))
  unfolding check_auth
  check_auth_cases LM LK env payload signature u = elim (Option-cases (H.get env pub_key)) [
    | inl missing ↦ inl (missing, ground arith)
    | inr (stored, g) ↦ inr (
      stored,
      g,
      elim (ℕ_discrete (length stored) vk_len) [
        | no ne ↦ inl (ne, ground arith)
        | yes s ↦ inr (elim (ℕ_discrete (length signature) sig_len) [
          | no ne ↦ inl (s, ne, ground arith)
          | yes t ↦ inr (s, t, check_auth-Judged LM LK env payload signature g s t u)
        ])
      ],
    )
  ]
