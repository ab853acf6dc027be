-- ===== src/Contracts/Account/Init.antt =====
-- `init` of contracts/pq-account/src/lib.rs: what it stores, and what it does not ask for.
use soroban_ml_dsa.Prelude.{
  ◌≡◌, ◌≢◌, ◌↔◌, ◌⊎◌, inl, inr, arith, Bytes, length, ℕ_discrete, ok, err, refl,
}
use soroban_ml_dsa.Core.MlDsa.{mldsa65, vk_from_bytes}
use soroban_ml_dsa.Core.MlDsa.External
use soroban_ml_dsa.Core.MlDsa.External.{Backend}
use soroban_ml_dsa.Core.MlDsa.Encode.{vk_from_bytes_sized}
use soroban_ml_dsa.Core.MlDsa.Verify.{Accepts}
use soroban_ml_dsa.Contracts.Host
use soroban_ml_dsa.Contracts.Host.{Sdk, Ledger, IsLedger}
use soroban_ml_dsa.Contracts.Account.{
  DataKey, pub_key, bad_pub_key_len, vk_len, context, init, check_auth,
}
use soroban_ml_dsa.Contracts.Account.Check.{copy_zeros, check_auth_for_key}

module _ (M : Backend) (K : Sdk) (H : Ledger DataKey) where
  init_sized :
      Host.IsLawful K
      → (env : H.Env) (pubkey : Bytes) {vk : M.VerifyingKey} → length pubkey ≡ vk_len
      → vk_from_bytes mldsa65 M pubkey ≡ ok vk
      → init M K H env pubkey ≡ (ok tt, H.set env pub_key pubkey)
  unfolding init
  init_sized LK env pubkey s d = ground (arith, copy_zeros K LK pubkey s)

  -- Over a lawful backend and SDK, `init` stores every key of the declared length, in whatever
  -- state it is called, and refuses any other length without a change.
  pub init_cases :
      External.IsLawful M mldsa65.vk_len mldsa65.sk_len mldsa65.sig_len
      → Host.IsLawful K
      → (env : H.Env) (pubkey : Bytes)
      → ((length pubkey ≡ vk_len) × (init M K H env pubkey ≡ (ok tt, H.set env pub_key pubkey)))
        ⊎ ((length pubkey ≢ vk_len) × (init M K H env pubkey ≡ (err bad_pub_key_len, env)))
  unfolding init
  init_cases LM LK env pubkey = elim (ℕ_discrete (length pubkey) vk_len) [
    | yes s ↦
        let (vk, d) = vk_from_bytes_sized mldsa65 M LM pubkey s in
        inl (s, init_sized LK env pubkey s d)
    | no ne ↦ inr (ne, ground arith)
  ]

  -- After `init` with a key of the declared length, whatever key was stored before, `__check_auth`
  -- approves exactly the signatures, over a payload of 32 bytes and the context of this account,
  -- that the new key accepts: an earlier key leaves no trace, and `init` does not ask for it.
  pub check_auth-init :
      External.IsLawful M mldsa65.vk_len mldsa65.sk_len mldsa65.sig_len
      → Host.IsLawful K
      → IsLedger H
      → (env : H.Env) (pubkey payload signature : Bytes) → length pubkey ≡ vk_len
      → length payload ≡ 32
      → let (result, env') = init M K H env pubkey in
        (result ≡ ok tt)
        × ((vk : M.VerifyingKey) × (vk_from_bytes mldsa65 M pubkey ≡ ok vk)
            × ((check_auth M K H env' payload signature ≡ ok tt)
                ↔ Accepts mldsa65 M vk payload context signature))
  check_auth-init LM LK LH env pubkey payload signature s u =
      let (vk, d) = vk_from_bytes_sized mldsa65 M LM pubkey s in
      let g = LH.get-set env pub_key pubkey in
      rw (init_sized LK env pubkey s d) (
        refl,
        (vk, d, check_auth_for_key M K H LK (H.set env pub_key pubkey) payload signature u g d),
      )
