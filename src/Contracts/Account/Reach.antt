-- ===== src/Contracts/Account/Reach.antt =====
-- The states that calls of contracts/pq-account/src/lib.rs can reach, and what its entry points do
-- in them.
use soroban_ml_dsa.Prelude.{
  ℕ, ◌≡◌, ◌≢◌, ◌↔◌, ◌⊎◌, inl, inr, arith, Bytes, length, some, none, ok, err, panic, Run,
  Bool-cases, true,
}
use soroban_ml_dsa.Core.MlDsa.{mldsa65, vk_from_bytes}
use soroban_ml_dsa.Core.MlDsa.External
use soroban_ml_dsa.Core.MlDsa.External.{Backend}
use soroban_ml_dsa.Core.MlDsa.Verify.{Accepts}
use soroban_ml_dsa.Contracts.Host
use soroban_ml_dsa.Contracts.Host.{Sdk, Ledger, IsLedger}
use soroban_ml_dsa.Contracts.Account.{
  DataKey, pub_key, Error, not_inited, bad_pub_key_len, vk_len, context, init, check_auth, approves,
  protected,
}
use soroban_ml_dsa.Contracts.Account.Check.{check_auth_iff, check_auth_cases}
use soroban_ml_dsa.Contracts.Account.Init.{init_cases}

module _ (M : Backend) (K : Sdk) (H : Ledger DataKey) where
  -- A call of `init` by anyone, whatever it returns. The other entry points store nothing.
  pub data Step : H.Env → H.Env → Type 0 where
    call_init :
        {env env' : H.Env} {result : Run Error (Unit {0})} (pubkey : Bytes)
        → init M K H env pubkey ≡ (result, env')
        → Step env env'

  -- From a fresh contract, which stores no key.
  pub data Reach : H.Env → Type 0 where
    deployed : {env : H.Env} → H.get env pub_key ≡ none → Reach env
    next : {env env' : H.Env} → Reach env → Step env env' → Reach env'

  -- The stored key, where there is one, has the declared length.
  abbrev pub IsSound : H.Env → Type 0
  IsSound env =
      (H.get env pub_key ≡ none)
      ⊎ ((stored : Bytes) × (H.get env pub_key ≡ some stored) × (length stored ≡ vk_len))

approves_ok :
    (M : Backend) (K : Sdk) (H : Ledger DataKey) (env : H.Env) (payload signature : Bytes)
    → approves M K H env payload signature ≡ true
    → check_auth M K H env payload signature ≡ ok tt
unfolding approves
approves_ok M K H env payload signature h = ground arith

module _ (M : Backend) (K : Sdk) (H : Ledger DataKey)
    (LM : External.IsLawful M mldsa65.vk_len mldsa65.sk_len mldsa65.sig_len) (LK : Host.IsLawful K)
    (LH : IsLedger H) where
  pub Step-IsSound :
      {env env' : H.Env} → Step M K H env env' → IsSound M K H env → IsSound M K H env'
  Step-IsSound (call_init {env} {env'} pubkey e) sound = elim (init_cases M K H LM LK env pubkey) [
    | inl (s, i) ↦
        let same : env' ≡ H.set env pub_key pubkey = cc in
        inr (pubkey, rw same (LH.get-set env pub_key pubkey), s)
    | inr (_, i) ↦ let same : env' ≡ env = cc in rw same sound
  ]

  pub Reach-IsSound : {env : H.Env} → Reach M K H env → IsSound M K H env
  Reach-IsSound (deployed e) = inl e
  Reach-IsSound (next r st) = Step-IsSound st (Reach-IsSound r)

  -- In every state that a fresh contract reaches, over a lawful backend, SDK and host and a payload
  -- of 32 bytes, `__check_auth` never finds a bad stored key and never traps, and it reports a
  -- missing key exactly when none is stored.
  pub check_auth_reachable :
      {env : H.Env}
      → Reach M K H env
      → (payload signature : Bytes) → length payload ≡ 32
      → let result = check_auth M K H env payload signature in
        (result ≢ err bad_pub_key_len)
        × (result ≢ panic)
        × ((result ≡ err not_inited) ↔ (H.get env pub_key ≡ none))
  check_auth_reachable {env} r payload signature u =
      ground (arith, Reach-IsSound r, check_auth_cases M K H LM LK env payload signature u)

  -- If `protected` returns, it returns 42, and the host held a signature over a payload of 32 bytes
  -- that the stored key accepts under the context of this account.
  pub protected_needs_signature :
      (env : H.Env) {r : ℕ}
      → protected M K H env ≡ ok r
      → (r ≡ 42)
        × ((payload : Bytes) × (signature : Bytes) × (stored : Bytes) × (vk : M.VerifyingKey)
            × (H.credential env ≡ some (payload, signature))
            × (length payload ≡ 32)
            × (H.get env pub_key ≡ some stored)
            × (vk_from_bytes mldsa65 M stored ≡ ok vk)
            × Accepts mldsa65 M vk payload context signature)
  unfolding protected
  protected_needs_signature env h = elim (Bool-cases (H.require_auth env (approves M K H env))) [
    | inr refused ↦ ground arith
    | inl passed ↦
        let (payload, signature, cred, u, good) =
          LH.require_auth_checks env (approves M K H env) passed in
        let (stored, vk, g, d, a) =
          (check_auth_iff M K H LK env payload signature u).0
            (approves_ok M K H env payload signature good) in
        (ground arith, (payload, signature, stored, vk, cred, u, g, d, a))
  ]
