-- ===== src/Contracts/Account/Machine.antt =====
-- Sequences of calls of contracts/pq-account/src/lib.rs, by anyone and in any order, against a machine
-- that has nothing but an optional key.
use soroban_ml_dsa.Prelude.{
  ◌≡◌, ◌≢◌, ◌⊎◌, inl, inr, refl, sym, ◌∙◌, subst, arith, Bytes, length, List, [], ◌∷◌, Option, some,
  none, Run, ok, err,
}
use soroban_ml_dsa.Core.MlDsa.{mldsa65, vk_from_bytes}
use soroban_ml_dsa.Core.MlDsa.External
use soroban_ml_dsa.Core.MlDsa.External.{Backend}
use soroban_ml_dsa.Core.MlDsa.Verify.{Accepts}
use soroban_ml_dsa.Contracts.Host
use soroban_ml_dsa.Contracts.Host.{Sdk, Ledger, IsLedger}
use soroban_ml_dsa.Contracts.Account.{
  DataKey, pub_key, Error, not_inited, bad_pub_key_len, bad_sig_len, sig_verify_failed, vk_len,
  sig_len, context, init, check_auth,
}
use soroban_ml_dsa.Contracts.Account.Check.{check_auth_cases}
use soroban_ml_dsa.Contracts.Account.Init.{init_cases}
use soroban_ml_dsa.Contracts.Account.Reach.{IsSound, call_init, Reach, Step-IsSound, Reach-IsSound}

pub data Call : Type 0 where
  store : Bytes → Call
  -- A payload, and the signature that comes with it.
  ask : Bytes → Bytes → Call

abbrev pub Outcome : Type 0
Outcome = Run Error (Unit {0})

-- The type `Hash<32>` of payloads.
abbrev pub AllHashes : List Call → Type 0
AllHashes [] = Unit
AllHashes (store key ∷ calls) = AllHashes calls
AllHashes (ask payload signature ∷ calls) = (length payload ≡ 32) × AllHashes calls

module _ (M : Backend) where
  -- What the machine may do from the key `old`: the outcome, and the key afterwards.
  abbrev pub Allows : Option Bytes → Call → Outcome → Option Bytes → Type 0
  Allows old (store key) outcome new =
      ((length key ≡ vk_len) × (outcome ≡ ok tt) × (new ≡ some key))
      ⊎ ((length key ≢ vk_len) × (outcome ≡ err bad_pub_key_len) × (new ≡ old))
  Allows none (ask payload signature) outcome new = (outcome ≡ err not_inited) × (new ≡ none)
  Allows (some key) (ask payload signature) outcome new =
      (new ≡ some key)
      × (((length signature ≢ sig_len) × (outcome ≡ err bad_sig_len))
          ⊎ ((length signature ≡ sig_len)
              × ((vk : M.VerifyingKey) × (vk_from_bytes mldsa65 M key ≡ ok vk)
                  × ((Accepts mldsa65 M vk payload context signature × (outcome ≡ ok tt))
                      ⊎ ((¬ (Accepts mldsa65 M vk payload context signature))
                          × (outcome ≡ err sig_verify_failed))))))

  -- The same for a sequence of calls, with an outcome for each.
  abbrev pub AllowsAll : Option Bytes → List Call → List Outcome → Option Bytes → Type 0
  AllowsAll old [] outcomes new = (outcomes ≡ []) × (new ≡ old)
  AllowsAll old (call ∷ calls) outcomes new =
      (outcome : Outcome) × (key : Option Bytes) × (rest : List Outcome) × (outcomes
        ≡ outcome ∷ rest)
      × Allows old call outcome key
      × AllowsAll key calls rest new

  decodes_once :
      (key : Bytes) {vk vk' : M.VerifyingKey}
      → vk_from_bytes mldsa65 M key ≡ ok vk
      → vk_from_bytes mldsa65 M key ≡ ok vk'
      → vk ≡ vk'
  decodes_once key d d' = cc

  Allows-once :
      (old : Option Bytes) (call : Call) {a b : Outcome} {x y : Option Bytes}
      → Allows old call a x
      → Allows old call b y
      → (a ≡ b) × (x ≡ y)
  Allows-once old (store key) p q = ground arith
  Allows-once none (ask payload signature) p q = ground arith
  Allows-once (some key) (ask payload signature) (e, inl p) (f, q) = ground arith
  Allows-once (some key) (ask payload signature) (e, inr p) (f, inl q) = ground arith
  Allows-once (some key) (ask payload signature) (e, inr (_, (vk, d, inl (yes_a, o))))
        (f, inr (_, (vk', d', inl (yes_b, o')))) =
      (o ∙ sym o', e ∙ sym f)
  Allows-once (some key) (ask payload signature) (e, inr (_, (vk, d, inr (no_a, o))))
        (f, inr (_, (vk', d', inr (no_b, o')))) =
      (o ∙ sym o', e ∙ sym f)
  Allows-once (some key) (ask payload signature) (e, inr (_, (vk, d, inl (yes_a, o))))
        (f, inr (_, (vk', d', inr (no_b, o')))) =
      absurd (
        no_b (
          subst (λ v. Accepts mldsa65 M v payload context signature) (decodes_once key d d') yes_a))
  Allows-once (some key) (ask payload signature) (e, inr (_, (vk, d, inr (no_a, o))))
        (f, inr (_, (vk', d', inl (yes_b, o')))) =
      absurd (
        no_a (
          subst (λ v. Accepts mldsa65 M v payload context signature) (decodes_once key d' d) yes_b))

  AllowsAll-once :
      (old : Option Bytes) (calls : List Call) {a b : List Outcome} {x y : Option Bytes}
      → AllowsAll old calls a x
      → AllowsAll old calls b y
      → (a ≡ b) × (x ≡ y)
  AllowsAll-once old [] (a, x) (b, y) = (a ∙ sym b, x ∙ sym y)
  AllowsAll-once old (call ∷ calls) {y = y} (o, k, l, e, p, ps) (o', j, l', f, q, qs) =
      let (same, keys) = Allows-once old call p q in
      let (rest, ends) =
        AllowsAll-once k calls ps (subst (λ key. AllowsAll key calls l' y) (sym keys) qs) in
      (cc, ends)

module _ (M : Backend) (K : Sdk) (H : Ledger DataKey) where
  -- A call, with its outcome and the state afterwards. `__check_auth` stores nothing.
  unfoldable pub perform : H.Env → Call → Outcome × H.Env
  perform env (store key) = init M K H env key
  perform env (ask payload signature) = (check_auth M K H env payload signature, env)

  unfoldable pub run : H.Env → List Call → List Outcome × H.Env
  run env [] = ([], env)
  run env (call ∷ calls) =
      let (outcome, env') = perform env call in
      let (outcomes, last) = run env' calls in (outcome ∷ outcomes, last)

module _ (M : Backend) (K : Sdk) (H : Ledger DataKey)
    (LM : External.IsLawful M mldsa65.vk_len mldsa65.sk_len mldsa65.sig_len) (LK : Host.IsLawful K)
    (LH : IsLedger H) where
  init-Allows :
      (env : H.Env) (key : Bytes)
      → let (outcome, env') = init M K H env key in
        Allows M (H.get env pub_key) (store key) outcome (H.get env' pub_key)
  init-Allows env key = elim (init_cases M K H LM LK env key) [
    | inl (s, i) ↦ rw i (inl (s, refl, LH.get-set env pub_key key))
    | inr (ne, i) ↦ rw i (inr (ne, refl, refl))
  ]

  length-stored :
      (env : H.Env) {key : Bytes}
      → IsSound M K H env
      → H.get env pub_key ≡ some key
      → length key ≡ vk_len
  length-stored env (inl missing) g = cc
  length-stored env {key} (inr (key', g', s)) g = ground arith

  check_auth-Allows :
      (env : H.Env) (payload signature : Bytes)
      → IsSound M K H env
      → length payload ≡ 32
      → Allows M
          (H.get env pub_key)
          (ask payload signature)
          (check_auth M K H env payload signature)
          (H.get env pub_key)
  check_auth-Allows env payload signature sound u =
      elim (check_auth_cases M K H LM LK env payload signature u) [
        | inl (g, r) ↦ rw g (r, refl)
        | inr (key, g, outcomes) ↦
            let sized = length-stored env sound g in
            rw g (
              refl,
              elim outcomes [
                | inl (ne, _) ↦ absurd (ne sized)
                | inr (inl (_, ne, r)) ↦ inl (ne, r)
                | inr (inr (_, t, judged)) ↦ inr (t, judged)
              ],
            )
      ]

  run-AllowsAll :
      (calls : List Call) (env : H.Env)
      → IsSound M K H env
      → AllHashes calls
      → let (outcomes, env') = run M K H env calls in
        AllowsAll M (H.get env pub_key) calls outcomes (H.get env' pub_key)
  unfolding run perform
  run-AllowsAll [] env sound sized = (refl, refl)
  run-AllowsAll (store key ∷ calls) env sound sized =
      let env' = (init M K H env key).1 in
      let still = Step-IsSound M K H LM LK LH (call_init key refl) sound in
      (_, _, _, refl, init-Allows env key, run-AllowsAll calls env' still sized)
  run-AllowsAll (ask payload signature ∷ calls) env sound (u, sized) = (
    _,
    _,
    _,
    refl,
    check_auth-Allows env payload signature sound u,
    run-AllowsAll calls env sound sized,
  )

  -- In every state that a fresh contract reaches, over a lawful backend, SDK and host: calls of
  -- `init` and of `__check_auth` over payloads of 32 bytes, in any order, have the outcomes that the
  -- machine allows from the stored key, and leave its key; and the machine allows no others.
  pub run_refines :
      {env : H.Env}
      → Reach M K H env
      → (calls : List Call) → AllHashes calls
      → let (outcomes, env') = run M K H env calls in
        AllowsAll M (H.get env pub_key) calls outcomes (H.get env' pub_key)
        × ((others : List Outcome) (key : Option Bytes)
            → AllowsAll M (H.get env pub_key) calls others key
            → (others ≡ outcomes) × (key ≡ H.get env' pub_key))
  run_refines {env} reached calls sized =
      let allowed = run-AllowsAll calls env (Reach-IsSound M K H LM LK LH reached) sized in
      (allowed, λ others key also. AllowsAll-once M (H.get env pub_key) calls also allowed)
