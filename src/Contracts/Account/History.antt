-- ===== src/Contracts/Account/History.antt =====
-- The key that contracts/pq-account/src/lib.rs stores after a sequence of `init` calls, against a
-- plain description.
use soroban_ml_dsa.Prelude.{
  ne→==, ◌≢◌, ◌≡◌, refl, inl, inr, arith, Bytes, length, List, [], ◌∷◌, Option, some, ◌==◌,
  if◌then◌else◌,
}
use soroban_ml_dsa.Core.MlDsa.{mldsa65}
use soroban_ml_dsa.Core.MlDsa.External
use soroban_ml_dsa.Core.MlDsa.External.{Backend}
use soroban_ml_dsa.Contracts.Host
use soroban_ml_dsa.Contracts.Host.{Sdk, Ledger, IsLedger}
use soroban_ml_dsa.Contracts.Account.{DataKey, pub_key, vk_len, init}
use soroban_ml_dsa.Contracts.Account.Init.{init_cases}

-- The last key of the declared length, or the key that was there.
unfoldable pub last_key : Option Bytes → List Bytes → Option Bytes
last_key old [] = old
last_key old (k ∷ keys) = last_key (if length k == vk_len then some k else old) keys

-- Keys of which none has the declared length.
abbrev pub AllRefused : List Bytes → Type 0
AllRefused [] = Unit
AllRefused (k ∷ keys) = (length k ≢ vk_len) × AllRefused keys

pub last_key-AllRefused :
    (keys : List Bytes) (old : Option Bytes) → AllRefused keys → last_key old keys ≡ old
unfolding last_key
last_key-AllRefused [] old h = refl
last_key-AllRefused (k ∷ keys) old (ne, h) =
    rw (ne→== (length k) vk_len ne) (last_key-AllRefused keys old h)

module _ (M : Backend) (K : Sdk) (H : Ledger DataKey) where
  unfoldable pub run_inits : H.Env → List Bytes → H.Env
  run_inits env [] = env
  run_inits env (k ∷ keys) = run_inits (init M K H env k).1 keys

module _ (M : Backend) (K : Sdk) (H : Ledger DataKey)
    (LM : External.IsLawful M mldsa65.vk_len mldsa65.sk_len mldsa65.sig_len) (LK : Host.IsLawful K)
    (LH : IsLedger H) where
  get-init :
      (env : H.Env) (k : Bytes)
      → H.get (init M K H env k).1 pub_key
        ≡ (if length k == vk_len then some k else H.get env pub_key)
  get-init env k = elim (init_cases M K H LM LK env k) [
    | inl (s, i) ↦ rw i (rw (LH.get-set env pub_key k) (ground arith))
    | inr (ne, i) ↦ rw i (ground arith)
  ]

  -- After any sequence of `init` calls the stored key is the last one given that had the declared
  -- length, and the key stored before if there was none.
  pub get-run_inits :
      (keys : List Bytes) (env : H.Env)
      → H.get (run_inits M K H env keys) pub_key ≡ last_key (H.get env pub_key) keys
  unfolding run_inits last_key
  get-run_inits [] env = refl
  get-run_inits (k ∷ keys) env = rw (← get-init env k) (get-run_inits keys (init M K H env k).1)
