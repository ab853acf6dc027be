-- ===== src/Phase0/Account/Agreement.antt =====
-- phase0/account/src/lib.rs beside contracts/pq-account/src/lib.rs, which replaces it.
use soroban_ml_dsa.Prelude.{
  ℕ, ◌≡◌, ◌↔◌, ◌⊎◌, List, [], ◌∷◌, Bytes, length, none, some, Run, ok, err, map_err,
}
use soroban_ml_dsa.Core.MlDsa.{mldsa65, vk_from_bytes}
use soroban_ml_dsa.Core.MlDsa.External as Crate
use soroban_ml_dsa.Core.MlDsa.External.{Backend}
use soroban_ml_dsa.Core.MlDsa.Verify.{Accepts}
use soroban_ml_dsa.Contracts.Host
use soroban_ml_dsa.Contracts.Host.{Sdk, Ledger}
use soroban_ml_dsa.Contracts.Account as Rebuilt
use soroban_ml_dsa.Contracts.Account.{context, sig_len}
use soroban_ml_dsa.Contracts.Account.Check
use soroban_ml_dsa.Phase0.External
use soroban_ml_dsa.Phase0.External.{Calls, decode_slice}
use soroban_ml_dsa.Phase0.Account as First

-- A history of `init` calls.
unfoldable pub run_first : (H : Ledger First.DataKey) → H.Env → List Bytes → H.Env
run_first H env [] = env
run_first H env (k ∷ keys) = run_first H (First.init H env k).1 keys

module _ (M : Backend) (N : Calls M) (K : Sdk) (H : Ledger First.DataKey)
    (H' : Ledger Rebuilt.DataKey)
    (LM : Crate.IsLawful M mldsa65.vk_len mldsa65.sk_len mldsa65.sig_len)
    (LN : External.IsLawful M N mldsa65.vk_len) (LK : Host.IsLawful K) where
  -- The numbers of the errors, which the two contracts share.
  abbrev pub first : H.Env → Bytes → Bytes → Run ℕ (Unit {0})
  first env payload signature = map_err First.code (First.check_auth M N K H env payload signature)

  abbrev pub rebuilt : H'.Env → Bytes → Bytes → Run ℕ (Unit {0})
  rebuilt env payload signature =
      map_err Rebuilt.code (Rebuilt.check_auth M K H' env payload signature)

  -- Two contracts that store the same.
  abbrev pub Alike : H.Env → H'.Env → Type 0
  Alike env env' = H.get env First.pub_key ≡ H'.get env' Rebuilt.pub_key

  -- A signature that does not decode gets the error 3, one that does is approved or gets the error 4.
  abbrev pub OldVerdict : Bytes → Run ℕ (Unit {0}) → Type 0
  OldVerdict signature old =
      ((decode_slice M signature ≡ none) × (old ≡ err 3))
      ⊎ ((s : M.Signature) × (decode_slice M signature ≡ some s) × ((old ≡ ok tt) ⊎ (old ≡ err 4)))

  -- What they say of a signature of the declared length over a payload, for one key: each accepts it
  -- exactly under its own context, and the errors differ for one that does not decode.
  abbrev pub Compared :
      M.VerifyingKey → Bytes → Bytes → Run ℕ (Unit {0}) → Run ℕ (Unit {0}) → Type 0
  Compared vk payload signature old new =
      ((old ≡ ok tt) ↔ Accepts mldsa65 M vk payload [] signature)
      × ((new ≡ ok tt) ↔ Accepts mldsa65 M vk payload context signature)
      × OldVerdict signature old
      × ((new ≡ ok tt) ⊎ (new ≡ err 4))

  -- The same error before any signature is looked into, or a judgement of the signature.
  abbrev pub Agreed : H.Env → Bytes → Bytes → Run ℕ (Unit {0}) → Run ℕ (Unit {0}) → Type 0
  Agreed env payload signature old new =
      ((old ≡ new) × ((new ≡ err 1) ⊎ (new ≡ err 2) ⊎ (new ≡ err 3)))
      ⊎ ((stored : Bytes) × (vk : M.VerifyingKey) × (H.get env First.pub_key ≡ some stored)
          × (vk_from_bytes mldsa65 M stored ≡ ok vk)
          × (length signature ≡ sig_len)
          × Compared vk payload signature old new)
