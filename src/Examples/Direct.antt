-- ===== src/Examples/Direct.antt =====
-- Stand-ins for what the contracts of phase0 call, and for their host.
use native.Mathlib.Nat.{ℕ_set}
use mathlib.Core.Logic.{dite, dif_pos}
use soroban_ml_dsa.Prelude.{◌≡◌, refl, some, [], Bytes, length, ap, sym, ◌∙◌, ℕ, ℕ_discrete}
use soroban_ml_dsa.Core.MlDsa.External.{Backend}
use soroban_ml_dsa.Contracts.Host.{Ledger, IsLedger}
use soroban_ml_dsa.Phase0.External
use soroban_ml_dsa.Phase0.External.{Calls, decode_slice}
use soroban_ml_dsa.Phase0.Account.{DataKey}
use soroban_ml_dsa.Examples.Toy.{SizedBytes, encoded, sized, is_tag, backend}
use soroban_ml_dsa.Examples.World.{State, ledger, ledger-IsLedger}

module _ (vk_len sk_len sig_len : ℕ) where
  abbrev pub key_from : Bytes → SizedBytes vk_len
  key_from b =
      dite (ℕ_discrete (length b) vk_len) (λ h. record { bytes = b; sized = h })
        (λ _. sized vk_len b)

  key_from_sized : (b : Bytes) → length b ≡ vk_len → (encoded vk_len).try_from b ≡ some (key_from b)
  key_from_sized b h =
      dif_pos (ℕ_discrete (length b) vk_len) (ℕ_set _ _) h _ _
      ∙ sym (ap some (dif_pos (ℕ_discrete (length b) vk_len) (ℕ_set _ _) h _ _))

  abbrev pub calls : Calls (backend vk_len sk_len sig_len)
  calls = record {
    key_from = key_from;
    sig_try_from = decode_slice (backend vk_len sk_len sig_len);
    verify = λ v message s. is_tag sig_len v.bytes message [] s;
  }

  pub calls-IsLawful : External.IsLawful (backend vk_len sk_len sig_len) calls vk_len
  calls-IsLawful = record {
    key_from_sized = key_from_sized;
    sig_try_from_lem = λ b. refl;
    verify_lem = λ v message s. refl;
  }

abbrev pub M : Backend
M = backend 1952 4032 3309

abbrev pub N : Calls M
N = calls 1952 4032 3309

abbrev pub M44 : Backend
M44 = backend 1312 2560 2420

abbrev pub host : Ledger DataKey
host = record {
  Env = State;
  get = λ env k. env.key;
  set = λ env k v. record env { key = some v };
  require_auth = λ env check. ledger.require_auth env check;
  credential = λ env. env.credential;
}

pub host-IsLedger : IsLedger host
host-IsLedger = record {
  get-set = λ env k v. refl;
  require_auth_checks = λ env check h. ledger-IsLedger.require_auth_checks env check h;
}
