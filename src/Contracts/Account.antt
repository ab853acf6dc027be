-- ===== src/Contracts/Account.antt =====
-- contracts/pq-account/src/lib.rs: a Soroban account that an ML-DSA-65 signature guards.
pub mod Check
pub mod Init
pub mod Reach
pub mod History
pub mod View
pub mod Machine
use soroban_ml_dsa.Prelude.{
  ℕ, String, Bool, true, false, some, Bytes, length, zeros, ◌==◌, if◌then◌else◌,
}
use soroban_ml_dsa.Prelude.{Run, ok, err, panic, ◌>>=◌, ◌>>◌, map_err, ok_or, or_panic, ensure}
use soroban_ml_dsa.Prelude.Texts.{as_bytes}
use soroban_ml_dsa.Core.MlDsa.{mldsa65, vk_from_bytes, verify}
use soroban_ml_dsa.Core.MlDsa.External.{Backend}
use soroban_ml_dsa.Contracts.Host.{Sdk, Ledger}

abbrev pub vk_len : ℕ
vk_len = mldsa65.vk_len

abbrev pub sig_len : ℕ
sig_len = mldsa65.sig_len

-- Shut, so that proofs see a name and not the bytes.
unfoldable pub context : Bytes
unfolding as_bytes
context = as_bytes "pq-account-v1"

pub data DataKey : Type 0 where
  pub_key : DataKey

pub data Error : Type 0 where
  not_inited bad_pub_key_len bad_sig_len sig_verify_failed : Error

-- The values of the enum, `#[repr(u32)]`.
abbrev pub code : Error → ℕ
code not_inited = 1
code bad_pub_key_len = 2
code bad_sig_len = 3
code sig_verify_failed = 4

module _ (M : Backend) (K : Sdk) (H : Ledger DataKey) where
  unfoldable pub init : H.Env → Bytes → Run Error (Unit {0}) × H.Env
  init env pubkey =
      let checked : Run Error M.VerifyingKey = (do
        ensure (length pubkey == vk_len) bad_pub_key_len
        buf ← or_panic (K.copy_into_slice pubkey (zeros vk_len))
        map_err (λ _. bad_pub_key_len) (vk_from_bytes mldsa65 M buf)) in
      elim checked [
        | ok vk ↦ (ok tt, H.set env pub_key pubkey)
        | err e ↦ (err e, env)
        | panic ↦ (panic, env)
      ]

  -- `__check_auth`
  unfoldable pub check_auth : H.Env → Bytes → Bytes → Run Error (Unit {0})
  check_auth env signature_payload signature = do
    stored ← ok_or not_inited (H.get env pub_key)
    ensure (length stored == vk_len) bad_pub_key_len
    ensure (length signature == sig_len) bad_sig_len
    vk_buf ← or_panic (K.copy_into_slice stored (zeros vk_len))
    sig_buf ← or_panic (K.copy_into_slice signature (zeros sig_len))
    msg ← or_panic (K.copy_into_slice signature_payload (zeros 32))
    vk ← map_err (λ _. bad_pub_key_len) (vk_from_bytes mldsa65 M vk_buf)
    map_err (λ _. sig_verify_failed) (verify mldsa65 M vk msg context sig_buf)

  -- How the host reads the result of `__check_auth`.
  unfoldable pub approves : H.Env → Bytes → Bytes → Bool
  approves env signature_payload signature = elim (check_auth env signature_payload signature) [
    | ok u ↦ true
    | _ ↦ false
  ]

  unfoldable pub protected : H.Env → Run Error ℕ
  protected env = if H.require_auth env (approves env) then ok 42 else panic
