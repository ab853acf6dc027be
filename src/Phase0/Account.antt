-- ===== src/Phase0/Account.antt =====
-- phase0/account/src/lib.rs: the account contract over the crate ml-dsa itself, with no context.
pub mod Check
pub mod Agreement
use soroban_ml_dsa.Prelude.{
  ℕ, Bool, true, false, Bytes, length, zeros, ◌==◌, if◌then◌else◌, Run, ok, err, panic, ◌>>=◌, ◌>>◌,
  ok_or, or_panic, ensure,
}
use soroban_ml_dsa.Core.MlDsa.External.{Backend}
use soroban_ml_dsa.Contracts.Host.{Sdk, Ledger}
use soroban_ml_dsa.Phase0.External.{Calls}

pub data DataKey : Type 0 where
  pub_key : DataKey

pub data Error : Type 0 where
  not_inited bad_pub_key_len bad_sig_len sig_verify_failed : Error

-- The values of the enum, `#[repr(u32)]`.
abbrev pub code : Error → ℕ
code not_inited = 1
code bad_pub_key_len = 2
code bad_sig_len = 3
code sig_verify_failed = 4

module _ (H : Ledger DataKey) where
  unfoldable pub init : H.Env → Bytes → Run Error (Unit {0}) × H.Env
  init env pubkey =
      if length pubkey == 1952
      then (ok tt, H.set env pub_key pubkey)
      else (err bad_pub_key_len, env)

module _ (M : Backend) (N : Calls M) (K : Sdk) (H : Ledger DataKey) where
  -- `__check_auth`
  unfoldable pub check_auth : H.Env → Bytes → Bytes → Run Error (Unit {0})
  check_auth env signature_payload signature = do
    pk ← ok_or not_inited (H.get env pub_key)
    ensure (length pk == 1952) bad_pub_key_len
    pk_a ← or_panic (K.copy_into_slice pk (zeros 1952))
    ensure (length signature == 3309) bad_sig_len
    sig_a ← or_panic (K.copy_into_slice signature (zeros 3309))
    msg ← or_panic (K.copy_into_slice signature_payload (zeros 32))
    let vk = M.vk_decode (N.key_from pk_a)
    s ← ok_or bad_sig_len (N.sig_try_from sig_a)
    ensure (N.verify vk msg s) sig_verify_failed

  -- How the host reads the result of `__check_auth`.
  unfoldable pub approves : H.Env → Bytes → Bytes → Bool
  approves env signature_payload signature = elim (check_auth env signature_payload signature) [
    | ok u ↦ true
    | _ ↦ false
  ]

  unfoldable pub protected : H.Env → Run Error ℕ
  protected env = if H.require_auth env (approves env) then ok 42 else panic
