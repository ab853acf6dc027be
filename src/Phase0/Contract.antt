-- ===== src/Phase0/Contract.antt =====
-- phase0/contract/src/lib.rs: verification in a contract, over the crate ml-dsa itself.
pub mod Agreement
use soroban_ml_dsa.Prelude.{
  ℕ, Bool, true, false, some, none, Bytes, length, take, zeros, ltb, ◌==◌, if◌then◌else◌, Run,
  Never, ok, panic, ◌>>=◌, or_panic,
}
use soroban_ml_dsa.Core.MlDsa.External.{Backend}
use soroban_ml_dsa.Contracts.Host.{Sdk, Crypto}
use soroban_ml_dsa.Phase0.External.{Calls}

abbrev pub noop : Run Never Bool
noop = ok true

module _ (M : Backend) (N : Calls M) (K : Sdk) where
  -- The body that `verify` and `verify44` share, with their lengths.
  unfoldable pub verify_bytes : (pk_len sig_len : ℕ) → Bytes → Bytes → Bytes → Run Never Bool
  verify_bytes pk_len sig_len pk msg sig =
      if length pk == pk_len
      then (do
        pk_a ← or_panic (K.copy_into_slice pk (zeros pk_len))
        if length sig == sig_len
            then (do
              sig_a ← or_panic (K.copy_into_slice sig (zeros sig_len))
              if ltb 256 (length msg) then ok false else (do
                msg_a ← or_panic (K.copy_into_slice msg (take (length msg) (zeros 256)))
                let vk = M.vk_decode (N.key_from pk_a)
                elim (N.sig_try_from sig_a) [
                  | some s ↦ ok (N.verify vk msg_a s)
                  | none ↦ ok false
                ]))
            else ok false)
      else ok false

  unfoldable pub verify : Bytes → Bytes → Bytes → Run Never Bool
  verify = verify_bytes 1952 3309

  unfoldable pub verify44 : Bytes → Bytes → Bytes → Run Never Bool
  verify44 = verify_bytes 1312 2420

  unfoldable pub decode_only : Bytes → Run Never Bool
  decode_only pk =
      if length pk == 1952
      then (do
        pk_a ← or_panic (K.copy_into_slice pk (zeros 1952))
        let _vk = M.vk_decode (N.key_from pk_a)
        ok true)
      else ok false

module _ (K : Sdk) (C : Crypto) where
  unfoldable pub ed25519 : Bytes → Bytes → Bytes → Run Never Bool
  ed25519 pk msg sig = do
    pk32 ← or_panic (K.try_into 32 pk)
    sig64 ← or_panic (K.try_into 64 sig)
    if C.ed25519_verify pk32 msg sig64 then ok true else panic
