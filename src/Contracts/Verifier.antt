-- ===== src/Contracts/Verifier.antt =====
-- contracts/pq-verifier/src/lib.rs: the contract that measures verification. `Env` is not used but
-- for the host's own signature checks.
pub mod Laws
use soroban_ml_dsa.Prelude.{
  ℕ, Bool, true, false, Bytes, length, take, zeros, ltb, ◌==◌, if◌then◌else◌, [],
}
use soroban_ml_dsa.Prelude.{Run, Never, ok, err, panic, ◌>>=◌, or_panic, is_ok}
use soroban_ml_dsa.Core.MlDsa.{Params, mldsa44, mldsa65, vk_from_bytes, verify}
use soroban_ml_dsa.Core.MlDsa.External.{Backend}
use soroban_ml_dsa.Contracts.Host.{Sdk, Crypto}

abbrev pub noop : Run Never Bool
noop = ok true

module _ (M : Backend) (K : Sdk) where
  -- The body that `verify65` and `verify44` share, with their lengths.
  unfoldable pub verify_bytes :
      Params → (pk_len sig_len : ℕ) → Bytes → Bytes → Bytes → Run Never Bool
  verify_bytes p pk_len sig_len pk msg sig =
      if length pk == pk_len
      then (do
        pk_b ← or_panic (K.copy_into_slice pk (zeros pk_len))
        if length sig == sig_len
            then (do
              sig_b ← or_panic (K.copy_into_slice sig (zeros sig_len))
              if ltb 8192 (length msg) then ok false else (do
                m ← or_panic (K.copy_into_slice msg (take (length msg) (zeros 8192)))
                elim (vk_from_bytes p M pk_b) [
                  | ok vk ↦ is_ok (verify p M vk m [] sig_b)
                  | err e ↦ ok false
                  | panic ↦ panic
                ]))
            else ok false)
      else ok false

  unfoldable pub verify65 : Bytes → Bytes → Bytes → Run Never Bool
  verify65 = verify_bytes mldsa65 1952 3309

  unfoldable pub verify44 : Bytes → Bytes → Bytes → Run Never Bool
  verify44 = verify_bytes mldsa44 1312 2420

  -- The body that `decode65` and `decode44` share.
  unfoldable pub decode_bytes : Params → ℕ → Bytes → Run Never Bool
  decode_bytes p pk_len pk =
      if length pk == pk_len
      then (do
        pk_b ← or_panic (K.copy_into_slice pk (zeros pk_len))
        is_ok (vk_from_bytes p M pk_b))
      else ok false

  unfoldable pub decode65 : Bytes → Run Never Bool
  decode65 = decode_bytes mldsa65 1952

  unfoldable pub decode44 : Bytes → Run Never Bool
  decode44 = decode_bytes mldsa44 1312

module _ (C : Crypto) where
  unfoldable pub ed25519 : Bytes → Bytes → Bytes → Run Never Bool
  ed25519 pk msg sig = if C.ed25519_verify pk msg sig then ok true else panic

  unfoldable pub secp256r1 : Bytes → Bytes → Bytes → Run Never Bool
  secp256r1 pk msg sig =
      let digest = C.sha256 msg in if C.secp256r1_verify pk digest sig then ok true else panic
