-- ===== src/Contracts/Host.antt =====
-- What the contracts use of `soroban-sdk` and the Soroban host, which are not in the repository.
-- A byte string of the SDK is `Bytes`; a trap is `none` or `false`, as the field says.
use soroban_ml_dsa.Prelude.{ℕ, ◌≡◌, ◌≢◌, Bool, true, Option, some, none, Bytes, length}

pub record Sdk : Type 0 where
  -- `bytes.copy_into_slice(slice)` gives the slice afterwards, or traps (`none`).
  pub copy_into_slice : Bytes → Bytes → Option Bytes
  -- `bytes.try_into()` at the type `BytesN<n>`; `none` is an error.
  pub try_into : ℕ → Bytes → Option Bytes

-- A slice of the same length is overwritten whole.
pub record IsLawful (K : Sdk) : Type 0 where
  pub copy_same_length :
      (b slice : Bytes) → length b ≡ length slice → K.copy_into_slice b slice ≡ some b
  pub try_into_sized : (n : ℕ) (b : Bytes) → length b ≡ n → K.try_into n b ≡ some b
  pub try_into_unsized : (n : ℕ) (b : Bytes) → length b ≢ n → K.try_into n b ≡ none

-- Host functions that verify a signature: `false` is a trap.
pub record Crypto : Type 0 where
  -- `ed25519_verify key message signature`
  pub ed25519_verify : Bytes → Bytes → Bytes → Bool
  pub sha256 : Bytes → Bytes
  -- `secp256r1_verify key digest signature`
  pub secp256r1_verify : Bytes → Bytes → Bytes → Bool

-- Instance storage with keys `Key`, and the authorization of the running call.
pub record Ledger (Key : Type 0) : Type 1 where
  pub Env : Type 0
  pub get : Env → Key → Option Bytes
  pub set : Env → Key → Bytes → Env
  -- `current_contract_address().require_auth()`, given the contract's `__check_auth` as a test of
  -- a payload and a signature; `false` is a trap.
  pub require_auth : Env → (Bytes → Bytes → Bool) → Bool
  -- The payload that the host computed and the signature that came with it, where there is one.
  pub credential : Env → Option (Bytes × Bytes)

pub record IsLedger {Key : Type 0} (H : Ledger Key) : Type 0 where
  pub get-set : (env : H.Env) (k : Key) (v : Bytes) → H.get (H.set env k v) k ≡ some v
  -- The host lets a call pass only if the contract has approved a credential over 32 bytes.
  pub require_auth_checks :
      (env : H.Env) (check : Bytes → Bytes → Bool)
      → H.require_auth env check ≡ true
      → (payload : Bytes) × (signature : Bytes) × (H.credential env ≡ some (payload, signature))
        × (length payload ≡ 32)
        × (check payload signature ≡ true)
