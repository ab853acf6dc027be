-- ===== src/Phase0/Harness/External.antt =====
-- What phase0/harness uses of the crates ml-dsa and ed25519-dalek beside the verifying side; they
-- are not in the repository; and of soroban-sdk's XDR beside what pq-cli uses.
use soroban_ml_dsa.Prelude.{ℕ, ◌≡◌, true, String, Option, some, [], Bytes, length}
use soroban_ml_dsa.Prelude.Int.{ℤ}
use soroban_ml_dsa.Core.MlDsa.External.{Backend}
use soroban_ml_dsa.Stellar.External.{Xdr}
use soroban_ml_dsa.Contracts.Host.{Crypto}
use soroban_ml_dsa.Cli.External.{Crates, TransactionEnvelope}
use soroban_ml_dsa.Cli.Transactions.{Tx}

pub record Signing (M : Backend) : Type 1 where
  pub SigningKey : Type 0
  -- `SigningKey::from_seed`, at an array of 32 bytes.
  pub from_seed : Bytes → SigningKey
  pub verifying_key : SigningKey → M.VerifyingKey
  -- `Signer::sign(key, message)`; `none` is a panic.
  pub sign : SigningKey → Bytes → Option M.Signature

pub record IsLawful (M : Backend) (G : Signing M) : Type 0 where
  -- Signing with no context does not fail.
  pub sign_total : (k : G.SigningKey) (m : Bytes) → (s : M.Signature) × (G.sign k m ≡ some s)
  -- The trait method signs with the empty context.
  pub verify-sign :
      (k : G.SigningKey) (m : Bytes) {s : M.Signature}
      → G.sign k m ≡ some s
      → M.verify_with_context (G.verifying_key k) m [] s ≡ true

pub record Ed25519 : Type 0 where
  pub verifying_key : Bytes → Bytes
  pub sign : Bytes → Bytes → Bytes

-- Keys and signatures have their sizes, and the host's check accepts a signature.
pub record IsEd25519 (D : Ed25519) (C : Crypto) : Type 0 where
  pub length-verifying_key : (seed : Bytes) → length (D.verifying_key seed) ≡ 32
  pub length-sign : (seed m : Bytes) → length (D.sign seed m) ≡ 64
  pub verify-sign :
      (seed m : Bytes) → C.ed25519_verify (D.verifying_key seed) m (D.sign seed m) ≡ true

pub record Results {Y : Xdr} (X : Crates Y) : Type 1 where
  -- `to_xdr` of an envelope; `none` is an error.
  pub envelope_xdr : TransactionEnvelope (Tx X) → Option Bytes
  pub TransactionResult : Type 0
  pub result_from_base64 : String → Option TransactionResult
  pub fee_charged : TransactionResult → ℤ
  -- The entries of the footprint that are only read, and those that are written.
  pub read_only : X.Resources → ℕ
  pub read_write : X.Resources → ℕ
  -- The key of the instance of a contract, and the length of an entry of the ledger as XDR.
  pub instance_key_base64 : Y.ScAddress → Option String
  pub entry_len : String → Option ℕ
