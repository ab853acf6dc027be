-- ===== src/Phase0/Harness/Entry.antt =====
-- The authorization entry of a call of `protected` that each of the programs account.rs, submit.rs
-- and simulate.rs of phase0/harness/src/bin builds by hand.
pub mod Agreement
pub mod Total
use soroban_ml_dsa.Prelude.{ℕ, Bytes, [], ◌∷◌, none, Run, Never, ok, ◌>>=◌, or_panic}
use soroban_ml_dsa.Prelude.Int.{ℤ}
use soroban_ml_dsa.Core.MlDsa.External.{Backend}
use soroban_ml_dsa.Stellar.External.{Xdr, address}
use soroban_ml_dsa.Stellar.Auth.{Entry}
use soroban_ml_dsa.Cli.External.{Crates, invoke_contract, invoke_host_function}
use soroban_ml_dsa.Cli.Transactions.{Op}
use soroban_ml_dsa.Phase0.External.{Calls}
use soroban_ml_dsa.Phase0.Harness.External.{Signing}
use soroban_ml_dsa.Phase0.Harness.Signed.{sig_bytes, sign_checked}

module _ {Y : Xdr} (X : Crates Y) where
  -- A call of `protected`, with no arguments and no calls below it.
  unfoldable pub protected_invocation : Y.ScAddress → Run Never Y.SorobanAuthorizedInvocation
  protected_invocation account = do
    name ← or_panic (X.symbol "protected")
    ok (
        X.contract_fn
          (record { contract_address = account; function_name = name; args = X.no_args }))

  -- The digest of the preimage.
  unfoldable pub digest : Bytes → ℤ → ℕ → Y.SorobanAuthorizedInvocation → Run Never Bytes
  digest network_id nonce expiry invocation = do
    bytes ← or_panic (
        Y.to_xdr (record {
          network_id = network_id;
          nonce = nonce;
          signature_expiration_ledger = expiry;
          invocation = invocation;
        }))
    ok (X.sha256 bytes)

  unfoldable pub entry_with :
      Y.ScAddress → ℤ → ℕ → Bytes → Y.SorobanAuthorizedInvocation → Run Never (Entry Y)
  entry_with account nonce expiry signature invocation = do
    s ← or_panic (Y.sc_bytes signature)
    ok (record {
      credentials = address (record {
        address = account;
        nonce = nonce;
        signature_expiration_ledger = expiry;
        signature = Y.scval_bytes s;
      });
      root_invocation = invocation;
    })

  -- The operation that makes the call, under the entry.
  unfoldable pub protected_op : Y.ScAddress → Entry Y → Run Never (Op X)
  protected_op account entry = do
    name ← or_panic (X.symbol "protected")
    entries ← or_panic (X.auth (entry ∷ []))
    ok (record {
      source_account = none;
      body = invoke_host_function (record {
        host_function =
            invoke_contract
              (record { contract_address = account; function_name = name; args = X.no_args });
        auth = entries;
      });
    })

module _ {Y : Xdr} (X : Crates Y) (M : Backend) (N : Calls M) (G : Signing M) where
  -- What the entry is made of, in the order in which the programs make it.
  pub record Authorized : Type 0 where
    pub invocation : Y.SorobanAuthorizedInvocation
    pub payload : Bytes
    pub signature : Bytes
    pub entry : Entry Y

  unfoldable pub authorize : Y.ScAddress → Bytes → ℤ → ℕ → Run Never Authorized
  authorize account network_id nonce expiry = do
    invocation ← protected_invocation X account
    payload ← digest X network_id nonce expiry invocation
    s ← sign_checked M N G payload
    entry ← entry_with X account nonce expiry (sig_bytes M s) invocation
    ok (record {
      invocation = invocation;
      payload = payload;
      signature = sig_bytes M s;
      entry = entry;
    })
