-- ===== src/Cli/Authorize.antt =====
-- crates/pq-cli/src/bin/authorize.rs: store a key in an account contract, or authorize a call of it.
pub mod Built
pub mod Stages
pub mod Flow
pub mod Stored
pub mod Chain
pub mod Total
use text.Mathlib.Text.{◌==◌}
use soroban_ml_dsa.Prelude.{
  ℕ, suc, zero, ◌+◌, ◌*◌, ◌%◌, ◌^◌, String, Bool, true, false, Bytes, replicate, List, [], ◌∷◌,
  Option, some, none, if◌then◌else◌, Never, ok, err, panic, unwrap, or_panic,
}
use soroban_ml_dsa.Prelude.Int.{ℤ, pos, negsuc}
use soroban_ml_dsa.Prelude.Texts.{as_bytes}
use soroban_ml_dsa.Core.MlDsa.{mldsa65, scheme, Keypair, from_seed}
use soroban_ml_dsa.Core.MlDsa.External.{Backend}
use soroban_ml_dsa.Stellar.External.{Xdr}
use soroban_ml_dsa.Stellar.Payload.{
  AuthorizationPayload, network_id, testnet_passphrase, signature_payload,
}
use soroban_ml_dsa.Stellar.Auth.{build_auth_entry, encode_verifying_key}
use soroban_ml_dsa.Cli.Act.{Act, ◌>>=◌, ◌>>◌, pure, expect}
use soroban_ml_dsa.Cli.External.{Json, System, Crates}
use soroban_ml_dsa.Cli.Transactions.{
  Tx, SimResult, account_pk, contract_addr, secret_seed, invoke_op, build_tx,
}
use soroban_ml_dsa.Cli.Rpc.{account_state, simulate, submit}

unfoldable pub context : Bytes
unfolding as_bytes
context = as_bytes "pq-account-v1"

unfoldable pub key_seed : Bytes
key_seed = replicate 32 42

-- `seq + 1`
abbrev pub plus_1 : ℤ → ℤ
plus_1 (pos n) = pos (n + 1)
plus_1 (negsuc zero) = pos 0
plus_1 (negsuc (suc n)) = negsuc n

module _ {Y : Xdr} (X : Crates Y) where
  unfoldable pub authorization_payload : ℕ → Y.SorobanAuthorizedInvocation → AuthorizationPayload Y
  authorization_payload latest invocation = record {
    network_id = network_id X.sha256 testnet_passphrase;
    nonce = pos (latest * 1000003 + 29);
    signature_expiration_ledger = (latest + 1000) % 2 ^ 32;
    invocation = invocation;
  }

module _ {Y : Xdr} (M : Backend) (J : Json) (S : System) (X : Crates Y) where
  -- The mode `init`.
  unfoldable pub init_transaction :
      Bytes → String → Keypair M → ℤ → Act S.World Never (Tx X × SimResult X)
  init_transaction source account kp seq = do
    vk ← pure (unwrap (encode_verifying_key Y (scheme mldsa65 M) kp.verifying))
    op ← pure (invoke_op X account "init" (vk ∷ []) [])
    tx ← pure (build_tx X source (plus_1 seq) op)
    sim ← expect (simulate J S X tx none)
    pure (ok (tx, sim))

  -- The other mode.
  unfoldable pub auth_transaction :
      Bytes → String → Keypair M → ℤ → ℕ → Act S.World Never (Tx X × SimResult X)
  auth_transaction source account kp seq latest = do
    address ← pure (contract_addr X account)
    name ← pure (or_panic (X.symbol "protected"))
    let payload = authorization_payload X latest (
        X.contract_fn
          (record { contract_address = address; function_name = name; args = X.no_args }))
    _digest ← pure (unwrap (signature_payload Y X.sha256 payload))
    entry ←
        pure (
          unwrap
            (build_auth_entry Y X.sha256 (scheme mldsa65 M) address kp.signing payload context))
    op ← pure (invoke_op X account "protected" [] (entry ∷ []))
    tx ← pure (build_tx X source (plus_1 seq) op)
    sim ← expect (simulate J S X tx (some "enforce"))
    pure (ok (tx, sim))

  -- The transaction of the mode, by default that of the other mode than `init`.
  unfoldable pub transaction :
      Option String → Bytes → String → Keypair M → ℤ → ℕ → Act S.World Never (Tx X × SimResult X)
  transaction mode source account kp seq latest = elim mode [
    | some m ↦
        if m == "init"
        then init_transaction source account kp seq
        else auth_transaction source account kp seq latest
    | none ↦ auth_transaction source account kp seq latest
  ]

  -- `unwrap_or("?")` of the status, compared with `"SUCCESS"`.
  unfoldable pub succeeded : J.Value → Bool
  succeeded r = elim (J.as_str (J.field (J.field r "result") "status")) [
    | some status ↦ status == "SUCCESS"
    | none ↦ false
  ]

  -- `main`, with its arguments and the secret of the environment.
  unfoldable pub main : String → String → Option String → String → Act S.World Never (Unit {0})
  main source_text account mode secret = do
    seed ← pure (secret_seed X secret)
    source ← pure (account_pk X source_text)
    kp ← pure (unwrap (from_seed mldsa65 M key_seed))
    (seq, latest) ← account_state J S X source
    (tx, sim) ← transaction mode source account kp seq latest
    r ← submit J S X tx sim seed (network_id X.sha256 testnet_passphrase)
    if succeeded r then pure (ok tt) else pure panic
