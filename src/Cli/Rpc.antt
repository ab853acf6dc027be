-- ===== src/Cli/Rpc.antt =====
-- crates/pq-cli/src/lib.rs: the requests to the RPC server, and what is read from its answers.
use text.Mathlib.Text.{◌==◌}
use soroban_ml_dsa.Prelude.{
  ℕ, zero, suc, ◌%◌, ◌^◌, String, Bool, false, Bytes, [], Option, some, none, if◌then◌else◌, Run,
  Never, ok, err, panic, or_panic,
}
use soroban_ml_dsa.Prelude.Int.{ℤ, pos}
use soroban_ml_dsa.Stellar.External.{Xdr}
use soroban_ml_dsa.Cli.Act.{Act, ◌>>=◌, pure}
use soroban_ml_dsa.Cli.External.{Json, System, Crates}
use soroban_ml_dsa.Cli.Format.{
  request, keys_params, simulation_params, transaction_params, hash_params, hex,
}
use soroban_ml_dsa.Cli.Transactions.{Tx, SimResult, sign_envelope}

module _ (J : Json) (S : System) where
  -- A panic where `curl` does not start or answers no JSON.
  unfoldable pub rpc : {E : Type 0} → String → String → Act S.World E J.Value
  rpc method params world =
      let (out, world') = S.curl (request method params) world in
      elim out [ some bytes ↦ (or_panic (J.from_slice bytes), world') | none ↦ (panic, world') ]

  module _ {Y : Xdr} (X : Crates Y) where
    -- `as_i64().or_else(|| as_str().and_then(parse))`
    abbrev pub read_i64 : J.Value → Option ℤ
    read_i64 v = elim (J.as_i64 v) [
      | some n ↦ some n
      | none ↦ elim (J.as_str v) [ some text ↦ X.parse_i64 text | none ↦ none ]
    ]

    unfoldable pub account_state : Bytes → Act S.World Never (ℤ × ℕ)
    account_state source = do
      key ← pure (or_panic (X.account_key_base64 source))
      v ← rpc "getLedgerEntries" (keys_params key)
      let entry = J.item (J.field (J.field v "result") "entries") 0
      let sn = J.field (J.field (J.field entry "dataJson") "account") "seq_num"
      seq ← pure (or_panic (read_i64 sn))
      latest ← pure (or_panic (J.as_u64 (J.field (J.field v "result") "latestLedger")))
      pure (ok (seq, latest % 2 ^ 32))

    -- `.get(key).and_then(|x| x.as_str())`
    abbrev pub get_str : J.Value → String → Option String
    get_str v key = elim (J.get v key) [ some x ↦ J.as_str x | none ↦ none ]

    -- `as_str().and_then(parse).unwrap_or(0)`
    abbrev pub read_fee : J.Value → ℤ
    read_fee v = elim (J.as_str v) [
      | some text ↦ elim (X.parse_i64 text) [ some n ↦ n | none ↦ pos 0 ]
      | none ↦ pos 0
    ]

    -- What `simulate` makes of the answer.
    unfoldable pub read_simulation : J.Value → Run String (SimResult X)
    read_simulation v = elim (get_str (J.field v "result") "error") [
      | some e ↦ err e
      | none ↦ elim (J.as_str (J.field (J.field v "result") "transactionData")) [
        | none ↦ err "no transactionData"
        | some text ↦ elim (X.resources_from_base64 text) [
          | ok found ↦ ok (record {
            instructions = X.instructions found;
            disk_read_bytes = X.disk_read_bytes found;
            write_bytes = X.write_bytes found;
            min_fee = read_fee (J.field (J.field v "result") "minResourceFee");
            resources = found;
          })
          | err e ↦ err e
          | panic ↦ panic
        ]
      ]
    ]

    unfoldable pub simulate : Tx X → Option String → Act S.World String (SimResult X)
    simulate tx auth_mode = do
      b64 ← pure (or_panic (X.envelope_base64 (record { tx = tx; signatures = [] })))
      v ← rpc "simulateTransaction" (simulation_params b64 auth_mode)
      pure (read_simulation v)

  -- `value["result"]["status"].as_str() == Some("NOT_FOUND")`
  unfoldable pub is_not_found : J.Value → Bool
  is_not_found v = elim (J.as_str (J.field (J.field v "result") "status")) [
    | some status ↦ status == "NOT_FOUND"
    | none ↦ false
  ]

  -- One round of the loop in `submit`: wait, and ask for the transaction.
  unfoldable pub ask : String → Act S.World Never J.Value
  ask hash world = rpc "getTransaction" (hash_params hash) (S.sleep 2 world)

  -- The loop, with the rounds that are left.
  unfoldable pub poll : ℕ → String → Act S.World Never J.Value
  poll zero hash = pure panic
  poll (suc rounds) hash = do
    g ← ask hash
    if is_not_found g
        then poll rounds hash
        else pure (or_panic (J.set_field g "_hash" (J.string hash)))

  module _ {Y : Xdr} (X : Crates Y) where
    unfoldable pub submit : Tx X → SimResult X → Bytes → Bytes → Act S.World Never J.Value
    submit tx sim seed network_id = do
      (env, hash) ← pure (sign_envelope X tx sim seed network_id)
      b64 ← pure (or_panic (X.envelope_base64 env))
      send ← rpc "sendTransaction" (transaction_params b64)
      elim (get_str X (J.field send "result") "errorResultXdr") [
        | some e ↦ pure panic
        | none ↦ poll 40 (hex hash)
      ]
