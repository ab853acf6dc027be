-- ===== src/Phase0/Harness/Submit.antt =====
-- phase0/harness/src/bin/submit.rs: one transaction that only an ML-DSA-65 signature authorizes. The
-- numbers that `main` prints are its result here, but for the refund, the difference of two of them.
pub mod Poll
pub mod Submitted
pub mod Finishes
pub mod Total
pub mod Agreement
use text.Mathlib.Text.{◌==◌}
use soroban_ml_dsa.Prelude.{
  ℕ, zero, suc, ◌+◌, ◌*◌, ◌%◌, ◌^◌, String, if◌then◌else◌, Bytes, length, [], Option, some, none,
  Never, ok, panic, unwrap, or_panic,
}
use soroban_ml_dsa.Prelude.Int.{ℤ, pos}
use soroban_ml_dsa.Core.MlDsa.External.{Backend}
use soroban_ml_dsa.Stellar.External.{Xdr}
use soroban_ml_dsa.Stellar.Payload.{network_id, testnet_passphrase}
use soroban_ml_dsa.Cli.Act.{Act, ◌>>=◌, pure}
use soroban_ml_dsa.Cli.External.{Json, System, Crates, TransactionEnvelope}
use soroban_ml_dsa.Cli.Format.{simulation_params, transaction_params, hex}
use soroban_ml_dsa.Cli.Transactions.{
  Tx, SimResult, account_pk, contract_addr, secret_seed, build_tx, plus_1000, sign_envelope,
}
use soroban_ml_dsa.Cli.Rpc.{rpc, account_state, get_str, ask}
use soroban_ml_dsa.Cli.Authorize.{plus_1}
use soroban_ml_dsa.Phase0.External.{Calls}
use soroban_ml_dsa.Phase0.Harness.External.{Signing, Results}
use soroban_ml_dsa.Phase0.Harness.Entry.{Authorized, authorize, protected_op}

abbrev pub nonce : ℕ → ℤ
nonce latest = pos (latest * 1_000_003 + 17)

abbrev pub expiry : ℕ → ℕ
expiry latest = (latest + 1000) % 2 ^ 32

-- The final status of the transaction, and the fee, where the answer has a result.
pub record Final : Type 0 where
  pub status : String
  pub fee_charged : Option ℤ

module _ (J : Json) (S : System) {Y : Xdr} (X : Crates Y) (R : Results X) where
  -- The simulation, with all of the numbers that the program needs of it.
  unfoldable pub simulate : Tx X → Act S.World Never (SimResult X)
  simulate tx = do
    b64 ← pure (or_panic (X.envelope_base64 (record { tx = tx; signatures = [] })))
    v ← rpc J S "simulateTransaction" (simulation_params b64 (some "enforce"))
    let result = J.field v "result"
    elim (get_str J S X result "error") [
      | some e ↦ pure panic
      | none ↦ do
        text ← pure (or_panic (J.as_str (J.field result "transactionData")))
        td ← pure (unwrap (X.resources_from_base64 text))
        fee_text ← pure (or_panic (J.as_str (J.field result "minResourceFee")))
        min_fee ← pure (or_panic (X.parse_i64 fee_text))
        pure (
            ok (record {
              instructions = X.instructions td;
              disk_read_bytes = X.disk_read_bytes td;
              write_bytes = X.write_bytes td;
              min_fee = min_fee;
              resources = td;
            }))
    ]

  -- `["result"]["status"].as_str().unwrap_or("?")`
  abbrev pub status_of : J.Value → String
  status_of g = elim (J.as_str (J.field (J.field g "result") "status")) [
    | some st ↦ st
    | none ↦ "?"
  ]

  unfoldable pub final_of : J.Value → Act S.World Never Final
  final_of g = elim (J.as_str (J.field (J.field g "result") "resultXdr")) [
    | some rx ↦ do
      r ← pure (or_panic (R.result_from_base64 rx))
      pure (ok (record { status = status_of g; fee_charged = some (R.fee_charged r) }))
    | none ↦ pure (ok (record { status = status_of g; fee_charged = none }))
  ]

  -- The loop, with the rounds that are left; `none` is a time-out.
  unfoldable pub poll : ℕ → String → Act S.World Never (Option Final)
  poll zero hash = pure (ok none)
  poll (suc rounds) hash = do
    g ← ask J S hash
    if status_of g == "NOT_FOUND" then poll rounds hash else (do f ← final_of g; pure (ok (some f)))

  pub record Report : Type 0 where
    pub seq : ℤ
    pub latest : ℕ
    pub sim : SimResult X
    pub declared_fee : ℤ
    pub wire_len : ℕ
    pub tx_hash : Bytes
    pub final : Option Final

  -- Finalise, sign, submit and poll.
  unfoldable pub finalise :
      Tx X → SimResult X → Bytes → Bytes → Act S.World Never (ℕ × Bytes × Option Final)
  finalise tx sim seed network = do
    (env, hash) ← pure (sign_envelope X tx sim seed network)
    wire ← pure (or_panic (R.envelope_xdr env))
    b64 ← pure (or_panic (X.envelope_base64 env))
    send ← rpc J S "sendTransaction" (transaction_params b64)
    elim (get_str J S X (J.field send "result") "errorResultXdr") [
      | some e ↦ pure panic
      | none ↦ do final ← poll 30 (hex hash); pure (ok (length wire, hash, final))
    ]

  module _ (M : Backend) (N : Calls M) (G : Signing M) where
    unfoldable pub main : String → String → String → Act S.World Never Report
    main source_text account secret = do
      source ← pure (account_pk X source_text)
      seed ← pure (secret_seed X secret)
      caddr ← pure (contract_addr X account)
      (sn, latest) ← account_state J S X source
      let seq = plus_1 sn
      let network = network_id X.sha256 testnet_passphrase
      a ← pure (authorize X M N G caddr network (nonce latest) (expiry latest))
      op ← pure (protected_op X caddr a.entry)
      tx ← pure (build_tx X source seq op)
      sim ← simulate tx
      (wire_len, hash, final) ← finalise tx sim seed network
      pure (
          ok (record {
            seq = seq;
            latest = latest;
            sim = sim;
            declared_fee = plus_1000 sim.min_fee;
            wire_len = wire_len;
            tx_hash = hash;
            final = final;
          }))
