-- ===== src/Phase0/Harness/Simulate.antt =====
-- phase0/harness/src/bin/simulate.rs: what the network's simulation says of each call. The numbers
-- that `main` prints are its result here, but for the shares of limits, in floating point.
pub mod Figures
pub mod Rows
pub mod Tables
pub mod Measured
use mathlib.Core.List.{map, ◌++◌}
use soroban_ml_dsa.Phase0.Harness.Simulate.Figures.{
  ledger_max_insn, clusters, ledger_max_tx_count, Sim, failed, seq_n, par_n, throughput, printed,
  footprints,
}
use soroban_ml_dsa.Prelude.{
  ℕ, ◌+◌, ◌*◌, ◌/◌, ◌%◌, ◌^◌, min, ◌==◌, ◌⊎◌, inl, inr, if◌then◌else◌, String, Bool, true, false,
  Bytes, length, replicate, List, [], ◌∷◌, Option, some, none, Run, Never, ok, panic, unwrap,
  or_panic,
}
use soroban_ml_dsa.Prelude.Int.{ℤ, pos}
use soroban_ml_dsa.Core.MlDsa.External.{Backend}
use soroban_ml_dsa.Stellar.External.{Xdr}
use soroban_ml_dsa.Stellar.Payload.{network_id, testnet_passphrase}
use soroban_ml_dsa.Cli.Act.{Act, ◌>>=◌, pure}
use soroban_ml_dsa.Cli.External.{Json, System, Crates, TransactionEnvelope}
use soroban_ml_dsa.Cli.Format.{keys_params, simulation_params}
use soroban_ml_dsa.Cli.Transactions.{Tx, Op, account_pk, contract_addr, invoke_op, build_tx}
use soroban_ml_dsa.Cli.Rpc.{rpc, get_str, read_i64, read_fee}
use soroban_ml_dsa.Cli.Authorize.{plus_1}
use soroban_ml_dsa.Cli.Bench.{values}
use soroban_ml_dsa.Phase0.External.{Calls}
use soroban_ml_dsa.Phase0.Harness.Format.{instance_params}
use soroban_ml_dsa.Phase0.Harness.External.{Signing, Ed25519, Results}
use soroban_ml_dsa.Phase0.Harness.Signed.{key_bytes, sig_bytes, signing_key, vk, sign_checked}
use soroban_ml_dsa.Phase0.Harness.Envelope.{sized}
use soroban_ml_dsa.Phase0.Harness.Entry.{authorize, protected_op}

abbrev pub nonce : ℕ → ℤ
nonce latest = pos (latest * 7 + 13)

abbrev pub expiry : ℕ → ℕ
expiry latest = (latest + 500) % 2 ^ 32

abbrev pub msg : Bytes
msg = replicate 32 7

module _ (J : Json) (S : System) {Y : Xdr} (X : Crates Y) (R : Results X) where
  -- What is kept of an answer with resources.
  unfoldable pub measured : Tx X → ℕ → J.Value → X.Resources → Act S.World Never Sim
  measured tx envelope_len r td = do
    final ← pure (sized X tx td)
    final_bytes ← pure (or_panic (R.envelope_xdr final))
    pure (
        ok (record {
          insns = X.instructions td;
          disk_read = X.disk_read_bytes td;
          write = X.write_bytes td;
          ro = R.read_only td;
          rw = R.read_write td;
          fee = read_fee J S X (J.field r "minResourceFee");
          envelope_len = envelope_len;
          final_len = length final_bytes;
          is_ok = true;
          err = "";
        }))

  -- `as_str().unwrap_or_default()`
  abbrev pub text_or_empty : Option String → String
  text_or_empty (some t) = t
  text_or_empty none = ""

  unfoldable pub simulate : Tx X → Option String → Act S.World Never Sim
  simulate tx auth_mode = do
    let env : TransactionEnvelope (Tx X) = record { tx = tx; signatures = [] }
    b64 ← pure (or_panic (X.envelope_base64 env))
    bytes ← pure (or_panic (R.envelope_xdr env))
    v ← rpc J S "simulateTransaction" (simulation_params b64 auth_mode)
    let r = J.field v "result"
    elim (get_str J S X r "error") [
      | some e ↦ pure (ok (failed (length bytes) e))
      | none ↦ do
        let td_b64 = text_or_empty (J.as_str (J.field r "transactionData"))
        td ← pure (unwrap (X.resources_from_base64 td_b64))
        measured tx (length bytes) r td
    ]

  -- The number of the account's next transaction, and the ledger.
  unfoldable pub account_state : Bytes → Act S.World Never (ℤ × ℕ)
  account_state source = do
    key ← pure (or_panic (X.account_key_base64 source))
    v ← rpc J S "getLedgerEntries" (keys_params key)
    let entry = J.item (J.field (J.field v "result") "entries") 0
    let sn = J.field (J.field (J.field entry "dataJson") "account") "seq_num"
    seq ← pure (or_panic (read_i64 J S X sn))
    let latest : ℕ = elim (J.as_u64 (J.field (J.field v "result") "latestLedger")) [
      | some n ↦ n
      | none ↦ 0
    ]
    pure (ok (plus_1 seq, latest % 2 ^ 32))

  -- The length of the entry that holds the instance of the account contract, where it is read.
  unfoldable pub instance_len : Y.ScAddress → Act S.World Never (Option ℕ)
  instance_len address = do
    key ← pure (or_panic (R.instance_key_base64 address))
    v ← rpc J S "getLedgerEntries" (instance_params key)
    let entry = J.item (J.field (J.field v "result") "entries") 0
    elim (J.as_str (J.field entry "xdr")) [
      | some x ↦ do n ← pure (or_panic (R.entry_len x)); pure (ok (some n))
      | none ↦ pure (ok none)
    ]

  -- A call of a function of a contract, on byte strings, built and simulated.
  unfoldable pub simulate_call : Bytes → ℤ → String → String → List Bytes → Act S.World Never Sim
  simulate_call source seq cid func inputs = do
    args ← pure (values Y inputs)
    op ← pure (invoke_op X cid func args [])
    tx ← pure (build_tx X source seq op)
    simulate tx none

pub record Report : Type 0 where
  pub seq : ℤ
  pub latest : ℕ
  pub rows : List (String × Sim)
  pub table : List (String × (String ⊎ (ℕ × ℕ × ℕ × ℕ × ℤ)))
  pub instance_len : Option ℕ
  pub throughput : List (String × ℕ × ℕ)
  pub footprints : List (String × ℕ × ℕ)

module _ (J : Json) (S : System) {Y : Xdr} (X : Crates Y) (R : Results X) (M44 M65 : Backend)
    (N44 : Calls M44) (N65 : Calls M65) (G44 : Signing M44) (G65 : Signing M65) (D : Ed25519) where
  -- The calls of the contract pq-probe.
  unfoldable pub probe_rows :
      Bytes → ℤ → String → M65.Signature → Act S.World Never (List (String × Sim))
  probe_rows source seq probe_id s65 = do
    verify ←
        simulate_call J S X R source seq probe_id "verify"
          (key_bytes M65 (vk M65 N65 G65) ∷ msg ∷ sig_bytes M65 s65 ∷ [])
    s44 ← pure (or_panic (G44.sign (signing_key M44 N44 G44) msg))
    verify44 ←
        simulate_call J S X R source seq probe_id "verify44"
          (key_bytes M44 (vk M44 N44 G44) ∷ msg ∷ sig_bytes M44 s44 ∷ [])
    let ed = replicate 32 9
    ed25519 ←
        simulate_call J S X R source seq probe_id "ed25519"
          (D.verifying_key ed ∷ msg ∷ D.sign ed msg ∷ [])
    noop ← simulate_call J S X R source seq probe_id "noop" []
    pure (
        ok (
          ("pq-probe verify (ML-DSA-65)", verify)
          ∷ ("pq-probe verify44 (ML-DSA-44)", verify44)
          ∷ ("pq-probe ed25519 (host fn)", ed25519)
          ∷ ("pq-probe noop (VM baseline)", noop)
          ∷ []))

  -- The call of `protected` of the account contract, under an ML-DSA-65 signature.
  unfoldable pub account_sim : Bytes → ℤ → ℕ → Y.ScAddress → Act S.World Never Sim
  account_sim source seq latest caddr = do
    let network = network_id X.sha256 testnet_passphrase
    a ← pure (authorize X M65 N65 G65 caddr network (nonce latest) (expiry latest))
    op ← pure (protected_op X caddr a.entry)
    tx ← pure (build_tx X source seq op)
    simulate J S X R tx (some "enforce")

  unfoldable pub main : String → String → String → Act S.World Never Report
  main source_text probe_id account_id = do
    source ← pure (account_pk X source_text)
    (seq, latest) ← account_state J S X R source
    s65 ← pure (sign_checked M65 N65 G65 msg)
    probe ← probe_rows source seq probe_id s65
    caddr ← pure (contract_addr X account_id)
    account ← account_sim source seq latest caddr
    let rows = probe ++ ("pq-account protected() [ML-DSA auth]", account) ∷ []
    n ← instance_len J S X R caddr
    pure (
        ok (record {
          seq = seq;
          latest = latest;
          rows = rows;
          table = map (λ (r : String × Sim). (r.0, printed r.1)) rows;
          instance_len = n;
          throughput = throughput rows;
          footprints = footprints rows;
        }))
