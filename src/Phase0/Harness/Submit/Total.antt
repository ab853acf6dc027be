-- ===== src/Phase0/Harness/Submit/Total.antt =====
-- When a run of phase0/harness/src/bin/submit.rs finishes.
use soroban_ml_dsa.Prelude.{
  ℕ, ◌≡◌, refl, arith, String, Bytes, length, [], Option, some, none, Never, ok,
}
use soroban_ml_dsa.Prelude.Int.{ℤ}
use soroban_ml_dsa.Core.MlDsa.{mldsa65}
use soroban_ml_dsa.Core.MlDsa.External as Crate
use soroban_ml_dsa.Core.MlDsa.External.{Backend}
use soroban_ml_dsa.Stellar.External as XdrLaws
use soroban_ml_dsa.Stellar.External.{Xdr}
use soroban_ml_dsa.Stellar.Payload.{network_id, testnet_passphrase}
use soroban_ml_dsa.Cli.External.{Json, System, Crates, TransactionEnvelope}
use soroban_ml_dsa.Cli.Format.{simulation_params, transaction_params, hex}
use soroban_ml_dsa.Cli.Live.{Converts, build_tx_total, sign_envelope_total}
use soroban_ml_dsa.Cli.Rpc.{rpc, account_state, get_str}
use soroban_ml_dsa.Cli.Authorize.{plus_1}
use soroban_ml_dsa.Cli.Transactions.{
  Op, Tx, SimResult, account_pk, contract_addr, secret_seed, build_tx, plus_1000,
}
use soroban_ml_dsa.Phase0.External as Direct
use soroban_ml_dsa.Phase0.External.{Calls}
use soroban_ml_dsa.Phase0.Harness.External
use soroban_ml_dsa.Phase0.Harness.External.{Signing, Results}
use soroban_ml_dsa.Phase0.Harness.Entry.Total.{protected_op_total, authorize_total}
use soroban_ml_dsa.Phase0.Harness.Entry.{Authorized, authorize, protected_op}
use soroban_ml_dsa.Phase0.Harness.Submit.{nonce, expiry, Final, simulate, finalise, Report, main}
use soroban_ml_dsa.Phase0.Harness.Submit.Submitted.{Waited}
use soroban_ml_dsa.Phase0.Harness.Submit.Finishes.{finalise_iff}

module _ (J : Json) (S : System) {Y : Xdr} (X : Crates Y) (R : Results X) where
  -- From the world `w`, the server takes any envelope, and answers the requests for it, 30 times
  -- `NOT_FOUND` or earlier with another answer that can be read.
  abbrev pub Takes : S.World → Type 0
  Takes w =
      (envelope hash : String)
      → (send : J.Value) × (final : Option Final) × (w1 : S.World) × (w2 : S.World) × (rpc J S
            {E = Never} "sendTransaction" (transaction_params envelope) w
          ≡ (ok send, w1))
        × (get_str J S X (J.field send "result") "errorResultXdr" ≡ none)
        × Waited J S X R hash w1 final w2

  -- It simulates any envelope, with resources and a fee, and then takes any.
  abbrev pub Serves : S.World → Type 0
  Serves w =
      (envelope : String)
      → (v : J.Value) × (text : String) × (td : X.Resources) × (fee_text : String) × (fee : ℤ)
        × (w1 : S.World) × (rpc J S {E = Never} "simulateTransaction"
              (simulation_params envelope (some "enforce")) w
            ≡ (ok v, w1))
        × (get_str J S X (J.field v "result") "error" ≡ none)
        × (J.as_str (J.field (J.field v "result") "transactionData") ≡ some text)
        × (X.resources_from_base64 text ≡ ok td)
        × (J.as_str (J.field (J.field v "result") "minResourceFee") ≡ some fee_text)
        × (X.parse_i64 fee_text ≡ some fee)
        × Takes w1

  -- The crates encode any envelope.
  abbrev pub Encodes : Type 0
  Encodes = (e : TransactionEnvelope (Tx X)) → (b : Bytes) × (R.envelope_xdr e ≡ some b)

  module _ (V : Converts X) (encodes : Encodes) where
    simulate_total :
        (tx : Tx X) (w : S.World)
        → Serves w
        → (sim : SimResult X) × (w1 : S.World) × (simulate J S X R tx w ≡ (ok sim, w1)) × Takes w1
    unfolding simulate
    simulate_total tx w serves =
        let (b64, b) = V.envelope_base64 (record { tx = tx; signatures = [] }) in
        let (v, text, td, fee_text, fee, w1, asked, clean, c, d, e, f, takes) = serves b64 in
        (
          record {
            instructions = X.instructions td;
            disk_read_bytes = X.disk_read_bytes td;
            write_bytes = X.write_bytes td;
            min_fee = fee;
            resources = td;
          },
          w1,
          rw b (rw asked (ground arith)),
          takes,
        )

    finalise_total :
        (tx : Tx X) (sim : SimResult X) (seed network : Bytes) (w : S.World)
        → Takes w
        → (done : ℕ × Bytes × Option Final) × (w' : S.World) × (finalise J S X R tx sim seed network
              w
            ≡ (ok done, w'))
    finalise_total tx sim seed network w takes =
        let (env, hash, signed) = sign_envelope_total X V tx sim seed network in
        let (wire, e) = encodes env in
        let (b64, b) = V.envelope_base64 env in
        let (send, final, w1, w2, sent, taken, waited) = takes b64 (hex hash) in
        let done : ℕ × Bytes × Option Final = (length wire, hash, final) in
        (
          done,
          w2,
          (finalise_iff J S X R tx sim seed network w done w2).1
              (env, signed, (wire, b64, send, w1, e, refl, b, sent, taken, waited)),
        )

    module _ (M : Backend) (N : Calls M) (G : Signing M) where
      main_from :
          (source_text account secret : String) (w : S.World) {source seed : Bytes}
          {caddr : Y.ScAddress} {sn : ℤ} {latest : ℕ} {a : Authorized X M N G} {op : Op X}
          {tx : Tx X} {sim : SimResult X} {done : ℕ × Bytes × Option Final} {w1 w2 w3 : S.World}
          → account_pk X source_text ≡ ok source
          → secret_seed X secret ≡ ok seed
          → contract_addr X account ≡ ok caddr
          → account_state J S X source w ≡ (ok (sn, latest), w1)
          → authorize X M N G caddr
              (network_id X.sha256 testnet_passphrase)
              (nonce latest)
              (expiry latest)
            ≡ ok a
          → protected_op X caddr a.entry ≡ ok op
          → build_tx X source (plus_1 sn) op ≡ ok tx
          → simulate J S X R tx w1 ≡ (ok sim, w2)
          → finalise J S X R tx sim seed (network_id X.sha256 testnet_passphrase) w2 ≡ (ok done, w3)
          → (report : Report J S X R) × (main J S X R M N G source_text account secret w
              ≡ (ok report, w3))
      unfolding main
      main_from source_text account secret w {sn = sn} {latest} {sim = sim} {done} a b c d e f g h
            i =
          (
            record {
              seq = plus_1 sn;
              latest = latest;
              sim = sim;
              declared_fee = plus_1000 sim.min_fee;
              wire_len = done.0;
              tx_hash = done.1;
              final = done.2;
            },
            rw a (rw b (rw c (rw d (rw e (rw f (rw g (rw h (rw i refl)))))))),
          )

      -- Over lawful crates that convert what the program hands them, it finishes with a report,
      -- whenever the source account, the secret and the contract parse, the server tells the state
      -- of the account, and it then simulates any envelope with resources and a fee, does not
      -- reject any, and answers 30 times with `NOT_FOUND` or earlier with an answer that can be
      -- read.
      pub main_reports :
          Crate.IsLawful M mldsa65.vk_len mldsa65.sk_len mldsa65.sig_len
          → Direct.IsLawful M N mldsa65.vk_len
          → External.IsLawful M G
          → XdrLaws.IsLawful Y
          → (source_text account secret : String) (w : S.World) {source seed : Bytes}
            {caddr : Y.ScAddress} {sn : ℤ} {latest : ℕ} {w1 : S.World}
          → account_pk X source_text ≡ ok source
          → secret_seed X secret ≡ ok seed
          → contract_addr X account ≡ ok caddr
          → account_state J S X source w ≡ (ok (sn, latest), w1)
          → Serves w1
          → (report : Report J S X R) × (w' : S.World) × (main J S X R M N G source_text account
                secret w
              ≡ (ok report, w'))
      main_reports L LN LG LY source_text account secret w {source} {seed} {caddr} {sn} {latest}
            {w1} a b c d serves =
          let network = network_id X.sha256 testnet_passphrase in
          let (auth, e) =
            authorize_total X V N G L LN LG LY caddr network (nonce latest) (expiry latest) in
          let (op, f) = protected_op_total X V caddr auth.entry in
          let (tx, g) = build_tx_total X V source (plus_1 sn) op in
          let (sim, w2, h, takes) = simulate_total tx w1 serves in
          let (done, w3, i) = finalise_total tx sim seed network w2 takes in
          let (report, r) = main_from source_text account secret w a b c d e f g h i in
          (report, w3, r)
