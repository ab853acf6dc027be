-- ===== src/Phase0/Harness/Submit/Agreement.antt =====
-- phase0/harness/src/bin/submit.rs against crates/pq-cli/src/lib.rs: what each of them returns for the
-- same transaction.
use mathlib.Core.Option
use soroban_ml_dsa.Prelude.{
  ℕ, ◌≤◌, sym, ◌∙◌, ◌≡◌, inl, inr, ap, subst, arith, String, Option, [], some, none, Bytes, Never,
  Run, ok, unwrap, or_panic,
}
use soroban_ml_dsa.Prelude.Int.{ℤ}
use soroban_ml_dsa.Stellar.External.{Xdr}
use soroban_ml_dsa.Cli.Act.{pure_then, act_then, act_ends, none_inverts, unwrap-eq-ok}
use soroban_ml_dsa.Cli.Authorize.Built.{or_panic-eq-ok}
use soroban_ml_dsa.Cli.External.{Json, System, Crates, TransactionEnvelope}
use soroban_ml_dsa.Cli.Format.{simulation_params, transaction_params, hex}
use soroban_ml_dsa.Cli.Transactions.{Tx, SimResult, sign_envelope}
use soroban_ml_dsa.Cli.Rpc as Rpc
use soroban_ml_dsa.Cli.Rpc.{rpc, get_str, read_simulation}
use soroban_ml_dsa.Phase0.Harness.External.{Results}
use soroban_ml_dsa.Cli.Liveness.{poll_answers}
use soroban_ml_dsa.Phase0.Harness.Simulate.Rows.{rpc_anywhere, asks}
use soroban_ml_dsa.Phase0.Harness.Submit.Poll.{poll-Ending}
use soroban_ml_dsa.Phase0.Harness.Submit.{Final, status_of, final_of, simulate, poll, finalise}

module _ (J : Json) (S : System) {Y : Xdr} (X : Crates Y) (R : Results X) where
  read_same :
      (v : J.Value) (w : S.World) {text fee : String} {td : X.Resources} {min_fee : ℤ}
      → get_str J S X (J.field v "result") "error" ≡ none
      → or_panic {E = Never} (J.as_str (J.field (J.field v "result") "transactionData")) ≡ ok text
      → unwrap {F = Never} (X.resources_from_base64 text) ≡ ok td
      → or_panic {E = Never} (J.as_str (J.field (J.field v "result") "minResourceFee")) ≡ ok fee
      → or_panic {E = Never} (X.parse_i64 fee) ≡ ok min_fee
      → ◌≡◌ {A = Run String (SimResult X) × S.World}
          (read_simulation J S X v, w)
          (
            ok (record {
              instructions = X.instructions td;
              disk_read_bytes = X.disk_read_bytes td;
              write_bytes = X.write_bytes td;
              min_fee = min_fee;
              resources = td;
            }),
            w,
          )
  unfolding read_simulation
  read_same v w a b c d e = ground (arith, unwrap-eq-ok _ c)

  simulate_same :
      (tx : Tx X) (w : S.World) {sim : SimResult X} {w' : S.World}
      → simulate J S X R tx w ≡ (ok sim, w')
      → Rpc.simulate J S X tx (some "enforce") w ≡ (ok sim, w')
  unfolding simulate
  simulate_same tx w h =
      pure_then (or_panic (X.envelope_base64 (record { tx = tx; signatures = [] }))) _ w h
        λ b64 a h1.
          act_then (rpc J S "simulateTransaction" (simulation_params b64 (some "enforce"))) _ w h1
            λ v w1 c h2.
              let c' =
                rpc_anywhere J S {F = String} "simulateTransaction"
                  (simulation_params b64 (some "enforce")) w c in
              let (clean, h3) = none_inverts (get_str J S X (J.field v "result") "error") _ w1 h2 in
              let r = J.field v "result" in
              pure_then (or_panic (J.as_str (J.field r "transactionData"))) _ w1 h3 λ text d h4.
                pure_then (unwrap (X.resources_from_base64 text)) _ w1 h4 λ td e h5.
                  pure_then (or_panic (J.as_str (J.field r "minResourceFee"))) _ w1 h5 λ fee f h6.
                    pure_then (or_panic (X.parse_i64 fee)) _ w1 h6 λ min_fee i h7.
                      act_ends h7
                        (λ sim w'. Rpc.simulate J S X tx (some "enforce") w ≡ (ok sim, w'))
                        (asks J S X R tx (some "enforce") w a c' ∙ read_same v w1 clean d e f i)

  -- What `final_of` keeps of an answer; it asks for nothing more.
  final_of_status :
      (g : J.Value) (w : S.World) {f : Final} {w' : S.World}
      → final_of J S X R g w ≡ (ok f, w')
      → (f.status ≡ status_of J S X R g) × (w ≡ w')
  unfolding final_of
  final_of_status g w h = ground arith

  -- What pq-cli makes of the answer.
  abbrev pub added : J.Value → String → Run Never J.Value
  added g hash = or_panic (J.set_field g "_hash" (J.string hash))

  -- What the loop of pq-cli does where that of the harness ends with `o`.
  abbrev Same : ℕ → String → S.World → Option Final → S.World → Type 0
  Same more hash w o w' =
      (g : J.Value) × (Rpc.poll J S more hash w ≡ (added g hash, w'))
      × (Option.map (λ f. f.status) o ≡ some (status_of J S X R g))

  poll-Same :
      (rounds more : ℕ) (hash : String) (w : S.World) {f : Final} {w' : S.World}
      → rounds ≤ more
      → poll J S X R rounds hash w ≡ (ok (some f), w')
      → Same more hash w (some f) w'
  poll-Same rounds more hash w le h = elim (poll-Ending J S X R rounds hash w) [
    | inl (_, _, e) ↦ absurd (cc)
    | inr (k, w1, w2, less, waits, inl (_, e)) ↦ absurd (cc)
    | inr (k, w1, w2, less, waits, inr (g, asked, arrived, e)) ↦
        act_then (final_of J S X R g) _ w2 (sym e ∙ h) λ f' w3 ended rest.
          let (status, same) = final_of_status g w2 ended in
          let there = poll_answers J S waits more (omega arith) asked arrived in
          act_ends rest (Same more hash w) (
            g,
            subst (λ v. Rpc.poll J S more hash w ≡ (added g hash, v)) same there,
            ap some status,
          )
  ]

  submit_sends :
      (tx : Tx X) (sim : SimResult X) (seed network : Bytes) (w : S.World)
      {signed : TransactionEnvelope (Tx X) × Bytes} {b64 : String} {send : J.Value} {w1 : S.World}
      → sign_envelope X tx sim seed network ≡ ok signed
      → X.envelope_base64 signed.0 ≡ some b64
      → rpc J S {E = Never} "sendTransaction" (transaction_params b64) w ≡ (ok send, w1)
      → get_str J S X (J.field send "result") "errorResultXdr" ≡ none
      → Rpc.submit J S X tx sim seed network w ≡ Rpc.poll J S 40 (hex signed.1) w1
  unfolding Rpc.submit
  submit_sends tx sim seed network w a b c d = rw (a, b) (rw c (ground arith))

  finalise_same :
      (tx : Tx X) (sim : SimResult X) (seed network : Bytes) (w : S.World) {len : ℕ} {hash : Bytes}
      {final : Final} {w' : S.World}
      → finalise J S X R tx sim seed network w ≡ (ok (len, hash, some final), w')
      → (g : J.Value) × (Rpc.submit J S X tx sim seed network w ≡ (added g (hex hash), w'))
        × (final.status ≡ status_of J S X R g)
  unfolding finalise
  finalise_same tx sim seed network w {len} {hash} {final} {w'} h =
      pure_then (sign_envelope X tx sim seed network) _ w h λ signed a h1.
        pure_then (or_panic (R.envelope_xdr signed.0)) _ w h1 λ wire b h2.
          pure_then (or_panic (X.envelope_base64 signed.0)) _ w h2 λ b64 c h3.
            act_then (rpc J S "sendTransaction" (transaction_params b64)) _ w h3 λ send w1 d h4.
              let (clean, h5) =
                none_inverts (get_str J S X (J.field send "result") "errorResultXdr") _ w1 h4 in
              act_then (poll J S X R 30 (hex signed.1)) _ w1 h5 λ o w2 e h6.
                let o_same : o ≡ some final = ground arith in
                let sent =
                  submit_sends tx sim seed network w a
                    (or_panic-eq-ok (X.envelope_base64 signed.0) c) d clean in
                let (g, there, status) =
                  poll-Same 30 40 (hex signed.1) w1 (omega arith)
                    (e ∙ ap (λ x. (ok x, w2)) o_same) in
                let hashes : signed.1 ≡ hash = ground arith in
                let worlds : w2 ≡ w' = ground arith in
                (
                  g,
                  subst (λ x. Rpc.submit J S X tx sim seed network w ≡ (added g (hex x), w')) hashes
                      (subst
                        (λ x. Rpc.submit J S X tx sim seed network w ≡ (added g (hex signed.1), x))
                        worlds (sent ∙ there)),
                  ground arith,
                )

  -- If the program's simulation and its submission of a transaction return a final status, then
  -- `simulate` and `submit` of pq-cli do the same: the simulation of the same transaction is read
  -- alike, and `submit` leaves the world alike, with the answer of that status and the hash added to
  -- it, or a panic where it has no fields.
  pub submission-Agrees :
      (tx : Tx X) (seed network : Bytes) (w : S.World) {sim : SimResult X} {w1 : S.World} {len : ℕ}
      {hash : Bytes} {final : Final} {w2 : S.World}
      → simulate J S X R tx w ≡ (ok sim, w1)
      → finalise J S X R tx sim seed network w1 ≡ (ok (len, hash, some final), w2)
      → (Rpc.simulate J S X tx (some "enforce") w ≡ (ok sim, w1))
        × ((g : J.Value) × (Rpc.submit J S X tx sim seed network w1 ≡ (added g (hex hash), w2))
            × (final.status ≡ status_of J S X R g))
  submission-Agrees tx seed network w {sim} {w1} a b =
      (simulate_same tx w a, finalise_same tx sim seed network w1 b)
