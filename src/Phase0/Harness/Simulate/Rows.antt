-- ===== src/Phase0/Harness/Simulate/Rows.antt =====
-- A simulation of phase0/harness/src/bin/simulate.rs beside the one of pq-cli, and the tables.
use soroban_ml_dsa.Prelude.{
  ℕ, ◌≡◌, ◌≢◌, ◌⊎◌, inl, inr, refl, ◌∙◌, ap, arith, true, Bytes, length, [], Option, some, none,
  Option-cases, String, Never, ok, err, or_panic, unwrap,
}
use soroban_ml_dsa.Stellar.External.{Xdr}
use soroban_ml_dsa.Cli.Act.{pure_then, act_then, act_ends, unwrap-eq-ok, option_inverts}
use soroban_ml_dsa.Cli.External.{Json, System, Crates, TransactionEnvelope}
use soroban_ml_dsa.Cli.Format.{request, simulation_params}
use soroban_ml_dsa.Cli.Transactions.{Tx, SimResult}
use soroban_ml_dsa.Cli.Rpc
use soroban_ml_dsa.Cli.Rpc.{rpc, get_str, read_fee, read_simulation}
use soroban_ml_dsa.Phase0.Harness.External.{Results}
use soroban_ml_dsa.Phase0.Harness.Envelope.{sized}
use soroban_ml_dsa.Phase0.Harness.Simulate.{measured, text_or_empty, simulate}
use soroban_ml_dsa.Phase0.Harness.Simulate.Figures.{Sim, failed}

module _ (J : Json) (S : System) where
  -- A request answers alike whatever the error type of the code around it.
  pub rpc_anywhere :
      {F : Type 0} (method params : String) (w : S.World) {v : J.Value} {w' : S.World}
      → rpc J S {E = Never} method params w ≡ (ok v, w')
      → rpc J S {E = F} method params w ≡ (ok v, w')
  unfolding rpc
  rpc_anywhere method params w h = elim (Option-cases (S.curl (request method params) w).0) [
    | inl e ↦ absurd (ground arith)
    | inr (bytes, e) ↦ elim (Option-cases (J.from_slice bytes)) [
      | inl f ↦ absurd (ground arith)
      | inr (v', f) ↦ ground arith
    ]
  ]

  module _ {Y : Xdr} (X : Crates Y) (R : Results X) where
    text_given :
        ((td : X.Resources) → X.resources_from_base64 "" ≢ ok td)
        → (o : Option String) {td : X.Resources}
        → X.resources_from_base64 (text_or_empty J S X R o) ≡ ok td
        → (t : String) × (o ≡ some t) × (X.resources_from_base64 t ≡ ok td)
    text_given empty (some t) h = (t, refl, h)
    text_given empty none {td} h = absurd (empty td h)

    reading_fails :
        (v : J.Value) {e : String}
        → get_str J S X (J.field v "result") "error" ≡ some e
        → read_simulation J S X v ≡ err e
    unfolding read_simulation
    reading_fails v h = ground arith

    -- What pq-cli reads of an answer with these resources.
    abbrev found : J.Value → X.Resources → SimResult X
    found v td = record {
      instructions = X.instructions td;
      disk_read_bytes = X.disk_read_bytes td;
      write_bytes = X.write_bytes td;
      min_fee = read_fee J S X (J.field (J.field v "result") "minResourceFee");
      resources = td;
    }

    reading_succeeds :
        (v : J.Value) (t : String) {td : X.Resources}
        → get_str J S X (J.field v "result") "error" ≡ none
        → J.as_str (J.field (J.field v "result") "transactionData") ≡ some t
        → X.resources_from_base64 t ≡ ok td
        → read_simulation J S X v ≡ ok (found v td)
    unfolding read_simulation
    reading_succeeds v t a b c = ground arith

    -- What the program keeps of a simulation that pq-cli's `simulate` reads as `sim`: the same
    -- costs and fee, and the length of the envelope with its resources.
    abbrev pub Keeps : Tx X → Sim → SimResult X → Type 0
    Keeps tx s sim =
        (final : TransactionEnvelope (Tx X)) × (wire : Bytes) × (s.is_ok ≡ true)
        × (s.insns ≡ sim.instructions)
        × (s.disk_read ≡ sim.disk_read_bytes)
        × (s.write ≡ sim.write_bytes)
        × (s.fee ≡ sim.min_fee)
        × (sized X tx sim.resources ≡ ok final)
        × (R.envelope_xdr final ≡ some wire)
        × (s.final_len ≡ length wire)

    pub asks :
        (tx : Tx X) (mode : Option String) (w : S.World) {b64 : String} {v : J.Value} {w1 : S.World}
        → or_panic {E = Never} (X.envelope_base64 (record { tx = tx; signatures = [] })) ≡ ok b64
        → rpc J S {E = String} "simulateTransaction" (simulation_params b64 mode) w ≡ (ok v, w1)
        → Rpc.simulate J S X tx mode w ≡ (read_simulation J S X v, w1)
    unfolding Rpc.simulate
    asks tx mode w {b64} a c =
        let e : X.envelope_base64 (record { tx = tx; signatures = [] }) ≡ some b64 = ground arith in
        rw (e, c) refl

    measured-Keeps :
        (tx : Tx X) (n : ℕ) (v : J.Value) (td : X.Resources) (w : S.World) {s : Sim} {w' : S.World}
        → measured J S X R tx n (J.field v "result") td w ≡ (ok s, w')
        → (w ≡ w') × Keeps tx s (found v td)
    unfolding measured
    measured-Keeps tx n v td w h = pure_then (sized X tx td) _ w h λ final a h1.
        pure_then (or_panic (R.envelope_xdr final)) _ w h1 λ wire b h2.
          act_ends h2 (λ s w'. (w ≡ w') × Keeps tx s (found v td))
            (refl, (final, wire, refl, refl, refl, refl, refl, a, ground arith, refl))

    -- The same error, or the same costs and fee.
    abbrev pub Agrees : Tx X → Option String → S.World → Sim → S.World → Type 0
    Agrees tx mode w s w' =
        ((e : String) × (n : ℕ) × (Rpc.simulate J S X tx mode w ≡ (err e, w')) × (s ≡ failed n e))
        ⊎ ((sim : SimResult X) × (Rpc.simulate J S X tx mode w ≡ (ok sim, w')) × Keeps tx s sim)

    -- Where an empty text is not resources: if `simulate` of the harness returns, it has the error
    -- that pq-cli's `simulate` of the same transaction reports, or the costs and the fee that the
    -- latter reads, with the length of the envelope that has the resources.
    pub simulate-Agrees :
        ((td : X.Resources) → X.resources_from_base64 "" ≢ ok td)
        → (tx : Tx X) (mode : Option String) (w : S.World) {s : Sim} {w' : S.World}
        → simulate J S X R tx mode w ≡ (ok s, w')
        → Agrees tx mode w s w'
    unfolding simulate
    simulate-Agrees empty tx mode w {s} {w'} h =
        pure_then (or_panic (X.envelope_base64 (record { tx = tx; signatures = [] }))) _ w h
          λ b64 a h1.
            pure_then (or_panic (R.envelope_xdr (record { tx = tx; signatures = [] }))) _ w h1
              λ bytes b h2.
                act_then (rpc J S "simulateTransaction" (simulation_params b64 mode)) _ w h2
                  λ v w1 c h3.
                    let c' =
                      rpc_anywhere {F = String} "simulateTransaction" (simulation_params b64 mode) w
                        c in
                    let r = J.field v "result" in
                    let asked = asks tx mode w a c' in
                    elim (option_inverts (get_str J S X r "error") _ _ w1 h3) [
                      | inl (e, d, h4) ↦ act_ends h4 (Agrees tx mode w) (
                          inl
                            (e, length bytes, asked ∙ ap (λ x. (x, w1)) (reading_fails v d), refl))
                      | inr (d, h4) ↦
                          pure_then
                            (unwrap (
                              X.resources_from_base64
                                (text_or_empty J S X R (J.as_str (J.field r "transactionData")))))
                            _ w1 h4
                            λ td x h5.
                              let given = J.as_str (J.field r "transactionData") in
                              let (t, y, z) = text_given empty given (
                                unwrap-eq-ok (X.resources_from_base64 (text_or_empty J S X R given))
                                  x) in
                              let (same, keeps) = measured-Keeps tx (length bytes) v td w1 h5 in
                              inr (
                                found v td,
                                asked ∙ rw (reading_succeeds v t d y z, same) refl,
                                keeps,
                              )
                    ]
