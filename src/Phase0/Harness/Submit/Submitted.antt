-- ===== src/Phase0/Harness/Submit/Submitted.antt =====
-- A whole run of phase0/harness/src/bin/submit.rs.
use soroban_ml_dsa.Prelude.{
  ℕ, ◌<◌, ◌≡◌, ◌⊎◌, inl, inr, refl, sym, ◌∙◌, arith, Bool, false, String, Bytes, length, Option,
  some, none, Never, ok, or_panic,
}
use soroban_ml_dsa.Prelude.Int.{ℤ}
use soroban_ml_dsa.Core.MlDsa.{mldsa65}
use soroban_ml_dsa.Core.MlDsa.External as Crate
use soroban_ml_dsa.Core.MlDsa.External.{Backend}
use soroban_ml_dsa.Stellar.External.{Xdr}
use soroban_ml_dsa.Stellar.Payload.{network_id, testnet_passphrase}
use soroban_ml_dsa.Cli.Act.{pure, pure_then, act_then, act_ends, none_inverts}
use soroban_ml_dsa.Cli.External as Cli
use soroban_ml_dsa.Cli.External.{Json, System, Crates, TransactionEnvelope}
use soroban_ml_dsa.Cli.Format.{transaction_params, hex}
use soroban_ml_dsa.Cli.Transactions.{
  Tx, Op, SimResult, account_pk, contract_addr, secret_seed, build_tx, sign_envelope,
}
use soroban_ml_dsa.Cli.Rpc.{rpc, account_state, get_str, ask, is_not_found}
use soroban_ml_dsa.Cli.Authorize.{plus_1}
use soroban_ml_dsa.Cli.Poll.{Waits}
use soroban_ml_dsa.Cli.Submit.{Signed, sign_envelope-Signed}
use soroban_ml_dsa.Phase0.External as Direct
use soroban_ml_dsa.Phase0.External.{Calls}
use soroban_ml_dsa.Phase0.Harness.External
use soroban_ml_dsa.Phase0.Harness.External.{Signing, Results}
use soroban_ml_dsa.Phase0.Harness.Entry.{Authorized, authorize, protected_op}
use soroban_ml_dsa.Phase0.Harness.Entry.Agreement.{Covers, authorize-Covers}
use soroban_ml_dsa.Phase0.Harness.Submit.{
  nonce, expiry, Final, simulate, final_of, poll, finalise, Report, main,
}
use soroban_ml_dsa.Phase0.Harness.Submit.Poll.{poll-Ending}

module _ (J : Json) (S : System) {Y : Xdr} (X : Crates Y) (R : Results X) where
  -- How the wait for a transaction ends, when it does not panic: after 30 answers that are
  -- `NOT_FOUND`, or with the first answer that is not.
  abbrev pub Waited : String → S.World → Option Final → S.World → Type 0
  Waited hash w1 final w' =
      ((final ≡ none) × Waits J S hash 30 w1 w')
      ⊎ ((k : ℕ) × (w2 : S.World) × (w3 : S.World) × (g : J.Value) × (f : Final) × (k < 30)
          × Waits J S hash k w1 w2
          × (ask J S hash w2 ≡ (ok g, w3))
          × (is_not_found J S g ≡ false)
          × (final_of J S X R g w3 ≡ (ok f, w'))
          × (final ≡ some f))

  poll-Waited :
      (hash : String) (w : S.World) {final : Option Final} {w' : S.World}
      → poll J S X R 30 hash w ≡ (ok final, w')
      → Waited hash w final w'
  poll-Waited hash w {final} {w'} h = elim (poll-Ending J S X R 30 hash w) [
    | inl (w1, waits, e) ↦
        let (same, last) : (final ≡ none) × (w1 ≡ w') = (ground arith, ground arith) in
        inl (same, rw (sym last) waits)
    | inr (_, _, _, _, _, inl (_, e)) ↦ absurd cc
    | inr (k, w2, w3, less, waits, inr (g, a, b, e)) ↦
        act_then (final_of J S X R g) (λ f. pure (ok (some f))) w3 (sym e ∙ h)
          λ f w4 r s.
            let (same, last) : (final ≡ some f) × (w4 ≡ w') = (ground arith, ground arith) in
            inr (k, w2, w3, g, f, less, waits, a, b, rw (sym last) r, same)
  ]

  -- What is sent, and how it ends.
  abbrev pub Sent :
      TransactionEnvelope (Tx X) → Bytes → ℕ → Option Final → S.World → S.World → Type 0
  Sent env hash wire_len final w w' =
      (wire : Bytes) × (b64 : String) × (send : J.Value) × (w1 : S.World) × (R.envelope_xdr env
        ≡ some wire)
      × (length wire ≡ wire_len)
      × (X.envelope_base64 env ≡ some b64)
      × (rpc J S {E = Never} "sendTransaction" (transaction_params b64) w ≡ (ok send, w1))
      × (get_str J S X (J.field send "result") "errorResultXdr" ≡ none)
      × Waited (hex hash) w1 final w'

  abbrev pub Finalised :
      Tx X → SimResult X → Bytes → Bytes → S.World → ℕ × Bytes × Option Final → S.World → Type 0
  Finalised tx sim seed network w (wire_len, hash, final) w' =
      (env : TransactionEnvelope (Tx X)) × (sign_envelope X tx sim seed network ≡ ok (env, hash))
      × Sent env hash wire_len final w w'

  pub finalise-Sent :
      (tx : Tx X) (sim : SimResult X) (seed network : Bytes) (w : S.World)
      {done : ℕ × Bytes × Option Final} {w' : S.World}
      → finalise J S X R tx sim seed network w ≡ (ok done, w')
      → Finalised tx sim seed network w done w'
  unfolding finalise
  finalise-Sent tx sim seed network w h =
      pure_then (sign_envelope X tx sim seed network) _ w h λ signed a h1.
        let (env, hash') = signed in
        pure_then (or_panic (R.envelope_xdr env)) _ w h1 λ wire b h2.
          pure_then (or_panic (X.envelope_base64 env)) _ w h2 λ b64 c h3.
            act_then (rpc J S "sendTransaction" (transaction_params b64)) _ w h3 λ send w1 d h4.
              let (accepted, h5) =
                none_inverts (get_str J S X (J.field send "result") "errorResultXdr") _ w1 h4 in
              act_then (poll J S X R 30 (hex signed.1)) _ w1 h5 λ final' w2 e h6.
                act_ends h6 (λ done w''. Finalised tx sim seed network w done w'')
                  (
                    signed.0,
                    a,
                    (
                      wire,
                      b64,
                      send,
                      w1,
                      ground arith,
                      refl,
                      ground arith,
                      d,
                      accepted,
                      poll-Waited (hex signed.1) w1 e,
                    ),
                  )

  module _ (M : Backend) (N : Calls M) (G : Signing M)
      (L : Crate.IsLawful M mldsa65.vk_len mldsa65.sk_len mldsa65.sig_len)
      (LN : Direct.IsLawful M N mldsa65.vk_len) (LG : External.IsLawful M G) where
    abbrev pub Submitted :
        (Bytes → Bytes → Bytes → Bool)
        → String
        → String
        → String
        → S.World
        → Report J S X R
        → S.World
        → Type 0
    Submitted verify source_text account secret w report w' =
        let network = network_id X.sha256 testnet_passphrase in
        (source : Bytes) × (seed : Bytes) × (caddr : Y.ScAddress) × (sn : ℤ) × (a : Authorized X M N
          G)
        × (op : Op X) × (tx : Tx X) × (env : TransactionEnvelope (Tx X)) × (w1 : S.World)
        × (w2 : S.World) × (account_pk X source_text ≡ ok source)
        × (secret_seed X secret ≡ ok seed)
        × (contract_addr X account ≡ ok caddr)
        × (account_state J S X source w ≡ (ok (sn, report.latest), w1))
        × Covers X M N G L LN LG caddr network (nonce report.latest) (expiry report.latest) a
        × (protected_op X caddr a.entry ≡ ok op)
        × (build_tx X source (plus_1 sn) op ≡ ok tx)
        × (simulate J S X R tx w1 ≡ (ok report.sim, w2))
        × Signed X verify tx report.sim seed network env report.tx_hash
        × Sent env report.tx_hash report.wire_len report.final w2 w'

    -- Over lawful crates, if the program returns a report, then it has read a source account, a
    -- seed and a contract from its arguments; the one operation of the transaction calls
    -- `protected` of the contract, under an entry for the testnet and that call whose signature
    -- the ML-DSA-65 key accepts; the transaction has the number after that of the account; the
    -- envelope that it sent carries that transaction with the simulated resources and fee, signed
    -- by the seed; the server did not reject it; and the report has the length and hash of what
    -- was sent, and the first answer that was not `NOT_FOUND`, or none after 30 that were.
    pub main-Submitted :
        (verify : Bytes → Bytes → Bytes → Bool)
        → Cli.IsLawful X verify
        → (source_text account secret : String) (w : S.World) {report : Report J S X R}
          {w' : S.World}
        → main J S X R M N G source_text account secret w ≡ (ok report, w')
        → Submitted verify source_text account secret w report w'
    unfolding main
    main-Submitted verify LX source_text account secret w {report} {w'} h =
        let network = network_id X.sha256 testnet_passphrase in
        pure_then (account_pk X source_text) _ w h λ source a h1.
          pure_then (secret_seed X secret) _ w h1 λ seed b h2.
            pure_then (contract_addr X account) _ w h2 λ caddr c h3.
              act_then (account_state J S X source) _ w h3 λ found w1 d h4.
                pure_then (authorize X M N G caddr network (nonce found.1) (expiry found.1)) _ w1 h4
                  λ auth e h5. pure_then (protected_op X caddr auth.entry) _ w1 h5 λ op f h6.
                    pure_then (build_tx X source (plus_1 found.0) op) _ w1 h6 λ tx g h7.
                      act_then (simulate J S X R tx) _ w1 h7 λ sim w2 i h8.
                        act_then (finalise J S X R tx sim seed network) _ w2 h8 λ done w3 j h9.
                          let (env, signed, sent) = finalise-Sent tx sim seed network w2 j in
                          let covers =
                            authorize-Covers X M N G L LN LG caddr network (nonce found.1)
                              (expiry found.1) e in
                          let good : Signed X verify tx sim seed network env done.1 =
                            sign_envelope-Signed X verify LX tx sim seed network signed in
                          act_ends h9 (Submitted verify source_text account secret w) (
                            source, seed, caddr, found.0, auth, op, tx, env, w1, w2, a, b, c, d,
                            covers, f, g, i, good, sent,
                          )
