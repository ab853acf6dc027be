-- ===== src/Phase0/Harness/Simulate/Measured.antt =====
-- A whole run of phase0/harness/src/bin/simulate.rs.
use mathlib.Core.List.{Memᴰ, ◌++◌}
use soroban_ml_dsa.Prelude.{
  ℕ, ◌≡◌, ◌≢◌, ◌↔◌, refl, arith, Bytes, replicate, List, [], ◌∷◌, some, none, String, ok, or_panic,
}
use soroban_ml_dsa.Prelude.Int.{ℤ}
use soroban_ml_dsa.Core.MlDsa.{mldsa65}
use soroban_ml_dsa.Core.MlDsa.External as Crate
use soroban_ml_dsa.Core.MlDsa.External.{Backend}
use soroban_ml_dsa.Stellar.External.{Xdr}
use soroban_ml_dsa.Stellar.Payload.{network_id, testnet_passphrase}
use soroban_ml_dsa.Cli.Act.{pure_then, act_then, act_ends}
use soroban_ml_dsa.Cli.External.{Json, System, Crates}
use soroban_ml_dsa.Cli.Transactions.{Tx, Op, account_pk, contract_addr, invoke_op, build_tx}
use soroban_ml_dsa.Cli.Bench.{values}
use soroban_ml_dsa.Phase0.External as Direct
use soroban_ml_dsa.Phase0.External.{Calls}
use soroban_ml_dsa.Phase0.Harness.External
use soroban_ml_dsa.Phase0.Harness.External.{Signing, Ed25519, Results}
use soroban_ml_dsa.Phase0.Harness.Signed.{signing_key, vk, key_bytes, sig_bytes, sign_checked}
use soroban_ml_dsa.Phase0.Harness.Entry.{Authorized, authorize, protected_op}
use soroban_ml_dsa.Phase0.Harness.Entry.Agreement.{Covers, authorize-Covers}
use soroban_ml_dsa.Phase0.Harness.Simulate.{
  nonce, expiry, account_state, instance_len, simulate_call, probe_rows, account_sim, main, msg,
  Report,
}
use soroban_ml_dsa.Phase0.Harness.Simulate.Figures.{Sim, throughput}
use soroban_ml_dsa.Phase0.Harness.Simulate.Tables.{Shows, throughput_iff}
use soroban_ml_dsa.Phase0.Harness.Simulate.Rows.{Agrees, simulate-Agrees}

module _ (J : Json) (S : System) {Y : Xdr} (X : Crates Y) (R : Results X)
    (empty : (td : X.Resources) → X.resources_from_base64 "" ≢ ok td) where
  -- A call that was simulated, and what pq-cli's `simulate` makes of it.
  abbrev pub Called : Bytes → ℤ → String → String → List Bytes → S.World → Sim → S.World → Type 0
  Called source seq cid func inputs w s w' =
      (args : List Y.ScVal) × (op : Op X) × (tx : Tx X) × (values Y inputs ≡ ok args)
      × (invoke_op X cid func args [] ≡ ok op)
      × (build_tx X source seq op ≡ ok tx)
      × Agrees J S X R tx none w s w'

  simulate_call-Called :
      (source : Bytes) (seq : ℤ) (cid func : String) (inputs : List Bytes) (w : S.World) {s : Sim}
      {w' : S.World}
      → simulate_call J S X R source seq cid func inputs w ≡ (ok s, w')
      → Called source seq cid func inputs w s w'
  unfolding simulate_call
  simulate_call-Called source seq cid func inputs w h =
      pure_then (values Y inputs) _ w h λ args v h1.
        pure_then (invoke_op X cid func args []) _ w h1 λ op a h2.
          pure_then (build_tx X source seq op) _ w h2
            λ tx e h3. (args, op, tx, v, a, e, simulate-Agrees J S X R empty tx none w h3)

  module _ (M44 M65 : Backend) (N44 : Calls M44) (N65 : Calls M65) (G44 : Signing M44)
      (G65 : Signing M65) (D : Ed25519) where
    -- The four calls of the probe, one after another, with the inputs of each.
    abbrev pub Probed :
        Bytes → ℤ → String → M65.Signature → S.World → List (String × Sim) → S.World → Type 0
    Probed source seq cid s65 w rows w' =
        let ed : Bytes = replicate 32 9 in
        (s44 : M44.Signature) × (v : Sim) × (v4 : Sim) × (e : Sim) × (n : Sim) × (w1 : S.World)
        × (w2 : S.World) × (w3 : S.World) × (G44.sign (signing_key M44 N44 G44) msg ≡ some s44)
        × Called source seq cid "verify"
            (key_bytes M65 (vk M65 N65 G65) ∷ msg ∷ sig_bytes M65 s65 ∷ []) w v w1
        × Called source seq cid "verify44"
            (key_bytes M44 (vk M44 N44 G44) ∷ msg ∷ sig_bytes M44 s44 ∷ []) w1 v4 w2
        × Called source seq cid "ed25519" (D.verifying_key ed ∷ msg ∷ D.sign ed msg ∷ []) w2 e w3
        × Called source seq cid "noop" [] w3 n w'
        × (rows
            ≡ ("pq-probe verify (ML-DSA-65)", v)
              ∷ ("pq-probe verify44 (ML-DSA-44)", v4)
              ∷ ("pq-probe ed25519 (host fn)", e)
              ∷ ("pq-probe noop (VM baseline)", n)
              ∷ [])

    probe_rows-Probed :
        (source : Bytes) (seq : ℤ) (cid : String) (s65 : M65.Signature) (w : S.World)
        {rows : List (String × Sim)} {w' : S.World}
        → probe_rows J S X R M44 M65 N44 N65 G44 G65 D source seq cid s65 w ≡ (ok rows, w')
        → Probed source seq cid s65 w rows w'
    unfolding probe_rows
    probe_rows-Probed source seq cid s65 w h =
        let ed : Bytes = replicate 32 9 in
        act_then
          (simulate_call J S X R source seq cid "verify"
            (key_bytes M65 (vk M65 N65 G65) ∷ msg ∷ sig_bytes M65 s65 ∷ []))
          _ w h
          λ v w1 c1 h1.
            pure_then (or_panic (G44.sign (signing_key M44 N44 G44) msg)) _ w1 h1 λ s44 a h2.
              act_then
                (simulate_call J S X R source seq cid "verify44"
                  (key_bytes M44 (vk M44 N44 G44) ∷ msg ∷ sig_bytes M44 s44 ∷ []))
                _ w1 h2
                λ v4 w2 c2 h3.
                  act_then
                    (simulate_call J S X R source seq cid "ed25519"
                      (D.verifying_key ed ∷ msg ∷ D.sign ed msg ∷ []))
                    _ w2 h3
                    λ e w3 c3 h4.
                      act_then (simulate_call J S X R source seq cid "noop" []) _ w3 h4
                        λ n w4 c4 h5. act_ends h5 (Probed source seq cid s65 w) (
                          s44,
                          v,
                          v4,
                          e,
                          n,
                          w1,
                          w2,
                          w3,
                          ground arith,
                          simulate_call-Called source seq cid "verify" _ w c1,
                          simulate_call-Called source seq cid "verify44" _ w1 c2,
                          simulate_call-Called source seq cid "ed25519" _ w2 c3,
                          simulate_call-Called source seq cid "noop" _ w3 c4,
                          refl,
                        )

    module _ (L : Crate.IsLawful M65 mldsa65.vk_len mldsa65.sk_len mldsa65.sig_len)
        (LN : Direct.IsLawful M65 N65 mldsa65.vk_len) (LG : External.IsLawful M65 G65) where
      -- The call of the account contract, under an entry that covers it.
      abbrev pub Enforced : Bytes → ℤ → ℕ → Y.ScAddress → S.World → Sim → S.World → Type 0
      Enforced source seq latest caddr w s w' =
          let network = network_id X.sha256 testnet_passphrase in
          (a : Authorized X M65 N65 G65) × (op : Op X) × (tx : Tx X) × Covers X M65 N65 G65 L LN LG
            caddr network (nonce latest) (expiry latest) a
          × (protected_op X caddr a.entry ≡ ok op)
          × (build_tx X source seq op ≡ ok tx)
          × Agrees J S X R tx (some "enforce") w s w'

      account_sim-Enforced :
          (source : Bytes) (seq : ℤ) (latest : ℕ) (caddr : Y.ScAddress) (w : S.World) {s : Sim}
          {w' : S.World}
          → account_sim J S X R M44 M65 N44 N65 G44 G65 D source seq latest caddr w ≡ (ok s, w')
          → Enforced source seq latest caddr w s w'
      unfolding account_sim
      account_sim-Enforced source seq latest caddr w h =
          let network = network_id X.sha256 testnet_passphrase in
          pure_then (authorize X M65 N65 G65 caddr network (nonce latest) (expiry latest)) _ w h
            λ a e h1. pure_then (protected_op X caddr a.entry) _ w h1 λ op f h2.
              pure_then (build_tx X source seq op) _ w h2 λ tx g h3.
                let covers =
                  authorize-Covers X M65 N65 G65 L LN LG caddr network (nonce latest)
                    (expiry latest) e in
                (a, op, tx, covers, f, g, simulate-Agrees J S X R empty tx (some "enforce") w h3)

      abbrev pub Measured : String → String → String → S.World → Report → S.World → Type 0
      Measured source_text probe_id account_id w report w' =
          (source : Bytes) × (s65 : M65.Signature) × (caddr : Y.ScAddress) × (probe : List
            (String × Sim))
          × (account : Sim) × (w1 : S.World) × (w2 : S.World) × (w3 : S.World) × (account_pk X
                source_text
              ≡ ok source)
          × (contract_addr X account_id ≡ ok caddr)
          × (account_state J S X R source w ≡ (ok (report.seq, report.latest), w1))
          × (sign_checked M65 N65 G65 msg ≡ ok s65)
          × Probed source report.seq probe_id s65 w1 probe w2
          × Enforced source report.seq report.latest caddr w2 account w3
          × (instance_len J S X R caddr w3 ≡ (ok report.instance_len, w'))
          × (report.rows ≡ probe ++ ("pq-account protected() [ML-DSA auth]", account) ∷ [])
          × (report.throughput ≡ throughput report.rows)
          × ((row : String × ℕ × ℕ) → Memᴰ row report.throughput ↔ Shows report.rows row)

      -- Over lawful crates, and where an empty text is not resources: if the program returns a
      -- report, its five rows are the simulations, in this order, of `verify`, `verify44`,
      -- `ed25519` and `noop` of the probe, without an entry, and of `protected` of the account
      -- under an entry for the testnet and that call whose signature the ML-DSA-65 key accepts;
      -- each is the error or the costs that `simulate` of pq-cli gives for the same transaction;
      -- and its table for a ledger has exactly those rows whose simulation succeeded at a cost that
      -- is not zero, each with the numbers that the benchmark of pq-cli derives from that cost.
      pub main-Measured :
          (source_text probe_id account_id : String) (w : S.World) {report : Report} {w' : S.World}
          → main J S X R M44 M65 N44 N65 G44 G65 D source_text probe_id account_id w
            ≡ (ok report, w')
          → Measured source_text probe_id account_id w report w'
      unfolding main
      main-Measured source_text probe_id account_id w h =
          pure_then (account_pk X source_text) _ w h λ source a h1.
            act_then (account_state J S X R source) _ w h1 λ found w1 c h2.
              pure_then (sign_checked M65 N65 G65 msg) _ w1 h2 λ s65 d h3.
                act_then (probe_rows J S X R M44 M65 N44 N65 G44 G65 D source found.0 probe_id s65)
                  _ w1 h3
                  λ probe w2 e h4. pure_then (contract_addr X account_id) _ w2 h4 λ caddr f h5.
                    act_then
                      (account_sim J S X R M44 M65 N44 N65 G44 G65 D source found.0 found.1 caddr) _
                      w2 h5
                      λ account w3 g h6. act_then (instance_len J S X R caddr) _ w3 h6 λ n w4 i h7.
                        act_ends h7 (Measured source_text probe_id account_id w) (
                          source,
                          s65,
                          caddr,
                          probe,
                          account,
                          w1,
                          w2,
                          w3,
                          a,
                          f,
                          c,
                          d,
                          probe_rows-Probed source found.0 probe_id s65 w1 e,
                          account_sim-Enforced source found.0 found.1 caddr w2 g,
                          i,
                          refl,
                          refl,
                          throughput_iff _,
                        )
