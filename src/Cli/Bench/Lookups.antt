-- ===== src/Cli/Bench/Lookups.antt =====
-- What `main` of crates/pq-cli/src/bin/bench.rs looks up among the rows that it has measured.
use Prim.Native.String.{◌++◌}
use soroban_ml_dsa.Prelude.{ap, replicate, ℕ, ◌≡◌, refl, ◌-◌, String, List, [], ◌∷◌, Bytes, ok}
use soroban_ml_dsa.Prelude.Int.{ℤ}
use soroban_ml_dsa.Core.MlDsa.{mldsa65, Keypair}
use soroban_ml_dsa.Core.MlDsa.External.{Backend}
use soroban_ml_dsa.Stellar.External.{Xdr}
use soroban_ml_dsa.Stellar.Display.{decimal}
use soroban_ml_dsa.Cli.Act.{pure_then, act_then, act_ends}
use soroban_ml_dsa.Cli.External.{Json, System, Crates}
use soroban_ml_dsa.Cli.Transactions.{account_pk}
use soroban_ml_dsa.Cli.Rpc.{account_state}
use soroban_ml_dsa.Cli.Bench.{
  sign_vector, P256, Report, Inputs, measure, measure_bytes, measure_rows, inputs, sweep,
  sweep_lengths, main,
}
use soroban_ml_dsa.Cli.Bench.Cost.{Row, Summary, find, summarise}
use soroban_ml_dsa.Cli.Bench.Rows.{rows-Measured, row, Costs, table, Measures, Measured}

abbrev pub nets : Costs → Summary
nets c = record {
  ml_dsa_65 = c.verify_65.0 - c.noop.0;
  ed25519 = c.ed25519.0 - c.noop.0;
  ecdsa = c.ecdsa.0 - c.noop.0;
  decode_44 = c.decode_44.0 - c.noop.0;
  verify_44 = c.verify_44.0 - c.noop.0;
  decode_65 = c.decode_65.0 - c.noop.0;
  verify_65 = c.verify_65.0 - c.noop.0;
}

summarise-table :
    {W : Type 0} (c : Costs) (w : W)
    → summarise {W = W} (row "no-op (VM instantiation)" c.noop) (table c) w ≡ (ok (nets c), w)
unfolding summarise find
summarise-table c w = refl

module _ {Y : Xdr} (M44 M65 : Backend) (J : Json) (S : System) (X : Crates Y) (P : P256) where
  abbrev pub lengths : List (ℕ × ℕ × ℕ) → List ℕ
  lengths [] = []
  lengths ((len, _, _) ∷ rest) = len ∷ lengths rest

  sweep-lengths :
      (source : Bytes) (seq : ℤ) (verifier : String) (noop : Row) (kp65 : Keypair M65)
      (vk65 : Bytes) (lens : List ℕ) (w : S.World) {points : List (ℕ × ℕ × ℕ)} {w' : S.World}
      → sweep M44 M65 J S X P source seq verifier noop kp65 vk65 lens w ≡ (ok points, w')
      → lengths points ≡ lens
  unfolding sweep
  sweep-lengths source seq verifier noop kp65 vk65 [] w h =
      act_ends h (λ points _. lengths points ≡ []) refl
  sweep-lengths source seq verifier noop kp65 vk65 (len ∷ lens) w h =
      pure_then (sign_vector mldsa65 M65 kp65 (replicate len 0x5A)) _ w h λ sig e h1.
        act_then
          (measure_bytes J S X source seq verifier ("len " ++ decimal len) "verify65"
            (vk65 ∷ replicate len 0x5A ∷ sig ∷ []))
          _ w h1
          λ r w1 m h2.
            act_then (sweep M44 M65 J S X P source seq verifier noop kp65 vk65 lens) _ w1 h2
              λ rest w2 f h3.
                act_ends h3 (λ points _. lengths points ≡ len ∷ lens)
                  (ap (λ l. len ∷ l) (sweep-lengths source seq verifier noop kp65 vk65 lens w1 f))

  abbrev pub Benchmarked : String → String → S.World → Report → S.World → Type 0
  Benchmarked source_text verifier w report w' =
      (source : Bytes) × (seq : ℤ) × (latest : ℕ) × (v : Inputs M44 M65 J S X P) × (c : Costs)
      × (w1 : S.World) × (w2 : S.World) × (w3 : S.World) × (w4 : S.World) × (account_pk X
            source_text
          ≡ ok source)
      × (account_state J S X source w ≡ (ok (seq, latest), w1))
      × (inputs M44 M65 J S X P w1 ≡ (ok v, w2))
      × Measures J S X source seq verifier "noop" [] w2 c.noop w3
      × Measured M44 M65 J S X P source seq verifier v w3 c w4
      × (report.rows ≡ table c)
      × (report.summary ≡ nets c)
      × (lengths report.sweep ≡ 32 ∷ 256 ∷ 1024 ∷ 4096 ∷ 8192 ∷ [])

  -- If the tool finishes, its table has a row for each of seven measurements, in this order and
  -- under these labels: the instructions and the fee that `simulate` read, one after another, for
  -- calls of the verifier with the number after that of the account, each with its own key, message
  -- and signature. The lookups by the beginning of a label found the right rows: each figure of
  -- the summary is the cost of its own measurement, less the cost of the no-op. The sweep has a
  -- point for each of its five lengths.
  pub main-Benchmarked :
      (source_text verifier : String) (w : S.World) {report : Report} {w' : S.World}
      → main M44 M65 J S X P source_text verifier w ≡ (ok report, w')
      → Benchmarked source_text verifier w report w'
  unfolding main
  main-Benchmarked source_text verifier w h =
      pure_then (account_pk X source_text) _ w h λ source e1 h1.
        act_then (account_state J S X source) _ w h1 λ state w1 e2 h2.
          act_then (inputs M44 M65 J S X P) _ w1 h2 λ v w2 e3 h3.
            act_then (measure J S X source state.0 verifier "no-op (VM instantiation)" "noop" []) _
              w2 h3
              λ noop w3 e4 h4.
                act_then (measure_rows M44 M65 J S X P source state.0 verifier v noop) _ w3 h4
                  λ rows w4 e5 h5. act_then (summarise noop rows) _ w4 h5 λ summary w5 e6 h6.
                    act_then
                      (sweep M44 M65 J S X P source state.0 verifier noop v.kp65 v.vk65
                        sweep_lengths)
                      _ w5 h6
                      λ points w6 e7 h7.
                        let (c, is_noop, is_table, measured, rest) =
                          rows-Measured M44 M65 J S X P source state.0 verifier v w2 e4 e5 in
                        let found : summary ≡ nets c = cc (summarise-table c w4) in
                        act_ends h7 (Benchmarked source_text verifier w) (
                          source,
                          state.0,
                          state.1,
                          v,
                          c,
                          w1,
                          w2,
                          w3,
                          w4,
                          e1,
                          e2,
                          e3,
                          measured,
                          rest,
                          is_table,
                          found,
                          sweep-lengths source state.0 verifier noop v.kp65 v.vk65 sweep_lengths w5
                              e7,
                        )
