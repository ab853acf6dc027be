-- ===== src/Cli/Bench/Rows.antt =====
-- What crates/pq-cli/src/bin/bench.rs measures: each row of its table is the simulation of a call.
use soroban_ml_dsa.Prelude.{
  subst, sym, none, ap, ℕ, ◌≡◌, refl, String, List, [], ◌∷◌, Bytes, ok, Never,
}
use soroban_ml_dsa.Prelude.Int.{ℤ}
use soroban_ml_dsa.Core.MlDsa.{mldsa65}
use soroban_ml_dsa.Core.MlDsa.External.{Backend}
use soroban_ml_dsa.Stellar.External.{Xdr}
use soroban_ml_dsa.Cli.Act.{◌>>=◌, pure_then, act_then, act_ends, unwrap-eq-ok, Act, expect}
use soroban_ml_dsa.Cli.External.{Json, System, Crates}
use soroban_ml_dsa.Cli.Transactions.{Op, Tx, SimResult, invoke_op, build_tx}
use soroban_ml_dsa.Cli.Rpc.{simulate}
use soroban_ml_dsa.Cli.Authorize.{plus_1}
use soroban_ml_dsa.Cli.Bench.{
  msg32, sign_vector, P256, Inputs, measure, measure_bytes, values, measure_rows,
}
use soroban_ml_dsa.Cli.Bench.Cost.{Row}

abbrev pub row : String → ℕ × ℤ → Row
row label (insns, fee) = record { label = label; insns = insns; fee = fee }

-- The instructions and the fee of each measurement.
pub record Costs : Type 0 where
  pub noop : ℕ × ℤ
  pub ed25519 : ℕ × ℤ
  pub ecdsa : ℕ × ℤ
  pub decode_44 : ℕ × ℤ
  pub verify_44 : ℕ × ℤ
  pub decode_65 : ℕ × ℤ
  pub verify_65 : ℕ × ℤ

abbrev pub table : Costs → List Row
table c =
    row "no-op (VM instantiation)" c.noop
    ∷ row "Ed25519 (host fn)" c.ed25519
    ∷ row "ECDSA secp256r1 (host fn)" c.ecdsa
    ∷ row "ML-DSA-44 decode key only" c.decode_44
    ∷ row "ML-DSA-44 verify (in contract)" c.verify_44
    ∷ row "ML-DSA-65 decode key only" c.decode_65
    ∷ row "ML-DSA-65 verify (in contract)" c.verify_65
    ∷ []

module _ {Y : Xdr} (J : Json) (S : System) (X : Crates Y) where
  -- A measurement: the instructions and the fee that `simulate` reads for the call.
  abbrev pub Measures :
      Bytes → ℤ → String → String → List Bytes → S.World → ℕ × ℤ → S.World → Type 0
  Measures source seq verifier func vectors w (insns, fee) w' =
      (args : List Y.ScVal) × (op : Op X) × (tx : Tx X) × (sim : SimResult X) × (values Y vectors
        ≡ ok args)
      × (invoke_op X verifier func args [] ≡ ok op)
      × (build_tx X source (plus_1 seq) op ≡ ok tx)
      × (simulate J S X tx none w ≡ (ok sim, w'))
      × (sim.instructions ≡ insns)
      × (sim.min_fee ≡ fee)

  expect_keeps :
      {A : Type 0} (m : Act S.World String A) (w : S.World) {a : A} {w' : S.World}
      → expect {F = Never} m w ≡ (ok a, w')
      → m w ≡ (ok a, w')
  expect_keeps m w {a} {w'} h =
      let e = unwrap-eq-ok {F = Never} (m w).0 (ap (λ r. r.0) h) in λ i. (e i, (h i).1)

  -- A measurement under its label.
  abbrev pub Labelled :
      Bytes → ℤ → String → String → String → List Bytes → S.World → Row → S.World → Type 0
  Labelled source seq verifier label func vectors w r w' =
      (r ≡ row label (r.insns, r.fee))
      × Measures source seq verifier func vectors w (r.insns, r.fee) w'

  pub measure-Labelled :
      (source : Bytes) (seq : ℤ) (verifier label func : String) (vectors : List Bytes)
      {args : List Y.ScVal} (w : S.World) {r : Row} {w' : S.World}
      → values Y vectors ≡ ok args
      → measure J S X source seq verifier label func args w ≡ (ok r, w')
      → Labelled source seq verifier label func vectors w r w'
  unfolding measure
  measure-Labelled source seq verifier label func vectors {args} w v h =
      pure_then (invoke_op X verifier func args []) _ w h λ op a h1.
        pure_then (build_tx X source (plus_1 seq) op) _ w h1 λ tx c h2.
          act_then (expect (simulate J S X tx none)) _ w h2 λ sim w1 d h3.
            act_ends h3 (Labelled source seq verifier label func vectors w) (
              refl,
              (args, op, tx, sim, v, a, c, expect_keeps (simulate J S X tx none) w d, refl, refl),
            )

  pub measure_bytes-Labelled :
      (source : Bytes) (seq : ℤ) (verifier label func : String) (vectors : List Bytes) (w : S.World)
      {r : Row} {w' : S.World}
      → measure_bytes J S X source seq verifier label func vectors w ≡ (ok r, w')
      → Labelled source seq verifier label func vectors w r w'
  unfolding measure_bytes
  measure_bytes-Labelled source seq verifier label func vectors w h =
      pure_then (values Y vectors) _ w h
        λ args v h1. measure-Labelled source seq verifier label func vectors w v h1

  -- A measurement as a step of a proof.
  row_then :
      (source : Bytes) (seq : ℤ) (verifier label func : String) (vectors : List Bytes)
      {A P : Type 0} (k : Row → Act S.World Never A) (w : S.World) {a : A} {w' : S.World}
      → (measure_bytes J S X source seq verifier label func vectors >>= k) w ≡ (ok a, w')
      → ((r : Row) (w1 : S.World)
          → r ≡ row label (r.insns, r.fee)
          → Measures source seq verifier func vectors w (r.insns, r.fee) w1
          → k r w1 ≡ (ok a, w')
          → P)
      → P
  row_then source seq verifier label func vectors k w h next =
      act_then (measure_bytes J S X source seq verifier label func vectors) k w h λ r w1 m rest.
        let (l, t) = measure_bytes-Labelled source seq verifier label func vectors w m in
        next r w1 l t rest

module _ {Y : Xdr} (M44 M65 : Backend) (J : Json) (S : System) (X : Crates Y) (P : P256) where
  -- The six measurements after the no-op, one after another, with the vectors of each.
  abbrev pub Measured :
      Bytes → ℤ → String → Inputs M44 M65 J S X P → S.World → Costs → S.World → Type 0
  Measured source seq verifier v w c w' =
      (sig65 : Bytes) × (w1 : S.World) × (w2 : S.World) × (w3 : S.World) × (w4 : S.World)
      × (w5 : S.World) × Measures J S X source seq verifier "ed25519"
          (v.ed_key ∷ msg32 ∷ v.ed_sig ∷ []) w c.ed25519 w1
      × Measures J S X source seq verifier "secp256r1" (v.p_key ∷ msg32 ∷ v.p_sig ∷ []) w1 c.ecdsa
          w2
      × Measures J S X source seq verifier "decode44" (v.vk44 ∷ []) w2 c.decode_44 w3
      × Measures J S X source seq verifier "verify44" (v.vk44 ∷ msg32 ∷ v.sig44 ∷ []) w3 c.verify_44
          w4
      × Measures J S X source seq verifier "decode65" (v.vk65 ∷ []) w4 c.decode_65 w5
      × (sign_vector mldsa65 M65 v.kp65 msg32 ≡ ok sig65)
      × Measures J S X source seq verifier "verify65" (v.vk65 ∷ msg32 ∷ sig65 ∷ []) w5 c.verify_65
          w'

  abbrev pub Tabled :
      Bytes → ℤ → String → Inputs M44 M65 J S X P → ℕ × ℤ → S.World → List Row → S.World → Type 0
  Tabled source seq verifier v n w rows w' =
      (c : Costs) × (c.noop ≡ n) × (rows ≡ table c) × Measured source seq verifier v w c w'

  pub measure_rows-Tabled :
      (source : Bytes) (seq : ℤ) (verifier : String) (v : Inputs M44 M65 J S X P) (n : ℕ × ℤ)
      (w : S.World) {rows : List Row} {w' : S.World}
      → measure_rows M44 M65 J S X P source seq verifier v (row "no-op (VM instantiation)" n) w
        ≡ (ok rows, w')
      → Tabled source seq verifier v n w rows w'
  unfolding measure_rows
  measure_rows-Tabled source seq verifier v n w h =
      row_then J S X source seq verifier "Ed25519 (host fn)" "ed25519"
        (v.ed_key ∷ msg32 ∷ v.ed_sig ∷ []) _ w h
        λ ed w1 l1 t1 h1.
          row_then J S X source seq verifier "ECDSA secp256r1 (host fn)" "secp256r1"
            (v.p_key ∷ msg32 ∷ v.p_sig ∷ []) _ w1 h1
            λ ecdsa w2 l2 t2 h2.
              row_then J S X source seq verifier "ML-DSA-44 decode key only" "decode44"
                (v.vk44 ∷ []) _ w2 h2
                λ d44 w3 l3 t3 h3.
                  row_then J S X source seq verifier "ML-DSA-44 verify (in contract)" "verify44"
                    (v.vk44 ∷ msg32 ∷ v.sig44 ∷ []) _ w3 h3
                    λ v44 w4 l4 t4 h4.
                      row_then J S X source seq verifier "ML-DSA-65 decode key only" "decode65"
                        (v.vk65 ∷ []) _ w4 h4
                        λ d65 w5 l5 t5 h5.
                          pure_then (sign_vector mldsa65 M65 v.kp65 msg32) _ w5 h5 λ sig e h6.
                            row_then J S X source seq verifier "ML-DSA-65 verify (in contract)"
                              "verify65" (v.vk65 ∷ msg32 ∷ sig ∷ []) _ w5 h6
                              λ v65 w6 l6 t6 h7. act_ends h7 (Tabled source seq verifier v n w) (
                                record {
                                  noop = n;
                                  ed25519 = (ed.insns, ed.fee);
                                  ecdsa = (ecdsa.insns, ecdsa.fee);
                                  decode_44 = (d44.insns, d44.fee);
                                  verify_44 = (v44.insns, v44.fee);
                                  decode_65 = (d65.insns, d65.fee);
                                  verify_65 = (v65.insns, v65.fee);
                                },
                                refl,
                                cc,
                                (sig, w1, w2, w3, w4, w5, t1, t2, t3, t4, t5, e, t6),
                              )

  -- The no-op and the six after it.
  pub rows-Measured :
      (source : Bytes) (seq : ℤ) (verifier : String) (v : Inputs M44 M65 J S X P) (w : S.World)
      {noop : Row} {rows : List Row} {w1 w2 : S.World}
      → measure J S X source seq verifier "no-op (VM instantiation)" "noop" [] w ≡ (ok noop, w1)
      → measure_rows M44 M65 J S X P source seq verifier v noop w1 ≡ (ok rows, w2)
      → (c : Costs) × (noop ≡ row "no-op (VM instantiation)" c.noop)
        × (rows ≡ table c)
        × Measures J S X source seq verifier "noop" [] w c.noop w1
        × Measured source seq verifier v w1 c w2
  unfolding values
  rows-Measured source seq verifier v w {noop} {rows} {w1} {w2} a b =
      let (label, m) =
        measure-Labelled J S X source seq verifier "no-op (VM instantiation)" "noop" [] w refl a in
      let n : ℕ × ℤ = (noop.insns, noop.fee) in
      let (c, of_n, is_table, rest) = measure_rows-Tabled source seq verifier v n w1 (
        subst (λ r. measure_rows M44 M65 J S X P source seq verifier v r w1 ≡ (ok rows, w2)) label
          b) in
      (
        c,
        rw of_n label,
        is_table,
        subst (λ x. Measures J S X source seq verifier "noop" [] w x w1) (sym of_n) m,
        rest,
      )
