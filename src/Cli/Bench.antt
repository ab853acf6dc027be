-- ===== src/Cli/Bench.antt =====
-- crates/pq-cli/src/bin/bench.rs: the cost of each verification, as the network simulates it. What
-- `main` prints is its result here, but for the figures that it computes in floating point.
pub mod Cost
pub mod Vectors
pub mod Throughput
pub mod Rows
pub mod Lookups
use Prim.Native.Nat.{max}
use Prim.Native.String.{◌++◌}
use mathlib.Core.List.{map}
use text.Mathlib.Text.{starts_with}
use soroban_ml_dsa.Cli.Bench.Cost.{
  tx_max_insn, ledger_max_insn, clusters, ledger_max_tx_count, Row, seq_n, par, net, find, Summary,
  summarise,
}
use soroban_ml_dsa.Prelude.{
  ℕ, ◌-◌, ◌*◌, ◌/◌, String, Bool, true, false, Bytes, replicate, zeros, List, [], ◌∷◌, Option, some,
  none, min, Run, Never, ok, err, panic, unwrap, or_panic,
}
use soroban_ml_dsa.Prelude.Int.{ℤ}
use soroban_ml_dsa.Core.Traits.{Filled}
use soroban_ml_dsa.Core.MlDsa.{Params, mldsa44, mldsa65, Keypair, from_seed, sign_into, vk_write_to}
use soroban_ml_dsa.Core.MlDsa.External.{Backend}
use soroban_ml_dsa.Stellar.External.{Xdr}
use soroban_ml_dsa.Stellar.Display.{decimal}
use soroban_ml_dsa.Cli.Act.{Act, ◌>>=◌, pure, expect}
use soroban_ml_dsa.Cli.External.{Json, System, Crates}
use soroban_ml_dsa.Cli.Transactions.{account_pk, invoke_op, build_tx}
use soroban_ml_dsa.Cli.Rpc.{account_state, simulate}
use soroban_ml_dsa.Cli.Authorize.{plus_1}

-- The crate p256, which is not in the repository; `none` is an error.
pub record P256 : Type 1 where
  pub SigningKey : Type 0
  pub from_bytes : Bytes → Option SigningKey
  pub sign_prehash : SigningKey → Bytes → Option Bytes
  pub encoded_point : SigningKey → Bytes

-- `ScVal::Bytes`
unfoldable pub b : (Y : Xdr) → Bytes → Run Never Y.ScVal
b Y v = elim (Y.sc_bytes v) [ some s ↦ ok (Y.scval_bytes s) | none ↦ panic ]

-- The arguments of a call, `vec![b(..), ..]`.
unfoldable pub values : (Y : Xdr) → List Bytes → Run Never (List Y.ScVal)
values Y [] = ok []
values Y (v ∷ vs) =
    let rest = values Y vs in
    elim (b Y v) [ ok x ↦ elim rest [ ok xs ↦ ok (x ∷ xs) | _ ↦ panic ] | _ ↦ panic ]

-- A call that fills a buffer, `unwrap`ped: the buffer afterwards.
abbrev pub written : Filled → Run Never Bytes
written (ok n, out) = ok out
written (err e, out) = panic
written (panic, out) = panic

-- The buffers that hold a verifying key and a signature with no context.
module _ (p : Params) (M : Backend) where
  unfoldable pub key_vector : Keypair M → Run Never Bytes
  key_vector kp = written (vk_write_to p M kp.verifying (zeros p.vk_len))

  unfoldable pub sign_vector : Keypair M → Bytes → Run Never Bytes
  sign_vector kp m = written (sign_into p M kp.signing m [] (zeros p.sig_len))

abbrev pub sweep_lengths : List ℕ
sweep_lengths = 32 ∷ 256 ∷ 1024 ∷ 4096 ∷ 8192 ∷ []

pub record Report : Type 0 where
  pub rows : List Row
  -- Of each row, the transactions for a ledger, and the cost net of the no-op.
  pub throughput : List (ℕ × ℕ)
  pub net_costs : List ℕ
  pub summary : Summary
  -- The length of each message, and the cost and net cost of its verification.
  pub sweep : List (ℕ × ℕ × ℕ)

abbrev pub msg32 : Bytes
msg32 = replicate 32 7

module _ {Y : Xdr} (J : Json) (S : System) (X : Crates Y) where
  unfoldable pub measure :
      Bytes → ℤ → String → String → String → List Y.ScVal → Act S.World Never Row
  measure source seq verifier label func args = do
    op ← pure (invoke_op X verifier func args [])
    tx ← pure (build_tx X source (plus_1 seq) op)
    s ← expect (simulate J S X tx none)
    pure (ok (record { label = label; insns = s.instructions; fee = s.min_fee }))

  -- `measure` on arguments that are byte strings.
  unfoldable pub measure_bytes :
      Bytes → ℤ → String → String → String → List Bytes → Act S.World Never Row
  measure_bytes source seq verifier label func inputs = do
    args ← pure (values Y inputs)
    measure source seq verifier label func args

module _ {Y : Xdr} (M44 M65 : Backend) (J : Json) (S : System) (X : Crates Y) (P : P256) where
  unfoldable pub sweep :
      Bytes → ℤ → String → Row → Keypair M65 → Bytes → List ℕ → Act S.World Never (List (ℕ × ℕ × ℕ))
  sweep source seq verifier noop kp65 vk65 [] = pure (ok [])
  sweep source seq verifier noop kp65 vk65 (len ∷ lens) = do
    let m = replicate len 0x5A
    sig ← pure (sign_vector mldsa65 M65 kp65 m)
    r ←
        measure_bytes J S X source seq verifier ("len " ++ decimal len) "verify65"
          (vk65 ∷ m ∷ sig ∷ [])
    rest ← sweep source seq verifier noop kp65 vk65 lens
    pure (ok ((len, r.insns, net noop r.insns) ∷ rest))

  -- The keys and signatures that are measured.
  pub record Inputs : Type 0 where
    pub kp65 : Keypair M65
    pub vk65 : Bytes
    pub vk44 : Bytes
    pub sig44 : Bytes
    pub ed_key : Bytes
    pub ed_sig : Bytes
    pub p_key : Bytes
    pub p_sig : Bytes

  unfoldable pub inputs : Act S.World Never Inputs
  inputs = do
    kp65 ← pure (unwrap (from_seed mldsa65 M65 (replicate 32 42)))
    vk65 ← pure (key_vector mldsa65 M65 kp65)
    kp44 ← pure (unwrap (from_seed mldsa44 M44 (replicate 32 42)))
    vk44 ← pure (key_vector mldsa44 M44 kp44)
    sig44 ← pure (sign_vector mldsa44 M44 kp44 msg32)
    let ed = replicate 32 9
    p_sk ← pure (or_panic (P.from_bytes (replicate 32 0x11)))
    p_sig ← pure (or_panic (P.sign_prehash p_sk (X.sha256 msg32)))
    pure (
        ok (record {
          kp65 = kp65;
          vk65 = vk65;
          vk44 = vk44;
          sig44 = sig44;
          ed_key = X.verifying_key ed;
          ed_sig = X.sign ed msg32;
          p_key = P.encoded_point p_sk;
          p_sig = p_sig;
        }))

  -- The measurements of the table, after the no-op.
  unfoldable pub measure_rows : Bytes → ℤ → String → Inputs → Row → Act S.World Never (List Row)
  measure_rows source seq verifier v noop = do
    ed ←
        measure_bytes J S X source seq verifier "Ed25519 (host fn)" "ed25519"
          (v.ed_key ∷ msg32 ∷ v.ed_sig ∷ [])
    ecdsa ←
        measure_bytes J S X source seq verifier "ECDSA secp256r1 (host fn)" "secp256r1"
          (v.p_key ∷ msg32 ∷ v.p_sig ∷ [])
    decode44 ←
        measure_bytes J S X source seq verifier "ML-DSA-44 decode key only" "decode44" (v.vk44 ∷ [])
    verify44 ←
        measure_bytes J S X source seq verifier "ML-DSA-44 verify (in contract)" "verify44"
          (v.vk44 ∷ msg32 ∷ v.sig44 ∷ [])
    decode65 ←
        measure_bytes J S X source seq verifier "ML-DSA-65 decode key only" "decode65" (v.vk65 ∷ [])
    sig65 ← pure (sign_vector mldsa65 M65 v.kp65 msg32)
    verify65 ←
        measure_bytes J S X source seq verifier "ML-DSA-65 verify (in contract)" "verify65"
          (v.vk65 ∷ msg32 ∷ sig65 ∷ [])
    pure (ok (noop ∷ ed ∷ ecdsa ∷ decode44 ∷ verify44 ∷ decode65 ∷ verify65 ∷ []))

  unfoldable pub main : String → String → Act S.World Never Report
  main source_text verifier = do
    source ← pure (account_pk X source_text)
    (seq, latest) ← account_state J S X source
    v ← inputs
    noop ← measure J S X source seq verifier "no-op (VM instantiation)" "noop" []
    rows ← measure_rows source seq verifier v noop
    summary ← summarise noop rows
    points ← sweep source seq verifier noop v.kp65 v.vk65 sweep_lengths
    pure (
        ok (record {
          rows = rows;
          throughput = map (λ (r : Row). (seq_n r.insns, par r.insns)) rows;
          net_costs = map (λ (r : Row). net noop r.insns) rows;
          summary = summary;
          sweep = points;
        }))
