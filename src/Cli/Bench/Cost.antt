-- ===== src/Cli/Bench/Cost.antt =====
-- crates/pq-cli/src/bin/bench.rs: what the tool makes of the costs that it has measured.
use Prim.Native.Nat.{max}
use text.Mathlib.Text.{starts_with}
use soroban_ml_dsa.Prelude.{
  ℕ, ◌-◌, ◌*◌, ◌/◌, String, true, false, List, [], ◌∷◌, min, Run, Never, ok, panic,
}
use soroban_ml_dsa.Prelude.Int.{ℤ}
use soroban_ml_dsa.Cli.Act.{Act, ◌>>=◌, pure}

abbrev pub tx_max_insn : ℕ
tx_max_insn = 400_000_000

abbrev pub ledger_max_insn : ℕ
ledger_max_insn = 580_000_000

abbrev pub clusters : ℕ
clusters = 2

abbrev pub ledger_max_tx_count : ℕ
ledger_max_tx_count = 2000

pub record Row : Type 0 where
  pub label : String
  pub insns : ℕ
  pub fee : ℤ

-- How many transactions of a cost fit a ledger, one after another and in two clusters.
unfoldable pub seq_n : ℕ → ℕ
seq_n insns = ledger_max_insn / max insns 1

unfoldable pub par : ℕ → ℕ
unfolding seq_n
par insns = min (clusters * seq_n insns) ledger_max_tx_count

-- `saturating_sub`
abbrev pub net : Row → ℕ → ℕ
net noop i = i - noop.insns

-- `rows.iter().find(..).unwrap().insns`
unfoldable pub find : List Row → String → Run Never ℕ
find [] s = panic
find (r ∷ rows) s = elim (starts_with r.label s) [ true ↦ ok r.insns | false ↦ find rows s ]

-- The costs that the ratios and the split are made of, net of the no-op.
pub record Summary : Type 0 where
  pub ml_dsa_65 : ℕ
  pub ed25519 : ℕ
  pub ecdsa : ℕ
  pub decode_44 : ℕ
  pub verify_44 : ℕ
  pub decode_65 : ℕ
  pub verify_65 : ℕ

unfoldable pub summarise : {W : Type 0} → Row → List Row → Act W Never Summary
summarise noop rows = do
  verify_65 ← pure (find rows "ML-DSA-65 verify")
  ed25519 ← pure (find rows "Ed25519")
  ecdsa ← pure (find rows "ECDSA")
  decode_44 ← pure (find rows "ML-DSA-44 decode")
  verify_44 ← pure (find rows "ML-DSA-44 verify")
  decode_65 ← pure (find rows "ML-DSA-65 decode")
  pure (
      ok (record {
        ml_dsa_65 = net noop verify_65;
        ed25519 = net noop ed25519;
        ecdsa = net noop ecdsa;
        decode_44 = net noop decode_44;
        verify_44 = net noop verify_44;
        decode_65 = net noop decode_65;
        verify_65 = net noop verify_65;
      }))
