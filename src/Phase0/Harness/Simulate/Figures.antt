-- ===== src/Phase0/Harness/Simulate/Figures.antt =====
-- phase0/harness/src/bin/simulate.rs: a simulated call, and the tables that are made of several.
use soroban_ml_dsa.Prelude.{
  ℕ, ◌*◌, ◌/◌, min, ◌==◌, ◌⊎◌, inl, inr, if◌then◌else◌, String, Bool, false, List, [], ◌∷◌,
}
use soroban_ml_dsa.Prelude.Int.{ℤ, pos}

abbrev pub ledger_max_insn : ℕ
ledger_max_insn = 580_000_000

abbrev pub clusters : ℕ
clusters = 2

abbrev pub ledger_max_tx_count : ℕ
ledger_max_tx_count = 2000

pub record Sim : Type 0 where
  pub insns : ℕ
  pub disk_read : ℕ
  pub write : ℕ
  pub ro : ℕ
  pub rw : ℕ
  pub fee : ℤ
  pub envelope_len : ℕ
  pub final_len : ℕ
  pub is_ok : Bool
  pub err : String

-- A simulation that the server reports as failed.
abbrev pub failed : ℕ → String → Sim
failed envelope_len e = record {
  insns = 0;
  disk_read = 0;
  write = 0;
  ro = 0;
  rw = 0;
  fee = pos 0;
  envelope_len = envelope_len;
  final_len = 0;
  is_ok = false;
  err = e;
}

-- The table of throughput: the transactions for a ledger, one after another and in two clusters.
unfoldable pub seq_n : ℕ → ℕ
seq_n insns = ledger_max_insn / insns

unfoldable pub par_n : ℕ → ℕ
unfolding seq_n
par_n insns = min (clusters * seq_n insns) ledger_max_tx_count

unfoldable pub throughput : List (String × Sim) → List (String × ℕ × ℕ)
unfolding seq_n par_n
throughput [] = []
throughput ((n, s) ∷ rows) =
    let rest = throughput rows in
    if s.is_ok
    then (if s.insns == 0 then rest else (n, seq_n s.insns, par_n s.insns) ∷ rest)
    else rest

-- What the first table prints of a row: an error, or the figures.
unfoldable pub printed : Sim → String ⊎ (ℕ × ℕ × ℕ × ℕ × ℤ)
printed s = if s.is_ok then inr (s.insns, s.disk_read, s.write, s.final_len, s.fee) else inl s.err

unfoldable pub footprints : List (String × Sim) → List (String × ℕ × ℕ)
footprints [] = []
footprints ((n, s) ∷ rows) =
    let rest = footprints rows in if s.is_ok then (n, s.ro, s.rw) ∷ rest else rest
