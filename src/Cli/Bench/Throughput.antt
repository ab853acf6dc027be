-- ===== src/Cli/Bench/Throughput.antt =====
-- The ledger throughput that crates/pq-cli/src/bin/bench.rs derives from a cost.
use Prim.Native.Nat.{max}
use native.Mathlib.Nat.{div-mul-le_self, lt-div-mul-add, add-mul, le-div_iff_mul-le}
use soroban_ml_dsa.Prelude.{ℕ, ◌+◌, ◌*◌, ◌/◌, ◌≤◌, ◌<◌, ◌≡◌, ◌↔◌, arith}
use soroban_ml_dsa.Cli.Bench.Cost.{seq_n, par, ledger_max_insn, clusters, ledger_max_tx_count}

-- For a cost that is not zero, `seq_n` is the largest number of transactions whose costs together
-- stay within the instructions of a ledger.
pub seq_n-fits :
    (insns : ℕ)
    → 0 < insns
    → (seq_n insns * insns ≤ ledger_max_insn) × (ledger_max_insn < (seq_n insns + 1) * insns)
unfolding seq_n
seq_n-fits insns h =
    let same : max insns 1 ≡ insns = omega arith in
    rw same (
      div-mul-le_self ledger_max_insn insns,
      omega (
        arith,
        lt-div-mul-add {a = ledger_max_insn} {b = insns} h,
        add-mul (ledger_max_insn / insns) 1 insns,
      ),
    )

-- 1001 transactions fit one after another exactly up to 579420 instructions each.
capped : (m : ℕ) → 0 < m → (1001 ≤ ledger_max_insn / m) ↔ (m < 579421)
capped m h =
    let iff = le-div_iff_mul-le {k = m} {x = 1001} {y = ledger_max_insn} h in
    (λ a. omega (arith, iff.0 a), λ a. iff.1 (omega arith))

-- `par` is within the cap on transactions and within the number for two clusters; it is less than
-- the latter exactly for costs of less than 579421 instructions.
pub par_lem :
    (insns : ℕ)
    → (par insns ≤ ledger_max_tx_count)
      × (par insns ≤ clusters * seq_n insns)
      × ((par insns < clusters * seq_n insns) ↔ (insns < 579421))
unfolding par seq_n
par_lem insns =
    let iff = capped (max insns 1) (omega arith) in
    (
      omega arith,
      omega arith,
      (λ a. omega (arith, iff.0 (omega arith)), λ a. omega (arith, iff.1 (omega arith))),
    )
