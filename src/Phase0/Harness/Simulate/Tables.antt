-- ===== src/Phase0/Harness/Simulate/Tables.antt =====
-- The tables of phase0/harness/src/bin/simulate.rs, and those of pq-cli's benchmark.
use Prim.Native.Nat.{max}
use mathlib.Core.List.{Memᴰ}
use mathlib.Core.List.Memᴰ.{head, tail}
use soroban_ml_dsa.Prelude.{
  ℕ, ◌<◌, ◌≡◌, ◌↔◌, ◌⊎◌, inl, inr, refl, sym, ◌∙◌, ap, subst, arith, true, List, [], ◌∷◌, String,
}
use soroban_ml_dsa.Cli.Bench.Cost
use soroban_ml_dsa.Phase0.Harness.Simulate.Figures.{Sim, throughput, seq_n, par_n}

-- Where a cost is not zero, the numbers are those of the benchmark.
numbers_agree :
    (insns : ℕ) → 0 < insns → (seq_n insns ≡ Cost.seq_n insns) × (par_n insns ≡ Cost.par insns)
unfolding seq_n par_n Cost.seq_n Cost.par
numbers_agree insns h = let same : max insns 1 ≡ insns = omega arith in rw same (refl, refl)

-- A row of the first table that the second table shows, with the numbers of the benchmark.
abbrev pub Shows : List (String × Sim) → String × ℕ × ℕ → Type 0
Shows rows (name, a, p) =
    (s : Sim) × Memᴰ (name, s) rows
    × (s.is_ok ≡ true)
    × (0 < s.insns)
    × (a ≡ Cost.seq_n s.insns)
    × (p ≡ Cost.par s.insns)

abbrev shown : String → Sim → String × ℕ × ℕ
shown name s = (name, seq_n s.insns, par_n s.insns)

-- The first row is shown, or it failed or cost nothing.
throughput_step :
    (name : String) (s : Sim) (rows : List (String × Sim))
    → ((s.is_ok ≡ true)
        × (0 < s.insns)
        × (throughput ((name, s) ∷ rows) ≡ shown name s ∷ throughput rows))
      ⊎ (((s.is_ok ≡ true) × (0 < s.insns) → ⊥) × (throughput ((name, s) ∷ rows) ≡ throughput rows))
unfolding throughput
throughput_step name s rows = ground arith

Shows-there :
    {r : String × Sim} {rows : List (String × Sim)} (t : String × ℕ × ℕ)
    → Shows rows t
    → Shows (r ∷ rows) t
Shows-there t (s, m, a, b, x, y) = (s, tail m, a, b, x, y)

Shows-here :
    (name : String) (s : Sim) (rows : List (String × Sim)) {t : String × ℕ × ℕ}
    → s.is_ok ≡ true
    → 0 < s.insns
    → t ≡ shown name s
    → Shows ((name, s) ∷ rows) t
Shows-here name s rows a b e =
    let (x, y) = numbers_agree s.insns b in
    subst (Shows ((name, s) ∷ rows)) (sym e) (s, head refl, a, b, x, y)

throughput_sound :
    (rows : List (String × Sim)) (t : String × ℕ × ℕ) → Memᴰ t (throughput rows) → Shows rows t
unfolding throughput
throughput_sound [] t m = elim m [ ]
throughput_sound ((name, s) ∷ rows) t m = elim (throughput_step name s rows) [
  | inr (_, e) ↦ Shows-there t (throughput_sound rows t (subst (Memᴰ t) e m))
  | inl (a, b, e) ↦ elim (subst (Memᴰ t) e m) [
    | head same ↦ Shows-here name s rows a b same
    | tail later ↦ Shows-there t (throughput_sound rows t later)
  ]
]

throughput_complete :
    (rows : List (String × Sim)) (t : String × ℕ × ℕ) → Shows rows t → Memᴰ t (throughput rows)
throughput_complete [] t (s, m, _, _, _, _) = elim m [ ]
throughput_complete ((name, s) ∷ rows) t (s', head same, a, b, x, y) =
    let of_s : s' ≡ s = ap (λ r. r.1) same in
    let (x', y') = numbers_agree s'.insns b in
    elim (throughput_step name s rows) [
      | inr (not_shown, e) ↦ absurd (not_shown (rw (sym of_s) a, rw (sym of_s) b))
      | inl (_, _, e) ↦
          subst (Memᴰ t) (sym e) (
            head (subst (λ r. t ≡ shown r.0 r.1) same (λ i. (t.0, (x ∙ sym x') i, (y ∙ sym y') i))))
    ]
throughput_complete ((name, s) ∷ rows) t (s', tail m, a, b, x, y) =
    let later = throughput_complete rows t (s', m, a, b, x, y) in
    elim (throughput_step name s rows) [
      | inr (_, e) ↦ subst (Memᴰ t) (sym e) later
      | inl (_, _, e) ↦ subst (Memᴰ t) (sym e) (tail later)
    ]

-- The table of throughput has exactly the rows whose simulation succeeded at a cost that is not
-- zero, each with the numbers that the benchmark of pq-cli derives from that cost.
pub throughput_iff :
    (rows : List (String × Sim)) (row : String × ℕ × ℕ)
    → Memᴰ row (throughput rows) ↔ Shows rows row
throughput_iff rows row = (throughput_sound rows row, throughput_complete rows row)
