-- ===== src/Prelude/Slices.antt =====
-- An assignment to a byte of a slice.
use soroban_ml_dsa.Prelude.{
  ℕ, zero, suc, ◌+◌, ◌-◌, ◌%◌, ◌<◌, ◌≡◌, refl, arith, Option, some, none, [], ◌∷◌, Bytes, length,
  ◌==◌, if◌then◌else◌,
}

-- `bytes[i] ^= 0x01`, which panics out of range.
unfoldable pub flip_at : ℕ → Bytes → Option Bytes
flip_at i [] = none
flip_at zero (x ∷ xs) = some ((if x % 2 == 0 then x + 1 else x - 1) ∷ xs)
flip_at (suc i) (x ∷ xs) = elim (flip_at i xs) [ some ys ↦ some (x ∷ ys) | none ↦ none ]

-- A byte within range is flipped, and the length is kept.
pub flip_at_within :
    (i : ℕ) (bytes : Bytes)
    → i < length bytes
    → (bad : Bytes) × (flip_at i bytes ≡ some bad) × (length bad ≡ length bytes)
unfolding flip_at
flip_at_within i [] h = absurd (omega arith)
flip_at_within zero (x ∷ xs) h = ((if x % 2 == 0 then x + 1 else x - 1) ∷ xs, refl, refl)
flip_at_within (suc i) (x ∷ xs) h =
    let (ys, e, l) = flip_at_within i xs (omega arith) in (x ∷ ys, rw e refl, omega arith)
