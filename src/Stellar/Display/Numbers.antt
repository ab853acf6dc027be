-- ===== src/Stellar/Display/Numbers.antt =====
-- A number in a text, read back from its decimal digits.
use Prim.Native.Char.{Char, code}
use Prim.Native.String.{◌++◌, char_at}
use text.Mathlib.TextLemmas.{append_assoc}
use soroban_ml_dsa.Prelude.{
  ℕ, zero, suc, ◌+◌, ◌-◌, ◌*◌, ◌/◌, ◌%◌, ◌<◌, ◌≤◌, ◌≡◌, refl, ◌∙◌, ap, arith, Bool, true, false,
  ◌&&◌, ltb, leb, ◌==◌, if◌then◌else◌, le→leb, lt→ltb, String, Bool-cases, inl, inr,
}
use soroban_ml_dsa.Prelude.Texts.{append_one}
use soroban_ml_dsa.Prelude.Ranges.{holds_below, holds_below_sound}
use soroban_ml_dsa.Stellar.Display.{digit, decimal_on, decimal}

unfoldable pub is_digit : Char → Bool
is_digit c = let n = code c in leb 48 n && ltb n 58

-- The number that a text starts with, on top of the digits read, and the text behind it.
unfoldable pub scan : ℕ → String → ℕ × String
scan n String.[] = (n, String.[])
scan n (String.◌∷◌ c s) =
    let rest = scan (n * 10 + (code c - 48)) s in if is_digit c then rest else (n, String.◌∷◌ c s)

digit_code : (d : ℕ) → d < 10 → code (char_at "0123456789" d) ≡ 48 + d
unfolding holds_below
digit_code d h =
    let same = holds_below_sound 10 (λ d. code (char_at "0123456789" d) == 48 + d) refl d h in
    ground arith

scan_digit :
    (n : ℕ) (c : Char) (t : String)
    → is_digit c ≡ true
    → scan n (String.◌∷◌ c t) ≡ scan (n * 10 + (code c - 48)) t
unfolding scan
scan_digit n c t h = rw h refl

-- A character that is no digit ends the number.
pub scan_stops :
    (n : ℕ) (c : Char) (t : String)
    → is_digit c ≡ false
    → scan n (String.◌∷◌ c t) ≡ (n, String.◌∷◌ c t)
unfolding scan
scan_stops n c t h = rw h refl

digit-is_digit : (d : ℕ) → d < 10 → is_digit (char_at "0123456789" d) ≡ true
unfolding is_digit
digit-is_digit d h =
    rw (digit_code d h) (rw (le→leb 48 (48 + d) (omega arith), lt→ltb (48 + d) 58 (omega arith)))

reads_digit : (n d : ℕ) (t : String) → d < 10 → scan n (digit d ++ t) ≡ scan (n * 10 + d) t
reads_digit n d t h =
    let c = char_at "0123456789" d in
    ap (scan n) (append_one c t)
    ∙ scan_digit n c t (digit-is_digit d h)
    ∙ ap (λ k. scan k t) (omega (arith, digit_code d h))

reads_decimal_on : (fuel n : ℕ) (t : String) → n ≤ fuel → scan 0 (decimal_on fuel n ++ t) ≡ scan n t
unfolding decimal_on
reads_decimal_on zero n t h =
    let none_left : n ≡ 0 = omega arith in rw none_left (reads_digit 0 0 t (omega arith))
reads_decimal_on (suc fuel) n t h = elim (Bool-cases (ltb n 10)) [
  | inl small ↦ rw small (reads_digit 0 n t (ground arith) ∙ ap (λ k. scan k t) (omega arith))
  | inr large ↦ rw large (
      ap (scan 0) (append_assoc (decimal_on fuel (n / 10)) (digit (n % 10)) t)
      ∙ reads_decimal_on fuel (n / 10) (digit (n % 10) ++ t) (ground arith)
      ∙ reads_digit (n / 10) (n % 10) t (omega arith)
      ∙ ap (λ k. scan k t) (omega arith))
]

pub scan-decimal : (n : ℕ) (t : String) → scan 0 (decimal n ++ t) ≡ scan n t
unfolding decimal
scan-decimal n t = reads_decimal_on n n t (omega arith)
