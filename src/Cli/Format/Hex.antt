-- ===== src/Cli/Format/Hex.antt =====
-- `hex` of crates/pq-cli/src/lib.rs, read back: the hash that is polled for, and the files of
-- phase0/harness/src/bin/vectors.rs.
use Prim.Native.Char.{Char, code}
use Prim.Native.String.{char_at, ◌++◌}
use soroban_ml_dsa.Prelude.{
  ℕ, ◌+◌, ◌-◌, ◌*◌, ◌/◌, ◌%◌, ◌<◌, ◌≡◌, refl, sym, ◌∙◌, ap, arith, ◌==◌, ltb, if◌then◌else◌, String,
  Bytes, [], ◌∷◌,
}
use soroban_ml_dsa.Prelude.Texts.{append_one}
use soroban_ml_dsa.Prelude.Ranges.{holds_below, holds_below_sound}
use soroban_ml_dsa.Cli.Format.{digit, hex}

-- The value of a digit, and the bytes of a text of digits.
value : Char → ℕ
value c = let n = code c in if ltb n 58 then n - 48 else n - 87

read : String → Bytes
read String.[] = []
read (String.◌∷◌ c String.[]) = []
read (String.◌∷◌ c (String.◌∷◌ d s)) = (16 * value c + value d) ∷ read s

-- Numbers that are all below 256.
pub data IsOctets : Bytes → Type 0 where
  no_octets : IsOctets []
  more_octets : {b : ℕ} {bs : Bytes} → b < 256 → IsOctets bs → IsOctets (b ∷ bs)

value-digit : (d : ℕ) → d < 16 → value (char_at "0123456789abcdef" d) ≡ d
unfolding value holds_below
value-digit d h =
    let same = holds_below_sound 16 (λ d. value (char_at "0123456789abcdef" d) == d) refl d h in
    ground arith

hex_step :
    (b : ℕ) (bs : Bytes)
    → hex (b ∷ bs)
      ≡ String.◌∷◌
          (char_at "0123456789abcdef" (b / 16))
          (String.◌∷◌ (char_at "0123456789abcdef" (b % 16)) (hex bs))
unfolding hex
hex_step b bs =
    append_one (char_at "0123456789abcdef" (b / 16)) (digit (b % 16) ++ hex bs)
    ∙ ap (String.◌∷◌ (char_at "0123456789abcdef" (b / 16)))
        (append_one (char_at "0123456789abcdef" (b % 16)) (hex bs))

read-hex : {bs : Bytes} → IsOctets bs → read (hex bs) ≡ bs
unfolding read hex
read-hex no_octets = refl
read-hex (more_octets {b = b} {bs = bs} h rest) =
    ap read (hex_step b bs)
    ∙ rw (value-digit (b / 16) (omega arith), value-digit (b % 16) (omega arith), read-hex rest)
        (ap (λ x. x ∷ bs) (omega arith))

-- Two byte strings, of numbers below 256, with the same text in hex are the same.
pub hex-injective : {bs bs' : Bytes} → IsOctets bs → IsOctets bs' → hex bs ≡ hex bs' → bs ≡ bs'
hex-injective p q h = sym (read-hex p) ∙ ap read h ∙ read-hex q
