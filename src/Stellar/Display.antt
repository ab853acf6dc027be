-- ===== src/Stellar/Display.antt =====
-- The texts of errors: `Display` of crates/pq-core/src/error.rs and crates/pq-stellar/src/error.rs.
pub mod Numbers
pub mod Read
use Prim.Native.String.{◌++◌, char_at}
use soroban_ml_dsa.Prelude.{
  ℕ, zero, suc, ◌/◌, ◌%◌, ◌≤◌, ◌≡◌, refl, arith, String, ltb, if◌then◌else◌, Bool-cases, inl, inr,
  ap, le→ltb,
}
use soroban_ml_dsa.Core.Error.{
  PqError, invalid_length, buffer_too_small, malformed_encoding, context_too_long,
  verification_failed, signing_failed,
}
use soroban_ml_dsa.Stellar.Error.{StellarError, pq, xdr, encoding}

abbrev pub digit : ℕ → String
digit d = String.◌∷◌ (char_at "0123456789" d) String.[]

-- The decimal digits of a number, on fuel.
unfoldable pub decimal_on : ℕ → ℕ → String
decimal_on zero n = digit n
decimal_on (suc fuel) n =
    let rest = decimal_on fuel (n / 10) in if ltb n 10 then digit n else rest ++ digit (n % 10)

-- `{n}`: the number itself is enough fuel.
unfoldable pub decimal : ℕ → String
unfolding decimal_on
decimal n = decimal_on n n

decimal_on_enough : (fuel more n : ℕ) → n ≤ fuel → n ≤ more → decimal_on fuel n ≡ decimal_on more n
unfolding decimal_on
decimal_on_enough zero zero n h k = refl
decimal_on_enough zero (suc more) n h k = ground arith
decimal_on_enough (suc fuel) zero n h k = ground arith
decimal_on_enough (suc fuel) (suc more) n h k = elim (Bool-cases (ltb n 10)) [
  | inl small ↦ ground arith
  | inr large ↦ rw large (
      ap (λ s. s ++ digit (n % 10))
        (decimal_on_enough fuel more (n / 10) (ground arith) (ground arith)))
]

-- With that fuel the digits are those of the quotient and then the last one.
pub decimal_step : (n : ℕ) → 10 ≤ n → decimal n ≡ decimal (n / 10) ++ digit (n % 10)
unfolding decimal decimal_on
decimal_step zero h = absurd (omega arith)
decimal_step (suc n) h = rw (le→ltb (suc n) 10 h) (
    ap (λ s. s ++ digit (suc n % 10))
      (decimal_on_enough n (suc n / 10) (suc n / 10) (ground arith) (ground arith)))

unfoldable pub pq_text : PqError → String
pq_text (invalid_length expected actual) =
    "invalid length: expected " ++ decimal expected ++ ", got " ++ decimal actual
pq_text (buffer_too_small needed actual) =
    "buffer too small: need " ++ decimal needed ++ ", got " ++ decimal actual
pq_text malformed_encoding = "malformed encoding"
pq_text (context_too_long actual) = "context too long: " ++ decimal actual ++ " bytes, maximum 255"
pq_text verification_failed = "signature verification failed"
pq_text signing_failed = "signing failed"

unfoldable pub stellar_text : StellarError → String
stellar_text (pq e) = "post-quantum operation failed: " ++ pq_text e
stellar_text (xdr m) = "XDR error: " ++ m
stellar_text (encoding m) = "encoding error: " ++ m
