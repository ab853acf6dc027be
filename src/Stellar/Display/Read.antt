-- ===== src/Stellar/Display/Read.antt =====
-- The errors of crates/pq-core/src/error.rs and crates/pq-stellar/src/error.rs, read back from their
-- texts.
use Prim.Native.Char.{Char, code}
use Prim.Native.String.{◌++◌, char_at}
use Prim.Native.String.append
use text.Mathlib.TextLemmas.{append-nil}
use mathlib.Core.Option
use soroban_ml_dsa.Prelude.{
  ℕ, ◌≡◌, refl, ◌∙◌, ap, sym, arith, Bool, true, false, ◌==◌, if◌then◌else◌, String, Option, some,
  none, ◌↔◌,
}
use soroban_ml_dsa.Prelude.Texts.{strip, strip-append}
use soroban_ml_dsa.Core.Error.{
  PqError, invalid_length, buffer_too_small, malformed_encoding, context_too_long,
  verification_failed, signing_failed,
}
use soroban_ml_dsa.Stellar.Error.{StellarError, pq, xdr, encoding}
use soroban_ml_dsa.Stellar.Display.{decimal, pq_text, stellar_text}
use soroban_ml_dsa.Stellar.Display.Numbers.{scan, scan-decimal, scan_stops, is_digit}

-- Two prefixes that differ before either of them ends.
clash : String → String → Bool
clash (String.◌∷◌ c p) (String.◌∷◌ d q) =
    let rest = clash p q in if code c == code d then rest else true
clash p q = false

strip-clash : (p q t : String) → clash p q ≡ true → strip p (q ++ t) ≡ none
unfolding strip clash
strip-clash String.[] q t h = cc
strip-clash (String.◌∷◌ c p) String.[] t h = cc
strip-clash (String.◌∷◌ c p) (String.◌∷◌ d q) t h =
    ap (strip (String.◌∷◌ c p)) (append.cons d q t) ∙ ground (arith, strip-clash p q t)

-- A number, and after a separator another one.
numbers : String → String → Option (ℕ × ℕ)
numbers between t = elim (strip between (scan 0 t).1) [
  | some u ↦ some ((scan 0 t).0, (scan 0 u).0)
  | none ↦ none
]

scan_text :
    (n : ℕ) (c : Char) (s t : String)
    → is_digit c ≡ false
    → scan 0 (decimal n ++ String.◌∷◌ c s ++ t) ≡ (n, String.◌∷◌ c s ++ t)
scan_text n c s t h =
    let split = append.cons c s t in
    scan-decimal n (String.◌∷◌ c s ++ t)
    ∙ ap (scan n) split
    ∙ scan_stops n c (s ++ t) h
    ∙ ap (λ u. (n, u)) (sym split)

scan_all : (n : ℕ) → (scan 0 (decimal n)).0 ≡ n
unfolding scan
scan_all n =
    ap (λ t. (scan 0 t).0) (sym (append-nil (decimal n))) ∙ ap (λ r. r.0) (scan-decimal n String.[])

numbers_lem :
    (n m : ℕ) (c : Char) (s : String)
    → is_digit c ≡ false
    → let between = String.◌∷◌ c s in
      numbers between (decimal n ++ between ++ decimal m) ≡ some (n, m)
unfolding numbers
numbers_lem n m c s h =
    rw (scan_text n c s (decimal m) h, numbers)
      (rw (strip-append (String.◌∷◌ c s) (decimal m), numbers)
        (ground (arith, scan_text n c s (decimal m) h, scan_all m)))

-- The error without numbers in its text.
read_words : String → PqError
read_words t = elim (strip "malformed encoding" t) [
  | some _ ↦ malformed_encoding
  | none ↦ elim (strip "signature verification failed" t) [
    | some _ ↦ verification_failed
    | none ↦ signing_failed
  ]
]

read_pq : String → Option PqError
read_pq t = elim (strip "invalid length: expected " t) [
  | some u ↦ Option.map (λ p. invalid_length p.0 p.1) (numbers ", got " u)
  | none ↦ elim (strip "buffer too small: need " t) [
    | some u ↦ Option.map (λ p. buffer_too_small p.0 p.1) (numbers ", got " u)
    | none ↦ elim (strip "context too long: " t) [
      | some u ↦ some (context_too_long (scan 0 u).0)
      | none ↦ some (read_words t)
    ]
  ]
]

abbrev numbers_text : ℕ → ℕ → String
numbers_text n m = decimal n ++ ", got " ++ decimal m

got_lem : (n m : ℕ) → numbers ", got " (numbers_text n m) ≡ some (n, m)
unfolding is_digit
got_lem n m = numbers_lem n m (char_at "," 0) " got " refl

reads_invalid :
    (n m : ℕ)
    → read_pq ("invalid length: expected " ++ numbers_text n m) ≡ some (invalid_length n m)
unfolding read_pq
reads_invalid n m =
    rw (strip-append "invalid length: expected " (numbers_text n m), read_pq)
      (rw (got_lem n m) refl)

reads_buffer :
    (n m : ℕ)
    → read_pq ("buffer too small: need " ++ numbers_text n m) ≡ some (buffer_too_small n m)
unfolding read_pq clash
reads_buffer n m =
    let p : String = "buffer too small: need " in
    rw (strip-clash "invalid length: expected " p (numbers_text n m) refl, read_pq)
      (rw (strip-append p (numbers_text n m), read_pq) (rw (got_lem n m) refl))

reads_context :
    (n : ℕ)
    → read_pq ("context too long: " ++ decimal n ++ " bytes, maximum 255")
      ≡ some (context_too_long n)
unfolding read_pq clash is_digit
reads_context n =
    let p : String = "context too long: " in
    let t : String = decimal n ++ " bytes, maximum 255" in
    rw (strip-clash "invalid length: expected " p t refl, read_pq)
      (rw (strip-clash "buffer too small: need " p t refl, read_pq)
        (rw (strip-append p t, read_pq)
          (ap (λ r. some (context_too_long r.0))
            (scan_text n (char_at " " 0) "bytes, maximum 255" String.[] refl))))

read-pq_text : (e : PqError) → read_pq (pq_text e) ≡ some e
unfolding read_pq pq_text read_words strip
read-pq_text (invalid_length n m) = reads_invalid n m
read-pq_text (buffer_too_small n m) = reads_buffer n m
read-pq_text malformed_encoding = refl
read-pq_text (context_too_long n) = reads_context n
read-pq_text verification_failed = refl
read-pq_text signing_failed = refl

read_stellar : String → Option StellarError
read_stellar t = elim (strip "post-quantum operation failed: " t) [
  | some u ↦ Option.map pq (read_pq u)
  | none ↦ elim (strip "XDR error: " t) [
    | some u ↦ some (xdr u)
    | none ↦ Option.map encoding (strip "encoding error: " t)
  ]
]

read-stellar_text : (e : StellarError) → read_stellar (stellar_text e) ≡ some e
unfolding read_stellar stellar_text clash
read-stellar_text (pq e) =
    rw (strip-append "post-quantum operation failed: " (pq_text e), read_stellar)
      (rw (read-pq_text e) refl)
read-stellar_text (xdr m) =
    let p : String = "XDR error: " in
    rw (strip-clash "post-quantum operation failed: " p m refl, read_stellar)
      (rw (strip-append p m, read_stellar) refl)
read-stellar_text (encoding m) =
    let p : String = "encoding error: " in
    rw (strip-clash "post-quantum operation failed: " p m refl, read_stellar)
      (rw (strip-clash "XDR error: " p m refl, read_stellar) (rw (strip-append p m) refl))

some_injective : {A : Type 0} {a b : A} → some a ≡ some b → a ≡ b
some_injective h = ground arith

-- The text determines the error: two errors of pq-stellar with the same text are the same, and so
-- are two errors of pq-core.
pub texts_injective :
    (e f : StellarError) (x y : PqError)
    → ((stellar_text e ≡ stellar_text f) ↔ (e ≡ f)) × ((pq_text x ≡ pq_text y) ↔ (x ≡ y))
texts_injective e f x y = (
  (
    λ h. some_injective (sym (read-stellar_text e) ∙ ap read_stellar h ∙ read-stellar_text f),
    ap stellar_text,
  ),
  (λ h. some_injective (sym (read-pq_text x) ∙ ap read_pq h ∙ read-pq_text y), ap pq_text),
)
