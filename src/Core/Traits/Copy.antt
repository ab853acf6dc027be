-- ===== src/Core/Traits/Copy.antt =====
-- What the copy into an output buffer leaves behind, and what the two shared checks say.
use soroban_ml_dsa.Prelude.{
  ℕ, ◌≤◌, ◌<◌, ◌≡◌, ◌≢◌, ◌++◌, arith, Bytes, length, drop, take, length-append, length-drop,
  take-length-append, le→leb, eq→==,
}
use soroban_ml_dsa.Prelude.{ok, err}
use soroban_ml_dsa.Core.Error.{context_too_long, invalid_length, max_context_len}
use soroban_ml_dsa.Core.Traits.{copy_prefix, check_context, check_len}

-- A source of the stated length that fits goes to the front, and the rest of the buffer stays.
pub copy_prefix_lem :
    (n : ℕ) (src out : Bytes)
    → length src ≡ n
    → n ≤ length out
    → copy_prefix n src out ≡ (ok n, src ++ drop n out)
unfolding copy_prefix
copy_prefix_lem n src out e h = rw (le→leb n (length out) h, eq→== (length src) n e)

pub take-copy : (n : ℕ) (src out : Bytes) → length src ≡ n → take n (src ++ drop n out) ≡ src
take-copy n src out e = rw (← e) (take-length-append src _)

pub length-copy :
    (n : ℕ) (src out : Bytes)
    → length src ≡ n
    → n ≤ length out
    → length (src ++ drop n out) ≡ length out
length-copy n src out e h = omega (arith, length-append src (drop n out), length-drop n out)

-- Whatever the source, a copy keeps the length of the buffer.
pub length-copy_prefix : (n : ℕ) (src out : Bytes) → length (copy_prefix n src out).1 ≡ length out
unfolding copy_prefix
length-copy_prefix n src out = ground (arith, length-append src (drop n out), length-drop n out)

pub check_context_within :
    (context : Bytes) → length context ≤ max_context_len → check_context context ≡ ok tt
unfolding check_context
check_context_within context h = ground arith

pub check_context_beyond :
    (context : Bytes)
    → max_context_len < length context
    → check_context context ≡ err (context_too_long (length context))
unfolding check_context
check_context_beyond context h = ground arith

pub check_len_eq : (actual expected : ℕ) → actual ≡ expected → check_len actual expected ≡ ok tt
unfolding check_len
check_len_eq actual expected h = ground arith

pub check_len_ne :
    (actual expected : ℕ)
    → actual ≢ expected
    → check_len actual expected ≡ err (invalid_length expected actual)
unfolding check_len
check_len_ne actual expected h = ground arith
