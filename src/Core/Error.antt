-- ===== src/Core/Error.antt =====
-- crates/pq-core/src/error.rs
use soroban_ml_dsa.Prelude.{ℕ}

pub data PqError : Type 0 where
  invalid_length : (expected actual : ℕ) → PqError
  buffer_too_small : (needed actual : ℕ) → PqError
  malformed_encoding : PqError
  context_too_long : (actual : ℕ) → PqError
  verification_failed : PqError
  signing_failed : PqError

abbrev pub max_context_len : ℕ
max_context_len = 255
