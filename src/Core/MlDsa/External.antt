-- ===== src/Core/MlDsa/External.antt =====
-- The crate `ml-dsa` at one parameter set, as far as crates/pq-core/src/schemes/mldsa.rs and the
-- phase0 contracts call it. It is not in the repository: its types and functions are fields of
-- `Backend`, and what its documentation states of them is `IsLawful`.
use soroban_ml_dsa.Prelude.{ℕ, ◌≤◌, ◌≡◌, Bool, true, Option, some, Bytes, length}
use soroban_ml_dsa.Core.Error.{max_context_len}

-- An encoded key or signature: an array of bytes of a size that the type fixes.
pub record Encoded : Type 1 where
  pub Array : Type 0
  pub try_from : Bytes → Option Array
  pub as_slice : Array → Bytes

-- The conversions of an array of size `n`.
pub record IsArray (E : Encoded) (n : ℕ) : Type 0 where
  pub length-as_slice : (a : E.Array) → length (E.as_slice a) ≡ n
  pub try_from-as_slice : (a : E.Array) → E.try_from (E.as_slice a) ≡ some a
  pub try_from_sized :
      (b : Bytes) → length b ≡ n → (a : E.Array) × (E.try_from b ≡ some a) × (E.as_slice a ≡ b)

pub record Backend : Type 1 where
  pub EncodedVerifyingKey : Encoded
  pub ExpandedSigningKeyBytes : Encoded
  pub EncodedSignature : Encoded
  pub VerifyingKey : Type 0
  pub ExpandedSigningKey : Type 0
  pub Signature : Type 0
  pub vk_encode : VerifyingKey → EncodedVerifyingKey.Array
  pub vk_decode : EncodedVerifyingKey.Array → VerifyingKey
  -- `verify_with_context key message context signature`
  pub verify_with_context : VerifyingKey → Bytes → Bytes → Signature → Bool
  pub sig_encode : Signature → EncodedSignature.Array
  pub sig_decode : EncodedSignature.Array → Option Signature
  pub from_seed : Bytes → ExpandedSigningKey
  pub verifying_key : ExpandedSigningKey → VerifyingKey
  pub to_expanded : ExpandedSigningKey → ExpandedSigningKeyBytes.Array
  -- `none` is a panic.
  pub from_expanded : ExpandedSigningKeyBytes.Array → Option ExpandedSigningKey
  -- `sign_deterministic key message context`; `none` is an error.
  pub sign_deterministic : ExpandedSigningKey → Bytes → Bytes → Option Signature

pub record IsLawful (M : Backend) (vk_len sk_len sig_len : ℕ) : Type 0 where
  pub vk_array : IsArray M.EncodedVerifyingKey vk_len
  pub sk_array : IsArray M.ExpandedSigningKeyBytes sk_len
  pub sig_array : IsArray M.EncodedSignature sig_len
  pub vk_decode-encode : (v : M.VerifyingKey) → M.vk_decode (M.vk_encode v) ≡ v
  pub sig_decode-encode : (s : M.Signature) → M.sig_decode (M.sig_encode s) ≡ some s
  -- An expanded key that the crate has written is well formed.
  pub from_expanded-to_expanded :
      (k : M.ExpandedSigningKey) → M.from_expanded (M.to_expanded k) ≡ some k
  -- Signing fails for an over-long context only.
  pub sign_total :
      (k : M.ExpandedSigningKey) (message context : Bytes)
      → length context ≤ max_context_len
      → (s : M.Signature) × (M.sign_deterministic k message context ≡ some s)
  -- FIPS 204 correctness: the matching key accepts what was signed.
  pub verify-sign :
      (k : M.ExpandedSigningKey) (message context : Bytes) {s : M.Signature}
      → M.sign_deterministic k message context ≡ some s
      → M.verify_with_context (M.verifying_key k) message context s ≡ true
