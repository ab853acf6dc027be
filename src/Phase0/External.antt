-- ===== src/Phase0/External.antt =====
-- What phase0/account/src/lib.rs and phase0/contract/src/lib.rs call of the crate ml-dsa beside
-- `Backend`; it is not in the repository.
use soroban_ml_dsa.Prelude.{ℕ, ◌≡◌, Bool, Option, some, none, [], Bytes, length}
use soroban_ml_dsa.Core.MlDsa.External.{Backend}

pub record Calls (M : Backend) : Type 0 where
  -- `EncodedVerifyingKey::from(array)`, at an array of the type's size.
  pub key_from : Bytes → M.EncodedVerifyingKey.Array
  -- `Signature::try_from(slice)`
  pub sig_try_from : Bytes → Option M.Signature
  -- `Verifier::verify(key, message, signature)`
  pub verify : M.VerifyingKey → Bytes → M.Signature → Bool

-- A slice as an encoded signature, decoded.
abbrev pub decode_slice : (M : Backend) → Bytes → Option M.Signature
decode_slice M b = elim (M.EncodedSignature.try_from b) [
  | some enc ↦ M.sig_decode enc
  | none ↦ none
]

pub record IsLawful (M : Backend) (N : Calls M) (vk_len : ℕ) : Type 0 where
  pub key_from_sized :
      (b : Bytes) → length b ≡ vk_len → M.EncodedVerifyingKey.try_from b ≡ some (N.key_from b)
  pub sig_try_from_lem : (b : Bytes) → N.sig_try_from b ≡ decode_slice M b
  -- The trait method is ML-DSA with the empty context.
  pub verify_lem :
      (v : M.VerifyingKey) (message : Bytes) (s : M.Signature)
      → N.verify v message s ≡ M.verify_with_context v message [] s
