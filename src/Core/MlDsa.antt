-- ===== src/Core/MlDsa.antt =====
-- crates/pq-core/src/schemes/mldsa.rs: the macro `impl_mldsa!`, for any parameters, and its two uses.
-- `ml-dsa` is another crate: its types and functions are the parameter `Backend`.
pub mod External
pub mod Verify
pub mod Encode
pub mod Sign
pub mod Keys
pub mod Promises
pub mod Guard
pub mod Debug
use soroban_ml_dsa.Prelude.{ℕ, String, Bool, none, some, Bytes, length, ltb, if◌then◌else◌}
use soroban_ml_dsa.Prelude.{Run, ok, err, panic, ◌>>=◌, ◌>>◌, map_err, ok_or, or_panic}
use soroban_ml_dsa.Core.Error.{
  PqError, buffer_too_small, malformed_encoding, verification_failed, signing_failed,
}
use soroban_ml_dsa.Core.Traits.{
  Filled, attempt, copy_prefix, check_context, check_len, PqEncode, PqVerifier, AnyVerifier,
  PqSigner, PqKeypair, PqScheme,
}
use External.{Backend}

-- The arguments of the macro, but for the module's name and the parameter type.
pub record Params : Type 0 where
  pub name : String
  pub category : ℕ
  pub vk_len : ℕ
  pub sk_len : ℕ
  pub sig_len : ℕ

abbrev pub mldsa44 : Params
mldsa44 = record { name = "ML-DSA-44"; category = 2; vk_len = 1312; sk_len = 2560; sig_len = 2420 }

abbrev pub mldsa65 : Params
mldsa65 = record { name = "ML-DSA-65"; category = 3; vk_len = 1952; sk_len = 4032; sig_len = 3309 }

pub record Keypair (M : Backend) : Type 0 where
  pub signing : M.ExpandedSigningKey
  pub verifying : M.VerifyingKey

module _ (p : Params) (M : Backend) where
  unfoldable pub vk_write_to : M.VerifyingKey → Bytes → Filled
  unfolding copy_prefix
  vk_write_to vk out =
      if ltb (length out) p.vk_len
      then (err (buffer_too_small p.vk_len (length out)), out)
      else copy_prefix p.vk_len (M.EncodedVerifyingKey.as_slice (M.vk_encode vk)) out

  unfoldable pub vk_from_bytes : Bytes → Run PqError M.VerifyingKey
  unfolding check_len
  vk_from_bytes bytes = do
    check_len (length bytes) p.vk_len
    enc ← ok_or malformed_encoding (M.EncodedVerifyingKey.try_from bytes)
    ok (M.vk_decode enc)

  unfoldable pub verify : M.VerifyingKey → Bytes → Bytes → Bytes → Run PqError (Unit {0})
  unfolding check_context check_len
  verify vk message context signature = do
    check_context context
    check_len (length signature) p.sig_len
    enc ← ok_or verification_failed (M.EncodedSignature.try_from signature)
    sig ← ok_or verification_failed (M.sig_decode enc)
    if M.verify_with_context vk message context sig then ok tt else err verification_failed

  unfoldable pub sk_write_to : M.ExpandedSigningKey → Bytes → Filled
  unfolding copy_prefix
  sk_write_to sk out =
      if ltb (length out) p.sk_len
      then (err (buffer_too_small p.sk_len (length out)), out)
      else copy_prefix p.sk_len (M.ExpandedSigningKeyBytes.as_slice (M.to_expanded sk)) out

  unfoldable pub sk_from_bytes : Bytes → Run PqError M.ExpandedSigningKey
  unfolding check_len
  sk_from_bytes bytes = do
    check_len (length bytes) p.sk_len
    enc ← ok_or malformed_encoding (M.ExpandedSigningKeyBytes.try_from bytes)
    or_panic (M.from_expanded enc)

  unfoldable pub sign_into : M.ExpandedSigningKey → Bytes → Bytes → Bytes → Filled
  unfolding check_context copy_prefix
  sign_into sk message context out = attempt (check_context context) out λ _.
      if ltb (length out) p.sig_len
      then (err (buffer_too_small p.sig_len (length out)), out)
      else attempt (ok_or signing_failed (M.sign_deterministic sk message context)) out
          λ sig. copy_prefix p.sig_len (M.EncodedSignature.as_slice (M.sig_encode sig)) out

  unfoldable pub from_seed : Bytes → Run PqError (Keypair M)
  unfolding check_len
  from_seed seed = do
    check_len (length seed) 32
    let expanded = M.from_seed seed
    ok (record { signing = expanded; verifying = M.verifying_key expanded })

  abbrev pub vk_encoding : PqEncode M.VerifyingKey
  vk_encoding = record {
    encoded_len = λ vk. p.vk_len;
    write_to = vk_write_to;
    from_bytes = vk_from_bytes;
  }

  abbrev pub verifier : PqVerifier M.VerifyingKey
  verifier = record { encode = vk_encoding; verify = verify }

  abbrev pub sk_encoding : PqEncode M.ExpandedSigningKey
  sk_encoding = record {
    encoded_len = λ sk. p.sk_len;
    write_to = sk_write_to;
    from_bytes = sk_from_bytes;
  }

  abbrev pub signer_verifying_key : M.ExpandedSigningKey → AnyVerifier
  signer_verifying_key sk = record {
    Carrier = M.VerifyingKey;
    methods = verifier;
    value = M.verifying_key sk;
  }

  abbrev pub signer : PqSigner M.ExpandedSigningKey
  signer = record {
    encode = sk_encoding;
    sign_into = sign_into;
    verifying_key = signer_verifying_key;
  }

  abbrev pub keypair : PqKeypair (Keypair M) M.ExpandedSigningKey M.VerifyingKey
  keypair = record {
    from_seed = from_seed;
    signing_key = λ kp. kp.signing;
    verifying_key = λ kp. kp.verifying;
  }

  abbrev pub scheme : PqScheme
  scheme = record {
    name = p.name;
    security_category = p.category;
    verifying_key_len = p.vk_len;
    signing_key_len = p.sk_len;
    signature_len = p.sig_len;
    seed_len = 32;
    VerifyingKey = M.VerifyingKey;
    SigningKey = M.ExpandedSigningKey;
    Keypair = Keypair M;
    verifier = verifier;
    signer = signer;
    keypair = keypair;
  }
