-- ===== src/Core/SlhDsa.antt =====
-- crates/pq-core/src/schemes/slhdsa_sketch.rs: a scheme whose bodies are `unimplemented!()`, which
-- panics.
use soroban_ml_dsa.Prelude.{Bytes, replicate, panic}
use soroban_ml_dsa.Core.Traits.{PqEncode, PqVerifier, AnyVerifier, PqSigner, PqKeypair, PqScheme}

-- `[u8; 32]`
pub record VerifyingKey : Type 0 where
  pub bytes : Bytes

-- `[u8; 64]`
pub record SigningKey : Type 0 where
  pub bytes : Bytes

pub record Keypair : Type 0 where
  pub signing : SigningKey
  pub verifying : VerifyingKey

abbrev pub vk_encoding : PqEncode VerifyingKey
vk_encoding = record {
  encoded_len = λ self. 32;
  write_to = λ self out. (panic, out);
  from_bytes = λ bytes. panic;
}

abbrev pub verifier : PqVerifier VerifyingKey
verifier = record { encode = vk_encoding; verify = λ self message context signature. panic }

abbrev pub sk_encoding : PqEncode SigningKey
sk_encoding = record {
  encoded_len = λ self. 64;
  write_to = λ self out. (panic, out);
  from_bytes = λ bytes. panic;
}

abbrev pub signer_verifying_key : SigningKey → AnyVerifier
signer_verifying_key self = record {
  Carrier = VerifyingKey;
  methods = verifier;
  value = record { bytes = replicate 32 0 };
}

abbrev pub signer : PqSigner SigningKey
signer = record {
  encode = sk_encoding;
  sign_into = λ self message context out. (panic, out);
  verifying_key = signer_verifying_key;
}

abbrev pub keypair : PqKeypair Keypair SigningKey VerifyingKey
keypair = record {
  from_seed = λ seed. panic;
  signing_key = λ kp. kp.signing;
  verifying_key = λ kp. kp.verifying;
}

abbrev pub scheme : PqScheme
scheme = record {
  name = "SLH-DSA-SHA2-128s";
  security_category = 1;
  verifying_key_len = 32;
  signing_key_len = 64;
  signature_len = 7856;
  seed_len = 48;
  VerifyingKey = VerifyingKey;
  SigningKey = SigningKey;
  Keypair = Keypair;
  verifier = verifier;
  signer = signer;
  keypair = keypair;
}
