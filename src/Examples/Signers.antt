-- ===== src/Examples/Signers.antt =====
-- Stand-ins for the signing side of the crates that phase0/harness uses.
use soroban_ml_dsa.Prelude.{ℕ, refl, arith, true, false, some, [], ◌∷◌, ◌++◌, Bytes-discrete}
use soroban_ml_dsa.Prelude.Int.{pos}
use soroban_ml_dsa.Contracts.Host.{Crypto}
use soroban_ml_dsa.Phase0.External.{Calls}
use soroban_ml_dsa.Phase0.Harness.External
use soroban_ml_dsa.Phase0.Harness.External.{Signing, Ed25519, IsEd25519, Results}
use soroban_ml_dsa.Examples.Toy.{SizedBytes, sized, fit, length-fit, backend, tag, is_tag-tag}
use soroban_ml_dsa.Examples.World.{digest}
use soroban_ml_dsa.Examples.Direct.{calls, M, M44}
use soroban_ml_dsa.Examples.Server.{crates}

module _ (vk_len sk_len sig_len : ℕ) where
  abbrev pub signing : Signing (backend vk_len sk_len sig_len)
  signing = record {
    SigningKey = SizedBytes sk_len;
    from_seed = λ seed. sized sk_len seed;
    verifying_key = λ k. sized vk_len k.bytes;
    sign = λ k m. some (tag sig_len (fit vk_len k.bytes) m []);
  }

  pub signing-IsLawful : External.IsLawful (backend vk_len sk_len sig_len) signing
  signing-IsLawful = record {
    sign_total = λ k m. (tag sig_len (fit vk_len k.bytes) m [], refl);
    verify-sign = λ k m {s} h. ground (arith, is_tag-tag sig_len (fit vk_len k.bytes) m []);
  }

abbrev pub ed25519 : Ed25519
ed25519 = record { verifying_key = λ seed. fit 32 seed; sign = λ seed m. fit 64 (fit 32 seed ++ m) }

abbrev pub crypto : Crypto
crypto = record {
  ed25519_verify =
      λ k m s. elim (Bytes-discrete s (fit 64 (k ++ m))) [ yes e ↦ true | no e ↦ false ];
  sha256 = digest;
  secp256r1_verify = λ k d s. true;
}

pub ed25519-IsEd25519 : IsEd25519 ed25519 crypto
ed25519-IsEd25519 = record {
  length-verifying_key = λ seed. length-fit 32 seed;
  length-sign = λ seed m. length-fit 64 (fit 32 seed ++ m);
  verify-sign = λ seed m. ground arith;
}

abbrev pub N : Calls M
N = calls 1952 4032 3309

abbrev pub N44 : Calls M44
N44 = calls 1312 2560 2420

abbrev pub G : Signing M
G = signing 1952 4032 3309

abbrev pub G44 : Signing M44
G44 = signing 1312 2560 2420

abbrev pub results : Results crates
results = record {
  envelope_xdr = λ e. some (1 ∷ 2 ∷ 3 ∷ []);
  TransactionResult = ℕ;
  result_from_base64 = λ s. some 600;
  fee_charged = λ r. pos r;
  read_only = λ r. 1;
  read_write = λ r. 2;
  instance_key_base64 = λ a. some "instance";
  entry_len = λ s. some 2100;
}
