-- ===== src/Examples/Toy.antt =====
-- A signature scheme whose signature is the message, the context and the key, cut to length; an
-- XDR encoder; a digest; and a host that keeps one key. None of it is secure.
use native.Mathlib.Nat.{ℕ_set}
use mathlib.Core.Logic.{dite, dif_pos}
use soroban_ml_dsa.Prelude.{
  ℕ, ◌≡◌, refl, arith, Bool, true, false, Option, some, none, ◌++◌, Bytes, Bytes-discrete, length,
  take, zeros, length-append, length-take, length-zeros, ltb, if◌then◌else◌, ℕ_discrete,
}
use soroban_ml_dsa.Core.MlDsa.External
use soroban_ml_dsa.Core.MlDsa.External.{Encoded, IsArray, Backend}

pub record SizedBytes (n : ℕ) : Type 0 where
  pub bytes : Bytes
  pub sized : length bytes ≡ n

abbrev pub encoded : ℕ → Encoded
encoded n = record {
  Array = SizedBytes n;
  try_from =
      λ b. dite (ℕ_discrete (length b) n) (λ h. some (record { bytes = b; sized = h })) (λ _. none);
  as_slice = λ a. a.bytes;
}

try_from_lem :
    (n : ℕ) (b : Bytes) (h : length b ≡ n)
    → (encoded n).try_from b ≡ some (record { bytes = b; sized = h })
try_from_lem n b h = dif_pos (ℕ_discrete (length b) n) (ℕ_set _ _) h _ _

pub encoded-IsArray : (n : ℕ) → IsArray (encoded n) n
encoded-IsArray n = record {
  length-as_slice = λ a. a.sized;
  try_from-as_slice = λ a. try_from_lem n a.bytes a.sized;
  try_from_sized = λ b h. (record { bytes = b; sized = h }, try_from_lem n b h, refl);
}

-- The first `n` bytes, with zeros where there are fewer.
unfoldable pub fit : ℕ → Bytes → Bytes
fit n b = take n (b ++ zeros n)

pub length-fit : (n : ℕ) (b : Bytes) → length (fit n b) ≡ n
unfolding fit
length-fit n b =
    omega (arith, length-take n (b ++ zeros n), length-append b (zeros n), length-zeros n)

abbrev pub sized : (n : ℕ) → Bytes → SizedBytes n
sized n b = record { bytes = fit n b; sized = length-fit n b }

unfoldable pub tag : (n : ℕ) → Bytes → Bytes → Bytes → SizedBytes n
tag n key message context = sized n (message ++ context ++ key)

abbrev pub is_tag : (n : ℕ) → Bytes → Bytes → Bytes → SizedBytes n → Bool
is_tag n key message context s = elim (Bytes-discrete s.bytes (tag n key message context).bytes) [
  | yes e ↦ true
  | no e ↦ false
]

pub is_tag-tag :
    (n : ℕ) (key message context : Bytes)
    → is_tag n key message context (tag n key message context) ≡ true
is_tag-tag n key message context = ground arith

module _ (vk_len sk_len sig_len : ℕ) where
  abbrev pub sign : SizedBytes sk_len → Bytes → Bytes → Option (SizedBytes sig_len)
  sign k message context =
      if ltb 255 (length context)
      then none
      else some (tag sig_len (fit vk_len k.bytes) message context)

  abbrev pub backend : Backend
  backend = record {
    EncodedVerifyingKey = encoded vk_len;
    ExpandedSigningKeyBytes = encoded sk_len;
    EncodedSignature = encoded sig_len;
    VerifyingKey = SizedBytes vk_len;
    ExpandedSigningKey = SizedBytes sk_len;
    Signature = SizedBytes sig_len;
    vk_encode = λ v. v;
    vk_decode = λ e. e;
    verify_with_context = λ v message context s. is_tag sig_len v.bytes message context s;
    sig_encode = λ s. s;
    sig_decode = λ e. some e;
    from_seed = λ seed. sized sk_len seed;
    verifying_key = λ k. sized vk_len k.bytes;
    to_expanded = λ k. k;
    from_expanded = λ e. some e;
    sign_deterministic = sign;
  }

  pub backend-IsLawful : External.IsLawful backend vk_len sk_len sig_len
  backend-IsLawful = record {
    vk_array = encoded-IsArray vk_len;
    sk_array = encoded-IsArray sk_len;
    sig_array = encoded-IsArray sig_len;
    vk_decode-encode = λ v. refl;
    sig_decode-encode = λ s. refl;
    from_expanded-to_expanded = λ k. refl;
    sign_total =
        λ k message context h. (tag sig_len (fit vk_len k.bytes) message context, ground arith);
    verify-sign = λ k message context {s} h.
        ground (arith, is_tag-tag sig_len (fit vk_len k.bytes) message context);
  }
