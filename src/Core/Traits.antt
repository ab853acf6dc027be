-- ===== src/Core/Traits.antt =====
-- crates/pq-core/src/traits.rs: a trait is a record of its methods. A `&mut [u8]` argument is a
-- byte string that comes back beside the result, as the call has left it.
pub mod Copy
use soroban_ml_dsa.Prelude.{
  ℕ, String, ◌&&◌, ◌++◌, Bytes, length, drop, ltb, leb, ◌==◌, if◌then◌else◌,
}
use soroban_ml_dsa.Prelude.{Run, ok, err, panic}
use soroban_ml_dsa.Core.Error.{PqError, invalid_length, context_too_long, max_context_len}

-- A call with an output buffer: its result, and the buffer afterwards.
abbrev pub Filled : Type 0
Filled = Run PqError ℕ × Bytes

-- `m?` in a function with an output buffer: an error leaves the buffer as it is.
abbrev pub attempt : {A : Type 0} → Run PqError A → Bytes → (A → Filled) → Filled
attempt (ok a) out k = k a
attempt (err e) out k = (err e, out)
attempt panic out k = (panic, out)

-- `out[..n].copy_from_slice(src); Ok(n)`: a panic if the range or the lengths do not fit.
unfoldable pub copy_prefix : ℕ → Bytes → Bytes → Filled
copy_prefix n src out =
    if leb n (length out) && length src == n then (ok n, src ++ drop n out) else (panic, out)

unfoldable pub check_context : Bytes → Run PqError (Unit {0})
check_context context =
    if ltb max_context_len (length context) then err (context_too_long (length context)) else ok tt

unfoldable pub check_len : ℕ → ℕ → Run PqError (Unit {0})
check_len actual expected =
    if actual == expected then ok tt else err (invalid_length expected actual)

pub record PqEncode (A : Type 0) : Type 0 where
  pub encoded_len : A → ℕ
  pub write_to : A → Bytes → Filled
  pub from_bytes : Bytes → Run PqError A

-- `verify self message context signature`
pub record PqVerifier (A : Type 0) : Type 0 where
  pub encode : PqEncode A
  pub verify : A → Bytes → Bytes → Bytes → Run PqError (Unit {0})

-- A value of type `impl PqVerifier`.
pub record AnyVerifier : Type 1 where
  pub Carrier : Type 0
  pub methods : PqVerifier Carrier
  pub value : Carrier

-- `sign_into self message context out`
pub record PqSigner (A : Type 0) : Type 1 where
  pub encode : PqEncode A
  pub sign_into : A → Bytes → Bytes → Bytes → Filled
  pub verifying_key : A → AnyVerifier

pub record PqKeypair (A S V : Type 0) : Type 0 where
  pub from_seed : Bytes → Run PqError A
  pub signing_key : A → S
  pub verifying_key : A → V

pub record PqScheme : Type 1 where
  pub name : String
  pub security_category : ℕ
  pub verifying_key_len : ℕ
  pub signing_key_len : ℕ
  pub signature_len : ℕ
  pub seed_len : ℕ
  pub VerifyingKey : Type 0
  pub SigningKey : Type 0
  pub Keypair : Type 0
  pub verifier : PqVerifier VerifyingKey
  pub signer : PqSigner SigningKey
  pub keypair : PqKeypair Keypair SigningKey VerifyingKey
