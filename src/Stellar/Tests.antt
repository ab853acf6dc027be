-- ===== src/Stellar/Tests.antt =====
-- crates/pq-stellar/tests/roundtrip.rs: the body of the adapter's tests, over any scheme. The account
-- and the invocation, which the test builds with stellar-xdr, and the match on the variant
-- `ScVal::Bytes` are its arguments.
pub mod Rounds
pub mod Passes
pub mod MlDsa
use soroban_ml_dsa.Prelude.{
  ℕ, ◌/◌, Bool, true, false, Bytes, Bytes-discrete, length, replicate, zeros, take, [], Option,
  some, none, ◌==◌, ℕ_discrete, Run, Never, ok, err, panic, ◌>>=◌, ◌>>◌, unwrap, or_panic, assert,
}
use soroban_ml_dsa.Prelude.Int.{ℤ, pos}
use soroban_ml_dsa.Prelude.Slices.{flip_at}
use soroban_ml_dsa.Prelude.Texts.{as_bytes}
use soroban_ml_dsa.Core.Traits.{PqScheme}
use soroban_ml_dsa.Stellar.External.{Xdr}
use soroban_ml_dsa.Stellar.Payload.{AuthorizationPayload, network_id, testnet_passphrase}
use soroban_ml_dsa.Stellar.SchemeId.{SchemeId}
use soroban_ml_dsa.Stellar.SchemeId as Ids
use soroban_ml_dsa.Stellar.Auth.{
  build_auth_entry, encode_verifying_key, sign_authorization, verify_authorization,
}
use soroban_ml_dsa.Stellar.Auth.RoundTrip.{credentials_of}

pub ℤ-discrete : Discrete ℤ
ℤ-discrete = hlevel (ℕ_discrete)

pub SchemeId-discrete : Discrete SchemeId
SchemeId-discrete = hlevel

-- `assert_eq!`
abbrev pub assert_eq : {A : Type 0} → Discrete A → A → A → Run Never (Unit {0})
assert_eq d x y = elim (d x y) [ yes _ ↦ ok tt | no _ ↦ panic ]

-- `assert!(result.is_err())`
abbrev pub assert_err : {E : Type 0} → Run E (Unit {0}) → Run Never (Unit {0})
assert_err (ok u) = panic
assert_err (err e) = ok tt
assert_err panic = panic

unfoldable pub long_context : Bytes
long_context = replicate 255 0xFF

unfoldable pub named_context : Bytes
unfolding as_bytes
named_context = as_bytes "pq-stellar-v1"

module _ (X : Xdr) (sha256 : Bytes → Bytes) (as_scval_bytes : X.ScVal → Option X.ScBytes)
    (account : X.ScAddress) (invocation : X.SorobanAuthorizedInvocation) where
  abbrev pub payload : ℤ → AuthorizationPayload X
  payload nonce = record {
    network_id = network_id sha256 testnet_passphrase;
    nonce = nonce;
    signature_expiration_ledger = 100_000;
    invocation = invocation;
  }

  module _ (S : PqScheme) where
    -- One round of the loop, for a context and a nonce.
    unfoldable pub round : S.Keypair → Bytes → ℤ → Run Never (Unit {0})
    round kp context nonce = do
      let vk = S.keypair.verifying_key kp
      let p = payload nonce
      sig ← unwrap (sign_authorization X sha256 S (S.keypair.signing_key kp) p context)
      assert (length sig == S.signature_len)
      unwrap (verify_authorization X sha256 S vk p context sig)
      elim context [ [] ↦ ok tt | _ ↦ assert_err (verify_authorization X sha256 S vk p [] sig) ]
      assert_err (verify_authorization X sha256 S vk (payload (pos 9999)) context sig)
      bad ← or_panic (flip_at (S.signature_len / 2) sig)
      assert_err (verify_authorization X sha256 S vk p context bad)

    unfoldable pub round_trip : Run Never (Unit {0})
    round_trip = do
      kp ← unwrap (S.keypair.from_seed (replicate 32 3))
      round kp [] (pos 1000)
      round kp named_context (pos 1001)
      round kp long_context (pos 1002)

    unfoldable pub entry_is_self_consistent : Run Never (Unit {0})
    unfolding ℤ-discrete ℕ_discrete
    entry_is_self_consistent = do
      kp ← unwrap (S.keypair.from_seed (replicate 32 9))
      let p = payload (pos 4242)
      entry ← unwrap (build_auth_entry X sha256 S account (S.keypair.signing_key kp) p [])
      let creds = credentials_of entry.credentials
      assert_eq ℤ-discrete creds.nonce p.nonce
      assert (creds.signature_expiration_ledger == p.signature_expiration_ledger)
      sig ← or_panic (as_scval_bytes creds.signature)
      assert (length (X.as_slice sig) == S.signature_len)
      unwrap (verify_authorization X sha256 S (S.keypair.verifying_key kp) p [] (X.as_slice sig))

    unfoldable pub verifying_key_encodes : Run Never (Unit {0})
    verifying_key_encodes = do
      kp ← unwrap (S.keypair.from_seed (replicate 32 5))
      v ← unwrap (encode_verifying_key X S (S.keypair.verifying_key kp))
      b ← or_panic (as_scval_bytes v)
      assert (length (X.as_slice b) == S.verifying_key_len)
      decoded ← unwrap (S.verifier.encode.from_bytes (X.as_slice b))
      let (result, re) = S.verifier.encode.write_to decoded (zeros S.verifying_key_len)
      _ ← unwrap result
      assert_eq Bytes-discrete re (X.as_slice b)

    -- The body of the macro `for_scheme!`.
    unfoldable pub adapter : SchemeId → Run Never (Unit {0})
    unfolding SchemeId-discrete
    adapter id = do
      round_trip
      entry_is_self_consistent
      verifying_key_encodes
      elim (Ids.of S) [ some id' ↦ assert_eq SchemeId-discrete id' id | none ↦ panic ]
