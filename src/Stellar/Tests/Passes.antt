-- ===== src/Stellar/Tests/Passes.antt =====
-- When the adapter's tests of crates/pq-stellar/tests/roundtrip.rs pass.
use soroban_ml_dsa.Prelude.{
  eq→==, ℕ, ◌^◌, ◌≤◌, ◌<◌, ◌≡◌, ◌↔◌, refl, sym, ◌∙◌, arith, subst, Bytes, Bytes-discrete, length,
  replicate, zeros, take, take_all, length-zeros, length-replicate, ap, [], Option, some, none, Run,
  Never, ok, panic,
}
use soroban_ml_dsa.Prelude.Int.{ℤ, pos}
use soroban_ml_dsa.Prelude.Texts.{as_bytes}
use soroban_ml_dsa.Core.Contract
use soroban_ml_dsa.Core.Error.{max_context_len}
use soroban_ml_dsa.Core.Traits.{PqScheme, Filled}
use soroban_ml_dsa.Stellar.External
use soroban_ml_dsa.Stellar.External.{Xdr, address}
use soroban_ml_dsa.Stellar.Payload.{AuthorizationPayload, signature_payload}
use soroban_ml_dsa.Stellar.SchemeId.{SchemeId}
use soroban_ml_dsa.Stellar.SchemeId as Ids
use soroban_ml_dsa.Stellar.Auth.{build_auth_entry, encode_verifying_key, verify_authorization}
use soroban_ml_dsa.Stellar.Auth.RoundTrip.{scval_of_short, verify-sign_authorization}
use soroban_ml_dsa.Stellar.Tests.{
  assert_eq, ℤ-discrete, SchemeId-discrete, long_context, named_context, payload, round_trip,
  entry_is_self_consistent, verifying_key_encodes, adapter,
}
use soroban_ml_dsa.Stellar.Tests.Rounds.{
  IsExact, then_iff, Refused, length-sign_authorization, round_iff,
}

assert_eq_same : {A : Type 0} (d : Discrete A) (x : A) → assert_eq d x x ≡ ok tt
assert_eq_same d x =
    elim (d x x)
      as (λ y. elim y as (λ z. Run Never (Unit {0})) [ yes _ ↦ ok tt | no _ ↦ panic ] ≡ ok tt) [
        | yes e ↦ refl
        | no ne ↦ absurd (ne refl)
      ]

assert_eq_sound : {A : Type 0} (d : Discrete A) (x y : A) → assert_eq d x y ≡ ok tt → x ≡ y
assert_eq_sound d x y =
    elim (d x y)
      as (λ r.
        elim r as (λ z. Run Never (Unit {0})) [ yes _ ↦ ok tt | no _ ↦ panic ] ≡ ok tt → x ≡ y) [
          | yes e ↦ λ h. e
          | no ne ↦ λ h. cc
        ]

named_context-short : length named_context ≤ max_context_len
unfolding named_context as_bytes
named_context-short = omega arith

long_context-short : length long_context ≤ max_context_len
unfolding long_context
long_context-short = omega (arith, length-replicate {A = ℕ} 255 255)

module _ (X : Xdr) (sha256 : Bytes → Bytes) (as_scval_bytes : X.ScVal → Option X.ScBytes)
    (account : X.ScAddress) (invocation : X.SorobanAuthorizedInvocation) (S : PqScheme)
    (LX : External.IsLawful X) (LS : Contract.IsLawful S) (E : IsExact S)
    (some_bytes : 0 < S.signature_len)
    (encodes : (nonce : ℤ)
      → (msg : Bytes) × (signature_payload X sha256
            (payload X sha256 as_scval_bytes account invocation nonce)
          ≡ ok msg)) where
  abbrev the_payload : ℤ → AuthorizationPayload X
  the_payload = payload X sha256 as_scval_bytes account invocation

  seed_of :
      (b : ℕ) → S.seed_len ≡ 32 → (kp : S.Keypair) × (S.keypair.from_seed (replicate 32 b) ≡ ok kp)
  seed_of b thirty_two = LS.seed_total (replicate 32 b) (length-replicate 32 b ∙ sym thirty_two)

  round_trip_iff :
      (kp : S.Keypair)
      → S.keypair.from_seed (replicate 32 3) ≡ ok kp
      → (round_trip X sha256 as_scval_bytes account invocation S ≡ ok tt) ↔ (
          Refused X sha256 as_scval_bytes account invocation S LX LS E some_bytes encodes kp []
            (pos 1000)
          × Refused X sha256 as_scval_bytes account invocation S LX LS E some_bytes encodes kp
              named_context
              (pos 1001)
          × Refused X sha256 as_scval_bytes account invocation S LX LS E some_bytes encodes kp
              long_context
              (pos 1002))
  unfolding round_trip
  round_trip_iff kp k =
      let first =
        round_iff X sha256 as_scval_bytes account invocation S LX LS E some_bytes encodes kp []
          (pos 1000) k (omega arith) in
      let second =
        round_iff X sha256 as_scval_bytes account invocation S LX LS E some_bytes encodes kp
          named_context (pos 1001) k named_context-short in
      let third =
        round_iff X sha256 as_scval_bytes account invocation S LX LS E some_bytes encodes kp
          long_context (pos 1002) k long_context-short in
      let split = then_iff _ _ in
      let split' = then_iff _ _ in
      (
        λ h.
            let (a, rest) = split.0 (rw k at h) in
            let (b, d) = split'.0 rest in (first.0 a, second.0 b, third.0 d),
        λ h. rw k (split.1 (first.1 h.0, split'.1 (second.1 h.1, third.1 h.2))),
      )

  -- The entry of the test, whose signature verifies.
  entry_built :
      (kp : S.Keypair) {seed : Bytes}
      → S.keypair.from_seed seed ≡ ok kp
      → S.signature_len < 2 ^ 32
      → let p = the_payload (pos 4242) in
        (s : X.ScBytes) × (build_auth_entry X sha256 S account (S.keypair.signing_key kp) p []
          ≡ ok (record {
            credentials = address (record {
              address = account;
              nonce = p.nonce;
              signature_expiration_ledger = p.signature_expiration_ledger;
              signature = X.scval_bytes s;
            });
            root_invocation = invocation;
          }))
        × (length (X.as_slice s) ≡ S.signature_len)
        × (verify_authorization X sha256 S (S.keypair.verifying_key kp) p [] (X.as_slice s) ≡ ok tt)
  unfolding build_auth_entry
  entry_built kp {seed} k fits =
      let p = the_payload (pos 4242) in
      let (msg, m) = encodes (pos 4242) in
      let (sig, signed, good, _, short) =
        verify-sign_authorization X sha256 S LS seed [] p k (omega arith) m in
      let long =
        length-sign_authorization X sha256 as_scval_bytes account invocation S LX LS E some_bytes
          encodes _ p [] m (omega arith) signed in
      let (s, e, b) = scval_of_short X LX sig (omega arith) in
      (s, rw (signed, e) refl, rw b long, rw b good)

  entry_passes :
      ((s : X.ScBytes) → as_scval_bytes (X.scval_bytes s) ≡ some s)
      → S.seed_len ≡ 32
      → S.signature_len < 2 ^ 32
      → entry_is_self_consistent X sha256 as_scval_bytes account invocation S ≡ ok tt
  unfolding entry_is_self_consistent
  entry_passes bytes thirty_two fits =
      let (kp, k) = seed_of 9 thirty_two in
      let (s, built, long, good) = entry_built kp k fits in
      rw k (
        rw built (
          rw (assert_eq_same ℤ-discrete (pos 4242))
            (rw (bytes s) (rw (eq→== _ _ long) (rw good refl)))))

  -- The key of the test, as it is sent and read back.
  key_written :
      (v : S.VerifyingKey)
      → S.verifying_key_len < 2 ^ 32
      → (s : X.ScBytes) × (n : ℕ) × (encode_verifying_key X S v ≡ ok (X.scval_bytes s))
        × (length (X.as_slice s) ≡ S.verifying_key_len)
        × (S.verifier.encode.from_bytes (X.as_slice s) ≡ ok v)
        × (S.verifier.encode.write_to v (zeros S.verifying_key_len) ≡ (ok n, X.as_slice s))
  unfolding encode_verifying_key
  key_written v fits =
      let empty : Bytes = zeros S.verifying_key_len in
      let z : length empty ≡ S.verifying_key_len = length-zeros _ in
      let (n, buf, w) = LS.write_total v empty z in
      let whole : n ≡ S.verifying_key_len = E.write v empty w in
      let kept : length buf ≡ S.verifying_key_len =
        sym (ap (λ (r : Filled). length r.1) w) ∙ LS.length-write v empty ∙ z in
      let all : take n buf ≡ buf = take_all n buf (omega arith) in
      let (s, e, b) = scval_of_short X LX (take n buf) (omega (arith, ap length all)) in
      let same : X.as_slice s ≡ buf = b ∙ all in
      (s, n, rw w e, rw same kept, rw b (LS.read-write v empty w), rw same w)

  key_passes :
      ((s : X.ScBytes) → as_scval_bytes (X.scval_bytes s) ≡ some s)
      → S.seed_len ≡ 32
      → S.verifying_key_len < 2 ^ 32
      → verifying_key_encodes X sha256 as_scval_bytes account invocation S ≡ ok tt
  unfolding verifying_key_encodes
  key_passes bytes thirty_two fits =
      let (kp, k) = seed_of 5 thirty_two in
      let (s, n, e, long, d, w) = key_written (S.keypair.verifying_key kp) fits in
      rw k (
        rw e (
          rw (bytes s)
            (rw (eq→== _ _ long) (rw d (rw w (assert_eq_same Bytes-discrete (X.as_slice s)))))))

  id_iff :
      (id : SchemeId) (o : Option SchemeId)
      → (elim o as (λ x. Run Never (Unit {0})) [
        | some id' ↦ assert_eq SchemeId-discrete id' id
        | none ↦ panic
      ]
          ≡ ok tt)
        ↔ (o ≡ some id)
  id_iff id none = (λ h. cc, λ h. cc)
  id_iff id (some id') = (
    λ h. ap some (assert_eq_sound SchemeId-discrete id' id h),
    λ h.
        let same : id' ≡ id = cc in
        subst (λ x. assert_eq SchemeId-discrete id' x ≡ ok tt) same
          (assert_eq_same SchemeId-discrete id'),
  )

  -- Over lawful crates, for a scheme that keeps the promises of the traits, with seeds of 32 bytes,
  -- signatures that are not empty and encodings that fill exactly the declared lengths and fit an
  -- XDR byte string, where the test's payloads encode: the test of a scheme passes exactly when the
  -- scheme's name is that of the identifier, and, in each of the three rounds, neither the signature
  -- under no context, where it was made under one, nor for another nonce, nor the one with a
  -- flipped bit verifies.
  pub adapter_iff :
      ((s : X.ScBytes) → as_scval_bytes (X.scval_bytes s) ≡ some s)
      → S.seed_len ≡ 32
      → S.signature_len < 2 ^ 32
      → S.verifying_key_len < 2 ^ 32
      → (id : SchemeId)
      → (kp : S.Keypair) × (S.keypair.from_seed (replicate 32 3) ≡ ok kp)
        × ((adapter X sha256 as_scval_bytes account invocation S id ≡ ok tt) ↔ (
            (Ids.of S ≡ some id)
            × Refused X sha256 as_scval_bytes account invocation S LX LS E some_bytes encodes kp []
                (pos 1000)
            × Refused X sha256 as_scval_bytes account invocation S LX LS E some_bytes encodes kp
                named_context
                (pos 1001)
            × Refused X sha256 as_scval_bytes account invocation S LX LS E some_bytes encodes kp
                long_context
                (pos 1002)))
  unfolding adapter
  adapter_iff bytes thirty_two fits fits' id =
      let (kp, k) = seed_of 3 thirty_two in
      let rounds = round_trip_iff kp k in
      let named = id_iff id (Ids.of S) in
      let entry = entry_passes bytes thirty_two fits in
      let key = key_passes bytes thirty_two fits' in
      let split = then_iff _ _ in
      (
        kp,
        k,
        (
          λ h.
              let (a, rest) = split.0 h in
              let (x, y, z) = rounds.0 a in (named.0 (rw (entry, key) at rest), x, y, z),
          λ h. split.1 (rounds.1 (h.1, h.2, h.3), rw (entry, key) (named.1 h.0)),
        ),
      )
