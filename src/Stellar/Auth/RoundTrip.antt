-- ===== src/Stellar/Auth/RoundTrip.antt =====
-- The functions of crates/pq-stellar/src/auth.rs against one another, over a lawful scheme.
use soroban_ml_dsa.Prelude.{
  ℕ, ◌≤◌, ◌<◌, ◌^◌, ◌≡◌, refl, arith, Bytes, length, take, zeros, length-zeros, length-take, ok, ap,
}
use soroban_ml_dsa.Core.Error.{max_context_len}
use soroban_ml_dsa.Core.Traits.{Filled, PqScheme}
use soroban_ml_dsa.Core.Contract
use soroban_ml_dsa.Stellar.External
use soroban_ml_dsa.Stellar.External.{Xdr, SorobanCredentials, SorobanAddressCredentials, address}
use soroban_ml_dsa.Stellar.Payload.{AuthorizationPayload, signature_payload}
use soroban_ml_dsa.Stellar.Auth.{
  Entry, bytes_to_scval, encode_verifying_key, sign_authorization, build_auth_entry,
  verify_authorization,
}

-- What a call reports as written is no longer than the buffer that it was given.
length-written :
    (call : Filled) (out : Bytes) {n : ℕ} {out' : Bytes}
    → length call.1 ≡ length out
    → call ≡ (ok n, out')
    → length (take n out') ≤ length out
length-written call out {n} {out'} h w =
    omega (arith, length-take n out', ap (λ (r : Filled). length r.1) w)

module _ (X : Xdr) (LX : External.IsLawful X) where
  pub scval_of_short :
      (b : Bytes)
      → length b < 2 ^ 32
      → (s : X.ScBytes) × (bytes_to_scval X b ≡ ok (X.scval_bytes s)) × (X.as_slice s ≡ b)
  unfolding bytes_to_scval
  scval_of_short b fits = let (s, e, r) = LX.sc_bytes_within b fits in (s, rw e, r)

module _ (X : Xdr) (S : PqScheme) (LX : External.IsLawful X) (LS : Contract.IsLawful S) where
  -- A verifying key whose encoding fits an XDR byte string is carried whole by
  -- `encode_verifying_key`: the bytes in the `ScVal` are no more than the declared length, and
  -- decode to the same key.
  pub encode_verifying_key_lem :
      (vk : S.VerifyingKey)
      → S.verifying_key_len < 2 ^ 32
      → (s : X.ScBytes) × (encode_verifying_key X S vk ≡ ok (X.scval_bytes s))
        × (S.verifier.encode.from_bytes (X.as_slice s) ≡ ok vk)
        × (length (X.as_slice s) ≤ S.verifying_key_len)
  unfolding encode_verifying_key
  encode_verifying_key_lem vk fits =
      let empty : Bytes = zeros S.verifying_key_len in
      let z : length empty ≡ S.verifying_key_len = length-zeros _ in
      let (n, buf, w) = LS.write_total vk empty z in
      let short : length (take n buf) ≤ length empty =
        length-written _ empty (LS.length-write vk empty) w in
      let (s, e, b) = scval_of_short X LX (take n buf) (omega arith) in
      (s, rw w e, rw b (LS.read-write vk empty w), omega (arith, ap length b))

module _ (X : Xdr) (sha256 : Bytes → Bytes) (S : PqScheme) (LS : Contract.IsLawful S) where
  pub sign_authorization-ok :
      (payload : AuthorizationPayload X) (context : Bytes) (k : S.SigningKey) {msg out : Bytes}
      {n : ℕ}
      → signature_payload X sha256 payload ≡ ok msg
      → S.signer.sign_into k msg context (zeros S.signature_len) ≡ (ok n, out)
      → sign_authorization X sha256 S k payload context ≡ ok (take n out)
  unfolding sign_authorization
  sign_authorization-ok payload context k m w = rw (m, sign_authorization) (rw w refl)

  -- With a key pair from a seed, a context of at most 255 bytes and a payload that encodes,
  -- `sign_authorization` succeeds with at most the declared signature length, and
  -- `verify_authorization` and the scheme itself accept the signature for that payload and context.
  pub verify-sign_authorization :
      (seed context : Bytes) (payload : AuthorizationPayload X) {kp : S.Keypair} {msg : Bytes}
      → S.keypair.from_seed seed ≡ ok kp
      → length context ≤ max_context_len
      → signature_payload X sha256 payload ≡ ok msg
      → (sig : Bytes) × (sign_authorization X sha256 S (S.keypair.signing_key kp) payload context
          ≡ ok sig)
        × (verify_authorization X sha256 S (S.keypair.verifying_key kp) payload context sig ≡ ok tt)
        × (S.verifier.verify (S.keypair.verifying_key kp) msg context sig ≡ ok tt)
        × (length sig ≤ S.signature_len)
  unfolding verify_authorization
  verify-sign_authorization seed context payload {kp} {msg} s c m =
      let empty : Bytes = zeros S.signature_len in
      let z : length empty ≡ S.signature_len = length-zeros _ in
      let k = S.keypair.signing_key kp in
      let (n, out, w) = LS.sign_total k msg context empty c z in
      let v = LS.verify-sign seed msg context empty s w in
      let short : length (take n out) ≤ length empty =
        length-written _ empty (LS.length-sign k msg context empty) w in
      (
        take n out,
        rw (sign_authorization-ok payload context k m w),
        rw (m, verify_authorization) (rw v refl),
        v,
        omega arith,
      )

abbrev pub credentials_of : {A V : Type 0} → SorobanCredentials A V → SorobanAddressCredentials A V
credentials_of (address c) = c

-- What the host signs for when it meets an entry: the payload with the entry's own fields.
abbrev pub host_payload : (X : Xdr) → Bytes → Entry X → AuthorizationPayload X
host_payload X network_id entry = record {
  network_id = network_id;
  nonce = (credentials_of entry.credentials).nonce;
  signature_expiration_ledger = (credentials_of entry.credentials).signature_expiration_ledger;
  invocation = entry.root_invocation;
}

module _ (X : Xdr) (sha256 : Bytes → Bytes) (S : PqScheme) (LX : External.IsLawful X)
    (LS : Contract.IsLawful S) where
  -- With a key pair from a seed, a context of at most 255 bytes, a payload that encodes and a
  -- scheme whose signatures fit an XDR byte string, `build_auth_entry` succeeds with an entry for
  -- the given account whose signature verifies for the payload that the entry's own fields give on
  -- the same network; that payload is the one signed.
  pub build_auth_entry_lem :
      (account : X.ScAddress) (seed context : Bytes) (payload : AuthorizationPayload X)
      {kp : S.Keypair} {msg : Bytes}
      → S.keypair.from_seed seed ≡ ok kp
      → length context ≤ max_context_len
      → signature_payload X sha256 payload ≡ ok msg
      → S.signature_len < 2 ^ 32
      → (entry : Entry X) × (s : X.ScBytes) × (build_auth_entry X sha256 S account
            (S.keypair.signing_key kp)
            payload
            context
          ≡ ok entry)
        × ((credentials_of entry.credentials).address ≡ account)
        × ((credentials_of entry.credentials).signature ≡ X.scval_bytes s)
        × (host_payload X payload.network_id entry ≡ payload)
        × (verify_authorization X sha256 S
              (S.keypair.verifying_key kp)
              (host_payload X payload.network_id entry)
              context
              (X.as_slice s)
            ≡ ok tt)
        × (S.verifier.verify (S.keypair.verifying_key kp) msg context (X.as_slice s) ≡ ok tt)
  unfolding build_auth_entry
  build_auth_entry_lem account seed context payload k c m fits =
      let (sig, signed, checked, direct, short) =
        verify-sign_authorization X sha256 S LS seed context payload k c m in
      let (s, e, b) = scval_of_short X LX sig (omega arith) in
      (
        record {
          credentials = address (record {
            address = account;
            nonce = payload.nonce;
            signature_expiration_ledger = payload.signature_expiration_ledger;
            signature = X.scval_bytes s;
          });
          root_invocation = payload.invocation;
        },
        s,
        rw (signed, e),
        refl,
        refl,
        refl,
        rw b checked,
        rw b direct,
      )
