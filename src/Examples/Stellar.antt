-- ===== src/Examples/Stellar.antt =====
-- The adapter of crates/pq-stellar at work: runs, and each theorem at a concrete input.
use soroban_ml_dsa.Prelude.{◌≡◌, ◌↔◌, ◌⊎◌, refl, arith, String, some, [], ◌∷◌, Bytes, ok, err}
use soroban_ml_dsa.Prelude.Int.{pos}
use soroban_ml_dsa.Prelude.Texts.{as_bytes}
use soroban_ml_dsa.Core.Error.{PqError, invalid_length, verification_failed}
use soroban_ml_dsa.Core.Traits.{PqScheme}
use soroban_ml_dsa.Core.Contract
use soroban_ml_dsa.Core.SlhDsa
use soroban_ml_dsa.Core.MlDsa.{mldsa44, mldsa65, scheme, from_seed}
use soroban_ml_dsa.Core.MlDsa.External.{Backend}
use soroban_ml_dsa.Core.MlDsa.Keys.{scheme-IsLawful}
use soroban_ml_dsa.Stellar.Display.Read.{texts_injective}
use soroban_ml_dsa.Stellar.Display.{stellar_text, pq_text, decimal, decimal_on}
use soroban_ml_dsa.Stellar.External.{Collision}
use soroban_ml_dsa.Stellar.Error.{StellarError, pq, xdr}
use soroban_ml_dsa.Stellar.Payload.{
  AuthorizationPayload, signature_payload, network_id, testnet_passphrase, mainnet_passphrase,
}
use soroban_ml_dsa.Stellar.Payload.Binding.{signature_payload_binds}
use soroban_ml_dsa.Stellar.Auth.{Entry, build_auth_entry, verify_authorization}
use soroban_ml_dsa.Stellar.Auth.RoundTrip.{credentials_of, host_payload, build_auth_entry_lem}
use soroban_ml_dsa.Stellar.Auth.Errors.{verify_authorization_cases}
use soroban_ml_dsa.Stellar.SchemeId
use soroban_ml_dsa.Stellar.SchemeId.{
  SchemeId, ml_dsa44, ml_dsa65, slh_dsa_sha2_128s, from_name, IsNameOf, from_name_iff,
  from_name_stable,
}
use soroban_ml_dsa.Examples.Toy.{fit, length-fit, sized, backend, backend-IsLawful}
use soroban_ml_dsa.Examples.World.{wire, wire-IsLawful, digest}

abbrev M : Backend
M = backend 1952 4032 3309

abbrev S : PqScheme
S = scheme mldsa65 M

lawful : Contract.IsLawful S
lawful = scheme-IsLawful mldsa65 M (backend-IsLawful 1952 4032 3309)

abbrev payload : AuthorizationPayload wire
payload = record {
  network_id = network_id digest testnet_passphrase;
  nonce = pos 7;
  signature_expiration_ledger = 100;
  invocation = 5;
}

abbrev on_mainnet : AuthorizationPayload wire
on_mainnet = record payload { network_id = network_id digest mainnet_passphrase }

abbrev signed : Bytes → Bytes
signed net = digest (0 ∷ 7 ∷ 100 ∷ 5 ∷ net)

payload_run :
    signature_payload wire digest payload ≡ ok (signed (network_id digest testnet_passphrase))
unfolding signature_payload
payload_run = refl

utf8_run : as_bytes "pé" ≡ 112 ∷ 195 ∷ 169 ∷ []
unfolding as_bytes
utf8_run = refl

scheme_ids :
    (SchemeId.of (scheme mldsa44 M) ≡ some ml_dsa44)
    × (SchemeId.of S ≡ some ml_dsa65)
    × (SchemeId.of SlhDsa.scheme ≡ some slh_dsa_sha2_128s)
unfolding SchemeId.of
scheme_ids = (refl, refl, refl)

-- The theorems at concrete inputs.

signature_payload_binds_example : (payload ≡ payload) ⊎ Collision digest
signature_payload_binds_example =
    signature_payload_binds wire digest wire-IsLawful payload payload payload_run payload_run

-- A digest that is constant, so that the hypotheses hold.
abbrev flat : Bytes → Bytes
flat b = 0 ∷ []

abbrev flat_payload : String → AuthorizationPayload wire
flat_payload passphrase = record payload { network_id = network_id flat passphrase }

flat_run :
    (passphrase : String) → signature_payload wire flat (flat_payload passphrase) ≡ ok (0 ∷ [])
unfolding signature_payload
flat_run passphrase = refl

abbrev seed : Bytes
seed = fit 32 (7 ∷ [])

abbrev kp : S.Keypair
kp = record { signing = sized 4032 seed; verifying = sized 1952 (fit 4032 seed) }

seeded : S.keypair.from_seed seed ≡ ok kp
unfolding from_seed
seeded = ground (arith, length-fit 32 (7 ∷ []))

build_auth_entry_lem_example :
    (entry : Entry wire) × (s : wire.ScBytes) × (build_auth_entry wire digest S 11 kp.signing
        payload []
      ≡ ok entry)
    × ((credentials_of entry.credentials).address ≡ 11)
    × ((credentials_of entry.credentials).signature ≡ wire.scval_bytes s)
    × (host_payload wire payload.network_id entry ≡ payload)
    × (verify_authorization wire digest S kp.verifying
          (host_payload wire payload.network_id entry)
          []
          (wire.as_slice s)
        ≡ ok tt)
    × (S.verifier.verify kp.verifying
          (signed (network_id digest testnet_passphrase))
          []
          (wire.as_slice s)
        ≡ ok tt)
build_auth_entry_lem_example =
    build_auth_entry_lem wire digest S wire-IsLawful lawful 11 seed [] payload seeded (omega arith)
      payload_run (omega arith)

verify_authorization_cases_example :
    let result = verify_authorization wire digest S kp.verifying payload [] (1 ∷ []) in
    ((result ≡ ok tt) ↔ (
      (msg : Bytes) × (signature_payload wire digest payload ≡ ok msg)
      × (S.verifier.verify kp.verifying msg [] (1 ∷ []) ≡ ok tt)))
    × ((e : PqError)
        → (result ≡ err (pq e)) ↔ (
            (msg : Bytes) × (signature_payload wire digest payload ≡ ok msg)
            × (S.verifier.verify kp.verifying msg [] (1 ∷ []) ≡ err e)))
    × ((e : StellarError) → signature_payload wire digest payload ≡ err e → result ≡ err e)
verify_authorization_cases_example =
    verify_authorization_cases wire digest S kp.verifying payload [] (1 ∷ [])

text_run :
    stellar_text (pq (invalid_length 1952 7))
    ≡ "post-quantum operation failed: invalid length: expected 1952, got 7"
unfolding stellar_text pq_text decimal decimal_on
text_run = refl

texts_injective_example :
    ((stellar_text (pq verification_failed) ≡ stellar_text (xdr "no"))
      ↔ (pq verification_failed ≡ xdr "no"))
    × ((pq_text (invalid_length 12 3) ≡ pq_text (invalid_length 1 23))
        ↔ (invalid_length 12 3 ≡ invalid_length 1 23))
texts_injective_example =
    texts_injective (pq verification_failed) (xdr "no") (invalid_length 12 3) (invalid_length 1 23)
