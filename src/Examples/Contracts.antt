-- ===== src/Examples/Contracts.antt =====
-- The contracts at work over the stand-in host: runs, and each theorem at a concrete input.
use soroban_ml_dsa.Prelude.{
  ℕ, Option, ◌≤◌, ◌≡◌, ◌≢◌, ◌↔◌, ◌⊎◌, refl, true, some, none, [], ◌∷◌, List, Bytes, length, zeros,
  ℕ_discrete, Bytes-discrete, ok, err, panic, ◌==◌,
}
use soroban_ml_dsa.Core.MlDsa.{mldsa65, scheme, Keypair, from_seed, vk_from_bytes, verify}
use soroban_ml_dsa.Core.MlDsa.External
use soroban_ml_dsa.Core.MlDsa.External.{Backend}
use soroban_ml_dsa.Core.MlDsa.Verify.{Accepts}
use soroban_ml_dsa.Stellar.Auth.{Entry, encode_verifying_key, build_auth_entry}
use soroban_ml_dsa.Stellar.Auth.RoundTrip.{credentials_of}
use soroban_ml_dsa.Stellar.Payload.{
  AuthorizationPayload, signature_payload, network_id, testnet_passphrase,
}
use soroban_ml_dsa.Contracts.Account.{
  pub_key, not_inited, bad_pub_key_len, bad_sig_len, sig_verify_failed, context, init, check_auth,
  approves, protected,
}
use soroban_ml_dsa.Contracts.Account.Check.{Judged, check_auth_iff, check_auth_cases}
use soroban_ml_dsa.Contracts.Account.Init.{check_auth-init}
use soroban_ml_dsa.Contracts.Account.Machine.{
  Call, store, ask, Outcome, perform, run, AllowsAll, run_refines,
}
use soroban_ml_dsa.Contracts.Account.Reach.{
  Reach, deployed, next, call_init, check_auth_reachable, protected_needs_signature,
}
use soroban_ml_dsa.Contracts.Verifier.{verify65, decode44}
use soroban_ml_dsa.Contracts.Verifier.Laws.{verify65_iff, decode44-length}
use soroban_ml_dsa.Contracts.Flow.{client_authorizes}
use soroban_ml_dsa.Prelude.Int.{pos}
use soroban_ml_dsa.Examples.Toy.{fit, length-fit, tag, backend, backend-IsLawful}
use soroban_ml_dsa.Examples.World.{
  wire, wire-IsLawful, digest, length-digest, sdk, sdk-IsLawful, State, ledger, ledger-IsLedger,
}

abbrev M : Backend
M = backend 1952 4032 3309

L : External.IsLawful M 1952 4032 3309
L = backend-IsLawful 1952 4032 3309

abbrev fresh : State
fresh = record { key = none; credential = none }

abbrev key : Bytes
key = fit 1952 (1 ∷ 2 ∷ [])

abbrev message : Bytes
message = fit 32 (3 ∷ [])

abbrev signature : Bytes
signature = (tag 3309 key message context).bytes

abbrev ready : State
ready = record { key = some key; credential = some (message, signature) }

-- A contract with no key answers every payload alike, and `init` refuses a short key.
no_key : check_auth M sdk ledger fresh [] [] ≡ err not_inited
unfolding check_auth
no_key = refl

short_key : init M sdk ledger fresh (1 ∷ []) ≡ (err bad_pub_key_len, fresh)
unfolding init
short_key = refl

protected_run : protected M sdk ledger ready ≡ ok 42
unfolding protected approves check_auth vk_from_bytes verify context zeros fit tag ℕ_discrete
    Bytes-discrete
protected_run = refl

-- The theorems at concrete inputs.

message-length : length message ≡ 32
message-length = length-fit 32 (3 ∷ [])

key_length : length key ≡ 1952
key_length = length-fit 1952 (1 ∷ 2 ∷ [])

check_auth_iff_example : (check_auth M sdk ledger ready message signature ≡ ok tt) ↔ (
    (stored : Bytes) × (vk : M.VerifyingKey) × (some key ≡ some stored)
    × (vk_from_bytes mldsa65 M stored ≡ ok vk)
    × Accepts mldsa65 M vk message context signature)
check_auth_iff_example =
    check_auth_iff M sdk ledger sdk-IsLawful ready message signature message-length

abbrev short : Bytes
short = 1 ∷ []

check_auth_cases_example :
    let result = check_auth M sdk ledger ready message signature in
    ((some key ≡ none) × (result ≡ err not_inited))
    ⊎ ((stored : Bytes) × (some key ≡ some stored)
        × (((length stored ≢ 1952) × (result ≡ err bad_pub_key_len))
            ⊎ ((length stored ≡ 1952) × (length signature ≢ 3309) × (result ≡ err bad_sig_len))
            ⊎ ((length stored ≡ 1952)
                × (length signature ≡ 3309)
                × Judged M sdk ledger stored message signature result)))
check_auth_cases_example =
    check_auth_cases M sdk ledger L sdk-IsLawful ready message signature message-length

-- A second key takes over from the first.
check_auth-init_example :
    let (result, env) = init M sdk ledger ready (fit 1952 (9 ∷ [])) in
    (result ≡ ok tt)
    × ((vk : M.VerifyingKey) × (vk_from_bytes mldsa65 M (fit 1952 (9 ∷ [])) ≡ ok vk)
        × ((check_auth M sdk ledger env message signature ≡ ok tt)
            ↔ Accepts mldsa65 M vk message context signature))
check_auth-init_example =
    check_auth-init M sdk ledger L sdk-IsLawful ledger-IsLedger ready (fit 1952 (9 ∷ [])) message
      signature (length-fit 1952 (9 ∷ [])) message-length

reached : Reach M sdk ledger (init M sdk ledger fresh key).1
reached = next (deployed refl) (call_init key refl)

-- Asked before there is a key, given a short key, given a key and asked twice, given another key and
-- asked again.
abbrev calls : List Call
calls =
    ask message signature
    ∷ store short
    ∷ store key
    ∷ ask message short
    ∷ ask message signature
    ∷ store (fit 1952 (9 ∷ []))
    ∷ ask message signature
    ∷ []

seven_outcomes :
    (run M sdk ledger fresh calls).0
    ≡ err not_inited
      ∷ err bad_pub_key_len
      ∷ ok tt
      ∷ err bad_sig_len
      ∷ ok tt
      ∷ ok tt
      ∷ err sig_verify_failed
      ∷ []
unfolding run perform init check_auth vk_from_bytes verify context zeros fit tag ℕ_discrete
    Bytes-discrete
seven_outcomes = refl

run_refines_example :
    let (outcomes, env) = run M sdk ledger fresh calls in
    AllowsAll M none calls outcomes (ledger.get env pub_key)
    × ((others : List Outcome) (stored : Option Bytes)
        → AllowsAll M none calls others stored
        → (others ≡ outcomes) × (stored ≡ ledger.get env pub_key))
run_refines_example =
    run_refines M sdk ledger L sdk-IsLawful ledger-IsLedger (deployed refl) calls
      (message-length, (message-length, (message-length, (message-length, tt))))

check_auth_reachable_example :
    let env = (init M sdk ledger fresh key).1 in
    let result = check_auth M sdk ledger env message signature in
    (result ≢ err bad_pub_key_len)
    × (result ≢ panic)
    × ((result ≡ err not_inited) ↔ (ledger.get env pub_key ≡ none))
check_auth_reachable_example =
    check_auth_reachable M sdk ledger L sdk-IsLawful ledger-IsLedger reached message signature
      message-length

protected_needs_signature_example :
    ◌≡◌ {A = ℕ} 42 42
    × ((payload : Bytes) × (sig : Bytes) × (stored : Bytes) × (vk : M.VerifyingKey)
        × (ledger.credential ready ≡ some (payload, sig))
        × (length payload ≡ 32)
        × (some key ≡ some stored)
        × (vk_from_bytes mldsa65 M stored ≡ ok vk)
        × Accepts mldsa65 M vk payload context sig)
protected_needs_signature_example =
    protected_needs_signature M sdk ledger L sdk-IsLawful ledger-IsLedger ready protected_run

verify65_iff_example :
    (verify65 M sdk key message signature ≢ panic)
    × ((verify65 M sdk key message signature ≡ ok true) ↔ (
        (length message ≤ 8192)
        × ((vk : M.VerifyingKey) × (vk_from_bytes mldsa65 M key ≡ ok vk)
            × Accepts mldsa65 M vk message [] signature)))
verify65_iff_example = verify65_iff M sdk sdk-IsLawful key message signature

abbrev M44 : Backend
M44 = backend 1312 2560 2420

decode44-length_example : decode44 M44 sdk key ≡ ok (length key == 1312)
decode44-length_example = decode44-length M44 sdk sdk-IsLawful (backend-IsLawful 1312 2560 2420) key

abbrev payload : AuthorizationPayload wire
payload = record {
  network_id = network_id digest testnet_passphrase;
  nonce = pos 7;
  signature_expiration_ledger = 100;
  invocation = 5;
}

payload_run :
    signature_payload wire digest payload
    ≡ ok (digest (0 ∷ 7 ∷ 100 ∷ 5 ∷ network_id digest testnet_passphrase))
unfolding signature_payload
payload_run = refl

client_authorizes_example :
    (kp : Keypair M) × (pk : wire.ScBytes) × (entry : Entry wire) × (sig : wire.ScBytes)
    × (from_seed mldsa65 M message ≡ ok kp)
    × (encode_verifying_key wire (scheme mldsa65 M) kp.verifying ≡ ok (wire.scval_bytes pk))
    × (build_auth_entry wire digest (scheme mldsa65 M) 11 kp.signing payload context ≡ ok entry)
    × ((credentials_of entry.credentials).signature ≡ wire.scval_bytes sig)
    × ((init M sdk ledger fresh (wire.as_slice pk)).0 ≡ ok tt)
    × (check_auth M sdk ledger
          (init M sdk ledger fresh (wire.as_slice pk)).1
          (digest (0 ∷ 7 ∷ 100 ∷ 5 ∷ network_id digest testnet_passphrase))
          (wire.as_slice sig)
        ≡ ok tt)
client_authorizes_example =
    client_authorizes M wire digest sdk ledger L wire-IsLawful sdk-IsLawful ledger-IsLedger
      length-digest fresh 11 message payload message-length payload_run
