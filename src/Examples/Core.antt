-- ===== src/Examples/Core.antt =====
-- The binding of crates/pq-core at work: runs over tiny lengths, and each theorem at a concrete
-- input.
use soroban_ml_dsa.Prelude.{
  ◌≤◌, ◌<◌, ◌≡◌, ◌↔◌, ◌⊎◌, refl, arith, some, [], ◌∷◌, ◌++◌, Bytes, length, take, drop, zeros,
  length-zeros, ok, err, panic,
}
use soroban_ml_dsa.Core.Error.{invalid_length, buffer_too_small, context_too_long}
use soroban_ml_dsa.Core.Contract
use soroban_ml_dsa.Core.Adapter.{adapter_shaped_function}
use soroban_ml_dsa.Core.SlhDsa
use soroban_ml_dsa.Core.MlDsa.{Params, mldsa44, mldsa65, verify, sign_into, from_seed, scheme}
use soroban_ml_dsa.Core.MlDsa.External.{Backend, IsLawful}
use soroban_ml_dsa.Prelude.Texts.{as_bytes}
use soroban_ml_dsa.Core.MlDsa.Guard.{
  guard_seed, guard_message, declared_sizes_match_implementation, guard_iff,
}
use soroban_ml_dsa.Core.MlDsa.Debug.{vk_debug, sk_debug, keypair_debug}
use soroban_ml_dsa.Core.MlDsa.Promises.{scheme-KeepsPromises}
use soroban_ml_dsa.Core.MlDsa.Sign.{sig_bytes, sign_into_cases, verify-sign_into}
use soroban_ml_dsa.Core.MlDsa.Verify.{Accepts, Verdict, verify_iff, verify-Verdict}
use soroban_ml_dsa.Examples.Toy.{SizedBytes, sized, fit, tag, backend, backend-IsLawful}

abbrev tiny : Params
tiny = record { name = "tiny"; category = 1; vk_len = 3; sk_len = 4; sig_len = 6 }

abbrev M : Backend
M = backend 3 4 6

abbrev k : SizedBytes 4
k = sized 4 (9 ∷ 8 ∷ 7 ∷ 6 ∷ [])

abbrev v : SizedBytes 3
v = sized 3 (9 ∷ 8 ∷ 7 ∷ [])

-- The buffer keeps the bytes behind the signature.
sign_run :
    sign_into tiny M k (1 ∷ 2 ∷ []) (5 ∷ []) (40 ∷ 41 ∷ 42 ∷ 43 ∷ 44 ∷ 45 ∷ 46 ∷ [])
    ≡ (ok 6, 1 ∷ 2 ∷ 5 ∷ 9 ∷ 8 ∷ 7 ∷ 46 ∷ [])
unfolding sign_into fit tag zeros
sign_run = refl

sign_small_buffer : sign_into tiny M k [] [] (1 ∷ []) ≡ (err (buffer_too_small 6 1), 1 ∷ [])
unfolding sign_into
sign_small_buffer = refl

verify_long : verify tiny M v [] [] (1 ∷ []) ≡ err (invalid_length 6 1)
unfolding verify
verify_long = refl

seed_short : from_seed tiny M (1 ∷ []) ≡ err (invalid_length 32 1)
unfolding from_seed
seed_short = refl

sketch_panics : adapter_shaped_function SlhDsa.scheme [] [] [] ≡ panic
unfolding adapter_shaped_function
sketch_panics = refl

-- ML-DSA-65 over the stand-in backend.
abbrev M65 : Backend
M65 = backend 1952 4032 3309

L65 : IsLawful M65 1952 4032 3309
L65 = backend-IsLawful 1952 4032 3309

abbrev message : Bytes
message = 1 ∷ 2 ∷ 3 ∷ []

abbrev context : Bytes
context = 4 ∷ 5 ∷ []

abbrev seed : Bytes
seed = fit 32 (7 ∷ [])

abbrev k65 : SizedBytes 4032
k65 = sized 4032 seed

abbrev v65 : SizedBytes 1952
v65 = M65.verifying_key k65

context-short : length context ≤ 255
context-short = omega arith

-- The theorems at concrete inputs.

verify_iff_example :
    (verify tiny M v message context (1 ∷ 2 ∷ 3 ∷ 4 ∷ 5 ∷ 9 ∷ []) ≡ ok tt)
    ↔ Accepts tiny M v message context (1 ∷ 2 ∷ 3 ∷ 4 ∷ 5 ∷ 9 ∷ [])
verify_iff_example = verify_iff tiny M v message context (1 ∷ 2 ∷ 3 ∷ 4 ∷ 5 ∷ 9 ∷ [])

verify-Verdict_example : Verdict mldsa65 M65 v65 message context (1 ∷ [])
verify-Verdict_example = verify-Verdict mldsa65 M65 v65 message context (1 ∷ [])

sign_into_cases_example :
    let result = sign_into mldsa65 M65 k65 message context (zeros 3309) in
    ((255 < length context) × (result ≡ (err (context_too_long (length context)), zeros 3309)))
    ⊎ ((length context ≤ 255)
        × (length (zeros 3309) < 3309)
        × (result ≡ (err (buffer_too_small 3309 (length (zeros 3309))), zeros 3309)))
    ⊎ ((length context ≤ 255)
        × (3309 ≤ length (zeros 3309))
        × ((s : M65.Signature) × (M65.sign_deterministic k65 message context ≡ some s)
            × (result ≡ (ok 3309, sig_bytes mldsa65 M65 s ++ drop 3309 (zeros 3309)))))
sign_into_cases_example = sign_into_cases mldsa65 M65 L65 k65 message context (zeros 3309)

verify-sign_into_example :
    let (result, out) = sign_into mldsa65 M65 k65 message context (zeros 3309) in
    (result ≡ ok 3309)
    × (verify mldsa65 M65 (M65.verifying_key k65) message context (take 3309 out) ≡ ok tt)
verify-sign_into_example =
    verify-sign_into mldsa65 M65 L65 k65 message context (zeros 3309) context-short
      (omega (arith, length-zeros 3309))

scheme-KeepsPromises_example :
    Contract.KeepsPromises
      (scheme mldsa44 (backend 1312 2560 2420))
      (Accepts mldsa44 (backend 1312 2560 2420))
scheme-KeepsPromises_example =
    scheme-KeepsPromises mldsa44 (backend 1312 2560 2420) (backend-IsLawful 1312 2560 2420)

-- The guard at ML-DSA-65 over the stand-in backend, and beside it lengths of keys that are not the
-- backend's.
guard_iff_example :
    ((declared_sizes_match_implementation mldsa65 M65 ≡ ok tt) ↔ (
      (s : M65.Signature) × (M65.sign_deterministic (M65.from_seed guard_seed) guard_message []
        ≡ some s)
      × (length (sig_bytes mldsa65 M65 s) ≡ 3309)))
    × (declared_sizes_match_implementation (record mldsa65 { vk_len = 1; sk_len = 2 }) M65
        ≡ declared_sizes_match_implementation mldsa65 M65)
guard_iff_example = guard_iff mldsa65 M65 1 2

-- The guard passes for declared lengths of keys that are wrong, and fails for one of signatures.
guard_misses_keys :
    declared_sizes_match_implementation (record tiny { vk_len = 7; sk_len = 8 }) M ≡ ok tt
unfolding declared_sizes_match_implementation from_seed guard_seed guard_message sign_into zeros fit
    tag as_bytes
guard_misses_keys = refl

guard_finds_signatures : declared_sizes_match_implementation (record tiny { sig_len = 7 }) M ≡ panic
unfolding declared_sizes_match_implementation from_seed guard_seed guard_message sign_into zeros fit
    tag as_bytes
guard_finds_signatures = refl

debug_run :
    keypair_debug mldsa65 M65 (record { signing = k65; verifying = M65.verifying_key k65 })
    ≡ "Keypair { signing: SigningKey<ML-DSA-65>(redacted), verifying: VerifyingKey<ML-DSA-65> }"
unfolding keypair_debug vk_debug sk_debug
debug_run = refl
