-- ===== src/Examples/Harness.antt =====
-- The programs of phase0/harness over the stand-ins: runs, and each theorem at a concrete input.
use mathlib.Core.List.{map}
use soroban_ml_dsa.Prelude.{
  ℕ, ◌≡◌, ◌↔◌, Bool, true, ltb, if◌then◌else◌, some, List, [], ◌∷◌, Bytes, ok, refl, String, zeros,
  Bytes-discrete, ℕ_discrete,
}
use soroban_ml_dsa.Core.MlDsa.{mldsa65}
use soroban_ml_dsa.Core.MlDsa.Verify.{Accepts}
use soroban_ml_dsa.Prelude.Slices.{flip_at}
use soroban_ml_dsa.Phase0.Harness.Signed.{key_bytes, sig_bytes, vk, sign_checked}
use soroban_ml_dsa.Phase0.Harness.Probe as Probe
use soroban_ml_dsa.Phase0.Harness.Probe.{Call, Line}
use soroban_ml_dsa.Phase0.Harness.Probe.Verdicts.{main-Verdicts}
use soroban_ml_dsa.Phase0.Harness.Vectors
use soroban_ml_dsa.Phase0.Harness.Vectors.{Files}
use soroban_ml_dsa.Examples.Toy.{fit, tag, SizedBytes, backend-IsLawful}
use soroban_ml_dsa.Examples.World.{sdk, sdk-IsLawful}
use soroban_ml_dsa.Examples.Direct.{calls-IsLawful, M, M44}
use soroban_ml_dsa.Examples.Signers.{
  signing-IsLawful, ed25519, crypto, ed25519-IsEd25519, N, N44, G, G44,
}

abbrev cost : Call → ℕ × ℕ
cost c = elim c [ Probe.noop ↦ (1, 1) | _ ↦ (7, 2) ]

abbrev Verdicts : Type 0
Verdicts =
    let key = vk M N G in
    (report : Probe.Report) × (s : SizedBytes 3309) × (bad : Bytes) × (leak : Bool) × (Probe.main
        M44 M N44 N G44 G sdk crypto ed25519 cost
      ≡ ok report)
    × (sign_checked M N G Probe.msg ≡ ok s)
    × (flip_at 100 (sig_bytes M s) ≡ some bad)
    × (map (λ (l : Line). l.result) report.rows
        ≡ "ok" ∷ "ok" ∷ "ok" ∷ "ok" ∷ (if leak then "LEAK" else "rejected") ∷ [])
    × ((leak ≡ true) ↔ Accepts mldsa65 M key Probe.msg [] bad)
    × (report.sizes ≡ 1952 ∷ 3309 ∷ 1312 ∷ 2420 ∷ [])
    × (report.verdict ≡ (
        if ltb (cost (Probe.verify (key_bytes M key) Probe.msg (sig_bytes M s))).0 400_000_000
        then "FITS"
        else "EXCEEDS"))

main-Verdicts_example : Verdicts
main-Verdicts_example =
    main-Verdicts M44 M N44 N G44 G sdk crypto ed25519 cost (backend-IsLawful 1312 2560 2420)
      (backend-IsLawful 1952 4032 3309) (calls-IsLawful 1312 2560 2420)
      (calls-IsLawful 1952 4032 3309) (signing-IsLawful 1312 2560 2420)
      (signing-IsLawful 1952 4032 3309) sdk-IsLawful ed25519-IsEd25519

-- A file system that keeps the texts, the last one first.
abbrev files : Files
files = record { World = List String; write = λ p t w. some (t ∷ w) }

-- Seven files are written, and the sizes are those of the two parameter sets.
vectors_run :
    (w : List String) × (Vectors.main files M44 M N44 N G44 G ed25519 "out" [] ≡ (
      ok (
          ("msg", 32)
          ∷ ("pk65", 1952)
          ∷ ("sig65", 3309)
          ∷ ("pk44", 1312)
          ∷ ("sig44", 2420)
          ∷ ("ed_pk", 32)
          ∷ ("ed_sig", 64)
          ∷ []),
      w,
    ))
unfolding Vectors.main Vectors.out sign_checked fit tag zeros Bytes-discrete ℕ_discrete
vectors_run = (_, refl)
