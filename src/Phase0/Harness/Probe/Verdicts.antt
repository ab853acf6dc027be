-- ===== src/Phase0/Harness/Probe/Verdicts.antt =====
-- What phase0/harness/src/main.rs prints beside each cost.
use mathlib.Core.List.{map}
use soroban_ml_dsa.Prelude.{
  ℕ, ◌-◌, ◌≤◌, ltb, ◌≡◌, ◌≢◌, ◌↔◌, ◌∙◌, sym, refl, arith, Bool, true, if◌then◌else◌, Bytes, length,
  replicate, [], ◌∷◌, some, String, Run, Never, ok, err, panic, leb,
}
use soroban_ml_dsa.Core.MlDsa.{Params, mldsa44, mldsa65}
use soroban_ml_dsa.Core.MlDsa.External as Crate
use soroban_ml_dsa.Core.MlDsa.External.{Backend}
use soroban_ml_dsa.Core.MlDsa.Verify.{Accepts}
use soroban_ml_dsa.Contracts.Host
use soroban_ml_dsa.Contracts.Host.{Sdk, Crypto}
use soroban_ml_dsa.Contracts.Verifier.Laws.{verify_bytes_iff, decode65-length}
use soroban_ml_dsa.Phase0.External as Direct
use soroban_ml_dsa.Phase0.External.{Calls}
use soroban_ml_dsa.Phase0.Contract
use soroban_ml_dsa.Phase0.Contract.Agreement.{verify_bytes_agree, decode_only_agrees}
use soroban_ml_dsa.Phase0.Harness.External
use soroban_ml_dsa.Phase0.Harness.External.{Signing, Ed25519, IsEd25519}
use soroban_ml_dsa.Prelude.Slices.{flip_at, flip_at_within}
use soroban_ml_dsa.Phase0.Harness.Signed.{
  key_bytes, sig_bytes, vk, sign_checked, sign_checked_lem, vk_from_bytes-key_bytes,
}
use soroban_ml_dsa.Phase0.Harness.Probe.{
  Call, noop, verify, verify44, ed25519, decode_only, Line, Report, msg, main, measure, invoke,
}

answered : {r : Run Never Bool} → r ≢ panic → (b : Bool) × (r ≡ ok b)
answered {r = ok b} h = (b, refl)
answered {r = err e} h = elim e [ ]
answered {r = panic} h = absurd (h refl)

-- The contract answers under a key's bytes, and `true` exactly if the key accepts.
module _ (p : Params) (M : Backend) (N : Calls M) (K : Sdk)
    (L : Crate.IsLawful M p.vk_len p.sk_len p.sig_len) (LN : Direct.IsLawful M N p.vk_len)
    (LK : Host.IsLawful K) where
  verify_answers :
      (v : M.VerifyingKey) (m sig : Bytes)
      → length m ≤ 256
      → (b : Bool) × (Contract.verify_bytes M N K p.vk_len p.sig_len (key_bytes M v) m sig ≡ ok b)
        × ((b ≡ true) ↔ Accepts p M v m [] sig)
  verify_answers v m sig short =
      let pk = key_bytes M v in
      let agree = verify_bytes_agree p M N K LN LK pk m sig in
      let (safe, iff) = verify_bytes_iff p M K LK pk m sig in
      let read = vk_from_bytes-key_bytes p M L v in
      let (b, e) = answered safe in
      let small : leb (length m) 256 ≡ true = ground arith in
      (
        b,
        agree ∙ rw small e,
        (
          λ t.
              let (_, (v', d, a)) = iff.0 (rw (sym t) e) in
              let same : v' ≡ v = ground arith in rw (sym same) a,
          λ a. let t = iff.1 (omega arith, (v, read, a)) in ground arith,
        ),
      )

module _ (M44 M65 : Backend) (N44 : Calls M44) (N65 : Calls M65) (G44 : Signing M44)
    (G65 : Signing M65) (K : Sdk) (C : Crypto) (D : Ed25519) (cost : Call → ℕ × ℕ) where
  ed25519_passes :
      Host.IsLawful K
      → IsEd25519 D C
      → (seed m : Bytes) → Contract.ed25519 K C (D.verifying_key seed) m (D.sign seed m) ≡ ok true
  unfolding Contract.ed25519
  ed25519_passes LK LD seed m = grind (
    arith,
    LK.try_into_sized 32 _ (LD.length-verifying_key seed),
    LK.try_into_sized 64 _ (LD.length-sign seed m),
    LD.verify-sign seed m,
  )

  -- The report, where the calls answer as they should.
  abbrev reported : M65.Signature → M44.Signature → Bytes → Bool → Report
  reported s s4 bad leak =
      let key = key_bytes M65 (vk M65 N65 G65) in
      let key4 = key_bytes M44 (vk M44 N44 G44) in
      let seed : Bytes = replicate 32 9 in
      let base = (cost noop).0 in
      let line : String → Call → String → Line = λ name call result. record {
        name = name;
        cpu = (cost call).0;
        net = (cost call).0 - base;
        result = result;
      } in
      record {
        cpu_noop = base;
        mem_noop = (cost noop).1;
        rows =
            line "Ed25519 (host fn)" (ed25519 (D.verifying_key seed) msg (D.sign seed msg)) "ok"
            ∷ line "ML-DSA-44 verify (in-contract)" (verify44 key4 msg (sig_bytes M44 s4)) "ok"
            ∷ line "ML-DSA-65 verify (in-contract)" (verify key msg (sig_bytes M65 s)) "ok"
            ∷ line "  └─ key decode / ExpandA only" (decode_only key) "ok"
            ∷ line "ML-DSA-65 verify (bad sig)" (verify key msg bad)
                (if leak then "LEAK" else "rejected")
            ∷ [];
        mem65 = (cost (verify key msg (sig_bytes M65 s))).1;
        mem44 = (cost (verify44 key4 msg (sig_bytes M44 s4))).1;
        sizes =
            length key ∷ length (sig_bytes M65 s) ∷ length key4 ∷ length (sig_bytes M44 s4) ∷ [];
        verdict =
            if ltb (cost (verify key msg (sig_bytes M65 s))).0 400_000_000
            then "FITS"
            else "EXCEEDS";
      }

  main-reported :
      {s : M65.Signature} {s4 : M44.Signature} {bad : Bytes} {decoded leak ed : Bool}
      → let key = key_bytes M65 (vk M65 N65 G65) in
        let key4 = key_bytes M44 (vk M44 N44 G44) in
        let seed : Bytes = replicate 32 9 in
        sign_checked M65 N65 G65 msg ≡ ok s
        → Contract.verify M65 N65 K key msg (sig_bytes M65 s) ≡ ok true
        → Contract.decode_only M65 N65 K key ≡ ok decoded
        → flip_at 100 (sig_bytes M65 s) ≡ some bad
        → Contract.verify M65 N65 K key msg bad ≡ ok leak
        → sign_checked M44 N44 G44 msg ≡ ok s4
        → Contract.verify44 M44 N44 K key4 msg (sig_bytes M44 s4) ≡ ok true
        → Contract.ed25519 K C (D.verifying_key seed) msg (D.sign seed msg) ≡ ok ed
        → main M44 M65 N44 N65 G44 G65 K C D cost ≡ ok (reported s s4 bad leak)
  unfolding main measure invoke
  main-reported a b c d e f g h = rw (a, b, c, d, e, f, g, h) refl

  -- Over lawful crates, SDK and host the program finishes. It prints that every verification
  -- succeeds; that the tampered signature is accepted exactly if it is a signature that the key
  -- accepts, and otherwise that it is rejected; the sizes of FIPS 204; and that ML-DSA-65 fits
  -- exactly if the verification costs less than 400 million instructions.
  pub main-Verdicts :
      Crate.IsLawful M44 mldsa44.vk_len mldsa44.sk_len mldsa44.sig_len
      → Crate.IsLawful M65 mldsa65.vk_len mldsa65.sk_len mldsa65.sig_len
      → Direct.IsLawful M44 N44 mldsa44.vk_len
      → Direct.IsLawful M65 N65 mldsa65.vk_len
      → External.IsLawful M44 G44
      → External.IsLawful M65 G65
      → Host.IsLawful K
      → IsEd25519 D C
      → let key = vk M65 N65 G65 in
        (report : Report) × (s : M65.Signature) × (bad : Bytes) × (leak : Bool) × (main M44 M65 N44
            N65 G44 G65 K C D cost
          ≡ ok report)
        × (sign_checked M65 N65 G65 msg ≡ ok s)
        × (flip_at 100 (sig_bytes M65 s) ≡ some bad)
        × (map (λ (l : Line). l.result) report.rows
            ≡ "ok" ∷ "ok" ∷ "ok" ∷ "ok" ∷ (if leak then "LEAK" else "rejected") ∷ [])
        × ((leak ≡ true) ↔ Accepts mldsa65 M65 key msg [] bad)
        × (report.sizes ≡ 1952 ∷ 3309 ∷ 1312 ∷ 2420 ∷ [])
        × (report.verdict ≡ (
            if ltb (cost (verify (key_bytes M65 key) msg (sig_bytes M65 s))).0 400_000_000
            then "FITS"
            else "EXCEEDS"))
  unfolding Contract.verify Contract.verify44
  main-Verdicts L44 L65 LN44 LN65 LG44 LG65 LK LD =
      let key = vk M65 N65 G65 in
      let (s, e, good) = sign_checked_lem mldsa65 M65 N65 G65 L65 LN65 LG65 msg in
      let (s4, e4, good4) = sign_checked_lem mldsa44 M44 N44 G44 L44 LN44 LG44 msg in
      let (bad, f, fl) = flip_at_within 100 (sig_bytes M65 s) (omega (arith, good.1)) in
      let (b, v, vi) =
        verify_answers mldsa65 M65 N65 K L65 LN65 LK key msg (sig_bytes M65 s) (omega arith) in
      let (b4, v4, v4i) =
        verify_answers mldsa44 M44 N44 K L44 LN44 LK (vk M44 N44 G44) msg (sig_bytes M44 s4)
          (omega arith) in
      let (leak, lv, li) = verify_answers mldsa65 M65 N65 K L65 LN65 LK key msg bad (omega arith) in
      let decoded =
        decode_only_agrees M65 N65 K LK LN65 (key_bytes M65 key)
        ∙ decode65-length M65 K LK L65 (key_bytes M65 key) in
      let len65 = L65.vk_array.length-as_slice (M65.vk_encode key) in
      let len44 = L44.vk_array.length-as_slice (M44.vk_encode (vk M44 N44 G44)) in
      (
        reported s s4 bad leak,
        s,
        bad,
        leak,
        main-reported e (rw (sym (vi.1 good)) v) decoded f lv e4 (rw (sym (v4i.1 good4)) v4)
            (ed25519_passes LK LD (replicate 32 9) msg),
        e,
        f,
        refl,
        li,
        rw (len65, good.1, len44, good4.1) refl,
        refl,
      )
