-- ===== src/Contracts/Verifier/Laws.antt =====
-- What the entry points of contracts/pq-verifier/src/lib.rs answer.
use soroban_ml_dsa.Prelude.{
  ℕ, ◌≤◌, ◌≡◌, ◌≢◌, ◌↔◌, ◌⊎◌, inl, inr, ◌∙◌, sym, arith, Bool, true, false, some, [], Bytes, length,
  take, zeros, length-take, length-zeros, ℕ_discrete, ◌==◌, eq→==, ne→==,
}
use soroban_ml_dsa.Prelude.{Run, Never, ok, err, panic, is_ok}
use soroban_ml_dsa.Core.MlDsa.{Params, mldsa44, mldsa65, vk_from_bytes, verify}
use soroban_ml_dsa.Core.MlDsa.External
use soroban_ml_dsa.Core.MlDsa.External.{Backend}
use soroban_ml_dsa.Core.MlDsa.Encode.{length-vk_from_bytes, vk_from_bytes_sized}
use soroban_ml_dsa.Core.MlDsa.Keys.{vk_from_bytes_safe}
use soroban_ml_dsa.Core.MlDsa.Verify.{Accepts, verify_iff, verify_safe}
use soroban_ml_dsa.Contracts.Host
use soroban_ml_dsa.Contracts.Host.{Sdk}
use soroban_ml_dsa.Contracts.Verifier.{
  verify_bytes, verify65, verify44, decode_bytes, decode65, decode44,
}

copy_matching :
    (K : Sdk)
    → Host.IsLawful K
    → (b slice : Bytes) → length slice ≡ length b
    → K.copy_into_slice b slice ≡ some b
copy_matching K LK b slice h = LK.copy_same_length b slice (sym h)

pub length-prefix : (n m : ℕ) → n ≤ m → length (take n (zeros m)) ≡ n
length-prefix n m h = omega (arith, length-take n (zeros m), length-zeros m)

module _ (p : Params) (M : Backend) (K : Sdk) (LK : Host.IsLawful K) where
  -- The decode and verification that a call with all lengths in order comes to.
  abbrev pub run_verify : Bytes → Bytes → Bytes → Run Never Bool
  run_verify pk msg sig = elim (vk_from_bytes p M pk) [
    | ok vk ↦ is_ok (verify p M vk msg [] sig)
    | err e ↦ ok false
    | panic ↦ panic
  ]

  pub verify_bytes_sized :
      (pk msg sig : Bytes)
      → length pk ≡ p.vk_len
      → length sig ≡ p.sig_len
      → length msg ≤ 8192
      → verify_bytes M K p p.vk_len p.sig_len pk msg sig ≡ run_verify pk msg sig
  unfolding verify_bytes
  verify_bytes_sized pk msg sig a b c = ground (
    arith,
    copy_matching K LK pk (zeros p.vk_len) (length-zeros p.vk_len ∙ sym a),
    copy_matching K LK sig (zeros p.sig_len) (length-zeros p.sig_len ∙ sym b),
    copy_matching K LK msg (take (length msg) (zeros 8192)) (length-prefix (length msg) 8192 c),
  )

  -- Any other lengths are answered by `false`.
  pub verify_bytes_unsized :
      (pk msg sig : Bytes)
      → ((length pk ≡ p.vk_len) × (length sig ≡ p.sig_len) × (length msg ≤ 8192))
        ⊎ (verify_bytes M K p p.vk_len p.sig_len pk msg sig ≡ ok false)
  unfolding verify_bytes
  verify_bytes_unsized pk msg sig = ground (
    arith,
    copy_matching K LK pk (zeros p.vk_len),
    length-zeros p.vk_len,
    copy_matching K LK sig (zeros p.sig_len),
    length-zeros p.sig_len,
  )

  run_verify_iff :
      (pk msg sig : Bytes)
      → (run_verify pk msg sig ≡ ok true) ↔ (
          (vk : M.VerifyingKey) × (vk_from_bytes p M pk ≡ ok vk)
          × (verify p M vk msg [] sig ≡ ok tt))
  run_verify_iff pk msg sig = (λ h. ground arith, λ a. ground arith)

  run_verify_safe : (pk msg sig : Bytes) → run_verify pk msg sig ≢ panic
  run_verify_safe pk msg sig = grind (arith, vk_from_bytes_safe p M pk, verify_safe p M)

  pub verify_bytes_iff :
      (pk msg sig : Bytes)
      → (verify_bytes M K p p.vk_len p.sig_len pk msg sig ≢ panic)
        × ((verify_bytes M K p p.vk_len p.sig_len pk msg sig ≡ ok true) ↔ (
            (length msg ≤ 8192)
            × ((vk : M.VerifyingKey) × (vk_from_bytes p M pk ≡ ok vk) × Accepts p M vk msg [] sig)))
  verify_bytes_iff pk msg sig = elim (verify_bytes_unsized pk msg sig) [
    | inr no_answer ↦ (
      rw no_answer (λ h. cc),
      (
        λ h. cc,
        λ (c, (vk, d, a)).
            verify_bytes_sized pk msg sig (length-vk_from_bytes p M pk d) a.1 c
            ∙ (run_verify_iff pk msg sig).1 (vk, d, (verify_iff p M vk msg [] sig).1 a),
      ),
    )
    | inl (a, b, c) ↦
        let run = verify_bytes_sized pk msg sig a b c in
        (
          rw run (run_verify_safe pk msg sig),
          (
            λ h.
                let (vk, d, v) = (run_verify_iff pk msg sig).0 (sym run ∙ h) in
                (c, (vk, d, (verify_iff p M vk msg [] sig).0 v)),
            λ (_, (vk, d, acc)).
                run ∙ (run_verify_iff pk msg sig).1 (vk, d, (verify_iff p M vk msg [] sig).1 acc),
          ),
        )
  ]

  pub decode_bytes_sized :
      (pk : Bytes) {vk : M.VerifyingKey}
      → length pk ≡ p.vk_len
      → vk_from_bytes p M pk ≡ ok vk
      → decode_bytes M K p p.vk_len pk ≡ ok true
  unfolding decode_bytes
  decode_bytes_sized pk a d =
      ground (arith, copy_matching K LK pk (zeros p.vk_len) (length-zeros p.vk_len ∙ sym a))

  pub decode_bytes_unsized :
      (pk : Bytes) → length pk ≢ p.vk_len → decode_bytes M K p p.vk_len pk ≡ ok false
  unfolding decode_bytes
  decode_bytes_unsized pk ne = ground arith

  decode_bytes-length :
      External.IsLawful M p.vk_len p.sk_len p.sig_len
      → (pk : Bytes) → decode_bytes M K p p.vk_len pk ≡ ok (length pk == p.vk_len)
  decode_bytes-length LM pk = elim (ℕ_discrete (length pk) p.vk_len) [
    | yes a ↦
        let (vk, d) = vk_from_bytes_sized p M LM pk a in
        rw (eq→== _ _ a) (decode_bytes_sized pk a d)
    | no ne ↦ rw (ne→== _ _ ne) (decode_bytes_unsized pk ne)
  ]

module _ (M : Backend) (K : Sdk) (LK : Host.IsLawful K) where
  -- Over a lawful SDK `verify65` answers for any three byte strings, and says `true` exactly when
  -- the message has at most 8192 bytes, the key decodes as an ML-DSA-65 key, and the backend
  -- accepts the signature, of the declared length, under the empty context.
  pub verify65_iff :
      (pk msg sig : Bytes)
      → (verify65 M K pk msg sig ≢ panic)
        × ((verify65 M K pk msg sig ≡ ok true) ↔ (
            (length msg ≤ 8192)
            × ((vk : M.VerifyingKey) × (vk_from_bytes mldsa65 M pk ≡ ok vk)
                × Accepts mldsa65 M vk msg [] sig)))
  unfolding verify65
  verify65_iff pk msg sig = verify_bytes_iff mldsa65 M K LK pk msg sig

  -- `verify44` likewise, with the lengths of ML-DSA-44.
  pub verify44_iff :
      (pk msg sig : Bytes)
      → (verify44 M K pk msg sig ≢ panic)
        × ((verify44 M K pk msg sig ≡ ok true) ↔ (
            (length msg ≤ 8192)
            × ((vk : M.VerifyingKey) × (vk_from_bytes mldsa44 M pk ≡ ok vk)
                × Accepts mldsa44 M vk msg [] sig)))
  unfolding verify44
  verify44_iff pk msg sig = verify_bytes_iff mldsa44 M K LK pk msg sig

  -- Over a lawful SDK and backend `decode65` tests the length of its argument and nothing else: any bytes of the declared length are a key.
  pub decode65-length :
      External.IsLawful M mldsa65.vk_len mldsa65.sk_len mldsa65.sig_len
      → (pk : Bytes) → decode65 M K pk ≡ ok (length pk == 1952)
  unfolding decode65
  decode65-length LM pk = decode_bytes-length mldsa65 M K LK LM pk

  pub decode44-length :
      External.IsLawful M mldsa44.vk_len mldsa44.sk_len mldsa44.sig_len
      → (pk : Bytes) → decode44 M K pk ≡ ok (length pk == 1312)
  unfolding decode44
  decode44-length LM pk = decode_bytes-length mldsa44 M K LK LM pk
