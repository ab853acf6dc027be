-- ===== src/Core/MlDsa/Keys.antt =====
-- `Keypair` of crates/pq-core/src/schemes/mldsa.rs, and the binding as a lawful scheme.
use soroban_ml_dsa.Prelude.{
  ℕ, ◌≤◌, ◌≡◌, ◌≢◌, ◌⊎◌, inl, inr, refl, ◌++◌, arith, Bytes, length, take, drop, ok, err, panic,
  ℕ_discrete,
}
use soroban_ml_dsa.Core.Error.{invalid_length, max_context_len}
use soroban_ml_dsa.Core.Contract
use soroban_ml_dsa.Core.MlDsa.{
  Params, Keypair, from_seed, scheme, sign_into, vk_write_to, vk_from_bytes,
}
use soroban_ml_dsa.Core.MlDsa.External
use soroban_ml_dsa.Core.MlDsa.External.{Backend}
use soroban_ml_dsa.Core.MlDsa.Encode.{
  vk_bytes, vk_from_bytes-write_to, vk_write_to_cases, length-vk_write_to,
}
use soroban_ml_dsa.Core.MlDsa.Sign.{
  sig_bytes, verify-sign_into_ok, sign_into_cases, length-sign_into,
}
use soroban_ml_dsa.Core.MlDsa.Verify.{verify_safe}

module _ (p : Params) (M : Backend) where
  -- A seed of 32 bytes gives a pair whose verifying key is that of its signing key; any other
  -- length is reported, and nothing is padded or cut.
  pub from_seed_cases :
      (seed : Bytes)
      → ((length seed ≡ 32)
          × ((kp : Keypair M) × (from_seed p M seed ≡ ok kp)
              × (kp.signing ≡ M.from_seed seed)
              × (kp.verifying ≡ M.verifying_key kp.signing)))
        ⊎ ((length seed ≢ 32) × (from_seed p M seed ≡ err (invalid_length 32 (length seed))))
  unfolding from_seed
  from_seed_cases seed = elim (ℕ_discrete (length seed) 32) [
    | yes e ↦
        let k = M.from_seed seed in
        inl (e, (record { signing = k; verifying = M.verifying_key k }, ground arith, refl, refl))
    | no ne ↦ inr (ne, ground arith)
  ]

  pub from_seed_matches :
      (seed : Bytes) {kp : Keypair M}
      → from_seed p M seed ≡ ok kp
      → kp.verifying ≡ M.verifying_key kp.signing
  unfolding from_seed
  from_seed_matches seed h = ground arith

  pub vk_from_bytes_safe : (bytes : Bytes) → vk_from_bytes p M bytes ≢ panic
  unfolding vk_from_bytes
  vk_from_bytes_safe bytes = ground arith

module _ (p : Params) (M : Backend) (L : External.IsLawful M p.vk_len p.sk_len p.sig_len) where
  pub seed_total :
      (seed : Bytes) → length seed ≡ 32 → (kp : Keypair M) × (from_seed p M seed ≡ ok kp)
  seed_total seed h = elim (from_seed_cases p M seed) [
    | inl (_, (kp, e, _, _)) ↦ (kp, e)
    | inr (ne, _) ↦ absurd (ne h)
  ]

  sign_total :
      (k : M.ExpandedSigningKey) (message context out : Bytes)
      → length context ≤ max_context_len
      → length out ≡ p.sig_len
      → (n : ℕ) × (out' : Bytes) × (sign_into p M k message context out ≡ (ok n, out'))
  sign_total k message context out c o = elim (sign_into_cases p M L k message context out) [
    | inl (long, _) ↦ absurd (omega arith)
    | inr (inl (_, short, _)) ↦ absurd (omega arith)
    | inr (inr (_, _, (s, _, r))) ↦ (p.sig_len, sig_bytes p M s ++ drop p.sig_len out, r)
  ]

  write_total :
      (v : M.VerifyingKey) (out : Bytes)
      → length out ≡ p.vk_len
      → (n : ℕ) × (out' : Bytes) × (vk_write_to p M v out ≡ (ok n, out'))
  write_total v out h = elim (vk_write_to_cases p M L v out) [
    | inl (short, _) ↦ absurd (omega arith)
    | inr (_, r) ↦ (p.vk_len, vk_bytes p M v ++ drop p.vk_len out, r)
  ]

  read-write :
      (v : M.VerifyingKey) (out : Bytes) {n : ℕ} {out' : Bytes}
      → vk_write_to p M v out ≡ (ok n, out')
      → vk_from_bytes p M (take n out') ≡ ok v
  read-write v out e = elim (vk_write_to_cases p M L v out) [
    | inl (_, r) ↦ cc
    | inr (h, r) ↦ ground (arith, vk_from_bytes-write_to p M L v out h)
  ]

  -- What callers rely on.
  pub scheme-IsLawful : Contract.IsLawful (scheme p M)
  scheme-IsLawful = record {
    seed_total = seed_total;
    sign_total = sign_total;
    verify-sign = λ seed m c out {kp} s e.
        rw (from_seed_matches p M seed s) (verify-sign_into_ok p M L kp.signing m c out e);
    write_total = write_total;
    read-write = read-write;
    length-sign = length-sign_into p M;
    length-write = length-vk_write_to p M;
    read_safe = vk_from_bytes_safe p M;
    verify_safe = λ v m c s. (verify_safe p M v m c s).0;
  }
