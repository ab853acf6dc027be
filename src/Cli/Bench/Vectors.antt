-- ===== src/Cli/Bench/Vectors.antt =====
-- The inputs that crates/pq-cli/src/bin/bench.rs sends, before the contract that it measures.
use soroban_ml_dsa.Prelude.{
  inl, inr, subst, ap, ℕ, ◌≤◌, ◌≡◌, refl, arith, true, Bytes, length, [], zeros, length-zeros,
  take_all, ok, err, panic,
}
use soroban_ml_dsa.Core.Traits.{Filled}
use soroban_ml_dsa.Core.MlDsa.{
  Params, Keypair, from_seed, vk_write_to, sign_into, vk_from_bytes, verify,
}
use soroban_ml_dsa.Core.MlDsa.External
use soroban_ml_dsa.Core.MlDsa.External.{Backend}
use soroban_ml_dsa.Core.MlDsa.Encode.{
  length-vk_write_to, vk_write_to_cases, vk_from_bytes-write_to, length-vk_from_bytes,
}
use soroban_ml_dsa.Core.MlDsa.Sign.{length-sign_into, verify-sign_into}
use soroban_ml_dsa.Core.MlDsa.Verify.{verify_iff}
use soroban_ml_dsa.Core.MlDsa.Keys.{from_seed_matches}
use soroban_ml_dsa.Contracts.Host
use soroban_ml_dsa.Contracts.Host.{Sdk}
use soroban_ml_dsa.Contracts.Verifier.{verify_bytes, decode_bytes}
use soroban_ml_dsa.Contracts.Verifier.Laws.{verify_bytes_iff, decode_bytes_sized}
use soroban_ml_dsa.Cli.Bench.{written, key_vector, sign_vector}

written_ok : (r : Filled) {n : ℕ} → r.0 ≡ ok n → written r ≡ ok r.1
written_ok (ok n, out) h = refl
written_ok (err e, out) h = cc
written_ok (panic, out) h = cc

module _ (p : Params) (M : Backend) (L : External.IsLawful M p.vk_len p.sk_len p.sig_len) where
  key_vector_lem :
      (kp : Keypair M)
      → (vk : Bytes) × (key_vector p M kp ≡ ok vk) × (vk_from_bytes p M vk ≡ ok kp.verifying)
  unfolding key_vector
  key_vector_lem kp =
      let out = zeros p.vk_len in
      let fits : p.vk_len ≤ length out = omega (arith, length-zeros p.vk_len) in
      let read = vk_from_bytes-write_to p M L kp.verifying out fits in
      let whole : length (vk_write_to p M kp.verifying out).1 ≤ p.vk_len =
        omega (arith, length-vk_write_to p M kp.verifying out, length-zeros p.vk_len) in
      (
        (vk_write_to p M kp.verifying out).1,
        written_ok (vk_write_to p M kp.verifying out) {n = p.vk_len}
            (elim (vk_write_to_cases p M L kp.verifying out) [
              | inl (short, _) ↦ absurd (omega arith)
              | inr (_, e) ↦ ap (λ r. r.0) e
            ]),
        subst (λ b. vk_from_bytes p M b ≡ ok kp.verifying) (take_all p.vk_len _ whole) read,
      )

  sign_vector_lem :
      (seed m : Bytes) {kp : Keypair M}
      → from_seed p M seed ≡ ok kp
      → (sig : Bytes) × (sign_vector p M kp m ≡ ok sig) × (verify p M kp.verifying m [] sig ≡ ok tt)
  unfolding sign_vector
  sign_vector_lem seed m {kp} e =
      let out = zeros p.sig_len in
      let fits : p.sig_len ≤ length out = omega (arith, length-zeros p.sig_len) in
      let (done, good) = verify-sign_into p M L kp.signing m [] out (omega arith) fits in
      let whole : length (sign_into p M kp.signing m [] out).1 ≤ p.sig_len =
        omega (arith, length-sign_into p M kp.signing m [] out, length-zeros p.sig_len) in
      (
        (sign_into p M kp.signing m [] out).1,
        written_ok (sign_into p M kp.signing m [] out) done,
        rw (from_seed_matches p M seed e) (
            subst (λ b. verify p M (M.verifying_key kp.signing) m [] b ≡ ok tt)
              (take_all p.sig_len _ whole) good),
      )

  -- Over a lawful backend and SDK, from any seed that gives a key pair and for any message of at
  -- most 8192 bytes: the buffers that are sent hold a key and a signature that the contract
  -- accepts, and a key that it decodes.
  pub vectors_accepted :
      (K : Sdk)
      → Host.IsLawful K
      → (seed m : Bytes) {kp : Keypair M} → from_seed p M seed ≡ ok kp
      → length m ≤ 8192
      → (vk : Bytes) × (sig : Bytes) × (key_vector p M kp ≡ ok vk)
        × (sign_vector p M kp m ≡ ok sig)
        × (decode_bytes M K p p.vk_len vk ≡ ok true)
        × (verify_bytes M K p p.vk_len p.sig_len vk m sig ≡ ok true)
  vectors_accepted K LK seed m {kp} e short =
      let (vk, k, d) = key_vector_lem kp in
      let (sig, s, v) = sign_vector_lem seed m e in
      (
        vk,
        sig,
        k,
        s,
        decode_bytes_sized p M K LK vk (length-vk_from_bytes p M vk d) d,
        (verify_bytes_iff p M K LK vk m sig).1.1
            (short, (kp.verifying, d, (verify_iff p M kp.verifying m [] sig).0 v)),
      )
