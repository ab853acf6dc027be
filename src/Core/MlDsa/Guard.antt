-- ===== src/Core/MlDsa/Guard.antt =====
-- `size_guard` of crates/pq-core/src/schemes/mldsa.rs: the test that every use of the macro carries,
-- and which of the declared lengths it compares with the crate's.
use soroban_ml_dsa.Prelude.{
  ℕ, ◌≡◌, ◌↔◌, arith, some, Bytes, length, [], replicate, zeros, refl, sym, ◌∙◌, eq→==, none,
  if◌then◌else◌, length-zeros, ◌==◌, Run, Never, ok, panic, assert, unwrap, ◌>>=◌, ◌>>◌,
}
use soroban_ml_dsa.Prelude.Texts.{as_bytes}
use soroban_ml_dsa.Core.MlDsa.{Params, vk_encoding, sk_encoding, from_seed, sign_into, scheme}
use soroban_ml_dsa.Core.MlDsa.External.{Backend}
use soroban_ml_dsa.Core.MlDsa.Sign.{sig_bytes}

unfoldable pub guard_seed : Bytes
guard_seed = replicate 32 1

unfoldable pub guard_message : Bytes
unfolding as_bytes
guard_message = as_bytes "x"

module _ (p : Params) (M : Backend) where
  unfoldable pub declared_sizes_match_implementation : Run Never (Unit {0})
  declared_sizes_match_implementation = do
    kp ← unwrap (from_seed p M guard_seed)
    assert ((vk_encoding p M).encoded_len kp.verifying == (scheme p M).verifying_key_len)
    assert ((sk_encoding p M).encoded_len kp.signing == (scheme p M).signing_key_len)
    n ← unwrap (sign_into p M kp.signing guard_message [] (zeros p.sig_len)).0
    assert (n == (scheme p M).signature_len)
    assert ((scheme p M).seed_len == 32)

  -- What is left of the guard: whether the backend signs, and the length of what it signs.
  abbrev signed_length : Run Never (Unit {0})
  signed_length = elim (M.sign_deterministic (M.from_seed guard_seed) guard_message []) [
    | some s ↦ assert (length (sig_bytes p M s) == p.sig_len)
    | none ↦ panic
  ]

  signs :
      (k : M.ExpandedSigningKey)
      → unwrap {F = Never} (sign_into p M k guard_message [] (zeros p.sig_len)).0
        ≡ (elim (M.sign_deterministic k guard_message []) [
          | some s ↦ if length (sig_bytes p M s) == p.sig_len then ok p.sig_len else panic
          | none ↦ panic
        ])
  unfolding sign_into
  signs k = ground (arith, length-zeros p.sig_len)

  seeded :
      from_seed p M guard_seed
      ≡ ok (record {
        signing = M.from_seed guard_seed;
        verifying = M.verifying_key (M.from_seed guard_seed);
      })
  unfolding from_seed guard_seed
  seeded = refl

  guard-signed_length : declared_sizes_match_implementation ≡ signed_length
  unfolding declared_sizes_match_implementation
  guard-signed_length =
      let k = M.from_seed guard_seed in
      rw seeded (
        rw (eq→== p.vk_len p.vk_len refl)
          (rw (eq→== p.sk_len p.sk_len refl) (rw (signs k) (ground (arith)))))

  passes_iff : (signed_length ≡ ok tt) ↔ (
      (s : M.Signature) × (M.sign_deterministic (M.from_seed guard_seed) guard_message [] ≡ some s)
      × (length (sig_bytes p M s) ≡ p.sig_len))
  passes_iff = (λ h. ground arith, λ found. ground arith)

-- The guard passes exactly when the backend signs and the signature has the declared length. The
-- declared lengths of the keys make no difference to it.
pub guard_iff :
    (p : Params) (M : Backend) (vk_len sk_len : ℕ)
    → ((declared_sizes_match_implementation p M ≡ ok tt) ↔ (
        (s : M.Signature) × (M.sign_deterministic (M.from_seed guard_seed) guard_message []
          ≡ some s)
        × (length (sig_bytes p M s) ≡ p.sig_len)))
      × (declared_sizes_match_implementation (record p { vk_len = vk_len; sk_len = sk_len }) M
          ≡ declared_sizes_match_implementation p M)
guard_iff p M vk_len sk_len =
    let q : Params = record p { vk_len = vk_len; sk_len = sk_len } in
    (
      rw (guard-signed_length p M) (passes_iff p M),
      guard-signed_length q M ∙ sym (guard-signed_length p M),
    )
