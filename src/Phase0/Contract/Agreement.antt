-- ===== src/Phase0/Contract/Agreement.antt =====
-- phase0/contract/src/lib.rs beside contracts/pq-verifier/src/lib.rs: the two answer alike.
use soroban_ml_dsa.Prelude.{
  ◌≤◌, ◌≡◌, ◌⊎◌, inl, inr, ◌∙◌, sym, arith, Bool, false, some, none, Bytes, length, take, zeros,
  length-zeros, leb, if◌then◌else◌, Run, Never, ok,
}
use soroban_ml_dsa.Core.MlDsa
use soroban_ml_dsa.Core.MlDsa.{Params, mldsa44, mldsa65, vk_from_bytes}
use soroban_ml_dsa.Core.MlDsa.External.{Backend}
use soroban_ml_dsa.Contracts.Host
use soroban_ml_dsa.Contracts.Host.{Sdk}
use soroban_ml_dsa.Contracts.Verifier
use soroban_ml_dsa.Contracts.Verifier.{verify65, verify44, decode65}
use soroban_ml_dsa.Contracts.Verifier.Laws.{verify_bytes_sized, run_verify, length-prefix}
use soroban_ml_dsa.Phase0.External
use soroban_ml_dsa.Phase0.External.{Calls}
use soroban_ml_dsa.Phase0.Contract

module _ (p : Params) (M : Backend) (N : Calls M) (K : Sdk) (LN : External.IsLawful M N p.vk_len)
    (LK : Host.IsLawful K) where
  -- Decoding and verifying as phase0 does, on inputs whose lengths are in order.
  abbrev pub run_direct : Bytes → Bytes → Bytes → Run Never Bool
  run_direct pk msg sig = elim (N.sig_try_from sig) [
    | some s ↦ ok (N.verify (M.vk_decode (N.key_from pk)) msg s)
    | none ↦ ok false
  ]

  pub vk_from_bytes-key_from :
      (pk : Bytes) → length pk ≡ p.vk_len → vk_from_bytes p M pk ≡ ok (M.vk_decode (N.key_from pk))
  unfolding vk_from_bytes
  vk_from_bytes-key_from pk a = ground (arith, LN.key_from_sized pk a)

  run_verify_direct :
      (pk msg sig : Bytes)
      → length pk ≡ p.vk_len
      → length sig ≡ p.sig_len
      → run_verify p M K LK pk msg sig ≡ run_direct pk msg sig
  unfolding MlDsa.verify
  run_verify_direct pk msg sig a b = grind (
    arith,
    vk_from_bytes-key_from pk a,
    LN.sig_try_from_lem sig,
    LN.verify_lem (M.vk_decode (N.key_from pk)) msg,
  )

  direct_bytes_sized :
      (pk msg sig : Bytes)
      → length pk ≡ p.vk_len
      → length sig ≡ p.sig_len
      → length msg ≤ 256
      → Contract.verify_bytes M N K p.vk_len p.sig_len pk msg sig ≡ run_direct pk msg sig
  unfolding Contract.verify_bytes
  direct_bytes_sized pk msg sig a b c = ground (
    arith,
    LK.copy_same_length pk (zeros p.vk_len) (a ∙ sym (length-zeros p.vk_len)),
    LK.copy_same_length sig (zeros p.sig_len) (b ∙ sym (length-zeros p.sig_len)),
    LK.copy_same_length msg (take (length msg) (zeros 256))
        (sym (length-prefix (length msg) 256 c)),
  )

  -- Any other lengths are answered by `false`, by both.
  agree_unsized :
      (pk msg sig : Bytes)
      → ((length pk ≡ p.vk_len) × (length sig ≡ p.sig_len) × (length msg ≤ 256))
        ⊎ (Contract.verify_bytes M N K p.vk_len p.sig_len pk msg sig ≡ (
            if leb (length msg) 256
            then Verifier.verify_bytes M K p p.vk_len p.sig_len pk msg sig
            else ok false))
  unfolding Contract.verify_bytes Verifier.verify_bytes
  agree_unsized pk msg sig = ground (
    arith,
    LK.copy_same_length pk (zeros p.vk_len),
    length-zeros p.vk_len,
    LK.copy_same_length sig (zeros p.sig_len),
    length-zeros p.sig_len,
  )

  -- phase0 answers as pq-verifier for messages of at most 256 bytes, and `false` for all others.
  pub verify_bytes_agree :
      (pk msg sig : Bytes)
      → Contract.verify_bytes M N K p.vk_len p.sig_len pk msg sig ≡ (
          if leb (length msg) 256
          then Verifier.verify_bytes M K p p.vk_len p.sig_len pk msg sig
          else ok false)
  verify_bytes_agree pk msg sig = elim (agree_unsized pk msg sig) [
    | inr same ↦ same
    | inl (a, b, c) ↦ ground (
      arith,
      direct_bytes_sized pk msg sig a b c,
      run_verify_direct pk msg sig a b,
      verify_bytes_sized p M K LK pk msg sig a b (omega arith),
    )
  ]

module _ (M : Backend) (N : Calls M) (K : Sdk) (LK : Host.IsLawful K) where
  -- Over a lawful SDK and a lawful `ml-dsa`, the `verify` of phase0 answers as `verify65` of
  -- pq-verifier for messages of at most 256 bytes, and `false` for all longer ones.
  pub direct_verify_agrees :
      External.IsLawful M N mldsa65.vk_len
      → (pk msg sig : Bytes)
      → Contract.verify M N K pk msg sig
        ≡ (if leb (length msg) 256 then verify65 M K pk msg sig else ok false)
  unfolding Contract.verify verify65
  direct_verify_agrees LN pk msg sig = verify_bytes_agree mldsa65 M N K LN LK pk msg sig

  -- `verify44` of phase0 likewise, beside `verify44` of pq-verifier.
  pub direct_verify44_agrees :
      External.IsLawful M N mldsa44.vk_len
      → (pk msg sig : Bytes)
      → Contract.verify44 M N K pk msg sig
        ≡ (if leb (length msg) 256 then verify44 M K pk msg sig else ok false)
  unfolding Contract.verify44 verify44
  direct_verify44_agrees LN pk msg sig = verify_bytes_agree mldsa44 M N K LN LK pk msg sig

  -- `decode_only` answers as `decode65` of pq-verifier.
  pub decode_only_agrees :
      External.IsLawful M N mldsa65.vk_len
      → (pk : Bytes) → Contract.decode_only M N K pk ≡ decode65 M K pk
  unfolding Contract.decode_only decode65 Verifier.decode_bytes
  decode_only_agrees LN pk = ground (
    arith,
    LK.copy_same_length pk (zeros 1952),
    length-zeros 1952,
    vk_from_bytes-key_from mldsa65 M N K LN LK pk,
  )
