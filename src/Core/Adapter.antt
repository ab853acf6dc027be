-- ===== src/Core/Adapter.antt =====
-- `adapter_shaped_function` of crates/pq-core/src/schemes/slhdsa_sketch.rs, over any scheme that
-- keeps the promises of the trait layer.
use soroban_ml_dsa.Prelude.{
  ◌≡◌, ◌≢◌, ◌↔◌, arith, Bool, true, false, List, [], ◌∷◌, Bytes, Run, Never, ok, err, panic, is_ok,
}
use soroban_ml_dsa.Core.Traits.{PqScheme}
use soroban_ml_dsa.Core.MlDsa
use soroban_ml_dsa.Core.MlDsa.{mldsa65, mldsa44}
use soroban_ml_dsa.Core.MlDsa.External.{Backend}
use soroban_ml_dsa.Core.SlhDsa
use soroban_ml_dsa.Core.Contract.{IsLawful}

unfoldable pub adapter_shaped_function : (S : PqScheme) → Bytes → Bytes → Bytes → Run Never Bool
adapter_shaped_function S vk_bytes msg sig = elim (S.verifier.encode.from_bytes vk_bytes) [
  | ok vk ↦ is_ok (S.verifier.verify vk msg [] sig)
  | err e ↦ ok false
  | panic ↦ panic
]

-- The instances that `_instantiations_typecheck` names.
abbrev pub instantiations : (M65 M44 : Backend) → List (Bytes → Bytes → Bytes → Run Never Bool)
instantiations M65 M44 =
    adapter_shaped_function (MlDsa.scheme mldsa65 M65)
    ∷ adapter_shaped_function (MlDsa.scheme mldsa44 M44)
    ∷ adapter_shaped_function SlhDsa.scheme
    ∷ []

module _ (S : PqScheme) (L : IsLawful S) where
  -- Over a lawful scheme the adapter function answers for any bytes, and says `true` exactly when
  -- the key decodes and the signature verifies under the empty context.
  pub adapter_decides :
      (vk_bytes msg sig : Bytes)
      → (adapter_shaped_function S vk_bytes msg sig ≢ panic)
        × ((adapter_shaped_function S vk_bytes msg sig ≡ ok true) ↔ (
            (vk : S.VerifyingKey) × (S.verifier.encode.from_bytes vk_bytes ≡ ok vk)
            × (S.verifier.verify vk msg [] sig ≡ ok tt)))
  unfolding adapter_shaped_function
  adapter_decides vk_bytes msg sig = (
    grind (arith, L.read_safe vk_bytes, L.verify_safe),
    (λ h. ground arith, λ found. ground arith),
  )
