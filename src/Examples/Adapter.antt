-- ===== src/Examples/Adapter.antt =====
-- The adapter's test of pq-stellar for ML-DSA-65, over stand-ins for the crates.
use soroban_ml_dsa.Prelude.{◌≡◌, ◌↔◌, refl, arith, some, Option, Bytes, replicate, ok, []}
use soroban_ml_dsa.Prelude.Int.{ℤ, pos}
use soroban_ml_dsa.Core.Contract
use soroban_ml_dsa.Core.Traits.{PqScheme}
use soroban_ml_dsa.Core.MlDsa.{mldsa65, scheme}
use soroban_ml_dsa.Core.MlDsa.External.{Backend}
use soroban_ml_dsa.Core.MlDsa.Keys.{scheme-IsLawful}
use soroban_ml_dsa.Stellar.Payload.{signature_payload}
use soroban_ml_dsa.Stellar.SchemeId.{SchemeId, ml_dsa65}
use soroban_ml_dsa.Stellar.SchemeId as Ids
use soroban_ml_dsa.Stellar.Tests.{payload, named_context, long_context, adapter}
use soroban_ml_dsa.Stellar.Tests.Rounds.{IsExact, Refused}
use soroban_ml_dsa.Stellar.Tests.Passes.{adapter_iff}
use soroban_ml_dsa.Stellar.Tests.MlDsa.{scheme-IsExact}
use soroban_ml_dsa.Examples.Toy.{backend, backend-IsLawful}
use soroban_ml_dsa.Examples.World.{wire, wire-IsLawful, digest}

abbrev M : Backend
M = backend 1952 4032 3309

abbrev S : PqScheme
S = scheme mldsa65 M

abbrev as_scval_bytes : Bytes → Option Bytes
as_scval_bytes v = some v

lawful : Contract.IsLawful S
lawful = scheme-IsLawful mldsa65 M (backend-IsLawful 1952 4032 3309)

exact : IsExact S
exact = scheme-IsExact mldsa65 M

encodes :
    (nonce : ℤ)
    → (msg : Bytes) × (signature_payload wire digest (payload wire digest as_scval_bytes 11 5 nonce)
        ≡ ok msg)
unfolding signature_payload
encodes nonce = (_, refl)

adapter_iff_example :
    (kp : S.Keypair) × (S.keypair.from_seed (replicate 32 3) ≡ ok kp)
    × ((adapter wire digest as_scval_bytes 11 5 S ml_dsa65 ≡ ok tt) ↔ (
        (Ids.of S ≡ some ml_dsa65)
        × Refused wire digest as_scval_bytes 11 5 S wire-IsLawful lawful exact
            (omega arith)
            encodes
            kp
            []
            (pos 1000)
        × Refused wire digest as_scval_bytes 11 5 S wire-IsLawful lawful exact
            (omega arith)
            encodes
            kp
            named_context
            (pos 1001)
        × Refused wire digest as_scval_bytes 11 5 S wire-IsLawful lawful exact
            (omega arith)
            encodes
            kp
            long_context
            (pos 1002)))
adapter_iff_example =
    adapter_iff wire digest as_scval_bytes 11 5 S wire-IsLawful lawful exact (omega arith) encodes
      (λ s. refl) refl (omega arith) (omega arith) ml_dsa65
