-- ===== src/Examples/Phase0.antt =====
-- The contracts of phase0 over the stand-ins: runs, and each theorem at a concrete input.
use soroban_ml_dsa.Prelude.{
  ◌≡◌, refl, some, none, [], ◌∷◌, Bytes, length, ℕ_discrete, ok, err, leb, if◌then◌else◌, false,
  zeros, Bytes-discrete,
}
use soroban_ml_dsa.Contracts.Verifier.{verify65}
use soroban_ml_dsa.Phase0.Account.{init, check_auth, not_inited, bad_pub_key_len, bad_sig_len}
use soroban_ml_dsa.Core.MlDsa.External as Crate
use soroban_ml_dsa.Phase0.External
use soroban_ml_dsa.Phase0.Account as First
use soroban_ml_dsa.Contracts.Account as Rebuilt
use soroban_ml_dsa.Phase0.Contract
use soroban_ml_dsa.Phase0.Contract.{ed25519}
use soroban_ml_dsa.Phase0.Contract.Agreement.{direct_verify_agrees}
use soroban_ml_dsa.Examples.Toy.{fit, tag}
use soroban_ml_dsa.Examples.World.{sdk, sdk-IsLawful, State}
use soroban_ml_dsa.Examples.Direct.{calls-IsLawful, M, N, host}

abbrev fresh : State
fresh = record { key = none; credential = none }

abbrev key : Bytes
key = fit 1952 (1 ∷ 2 ∷ [])

abbrev message : Bytes
message = fit 32 (3 ∷ [])

abbrev signature : Bytes
signature = (tag 3309 key message []).bytes

abbrev ready : State
ready = record fresh { key = some key }

-- `init` stores a key of the right length and refuses any other.
init_run : (init host fresh key).0 ≡ ok tt
unfolding init fit zeros
init_run = refl

init_short : init host fresh (1 ∷ []) ≡ (err bad_pub_key_len, fresh)
unfolding init
init_short = refl

check_run : check_auth M N sdk host ready message signature ≡ ok tt
unfolding check_auth fit tag ℕ_discrete Bytes-discrete zeros
check_run = refl

direct_verify_agrees_example :
    Contract.verify M N sdk key message signature
    ≡ (if leb (length message) 256 then verify65 M sdk key message signature else ok false)
direct_verify_agrees_example =
    direct_verify_agrees M N sdk sdk-IsLawful (calls-IsLawful 1952 4032 3309) key message signature
