-- ===== src/Examples/Account.antt =====
-- The program account.rs of phase0/harness over a stand-in test environment.
use soroban_ml_dsa.Prelude.{
  ◌⊎◌, ◌≢◌, ℕ, ◌≡◌, ◌↔◌, refl, subst, ap, arith, Bool, true, false, if◌then◌else◌, Option, some,
  none, List, [], ◌∷◌, Bytes, length, ok, zeros, Bytes-discrete, ℕ_discrete,
}
use soroban_ml_dsa.Prelude.Int.{ℤ}
use soroban_ml_dsa.Core.MlDsa.{mldsa65}
use soroban_ml_dsa.Core.MlDsa.Verify.{Accepts}
use soroban_ml_dsa.Stellar.External.{address}
use soroban_ml_dsa.Stellar.External.{Collision}
use soroban_ml_dsa.Stellar.Auth.{Entry}
use soroban_ml_dsa.Stellar.Auth.RoundTrip.{credentials_of}
use soroban_ml_dsa.Contracts.Host.{Ledger, IsLedger}
use soroban_ml_dsa.Phase0.Account.{DataKey, init, protected, approves, check_auth}
use soroban_ml_dsa.Prelude.Slices.{flip_at}
use soroban_ml_dsa.Phase0.Harness.Signed.{sig_bytes, vk, sign_checked}
use soroban_ml_dsa.Phase0.Harness.Entry.{protected_invocation, digest, entry_with, authorize}
use soroban_ml_dsa.Phase0.Harness.Account
use soroban_ml_dsa.Phase0.Harness.Account.{TestEnv, Report, nonce, other_nonce, expiry, main}
use soroban_ml_dsa.Phase0.Harness.Account.Runs.{main-Runs}
use soroban_ml_dsa.Examples.Toy.{fit, tag, SizedBytes, backend-IsLawful}
use soroban_ml_dsa.Examples.World as World
use soroban_ml_dsa.Examples.World.{wire, wire-IsLawful, sdk, sdk-IsLawful, to_bytes, length-digest}
use soroban_ml_dsa.Examples.Server.{crates}
use soroban_ml_dsa.Examples.Direct.{M, calls-IsLawful}
use soroban_ml_dsa.Examples.Signers.{signing-IsLawful, N, G}

record State : Type 0 where
  key : Option Bytes
  auths : List (Entry wire)

abbrev network : Bytes
network = 9 ∷ []

-- What the host computes for an entry, and the signature in it.
abbrev credential : Entry wire → Bytes × Bytes
credential e =
    let c = credentials_of e.credentials in
    (
      World.digest (
          to_bytes (record {
            network_id = network;
            nonce = c.nonce;
            signature_expiration_ledger = c.signature_expiration_ledger;
            invocation = e.root_invocation;
          })),
      c.signature,
    )

abbrev asked : List (Entry wire) → Option (Bytes × Bytes)
asked [] = none
asked (e ∷ _) = some (credential e)

abbrev consult : Option (Bytes × Bytes) → (Bytes → Bytes → Bool) → Bool
consult none check = false
consult (some (payload, signature)) check = check payload signature

abbrev host : Ledger DataKey
host = record {
  Env = State;
  get = λ env k. env.key;
  set = λ env k v. record env { key = some v };
  require_auth = λ env check. consult (asked env.auths) check;
  credential = λ env. asked env.auths;
}

asked_checks :
    (l : List (Entry wire)) (check : Bytes → Bytes → Bool)
    → consult (asked l) check ≡ true
    → (payload : Bytes) × (signature : Bytes) × (asked l ≡ some (payload, signature))
      × (length payload ≡ 32)
      × (check payload signature ≡ true)
asked_checks [] check h = cc
asked_checks (e ∷ l) check h = ((credential e).0, (credential e).1, refl, length-digest _, h)

host-IsLedger : IsLedger host
host-IsLedger = record {
  get-set = λ env k v. refl;
  require_auth_checks = λ env check h. asked_checks env.auths check h;
}

abbrev test_env : TestEnv wire host
test_env = record {
  registered = record { key = none; auths = [] };
  id = 0;
  network_id = network;
  set_auths = λ l env. record env { auths = l };
  after = λ env. record env { auths = [] };
  cost = λ env. (310_000_000, 2000);
  usable = λ env n e. true;
}

require_auth_asks :
    (env : State) (n : ℤ) (e : ℕ) (sig : Bytes) (i : ℕ) {payload : Bytes} {entry : Entry wire}
    → digest crates network n e i ≡ ok payload
    → entry_with crates 0 n e sig i ≡ ok entry
    → (check : Bytes → Bytes → Bool)
    → host.require_auth (test_env.set_auths (entry ∷ []) env) check ≡ check payload sig
unfolding digest entry_with
require_auth_asks env n e sig i {payload} {entry} a b check =
    let made : Entry wire = record {
      credentials =
          address
            (record { address = 0; nonce = n; signature_expiration_ledger = e; signature = sig });
      root_invocation = i;
    } in
    let same : made ≡ entry = ground arith in
    let p : (credential made).0 ≡ payload = ground arith in
    subst (λ x. host.require_auth (test_env.set_auths (x ∷ []) env) check ≡ check payload sig) same
      (ap (λ x. check x sig) p)

test_env-IsLawful : Account.IsLawful host test_env crates
test_env-IsLawful = record {
  get-set_auths = λ l env k. refl;
  get-after = λ env k. refl;
  usable_registered = λ n. refl;
  usable-set = λ env k v n e. refl;
  usable-after = λ env n n' e e' sig i a b. refl;
  require_auth_asks = λ env n e sig {i} u a b c check. require_auth_asks env n e sig i b c check;
}

invoked : protected_invocation crates 0 ≡ ok 5
unfolding protected_invocation
invoked = refl

abbrev digest_of : ℤ → Bytes
digest_of n = World.digest (
    to_bytes (record {
      network_id = network;
      nonce = n;
      signature_expiration_ledger = 1000;
      invocation = 5;
    }))

digested : (n : ℤ) → digest crates network n expiry 5 ≡ ok (digest_of n)
unfolding digest
digested n = refl

main-Runs_example :
    (report : Report) × (s : SizedBytes 3309) × (bad : Bytes) × (leak : Bool) × (main crates M N G
        sdk host test_env
      ≡ ok report)
    × (sign_checked M N G (digest_of nonce) ≡ ok s)
    × (flip_at 500 (sig_bytes M s) ≡ some bad)
    × (report.returned ≡ 42)
    × (report.tampered ≡ (if leak then some 42 else none))
    × ((leak ≡ true) ↔ Accepts mldsa65 M (vk M N G) (digest_of other_nonce) [] bad)
    × ((digest_of nonce ≢ digest_of other_nonce) ⊎ Collision World.digest)
main-Runs_example =
    main-Runs crates M N G sdk host test_env (backend-IsLawful 1952 4032 3309)
      (calls-IsLawful 1952 4032 3309) (signing-IsLawful 1952 4032 3309) sdk-IsLawful host-IsLedger
      test_env-IsLawful wire-IsLawful length-digest invoked (digested nonce) (digested other_nonce)

-- The call with the tampered signature is rejected.
main_run :
    (report : Report) × (main crates M N G sdk host test_env ≡ ok report) × (report.tampered ≡ none)
unfolding main authorize protected_invocation digest entry_with init protected approves check_auth
    flip_at sign_checked fit tag zeros World.digest Bytes-discrete ℕ_discrete
main_run = (_, refl, refl)
