-- ===== src/Phase0/Harness/Account.antt =====
-- phase0/harness/src/bin/account.rs: the account contract in the test environment of soroban-sdk,
-- authorized by an ML-DSA-65 signature, and then by one that is tampered with.
pub mod Parts
pub mod Runs
use soroban_ml_dsa.Prelude.{
  ℕ, ◌-◌, ◌≤◌, ◌≡◌, ◌≢◌, Bool, true, Option, some, none, Bytes, length, List, [], ◌∷◌, Run, Never,
  ok, err, panic, ◌>>=◌, or_panic, unwrap,
}
use soroban_ml_dsa.Prelude.Int.{ℤ, pos}
use soroban_ml_dsa.Core.MlDsa.External.{Backend}
use soroban_ml_dsa.Stellar.External.{Xdr}
use soroban_ml_dsa.Stellar.Auth.{Entry}
use soroban_ml_dsa.Contracts.Host.{Sdk, Ledger}
use soroban_ml_dsa.Cli.External.{Crates}
use soroban_ml_dsa.Phase0.External.{Calls}
use soroban_ml_dsa.Phase0.Account as Contract
use soroban_ml_dsa.Phase0.Account.{DataKey}
use soroban_ml_dsa.Phase0.Harness.External.{Signing}
use soroban_ml_dsa.Prelude.Slices.{flip_at}
use soroban_ml_dsa.Phase0.Harness.Signed.{key_bytes, vk}
use soroban_ml_dsa.Phase0.Harness.Entry.{
  protected_invocation, digest, entry_with, Authorized, authorize,
}

abbrev pub tx_max_insn : ℕ
tx_max_insn = 400_000_000

abbrev pub nonce : ℤ
nonce = pos 0xCAFE

-- The nonce of the negative control.
abbrev pub other_nonce : ℤ
other_nonce = pos 0xBEEF

abbrev pub expiry : ℕ
expiry = 1000

-- The test environment of soroban-sdk, which is not in the repository.
pub record TestEnv (Y : Xdr) (H : Ledger DataKey) : Type 0 where
  -- `Env::default()` with the contract registered, and the address of the contract.
  pub registered : H.Env
  pub id : Y.ScAddress
  pub network_id : Bytes
  pub set_auths : List (Entry Y) → H.Env → H.Env
  -- The state after a call that was let pass: its nonces are spent.
  pub after : H.Env → H.Env
  -- The instructions and the memory of a call, from a budget that was reset.
  pub cost : H.Env → ℕ × ℕ
  -- A nonce is not spent, and an expiration ledger is neither past nor too far ahead.
  pub usable : H.Env → ℤ → ℕ → Bool

pub record IsLawful {Y : Xdr} (H : Ledger DataKey) (T : TestEnv Y H) (X : Crates Y) : Type 0 where
  pub get-set_auths :
      (l : List (Entry Y)) (env : H.Env) (k : DataKey) → H.get (T.set_auths l env) k ≡ H.get env k
  pub get-after : (env : H.Env) (k : DataKey) → H.get (T.after env) k ≡ H.get env k
  -- A new environment has spent no nonce, and its first ledger is near.
  pub usable_registered : (n : ℤ) → T.usable T.registered n 1000 ≡ true
  pub usable-set :
      (env : H.Env) (k : DataKey) (v : Bytes) (n : ℤ) (e : ℕ)
      → T.usable (H.set env k v) n e ≡ T.usable env n e
  -- A call spends the nonce of its entry, and no other.
  pub usable-after :
      (env : H.Env) (n n' : ℤ) (e e' : ℕ) (sig : Bytes) (i : Y.SorobanAuthorizedInvocation)
      {entry : Entry Y}
      → entry_with X T.id n e sig i ≡ ok entry
      → n ≢ n'
      → T.usable (T.after (T.set_auths (entry ∷ []) env)) n' e' ≡ T.usable env n' e'
  -- For the call that an entry is made for, the host gives the contract the digest of the entry's
  -- preimage and the entry's signature.
  pub require_auth_asks :
      (env : H.Env) (n : ℤ) (e : ℕ) (sig : Bytes) {i : Y.SorobanAuthorizedInvocation}
      {payload : Bytes} {entry : Entry Y}
      → T.usable env n e ≡ true
      → protected_invocation X T.id ≡ ok i
      → digest X T.network_id n e i ≡ ok payload
      → entry_with X T.id n e sig i ≡ ok entry
      → (check : Bytes → Bytes → Bool)
      → H.require_auth (T.set_auths (entry ∷ []) env) check ≡ check payload sig

pub record Report : Type 0 where
  pub returned : ℕ
  pub cpu : ℕ
  pub mem : ℕ
  pub headroom : ℕ
  -- What the call with the tampered signature returned; `none` where it was rejected.
  pub tampered : Option ℕ

-- `try_invoke_contract`: an error and a trap are both `Err`.
abbrev pub try_invoke : {E : Type 0} → Run E ℕ → Option ℕ
try_invoke (ok v) = some v
try_invoke (err e) = none
try_invoke panic = none

module _ {Y : Xdr} (X : Crates Y) (M : Backend) (N : Calls M) (G : Signing M) (K : Sdk)
    (H : Ledger DataKey) (T : TestEnv Y H) where
  unfoldable pub main : Run Never Report
  main = do
    let pk_b = key_bytes M (vk M N G)
    let (stored, env) = Contract.init H T.registered pk_b
    _ ← unwrap stored
    a ← authorize X M N G T.id T.network_id nonce expiry
    let called = T.set_auths (a.entry ∷ []) env
    r ← unwrap (Contract.protected M N K H called)
    let (cpu, mem) = T.cost called
    bad ← or_panic (flip_at 500 a.signature)
    bad_entry ← entry_with X T.id other_nonce expiry bad a.invocation
    let called_again = T.set_auths (bad_entry ∷ []) (T.after called)
    ok (record {
      returned = r;
      cpu = cpu;
      mem = mem;
      headroom = tx_max_insn - cpu;
      tampered = try_invoke (Contract.protected M N K H called_again);
    })
