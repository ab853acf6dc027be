-- ===== src/Phase0/Harness/Account/Parts.antt =====
-- What phase0/harness/src/bin/account.rs does in one step: an entry, and a question to the contract.
use soroban_ml_dsa.Prelude.{
  ℕ, ◌<◌, ◌^◌, ◌≡◌, ◌≢◌, ◌↔◌, refl, sym, ap, arith, Bool, true, false, if◌then◌else◌, some, none,
  Bytes, length, [], ok, panic,
}
use soroban_ml_dsa.Prelude.Int.{ℤ, pos, negsuc}
use soroban_ml_dsa.Core.MlDsa.{mldsa65}
use soroban_ml_dsa.Core.MlDsa.External as Crate
use soroban_ml_dsa.Core.MlDsa.External.{Backend}
use soroban_ml_dsa.Core.MlDsa.Verify.{Accepts}
use soroban_ml_dsa.Stellar.External as XdrLaws
use soroban_ml_dsa.Stellar.External.{Xdr, address}
use soroban_ml_dsa.Stellar.External.{Collision}
use soroban_ml_dsa.Stellar.Auth.{Entry}
use soroban_ml_dsa.Contracts.Host
use soroban_ml_dsa.Contracts.Host.{Sdk, Ledger, IsLedger}
use soroban_ml_dsa.Cli.External.{Crates}
use soroban_ml_dsa.Phase0.External as Direct
use soroban_ml_dsa.Phase0.External.{Calls}
use soroban_ml_dsa.Phase0.Account as Contract
use soroban_ml_dsa.Phase0.Account.{DataKey, pub_key, check_auth, approves}
use soroban_ml_dsa.Phase0.Account.Check.{direct_check_auth_iff}
use soroban_ml_dsa.Phase0.Harness.Signed.{key_bytes, vk_from_bytes-key_bytes}
use soroban_ml_dsa.Phase0.Harness.Entry.{entry_with}
use soroban_ml_dsa.Phase0.Harness.Account.{nonce, other_nonce, try_invoke}

pub nonces_differ : nonce ≢ other_nonce
nonces_differ h =
    absurd (omega (arith, ap (λ z. elim z as (λ x. ℕ) [ pos n ↦ n | negsuc n ↦ 0 ]) h))

pub tried :
    (b : Bool)
    → try_invoke {E = Contract.Error} (if b then ok 42 else panic) ≡ (if b then some 42 else none)
tried true = refl
tried false = refl

pub entry_with_total :
    {Y : Xdr} (X : Crates Y)
    → XdrLaws.IsLawful Y
    → (account : Y.ScAddress) (n : ℤ) (e : ℕ) (sig : Bytes) (i : Y.SorobanAuthorizedInvocation)
    → length sig < 2 ^ 32
    → (entry : Entry Y) × (entry_with X account n e sig i ≡ ok entry)
unfolding entry_with
entry_with_total {Y = Y} X LY account n e sig i short =
    let (s, h, _) = LY.sc_bytes_within sig short in
    (
      record {
        credentials = address (record {
          address = account;
          nonce = n;
          signature_expiration_ledger = e;
          signature = Y.scval_bytes s;
        });
        root_invocation = i;
      },
      rw h refl,
    )

module _ (M : Backend) (N : Calls M) (K : Sdk) (H : Ledger DataKey)
    (L : Crate.IsLawful M mldsa65.vk_len mldsa65.sk_len mldsa65.sig_len)
    (LN : Direct.IsLawful M N mldsa65.vk_len) (LK : Host.IsLawful K) where
  -- With a key stored, the contract approves exactly what the key accepts.
  pub approves_iff :
      (env : H.Env) (key : M.VerifyingKey) (payload signature : Bytes)
      → H.get env pub_key ≡ some (key_bytes M key)
      → length payload ≡ 32
      → (approves M N K H env payload signature ≡ true) ↔ Accepts mldsa65 M key payload [] signature
  unfolding approves
  approves_iff env key payload signature g long =
      let iff = direct_check_auth_iff M N K H LN LK env payload signature long in
      let read = vk_from_bytes-key_bytes mldsa65 M L key in
      (
        λ h.
            let (stored, v, g', d, a) = iff.0 (ground arith) in
            let same : v ≡ key = ground arith in rw (sym same) a,
        λ a. let h = iff.1 (key_bytes M key, key, g, read, a) in ground arith,
      )
