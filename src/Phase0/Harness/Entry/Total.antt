-- ===== src/Phase0/Harness/Entry/Total.antt =====
-- When the programs of phase0/harness can make the entry of a call of `protected`, and the call.
use soroban_ml_dsa.Prelude.{ℕ, ◌≡◌, refl, inl, inr, arith, Bytes, [], ◌∷◌, ok}
use soroban_ml_dsa.Prelude.Int.{ℤ}
use soroban_ml_dsa.Core.MlDsa.{mldsa65}
use soroban_ml_dsa.Core.MlDsa.External as Crate
use soroban_ml_dsa.Core.MlDsa.External.{Backend}
use soroban_ml_dsa.Stellar.External as XdrLaws
use soroban_ml_dsa.Stellar.External.{Xdr}
use soroban_ml_dsa.Stellar.Auth.{Entry}
use soroban_ml_dsa.Cli.External.{Crates}
use soroban_ml_dsa.Cli.Live.{Converts}
use soroban_ml_dsa.Cli.Poll.{verdict}
use soroban_ml_dsa.Cli.Transactions.{Op}
use soroban_ml_dsa.Phase0.External as Direct
use soroban_ml_dsa.Phase0.External.{Calls}
use soroban_ml_dsa.Phase0.Harness.External
use soroban_ml_dsa.Phase0.Harness.External.{Signing}
use soroban_ml_dsa.Phase0.Harness.Signed.{sig_bytes, sign_checked_lem}
use soroban_ml_dsa.Phase0.Harness.Account.Parts.{entry_with_total}
use soroban_ml_dsa.Phase0.Harness.Entry.{
  protected_invocation, digest, Authorized, authorize, protected_op,
}

module _ {Y : Xdr} (X : Crates Y) (V : Converts X) where
  protected_invocation_total :
      (account : Y.ScAddress)
      → (i : Y.SorobanAuthorizedInvocation) × (protected_invocation X account ≡ ok i)
  unfolding protected_invocation
  protected_invocation_total account =
      let (_, named) = V.protected in
      elim (verdict (protected_invocation X account)) [
        | inl done ↦ done
        | inr e ↦ absurd (ground arith)
      ]

  digest_total :
      (network_id : Bytes) (nonce : ℤ) (expiry : ℕ) (i : Y.SorobanAuthorizedInvocation)
      → (payload : Bytes) × (digest X network_id nonce expiry i ≡ ok payload)
  unfolding digest
  digest_total network_id nonce expiry i =
      let (b, e) = V.to_xdr (record {
        network_id = network_id;
        nonce = nonce;
        signature_expiration_ledger = expiry;
        invocation = i;
      }) in
      (X.sha256 b, rw e refl)

  pub protected_op_total :
      (account : Y.ScAddress) (entry : Entry Y)
      → (op : Op X) × (protected_op X account entry ≡ ok op)
  unfolding protected_op
  protected_op_total account entry =
      let (_, named) = V.protected in
      let (_, entries) = V.auth (entry ∷ []) (omega arith) in
      elim (verdict (protected_op X account entry)) [
        | inl done ↦ done
        | inr e ↦ absurd (ground arith)
      ]

  pub authorize_total :
      {M : Backend} (N : Calls M) (G : Signing M)
      → Crate.IsLawful M mldsa65.vk_len mldsa65.sk_len mldsa65.sig_len
      → Direct.IsLawful M N mldsa65.vk_len
      → External.IsLawful M G
      → XdrLaws.IsLawful Y
      → (account : Y.ScAddress) (network_id : Bytes) (nonce : ℤ) (expiry : ℕ)
      → (a : Authorized X M N G) × (authorize X M N G account network_id nonce expiry ≡ ok a)
  unfolding authorize
  authorize_total {M} N G L LN LG LY account network_id nonce expiry =
      let (i, a) = protected_invocation_total account in
      let (payload, b) = digest_total network_id nonce expiry i in
      let (s, signed, (_, long, _)) = sign_checked_lem mldsa65 M N G L LN LG payload in
      let (entry, e) = entry_with_total X LY account nonce expiry (sig_bytes M s) i (omega arith) in
      (
        record { invocation = i; payload = payload; signature = sig_bytes M s; entry = entry },
        rw (a, b, signed, e) refl,
      )
