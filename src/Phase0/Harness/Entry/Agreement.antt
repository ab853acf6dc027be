-- ===== src/Phase0/Harness/Entry/Agreement.antt =====
-- The hand-built authorization entry beside pq-stellar and the account contract of phase0.
use soroban_ml_dsa.Prelude.{
  ℕ, ◌≡◌, subst, refl, sym, arith, Bytes, length, [], some, Option-cases, inl, inr, Run, Never, ok,
  err, panic, ◌>>=◌,
}
use soroban_ml_dsa.Prelude.Int.{ℤ}
use soroban_ml_dsa.Core.MlDsa.{mldsa65}
use soroban_ml_dsa.Core.MlDsa.External as Crate
use soroban_ml_dsa.Core.MlDsa.External.{Backend}
use soroban_ml_dsa.Core.MlDsa.Verify.{Accepts}
use soroban_ml_dsa.Stellar.External.{Xdr, address}
use soroban_ml_dsa.Stellar.Payload.{signature_payload}
use soroban_ml_dsa.Stellar.Auth.{Entry, bytes_to_scval}
use soroban_ml_dsa.Cli.External.{Crates}
use soroban_ml_dsa.Contracts.Host
use soroban_ml_dsa.Contracts.Host.{Sdk, Ledger}
use soroban_ml_dsa.Phase0.External as Direct
use soroban_ml_dsa.Phase0.External.{Calls}
use soroban_ml_dsa.Phase0.Account.{DataKey, pub_key, check_auth}
use soroban_ml_dsa.Phase0.Account.Check.{direct_check_auth_iff}
use soroban_ml_dsa.Phase0.Harness.External
use soroban_ml_dsa.Phase0.Harness.External.{Signing}
use soroban_ml_dsa.Phase0.Harness.Signed.{
  vk, key_bytes, sig_bytes, sign_checked, sign_checked_lem, vk_from_bytes-key_bytes,
}
use soroban_ml_dsa.Phase0.Harness.Entry.{
  protected_invocation, digest, entry_with, Authorized, authorize,
}

-- What is left of code that succeeds, after its first step.
pub run_then :
    {A B : Type 0} {P : Type 0} (r : Run Never A) (k : A → Run Never B) {b : B}
    → (r >>= k) ≡ ok b
    → ((a : A) → r ≡ ok a → k a ≡ ok b → P)
    → P
run_then (ok a) k h next = next a refl h
run_then (err e) k h next = elim e [ ]
run_then panic k h next = cc

module _ {Y : Xdr} (X : Crates Y) (M : Backend) (N : Calls M) (G : Signing M)
    (L : Crate.IsLawful M mldsa65.vk_len mldsa65.sk_len mldsa65.sig_len)
    (LN : Direct.IsLawful M N mldsa65.vk_len) (LG : External.IsLawful M G) where
  -- The payload is that of pq-stellar, the key accepts the signature over it, and the entry holds
  -- what pq-stellar puts there.
  abbrev pub Covers : Y.ScAddress → Bytes → ℤ → ℕ → Authorized X M N G → Type 0
  Covers account network_id nonce expiry a =
      (protected_invocation X account ≡ ok a.invocation)
      × (signature_payload Y X.sha256 (record {
        network_id = network_id;
        nonce = nonce;
        signature_expiration_ledger = expiry;
        invocation = a.invocation;
      })
          ≡ ok a.payload)
      × Accepts mldsa65 M (vk M N G) a.payload [] a.signature
      × ((v : Y.ScVal) × (bytes_to_scval Y a.signature ≡ ok v)
          × (a.entry ≡ record {
            credentials = address (record {
              address = account;
              nonce = nonce;
              signature_expiration_ledger = expiry;
              signature = v;
            });
            root_invocation = a.invocation;
          }))

  pub signature_payload-digest :
      (network_id : Bytes) (nonce : ℤ) (expiry : ℕ) (i : Y.SorobanAuthorizedInvocation)
      {payload : Bytes}
      → digest X network_id nonce expiry i ≡ ok payload
      → signature_payload Y X.sha256 (record {
        network_id = network_id;
        nonce = nonce;
        signature_expiration_ledger = expiry;
        invocation = i;
      })
        ≡ ok payload
  unfolding digest signature_payload
  signature_payload-digest network_id nonce expiry i h = ground arith

  entry_with-scval :
      (account : Y.ScAddress) (nonce : ℤ) (expiry : ℕ) (sig : Bytes)
      (i : Y.SorobanAuthorizedInvocation) {e : Entry Y}
      → entry_with X account nonce expiry sig i ≡ ok e
      → (v : Y.ScVal) × (bytes_to_scval Y sig ≡ ok v)
        × (e ≡ record {
          credentials = address (record {
            address = account;
            nonce = nonce;
            signature_expiration_ledger = expiry;
            signature = v;
          });
          root_invocation = i;
        })
  unfolding entry_with bytes_to_scval
  entry_with-scval account nonce expiry sig i h = elim (Option-cases (Y.sc_bytes sig)) [
    | inl none_left ↦ absurd (ground arith)
    | inr (s, e) ↦ (Y.scval_bytes s, rw e refl, ground arith)
  ]

  pub length-signature_payload :
      (network_id : Bytes) (nonce : ℤ) (expiry : ℕ) (i : Y.SorobanAuthorizedInvocation)
      {payload : Bytes}
      → ((b : Bytes) → length (X.sha256 b) ≡ 32)
      → signature_payload Y X.sha256 (record {
        network_id = network_id;
        nonce = nonce;
        signature_expiration_ledger = expiry;
        invocation = i;
      })
        ≡ ok payload
      → length payload ≡ 32
  unfolding signature_payload
  length-signature_payload network_id nonce expiry i {payload} sized h =
      elim (Option-cases (
        Y.to_xdr (record {
          network_id = network_id;
          nonce = nonce;
          signature_expiration_ledger = expiry;
          invocation = i;
        }))) [
          | inl e ↦ absurd (ground arith)
          | inr (b, e) ↦ let same : X.sha256 b ≡ payload = ground arith in rw (sym same) (sized b)
        ]

  pub authorize-Covers :
      (account : Y.ScAddress) (network_id : Bytes) (nonce : ℤ) (expiry : ℕ) {a : Authorized X M N G}
      → authorize X M N G account network_id nonce expiry ≡ ok a
      → Covers account network_id nonce expiry a
  unfolding authorize
  authorize-Covers account network_id nonce expiry {a} h =
      run_then (protected_invocation X account) _ h λ i hi h1.
        run_then (digest X network_id nonce expiry i) _ h1 λ payload hp h2.
          run_then (sign_checked M N G payload) _ h2 λ s hs h3.
            run_then (entry_with X account nonce expiry (sig_bytes M s) i) _ h3 λ e he h4.
              let (s', hs', good) = sign_checked_lem mldsa65 M N G L LN LG payload in
              let same : s' ≡ s = ground arith in
              let built : record {
                invocation = i;
                payload = payload;
                signature = sig_bytes M s;
                entry = e;
              }
                  ≡ a =
                ground arith in
              subst (Covers account network_id nonce expiry) built (
                hi,
                signature_payload-digest network_id nonce expiry i hp,
                rw (sym same) good,
                entry_with-scval account nonce expiry (sig_bytes M s) i he,
              )

  -- Over lawful crates, SDK and storage, where a digest has 32 bytes: an entry that is made for
  -- the key that an account contract of phase0 has stored carries a signature over the payload of
  -- pq-stellar, and `__check_auth` of the contract approves it.
  pub authorize_approved :
      (K : Sdk) (H : Ledger DataKey)
      → Host.IsLawful K
      → ((b : Bytes) → length (X.sha256 b) ≡ 32)
      → (env : H.Env) → H.get env pub_key ≡ some (key_bytes M (vk M N G))
      → (account : Y.ScAddress) (network_id : Bytes) (nonce : ℤ) (expiry : ℕ)
        {a : Authorized X M N G}
      → authorize X M N G account network_id nonce expiry ≡ ok a
      → Covers account network_id nonce expiry a
        × (check_auth M N K H env a.payload a.signature ≡ ok tt)
  authorize_approved K H LK sized env stored account network_id nonce expiry {a} h =
      let covers = authorize-Covers account network_id nonce expiry h in
      let (_, p, good, _) = covers in
      let long = length-signature_payload network_id nonce expiry a.invocation sized p in
      (
        covers,
        (direct_check_auth_iff M N K H LN LK env a.payload a.signature long).1 (
          key_bytes M (vk M N G),
          vk M N G,
          stored,
          vk_from_bytes-key_bytes mldsa65 M L (vk M N G),
          good,
        ),
      )
