-- ===== src/Phase0/Harness/Account/Runs.antt =====
-- A whole run of phase0/harness/src/bin/account.rs.
use soroban_ml_dsa.Prelude.{
  ◌⊎◌, inl, inr, Bytes-discrete, ◌-◌, ◌≡◌, ◌≢◌, ◌↔◌, refl, ◌∙◌, ap, arith, Bool, true,
  if◌then◌else◌, some, none, Bytes, length, [], ◌∷◌, ok, panic,
}
use soroban_ml_dsa.Prelude.Int.{ℤ}
use soroban_ml_dsa.Core.MlDsa.{mldsa65}
use soroban_ml_dsa.Core.MlDsa.External as Crate
use soroban_ml_dsa.Core.MlDsa.External.{Backend}
use soroban_ml_dsa.Core.MlDsa.Verify.{Accepts}
use soroban_ml_dsa.Stellar.External as XdrLaws
use soroban_ml_dsa.Stellar.External.{Xdr, address}
use soroban_ml_dsa.Stellar.External.{Collision}
use soroban_ml_dsa.Stellar.Payload.Binding.{signature_payload_binds}
use soroban_ml_dsa.Stellar.Auth.{Entry}
use soroban_ml_dsa.Contracts.Host
use soroban_ml_dsa.Contracts.Host.{Sdk, Ledger, IsLedger}
use soroban_ml_dsa.Cli.External.{Crates}
use soroban_ml_dsa.Phase0.External as Direct
use soroban_ml_dsa.Phase0.External.{Calls}
use soroban_ml_dsa.Phase0.Account as Contract
use soroban_ml_dsa.Phase0.Account.{DataKey, pub_key, check_auth, approves}
use soroban_ml_dsa.Phase0.Harness.External
use soroban_ml_dsa.Phase0.Harness.External.{Signing}
use soroban_ml_dsa.Prelude.Slices.{flip_at, flip_at_within}
use soroban_ml_dsa.Phase0.Harness.Signed.{key_bytes, sig_bytes, vk, sign_checked, sign_checked_lem}
use soroban_ml_dsa.Phase0.Harness.Entry.Agreement.{
  signature_payload-digest, length-signature_payload,
}
use soroban_ml_dsa.Phase0.Harness.Entry.{protected_invocation, digest, entry_with, authorize}
use soroban_ml_dsa.Phase0.Harness.Account
use soroban_ml_dsa.Phase0.Harness.Account.{
  TestEnv, nonce, other_nonce, expiry, Report, main, try_invoke,
}
use soroban_ml_dsa.Phase0.Harness.Account.Parts.{
  nonces_differ, tried, entry_with_total, approves_iff,
}

module _ {Y : Xdr} (X : Crates Y) (M : Backend) (N : Calls M) (G : Signing M) (K : Sdk)
    (H : Ledger DataKey) (T : TestEnv Y H)
    (L : Crate.IsLawful M mldsa65.vk_len mldsa65.sk_len mldsa65.sig_len)
    (LN : Direct.IsLawful M N mldsa65.vk_len) (LG : External.IsLawful M G) (LK : Host.IsLawful K)
    (LH : IsLedger H) (LT : Account.IsLawful H T X) (LY : XdrLaws.IsLawful Y)
    (sized : (bytes : Bytes) → length (X.sha256 bytes) ≡ 32) where
  abbrev env : H.Env
  env = H.set T.registered pub_key (key_bytes M (vk M N G))

  init_stores : Contract.init H T.registered (key_bytes M (vk M N G)) ≡ (ok tt, env)
  unfolding Contract.init
  init_stores = ground (arith, L.vk_array.length-as_slice (M.vk_encode (vk M N G)))

  authorize_total :
      {i : Y.SorobanAuthorizedInvocation} {payload : Bytes} {s : M.Signature} {entry : Entry Y}
      → protected_invocation X T.id ≡ ok i
      → digest X T.network_id nonce expiry i ≡ ok payload
      → sign_checked M N G payload ≡ ok s
      → entry_with X T.id nonce expiry (sig_bytes M s) i ≡ ok entry
      → authorize X M N G T.id T.network_id nonce expiry
        ≡ ok
            (record { invocation = i; payload = payload; signature = sig_bytes M s; entry = entry })
  unfolding authorize
  authorize_total a b d e = rw (a, b, d, e) refl

  length-digest :
      (n : ℤ) (i : Y.SorobanAuthorizedInvocation) {payload : Bytes}
      → digest X T.network_id n expiry i ≡ ok payload
      → length payload ≡ 32
  unfolding digest
  length-digest n i h =
      length-signature_payload X M N G L LN LG T.network_id n expiry i sized
        (signature_payload-digest X M N G L LN LG T.network_id n expiry i h)

  -- A call under an entry: it returns 42 where the key accepts the entry's signature, else it traps.
  protected_lem :
      (env' : H.Env) (n : ℤ) (sig : Bytes) {i : Y.SorobanAuthorizedInvocation} {payload : Bytes}
      {entry : Entry Y}
      → H.get env' pub_key ≡ some (key_bytes M (vk M N G))
      → T.usable env' n expiry ≡ true
      → protected_invocation X T.id ≡ ok i
      → digest X T.network_id n expiry i ≡ ok payload
      → entry_with X T.id n expiry sig i ≡ ok entry
      → (pass : Bool) × (Contract.protected M N K H (T.set_auths (entry ∷ []) env')
          ≡ (if pass then ok 42 else panic))
        × ((pass ≡ true) ↔ Accepts mldsa65 M (vk M N G) payload [] sig)
  unfolding Contract.protected
  protected_lem env' n sig {i} {payload} {entry} g u a b e =
      let called = T.set_auths (entry ∷ []) env' in
      let asks = LT.require_auth_asks env' n expiry sig u a b e (approves M N K H called) in
      let kept = LT.get-set_auths (entry ∷ []) env' pub_key ∙ g in
      (
        approves M N K H called payload sig,
        rw asks refl,
        approves_iff M N K H L LN LK called (vk M N G) payload sig kept (length-digest n i b),
      )

  -- Two nonces have two payloads.
  payloads_differ :
      (i : Y.SorobanAuthorizedInvocation) {payload payload' : Bytes}
      → digest X T.network_id nonce expiry i ≡ ok payload
      → digest X T.network_id other_nonce expiry i ≡ ok payload'
      → (payload ≢ payload') ⊎ Collision X.sha256
  payloads_differ i {payload} {payload'} b c = elim (Bytes-discrete payload payload') [
    | no ne ↦ inl ne
    | yes same ↦
        let p = signature_payload-digest X M N G L LN LG T.network_id nonce expiry i b in
        let q = signature_payload-digest X M N G L LN LG T.network_id other_nonce expiry i c in
        elim (signature_payload_binds Y X.sha256 LY _ _ (rw same at p) q) [
          | inl equal ↦ absurd (nonces_differ (ap (λ x. x.nonce) equal))
          | inr found ↦ inr found
        ]
  ]

  -- Over lawful crates, with a hash of 32 bytes, and a lawful test environment, where the
  -- invocation and both preimages encode: the program finishes, and the authorized call has
  -- returned 42. The call with the tampered signature returns 42 exactly if the key accepts those
  -- bytes over the payload of the other nonce, and else it is rejected; that payload is not the
  -- one that was signed, unless the hash has a collision.
  pub main-Runs :
      {i : Y.SorobanAuthorizedInvocation} {payload payload' : Bytes}
      → protected_invocation X T.id ≡ ok i
      → digest X T.network_id nonce expiry i ≡ ok payload
      → digest X T.network_id other_nonce expiry i ≡ ok payload'
      → let key = vk M N G in
        (report : Report) × (s : M.Signature) × (bad : Bytes) × (leak : Bool) × (main X M N G K H T
          ≡ ok report)
        × (sign_checked M N G payload ≡ ok s)
        × (flip_at 500 (sig_bytes M s) ≡ some bad)
        × (report.returned ≡ 42)
        × (report.tampered ≡ (if leak then some 42 else none))
        × ((leak ≡ true) ↔ Accepts mldsa65 M key payload' [] bad)
        × ((payload ≢ payload') ⊎ Collision X.sha256)
  unfolding main
  main-Runs {i} {payload} {payload'} a b c =
      let key = vk M N G in
      let (s, d, good) = sign_checked_lem mldsa65 M N G L LN LG payload in
      let (entry, e) =
        entry_with_total X LY T.id nonce expiry (sig_bytes M s) i (omega (arith, good.1)) in
      let (bad, f, len) = flip_at_within 500 (sig_bytes M s) (omega (arith, good.1)) in
      let (entry', e') =
        entry_with_total X LY T.id other_nonce expiry bad i (omega (arith, good.1)) in
      let called = T.set_auths (entry ∷ []) env in
      let usable = LT.usable-set T.registered pub_key (key_bytes M key) in
      let stored = LH.get-set T.registered pub_key (key_bytes M key) in
      let stored' =
        LT.get-after called pub_key ∙ LT.get-set_auths (entry ∷ []) env pub_key ∙ stored in
      let usable' =
        LT.usable-after env nonce other_nonce expiry expiry (sig_bytes M s) i e nonces_differ
        ∙ usable other_nonce expiry
        ∙ LT.usable_registered other_nonce in
      let (pass, p, iff) =
        protected_lem env nonce (sig_bytes M s) stored
          (usable nonce expiry ∙ LT.usable_registered nonce) a b e in
      let p' : Contract.protected M N K H called ≡ ok 42 = rw (iff.1 good) at p in
      let (leak, q, iff') = protected_lem (T.after called) other_nonce bad stored' usable' a c e' in
      let report : Report = record {
        returned = 42;
        cpu = (T.cost called).0;
        mem = (T.cost called).1;
        headroom = 400_000_000 - (T.cost called).0;
        tampered = try_invoke {E = Contract.Error} (if leak then ok 42 else panic);
      } in
      (
        report,
        s,
        bad,
        leak,
        rw (init_stores, authorize_total a b d e, p', f, e', q) refl,
        d,
        f,
        refl,
        tried leak,
        iff',
        payloads_differ i b c,
      )
