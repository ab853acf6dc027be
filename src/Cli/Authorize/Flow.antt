-- ===== src/Cli/Authorize/Flow.antt =====
-- A whole run of crates/pq-cli/src/bin/authorize.rs.
use text.Mathlib.TextEquality.{eq_iff}
use soroban_ml_dsa.Prelude.{
  subst, ap, sym, ◌∙◌, none, ◌≢◌, true, ℕ, ◌≡◌, refl, arith, String, Bytes, some, [], ◌∷◌, Option,
  ok,
}
use soroban_ml_dsa.Prelude.Int.{ℤ}
use soroban_ml_dsa.Core.MlDsa.{mldsa65, scheme, Keypair, from_seed}
use soroban_ml_dsa.Core.MlDsa.External
use soroban_ml_dsa.Core.MlDsa.External.{Backend}
use soroban_ml_dsa.Core.MlDsa.Verify.{Accepts, verify_iff}
use soroban_ml_dsa.Core.MlDsa.Keys.{scheme-IsLawful}
use soroban_ml_dsa.Stellar.External as XdrLaws
use soroban_ml_dsa.Stellar.External.{Xdr}
use soroban_ml_dsa.Stellar.Payload.{
  AuthorizationPayload, signature_payload, network_id, testnet_passphrase,
}
use soroban_ml_dsa.Stellar.Auth.{Entry, build_auth_entry}
use soroban_ml_dsa.Stellar.Auth.RoundTrip.{credentials_of, host_payload, build_auth_entry_lem}
use soroban_ml_dsa.Contracts.Account
use soroban_ml_dsa.Contracts.Account.Check.{context-short}
use soroban_ml_dsa.Cli.External.{Json, System, Crates}
use soroban_ml_dsa.Cli.Transactions.{
  Op, Tx, SimResult, contract_addr, account_pk, secret_seed, invoke_op, build_tx,
}
use soroban_ml_dsa.Cli.Rpc.{submit, account_state}
use soroban_ml_dsa.Cli.Authorize.Stages.{main_stages}
use soroban_ml_dsa.Cli.Authorize.Built.{invocation, auth_transaction-Built}
use soroban_ml_dsa.Cli.Authorize.{
  context, key_seed, plus_1, authorization_payload, auth_transaction, transaction, main, succeeded,
}

-- The constant of the client is that of the contract.
pub contexts_agree : context ≡ Account.context
unfolding context Account.context
contexts_agree = refl

module _ {Y : Xdr} (M : Backend) (J : Json) (S : System) (X : Crates Y) where
  -- An entry for an account and a payload, with a signature that passes under the contract's
  -- context.
  abbrev pub Authorizes :
      Y.ScAddress → Keypair M → AuthorizationPayload Y → Bytes → Entry Y → Type 0
  Authorizes address kp payload digest entry =
      (s : Y.ScBytes) × ((credentials_of entry.credentials).address ≡ address)
      × ((credentials_of entry.credentials).signature ≡ Y.scval_bytes s)
      × (host_payload Y payload.network_id entry ≡ payload)
      × Accepts mldsa65 M kp.verifying digest Account.context (Y.as_slice s)

  pub entry-Authorizes :
      External.IsLawful M mldsa65.vk_len mldsa65.sk_len mldsa65.sig_len
      → XdrLaws.IsLawful Y
      → (address : Y.ScAddress) (kp : Keypair M) (payload : AuthorizationPayload Y) {digest : Bytes}
        {entry : Entry Y}
      → from_seed mldsa65 M key_seed ≡ ok kp
      → signature_payload Y X.sha256 payload ≡ ok digest
      → build_auth_entry Y X.sha256 (scheme mldsa65 M) address kp.signing payload context ≡ ok entry
      → Authorizes address kp payload digest entry
  entry-Authorizes LM LY address kp payload {digest} {entry} k c d =
      let d' =
        subst
          (λ x.
            build_auth_entry Y X.sha256 (scheme mldsa65 M) address kp.signing payload x ≡ ok entry)
          contexts_agree d in
      let (entry', s, built, account, signature, replayed, _, v) =
        build_auth_entry_lem Y X.sha256 (scheme mldsa65 M) LY (scheme-IsLawful mldsa65 M LM) address
          key_seed Account.context payload k context-short c (omega arith) in
      let same : entry' ≡ entry = cc in
      let accepted =
        (verify_iff mldsa65 M kp.verifying digest Account.context (Y.as_slice s)).0 v in
      subst (λ e. Authorizes address kp payload digest e) same
        (s, account, signature, replayed, accepted)

  pub transaction_lem :
      (mode : Option String)
      → mode ≢ some "init"
      → (source : Bytes) (account : String) (kp : Keypair M) (seq : ℤ) (latest : ℕ)
      → transaction M J S X mode source account kp seq latest
        ≡ auth_transaction M J S X source account kp seq latest
  unfolding transaction
  transaction_lem none h source account kp seq latest = refl
  transaction_lem (some m) h source account kp seq latest = ground (arith, eq_iff m "init")

  -- Over lawful crates, if the tool finishes in any mode but `init`, then the source account's next
  -- transaction was submitted under the secret of the environment and the server reported success.
  -- That transaction calls `protected` with one entry, for the given contract and the payload made
  -- from the latest ledger, whose signature the verifying key of the fixed seed accepts under the
  -- contract's context.
  pub main-Authorizes :
      External.IsLawful M mldsa65.vk_len mldsa65.sk_len mldsa65.sig_len
      → XdrLaws.IsLawful Y
      → (source_text account : String) (mode : Option String) (secret : String) (w : S.World)
        {w' : S.World}
      → mode ≢ some "init"
      → main M J S X source_text account mode secret w ≡ (ok tt, w')
      → (seed : Bytes) × (source : Bytes) × (kp : Keypair M) × (seq : ℤ) × (latest : ℕ) × (tx : Tx
          X)
        × (sim : SimResult X) × (r : J.Value) × (w1 : S.World) × (w2 : S.World) × (secret_seed X
              secret
            ≡ ok seed)
        × (account_pk X source_text ≡ ok source)
        × (from_seed mldsa65 M key_seed ≡ ok kp)
        × (account_state J S X source w ≡ (ok (seq, latest), w1))
        × ((address : Y.ScAddress) × (name : X.ScSymbol) × (digest : Bytes) × (entry : Entry Y)
            × (op : Op X) × (contract_addr X account ≡ ok address)
            × (X.symbol "protected" ≡ some name)
            × (invoke_op X account "protected" [] (entry ∷ []) ≡ ok op)
            × (build_tx X source (plus_1 seq) op ≡ ok tx)
            × (signature_payload Y X.sha256
                  (authorization_payload X latest (invocation X address name))
                ≡ ok digest)
            × Authorizes address kp
                (authorization_payload X latest (invocation X address name))
                digest
                entry)
        × (submit J S X tx sim seed (network_id X.sha256 testnet_passphrase) w2 ≡ (ok r, w'))
        × (succeeded M J S X r ≡ true)
  main-Authorizes LM LY source_text account mode secret w other h =
      let (seed, source, kp, seq, latest, tx, sim, r, w1, w2, a, b, c, d, e, f, good) =
        main_stages M J S X source_text account mode secret w h in
      let same = transaction_lem mode other source account kp seq latest in
      let (address, name, digest, entry, op, at, named, m, built, o, t) =
        auth_transaction-Built M J S X source account kp seq latest w1
          (ap (λ m. m w1) (sym same) ∙ e) in
      let payload = authorization_payload X latest (invocation X address name) in
      let signed = entry-Authorizes LM LY address kp payload c m built in
      (
        seed,
        source,
        kp,
        seq,
        latest,
        tx,
        sim,
        r,
        w1,
        w2,
        a,
        b,
        c,
        d,
        (address, name, digest, entry, op, at, named, o, t, m, signed),
        f,
        good,
      )
