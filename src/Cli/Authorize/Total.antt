-- ===== src/Cli/Authorize/Total.antt =====
-- When a run of crates/pq-cli/src/bin/authorize.rs finishes, in either of its modes.
use text.Mathlib.Text.{◌==◌}
use soroban_ml_dsa.Prelude.{
  ◌≤◌, Never, Bool-cases, true, ℕ, ◌≡◌, refl, arith, String, Bytes, inl, inr, length, none, some,
  [], ◌∷◌, Option, ok, sym, subst,
}
use soroban_ml_dsa.Prelude.Int.{ℤ}
use soroban_ml_dsa.Core.MlDsa.{mldsa65, scheme, Keypair, from_seed}
use soroban_ml_dsa.Core.MlDsa.External
use soroban_ml_dsa.Core.MlDsa.External.{Backend}
use soroban_ml_dsa.Core.MlDsa.Keys.{seed_total, scheme-IsLawful}
use soroban_ml_dsa.Stellar.External as XdrLaws
use soroban_ml_dsa.Stellar.External.{Xdr}
use soroban_ml_dsa.Stellar.Payload.{signature_payload, network_id, testnet_passphrase}
use soroban_ml_dsa.Stellar.Auth.{Entry, build_auth_entry, encode_verifying_key}
use soroban_ml_dsa.Stellar.Auth.RoundTrip.{build_auth_entry_lem, encode_verifying_key_lem}
use soroban_ml_dsa.Contracts.Account.Check.{context-short}
use soroban_ml_dsa.Cli.External.{Json, System, Crates}
use soroban_ml_dsa.Cli.Transactions.{
  Op, Tx, SimResult, contract_addr, account_pk, secret_seed, invoke_op, build_tx,
}
use soroban_ml_dsa.Cli.Act.{Act}
use soroban_ml_dsa.Cli.Rpc.{simulate, submit, account_state}
use soroban_ml_dsa.Cli.Live.{
  Converts, Serves, Includes, invoke_op_total, build_tx_total, simulate_total, submit_total,
}
use soroban_ml_dsa.Cli.Authorize.Built.{invocation}
use soroban_ml_dsa.Cli.Authorize.Flow.{contexts_agree}
use soroban_ml_dsa.Cli.Authorize.{
  context, key_seed, plus_1, authorization_payload, init_transaction, auth_transaction, transaction,
  main, succeeded,
}

length-key_seed : length key_seed ≡ 32
unfolding key_seed
length-key_seed = refl

module _ {Y : Xdr} (M : Backend) (J : Json) (S : System) (X : Crates Y) where
  entry_total :
      External.IsLawful M mldsa65.vk_len mldsa65.sk_len mldsa65.sig_len
      → XdrLaws.IsLawful Y
      → (address : Y.ScAddress) (latest : ℕ) (i : Y.SorobanAuthorizedInvocation) {kp : Keypair M}
        {digest : Bytes}
      → from_seed mldsa65 M key_seed ≡ ok kp
      → signature_payload Y X.sha256 (authorization_payload X latest i) ≡ ok digest
      → (entry : Entry Y) × (build_auth_entry Y X.sha256
            (scheme mldsa65 M)
            address
            kp.signing
            (authorization_payload X latest i)
            context
          ≡ ok entry)
  entry_total LM LY address latest i {kp} k m =
      let (entry, _, built, _, _, _, _, _) =
        build_auth_entry_lem Y X.sha256 (scheme mldsa65 M) LY (scheme-IsLawful mldsa65 M LM) address
          key_seed context (authorization_payload X latest i) k
          (subst (λ c. length c ≤ 255) (sym contexts_agree) context-short) m (omega arith) in
      (entry, built)

  auth_transaction_total :
      (source : Bytes) (account : String) (kp : Keypair M) (seq : ℤ) (latest : ℕ) (w : S.World)
      {address : Y.ScAddress} {name : X.ScSymbol} {digest : Bytes} {entry : Entry Y} {op : Op X}
      {tx : Tx X} {sim : SimResult X} {w' : S.World}
      → contract_addr X account ≡ ok address
      → X.symbol "protected" ≡ some name
      → signature_payload Y X.sha256 (authorization_payload X latest (invocation X address name))
        ≡ ok digest
      → build_auth_entry Y X.sha256
          (scheme mldsa65 M)
          address
          kp.signing
          (authorization_payload X latest (invocation X address name))
          context
        ≡ ok entry
      → invoke_op X account "protected" [] (entry ∷ []) ≡ ok op
      → build_tx X source (plus_1 seq) op ≡ ok tx
      → simulate J S X tx (some "enforce") w ≡ (ok sim, w')
      → auth_transaction M J S X source account kp seq latest w ≡ (ok (tx, sim), w')
  unfolding auth_transaction
  auth_transaction_total source account kp seq latest w a b c d e f g =
      rw a (rw b (rw c (rw d (rw e (rw f (rw g refl))))))

  init_transaction_total :
      (source : Bytes) (account : String) (kp : Keypair M) (seq : ℤ) (w : S.World) {vk : Y.ScVal}
      {op : Op X} {tx : Tx X} {sim : SimResult X} {w' : S.World}
      → encode_verifying_key Y (scheme mldsa65 M) kp.verifying ≡ ok vk
      → invoke_op X account "init" (vk ∷ []) [] ≡ ok op
      → build_tx X source (plus_1 seq) op ≡ ok tx
      → simulate J S X tx none w ≡ (ok sim, w')
      → init_transaction M J S X source account kp seq w ≡ (ok (tx, sim), w')
  unfolding init_transaction
  init_transaction_total source account kp seq w a b c d = rw a (rw b (rw c (rw d refl)))

  payload_total :
      Converts X
      → (latest : ℕ) (i : Y.SorobanAuthorizedInvocation)
      → (digest : Bytes) × (signature_payload Y X.sha256 (authorization_payload X latest i)
          ≡ ok digest)
  unfolding signature_payload authorization_payload
  payload_total V latest i =
      let p = authorization_payload X latest i in
      let (b, e) = V.to_xdr (record {
        network_id = p.network_id;
        nonce = p.nonce;
        signature_expiration_ledger = p.signature_expiration_ledger;
        invocation = i;
      }) in
      (X.sha256 b, rw e refl)

  abbrev pub Succeeds : J.Value → Type 0
  Succeeds v = succeeded M J S X v ≡ true

  -- A server that takes and includes transactions, and then reports success.
  abbrev pub Willing : S.World → Type 0
  Willing w = Serves X J S Succeeds w

  -- The transaction of a mode is built and simulated, and its inclusion would be reported.
  abbrev Prepared : Act S.World Never (Tx X × SimResult X) → S.World → Type 0
  Prepared call w =
      (tx : Tx X) × (sim : SimResult X) × (w' : S.World) × (call w ≡ (ok (tx, sim), w'))
      × Includes X J S Succeeds w'

  module _ (LM : External.IsLawful M mldsa65.vk_len mldsa65.sk_len mldsa65.sig_len)
      (LY : XdrLaws.IsLawful Y) (V : Converts X) where
    init-Prepared :
        (source : Bytes) (account : String) (kp : Keypair M) (seq : ℤ) (w : S.World)
        {address : Y.ScAddress}
        → contract_addr X account ≡ ok address
        → Willing w
        → Prepared (init_transaction M J S X source account kp seq) w
    init-Prepared source account kp seq w at willing =
        let (s, encoded, _, _) =
          encode_verifying_key_lem Y (scheme mldsa65 M) LY (scheme-IsLawful mldsa65 M LM)
            kp.verifying (omega arith) in
        let (op, o) =
          invoke_op_total X V account "init" (Y.scval_bytes s ∷ []) [] at V.init.1 (omega arith)
            (omega arith) in
        let (tx, t) = build_tx_total X V source (plus_1 seq) op in
        let (sim, w', simulated, includes) = simulate_total X V J S Succeeds tx none w willing in
        (
          tx,
          sim,
          w',
          init_transaction_total source account kp seq w encoded o t simulated,
          includes,
        )

    auth-Prepared :
        (source : Bytes) (account : String) {kp : Keypair M} (seq : ℤ) (latest : ℕ) (w : S.World)
        {address : Y.ScAddress}
        → from_seed mldsa65 M key_seed ≡ ok kp
        → contract_addr X account ≡ ok address
        → Willing w
        → Prepared (auth_transaction M J S X source account kp seq latest) w
    auth-Prepared source account {kp} seq latest w {address} c at willing =
        let (name, named) = V.protected in
        let (_, m) = payload_total V latest (invocation X address name) in
        let (entry, built) = entry_total LM LY address latest (invocation X address name) c m in
        let (op, o) =
          invoke_op_total X V account "protected" [] (entry ∷ []) at named (omega arith)
            (omega arith) in
        let (tx, t) = build_tx_total X V source (plus_1 seq) op in
        let (sim, w', simulated, includes) =
          simulate_total X V J S Succeeds tx (some "enforce") w willing in
        (
          tx,
          sim,
          w',
          auth_transaction_total source account kp seq latest w at named m built o t simulated,
          includes,
        )

    transaction-Prepared :
        (mode : Option String) (source : Bytes) (account : String) {kp : Keypair M} (seq : ℤ)
        (latest : ℕ) (w : S.World) {address : Y.ScAddress}
        → from_seed mldsa65 M key_seed ≡ ok kp
        → contract_addr X account ≡ ok address
        → Willing w
        → Prepared (transaction M J S X mode source account kp seq latest) w
    unfolding transaction
    transaction-Prepared none source account seq latest w c at willing =
        auth-Prepared source account seq latest w c at willing
    transaction-Prepared (some m) source account {kp} seq latest w c at willing =
        elim (Bool-cases (m == "init")) [
          | inl e ↦ rw e (init-Prepared source account kp seq w at willing)
          | inr e ↦ rw e (auth-Prepared source account seq latest w c at willing)
        ]

  main_from :
      (source_text account : String) (mode : Option String) (secret : String) (w : S.World)
      {seed source : Bytes} {kp : Keypair M} {seq : ℤ} {latest : ℕ} {tx : Tx X} {sim : SimResult X}
      {r : J.Value} {w1 w2 w3 : S.World}
      → secret_seed X secret ≡ ok seed
      → account_pk X source_text ≡ ok source
      → from_seed mldsa65 M key_seed ≡ ok kp
      → account_state J S X source w ≡ (ok (seq, latest), w1)
      → transaction M J S X mode source account kp seq latest w1 ≡ (ok (tx, sim), w2)
      → submit J S X tx sim seed (network_id X.sha256 testnet_passphrase) w2 ≡ (ok r, w3)
      → succeeded M J S X r ≡ true
      → main M J S X source_text account mode secret w ≡ (ok tt, w3)
  unfolding main
  main_from source_text account mode secret w a b c d e f g =
      rw a (rw b (rw c (rw d (rw e (rw f (rw g refl))))))

  -- Over lawful crates that convert what the tool hands them, the tool finishes in every mode,
  -- whenever the secret, the source account and the contract parse, the server tells the state of
  -- the account, and it then simulates any envelope with resources, does not reject any, and after
  -- fewer than 40 answers that are `NOT_FOUND` reports success.
  pub main_finishes :
      External.IsLawful M mldsa65.vk_len mldsa65.sk_len mldsa65.sig_len
      → XdrLaws.IsLawful Y
      → Converts X
      → (source_text account : String) (mode : Option String) (secret : String) (w : S.World)
        {seed source : Bytes} {address : Y.ScAddress} {seq : ℤ} {latest : ℕ} {w1 : S.World}
      → secret_seed X secret ≡ ok seed
      → account_pk X source_text ≡ ok source
      → contract_addr X account ≡ ok address
      → account_state J S X source w ≡ (ok (seq, latest), w1)
      → Willing w1
      → (w' : S.World) × (main M J S X source_text account mode secret w ≡ (ok tt, w'))
  main_finishes LM LY V source_text account mode secret w {seed} {source} {address} {seq} {latest}
        {w1} a b at d willing =
      let (kp, c) = seed_total mldsa65 M LM key_seed length-key_seed in
      let (tx, sim, w2, e, includes) =
        transaction-Prepared LM LY V mode source account seq latest w1 c at willing in
      let (r, w3, f, good) =
        submit_total X V J S Succeeds tx sim seed (network_id X.sha256 testnet_passphrase) w2
          includes in
      (w3, main_from source_text account mode secret w a b c d e f good)
