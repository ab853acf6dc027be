-- ===== src/Cli/Authorize/Built.antt =====
-- The transaction that crates/pq-cli/src/bin/authorize.rs builds when it authorizes a call.
use soroban_ml_dsa.Prelude.{
  subst, ◌↔◌, ◌*◌, ◌≤◌, ◌⊎◌, ℕ, ◌+◌, ◌<◌, ◌^◌, ◌≡◌, refl, arith, String, Bytes, some, [], ◌∷◌,
  Option, Run, ok, err, panic, unwrap, or_panic,
}
use soroban_ml_dsa.Prelude.Int.{ℤ, pos}
use soroban_ml_dsa.Core.MlDsa.{mldsa65, scheme, Keypair}
use soroban_ml_dsa.Core.MlDsa.External.{Backend}
use soroban_ml_dsa.Stellar.External.{Xdr}
use soroban_ml_dsa.Stellar.Payload.{signature_payload}
use soroban_ml_dsa.Stellar.Auth.{Entry, build_auth_entry}
use soroban_ml_dsa.Cli.Act.{proceed, pure, expect, pure_inverts, unwrap-eq-ok}
use soroban_ml_dsa.Cli.External.{Json, System, Crates}
use soroban_ml_dsa.Cli.Transactions.{Op, Tx, SimResult, contract_addr, invoke_op, build_tx}
use soroban_ml_dsa.Cli.Rpc.{simulate}
use soroban_ml_dsa.Cli.Authorize.{context, plus_1, authorization_payload, auth_transaction}

pub or_panic-eq-ok : {E A : Type 0} (o : Option A) {a : A} → or_panic {E = E} o ≡ ok a → o ≡ some a
or_panic-eq-ok o h = ground arith

pub pairing_keeps :
    {W E A T : Type 0} {t : T} (p : Run E A × W) {t' : T} {a : A} {w : W}
    → proceed {B = T × A} p (λ s. pure (ok (t, s))) ≡ (ok (t', a), w)
    → t ≡ t'
pairing_keeps (ok b, w) h = ground arith
pairing_keeps (err e, w) h = cc
pairing_keeps (panic, w) h = cc

module _ {Y : Xdr} (X : Crates Y) where
  abbrev pub invocation : Y.ScAddress → X.ScSymbol → Y.SorobanAuthorizedInvocation
  invocation address name =
      X.contract_fn (record { contract_address = address; function_name = name; args = X.no_args })

  -- While the latest ledger fits 32 bits, the nonce fits an `i64`, two payloads have the same
  -- nonce exactly if they were made at the same ledger, and the payload expires 1000 ledgers later,
  -- but for the last 1000 ledgers of that range, where its expiration ledger has already passed.
  pub nonce_separates :
      (latest latest' : ℕ) (i i' : Y.SorobanAuthorizedInvocation)
      → latest < 2 ^ 32
      → let p = authorization_payload X latest i in
        let p' = authorization_payload X latest' i' in
        ((n : ℕ) × (p.nonce ≡ pos n) × (n < 2 ^ 63))
        × ((p.nonce ≡ p'.nonce) ↔ (latest ≡ latest'))
        × (((latest + 1000 < 2 ^ 32) × (p.signature_expiration_ledger ≡ latest + 1000))
            ⊎ ((2 ^ 32 ≤ latest + 1000) × (p.signature_expiration_ledger < latest)))
  unfolding authorization_payload
  nonce_separates latest latest' i i' h =
      ((latest * 1000003 + 29, refl, omega arith), (λ e. ground arith, λ e. cc), ground arith)

module _ {Y : Xdr} (M : Backend) (J : Json) (S : System) (X : Crates Y) where
  -- What the mode `auth` builds, in the order of the code.
  abbrev pub Built : Bytes → String → Keypair M → ℤ → ℕ → Tx X → Type 0
  Built source account kp seq latest tx =
      (address : Y.ScAddress) × (name : X.ScSymbol) × (digest : Bytes) × (entry : Entry Y)
      × (op : Op X) × (contract_addr X account ≡ ok address)
      × (X.symbol "protected" ≡ some name)
      × (signature_payload Y X.sha256 (authorization_payload X latest (invocation X address name))
          ≡ ok digest)
      × (build_auth_entry Y X.sha256 (scheme mldsa65 M) address kp.signing
            (authorization_payload X latest (invocation X address name)) context
          ≡ ok entry)
      × (invoke_op X account "protected" [] (entry ∷ []) ≡ ok op)
      × (build_tx X source (plus_1 seq) op ≡ ok tx)

  pub auth_transaction-Built :
      (source : Bytes) (account : String) (kp : Keypair M) (seq : ℤ) (latest : ℕ) (w : S.World)
      {tx : Tx X} {sim : SimResult X} {w' : S.World}
      → auth_transaction M J S X source account kp seq latest w ≡ (ok (tx, sim), w')
      → Built source account kp seq latest tx
  unfolding auth_transaction
  auth_transaction-Built source account kp seq latest w h =
      let (address, a, h1) = pure_inverts (contract_addr X account) _ w h in
      let (name, b, h2) = pure_inverts (or_panic (X.symbol "protected")) _ w h1 in
      let payload = authorization_payload X latest (invocation X address name) in
      let (digest, c, h3) = pure_inverts (unwrap (signature_payload Y X.sha256 payload)) _ w h2 in
      let signed =
        build_auth_entry Y X.sha256 (scheme mldsa65 M) address kp.signing payload context in
      let (entry, d, h4) = pure_inverts (unwrap signed) _ w h3 in
      let (op, e, h5) = pure_inverts (invoke_op X account "protected" [] (entry ∷ [])) _ w h4 in
      let (tx', f, h6) = pure_inverts (build_tx X source (plus_1 seq) op) _ w h5 in
      let same = pairing_keeps (expect (simulate J S X tx' (some "enforce")) w) h6 in
      (
        address,
        name,
        digest,
        entry,
        op,
        a,
        or_panic-eq-ok _ b,
        unwrap-eq-ok _ c,
        unwrap-eq-ok _ d,
        e,
        subst (λ t. build_tx X source (plus_1 seq) op ≡ ok t) same f,
      )
