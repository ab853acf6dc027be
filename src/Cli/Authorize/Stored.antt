-- ===== src/Cli/Authorize/Stored.antt =====
-- A run of crates/pq-cli/src/bin/authorize.rs in the mode `init`: the transaction that it submits.
use soroban_ml_dsa.Prelude.{none, true, ℕ, ◌≡◌, String, Bytes, some, [], ◌∷◌, ok, unwrap, subst}
use soroban_ml_dsa.Prelude.Int.{ℤ}
use soroban_ml_dsa.Core.MlDsa.{mldsa65, scheme, Keypair, from_seed}
use soroban_ml_dsa.Core.MlDsa.External.{Backend}
use soroban_ml_dsa.Stellar.External.{Xdr}
use soroban_ml_dsa.Stellar.Payload.{network_id, testnet_passphrase}
use soroban_ml_dsa.Stellar.Auth.{encode_verifying_key}
use soroban_ml_dsa.Cli.Act.{expect, pure_then, unwrap-eq-ok}
use soroban_ml_dsa.Cli.External.{Json, System, Crates}
use soroban_ml_dsa.Cli.Transactions.{
  Op, Tx, SimResult, account_pk, secret_seed, invoke_op, build_tx,
}
use soroban_ml_dsa.Cli.Rpc.{simulate, submit, account_state}
use soroban_ml_dsa.Cli.Authorize.Built.{pairing_keeps}
use soroban_ml_dsa.Cli.Authorize.Stages.{main_stages}
use soroban_ml_dsa.Cli.Authorize.{key_seed, plus_1, init_transaction, transaction, main, succeeded}

module _ {Y : Xdr} (M : Backend) (J : Json) (S : System) (X : Crates Y) where
  -- A run from `w` to `w'` in which the next transaction of the source account, with the one
  -- operation `op`, was submitted under the secret and the server reported success.
  abbrev pub Submits : String → String → ℕ → Op X → S.World → S.World → Type 0
  Submits source_text secret latest op w w' =
      (seed : Bytes) × (source : Bytes) × (seq : ℤ) × (tx : Tx X) × (sim : SimResult X)
      × (r : J.Value) × (w1 : S.World) × (w2 : S.World) × (secret_seed X secret ≡ ok seed)
      × (account_pk X source_text ≡ ok source)
      × (account_state J S X source w ≡ (ok (seq, latest), w1))
      × (build_tx X source (plus_1 seq) op ≡ ok tx)
      × (submit J S X tx sim seed (network_id X.sha256 testnet_passphrase) w2 ≡ (ok r, w'))
      × (succeeded M J S X r ≡ true)

  init_transaction-Built :
      (source : Bytes) (account : String) (kp : Keypair M) (seq : ℤ) (w : S.World) {tx : Tx X}
      {sim : SimResult X} {w' : S.World}
      → init_transaction M J S X source account kp seq w ≡ (ok (tx, sim), w')
      → (vk : Y.ScVal) × (op : Op X) × (encode_verifying_key Y (scheme mldsa65 M) kp.verifying
          ≡ ok vk)
        × (invoke_op X account "init" (vk ∷ []) [] ≡ ok op)
        × (build_tx X source (plus_1 seq) op ≡ ok tx)
  unfolding init_transaction
  init_transaction-Built source account kp seq w h =
      let encoded = encode_verifying_key Y (scheme mldsa65 M) kp.verifying in
      pure_then (unwrap encoded) _ w h λ vk a h1.
        pure_then (invoke_op X account "init" (vk ∷ []) []) _ w h1 λ op b h2.
          pure_then (build_tx X source (plus_1 seq) op) _ w h2 λ tx' c h3.
            let same = pairing_keeps (expect (simulate J S X tx' none) w) h3 in
            (
              vk,
              op,
              unwrap-eq-ok encoded a,
              b,
              subst (λ t. build_tx X source (plus_1 seq) op ≡ ok t) same c,
            )

  -- In the mode `init` the transaction that is submitted stores the key of the fixed seed.
  pub main-Stores :
      (source_text account secret : String) (w : S.World) {w' : S.World}
      → main M J S X source_text account (some "init") secret w ≡ (ok tt, w')
      → (kp : Keypair M) × (latest : ℕ) × (vk : Y.ScVal) × (op : Op X) × (from_seed mldsa65 M
            key_seed
          ≡ ok kp)
        × (encode_verifying_key Y (scheme mldsa65 M) kp.verifying ≡ ok vk)
        × (invoke_op X account "init" (vk ∷ []) [] ≡ ok op)
        × Submits source_text secret latest op w w'
  unfolding transaction
  main-Stores source_text account secret w h =
      let (seed, source, kp, seq, latest, tx, sim, r, w1, w2, a, b, c, d, e, f, good) =
        main_stages M J S X source_text account (some "init") secret w h in
      let (vk, op, encoded, o, t) = init_transaction-Built source account kp seq w1 e in
      (
        kp,
        latest,
        vk,
        op,
        c,
        encoded,
        o,
        (seed, source, seq, tx, sim, r, w1, w2, a, b, d, t, f, good),
      )
