-- ===== src/Cli/Authorize/Stages.antt =====
-- The calls that a run of crates/pq-cli/src/bin/authorize.rs makes, one after another, if it finishes.
use soroban_ml_dsa.Prelude.{
  subst, Bool, false, if◌then◌else◌, true, ℕ, ◌≡◌, refl, arith, String, Bytes, Option, Run, Never,
  ok, panic, unwrap,
}
use soroban_ml_dsa.Prelude.Int.{ℤ}
use soroban_ml_dsa.Core.MlDsa.{mldsa65, Keypair, from_seed}
use soroban_ml_dsa.Core.MlDsa.External.{Backend}
use soroban_ml_dsa.Stellar.External.{Xdr}
use soroban_ml_dsa.Stellar.Payload.{network_id, testnet_passphrase}
use soroban_ml_dsa.Cli.Act.{pure, pure_inverts, act_inverts, unwrap-eq-ok}
use soroban_ml_dsa.Cli.External.{Json, System, Crates}
use soroban_ml_dsa.Cli.Transactions.{Tx, SimResult, account_pk, secret_seed}
use soroban_ml_dsa.Cli.Rpc.{submit, account_state}
use soroban_ml_dsa.Cli.Authorize.{key_seed, transaction, main, succeeded}

finishes :
    {W : Type 0} (b : Bool) {w w' : W}
    → ◌≡◌ {A = Run Never (Unit {0}) × W} ((if b then pure (ok tt) else pure panic) w) (ok tt, w')
    → (b ≡ true) × (w ≡ w')
finishes true h = (refl, ground arith)
finishes false h = cc

module _ {Y : Xdr} (M : Backend) (J : Json) (S : System) (X : Crates Y) where
  -- The calls of a run that finishes.
  pub main_stages :
      (source_text account : String) (mode : Option String) (secret : String) (w : S.World)
      {w' : S.World}
      → main M J S X source_text account mode secret w ≡ (ok tt, w')
      → (seed : Bytes) × (source : Bytes) × (kp : Keypair M) × (seq : ℤ) × (latest : ℕ) × (tx : Tx
          X)
        × (sim : SimResult X) × (r : J.Value) × (w1 : S.World) × (w2 : S.World) × (secret_seed X
              secret
            ≡ ok seed)
        × (account_pk X source_text ≡ ok source)
        × (from_seed mldsa65 M key_seed ≡ ok kp)
        × (account_state J S X source w ≡ (ok (seq, latest), w1))
        × (transaction M J S X mode source account kp seq latest w1 ≡ (ok (tx, sim), w2))
        × (submit J S X tx sim seed (network_id X.sha256 testnet_passphrase) w2 ≡ (ok r, w'))
        × (succeeded M J S X r ≡ true)
  unfolding main
  main_stages source_text account mode secret w {w'} h =
      let (seed, a, h1) = pure_inverts (secret_seed X secret) _ w h in
      let (source, b, h2) = pure_inverts (account_pk X source_text) _ w h1 in
      let (kp, c, h3) = pure_inverts (unwrap (from_seed mldsa65 M key_seed)) _ w h2 in
      let (state, w1, d, h4) = act_inverts (account_state J S X source) _ w h3 in
      let (pair, w2, e, h5) =
        act_inverts (transaction M J S X mode source account kp state.0 state.1) _ w1 h4 in
      let (r, w3, f, h6) =
        act_inverts (submit J S X pair.0 pair.1 seed (network_id X.sha256 testnet_passphrase)) _ w2
          h5 in
      let (good, last) = finishes (succeeded M J S X r) h6 in
      (
        seed,
        source,
        kp,
        state.0,
        state.1,
        pair.0,
        pair.1,
        r,
        w1,
        w2,
        a,
        b,
        unwrap-eq-ok _ c,
        d,
        e,
        subst
            (λ v.
              submit J S X pair.0 pair.1 seed (network_id X.sha256 testnet_passphrase) w2
              ≡ (ok r, v))
            last f,
        good,
      )
