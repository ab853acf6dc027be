-- ===== src/Cli/Liveness.antt =====
-- When `submit` of crates/pq-cli/src/lib.rs returns.
use soroban_ml_dsa.Prelude.{
  refl, ℕ, zero, suc, ◌<◌, ◌≡◌, arith, false, String, Never, ok, some, none, Bytes, or_panic,
}
use soroban_ml_dsa.Stellar.External.{Xdr}
use soroban_ml_dsa.Cli.External.{Json, System, Crates, TransactionEnvelope}
use soroban_ml_dsa.Cli.Format.{hex, transaction_params}
use soroban_ml_dsa.Cli.Transactions.{Tx, SimResult, sign_envelope}
use soroban_ml_dsa.Cli.Rpc.{rpc, get_str, ask, is_not_found, poll, submit}
use soroban_ml_dsa.Cli.Poll.{Waits, arrived, again}

module _ (J : Json) (S : System) where
  -- The loop gives the first answer that is not `NOT_FOUND`, with the hash added, or panics there.
  pub poll_answers :
      {hash : String} {k : ℕ} {w w' : S.World}
      → Waits J S hash k w w'
      → (rounds : ℕ) → k < rounds
      → {g : J.Value} {w'' : S.World} → ask J S hash w' ≡ (ok g, w'')
      → is_not_found J S g ≡ false
      → poll J S rounds hash w ≡ (or_panic (J.set_field g "_hash" (J.string hash)), w'')
  unfolding poll
  poll_answers arrived zero less a b = absurd (omega arith)
  poll_answers arrived (suc rounds) less a b = rw (a, b) refl
  poll_answers (again _ _ waits) zero less a b = absurd (omega arith)
  poll_answers (again x y waits) (suc rounds) less a b =
      rw (x, y) (poll_answers waits rounds (omega arith) a b)

  -- `submit` returns whenever it can: if the envelope is signed and encoded, the server does not
  -- reject it, and after fewer than 40 rounds of `NOT_FOUND` it answers anything else that has
  -- fields, then the result is that answer with the hash added.
  pub submit_finishes :
      {Y : Xdr} (X : Crates Y) (tx : Tx X) (sim : SimResult X) (seed network_id : Bytes)
      (w : S.World) {env : TransactionEnvelope (Tx X)} {hash : Bytes} {b64 : String}
      {send g v : J.Value} {k : ℕ} {w1 w2 w3 : S.World}
      → sign_envelope X tx sim seed network_id ≡ ok (env, hash)
      → X.envelope_base64 env ≡ some b64
      → rpc J S {E = Never} "sendTransaction" (transaction_params b64) w ≡ (ok send, w1)
      → get_str J S X (J.field send "result") "errorResultXdr" ≡ none
      → k < 40
      → Waits J S (hex hash) k w1 w2
      → ask J S (hex hash) w2 ≡ (ok g, w3)
      → is_not_found J S g ≡ false
      → J.set_field g "_hash" (J.string (hex hash)) ≡ some v
      → submit J S X tx sim seed network_id w ≡ (ok v, w3)
  unfolding submit
  submit_finishes X tx sim seed network_id w {env} {hash} a b c d less waits e f h =
      let last = poll_answers waits 40 less e f in ground arith
