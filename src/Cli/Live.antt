-- ===== src/Cli/Live.antt =====
-- What lets a client of crates/pq-cli/src/lib.rs finish: crates that convert what it hands them, and
-- a server that answers.
use soroban_ml_dsa.Prelude.{
  ℕ, ◌<◌, ◌≤◌, ◌≡◌, inl, inr, refl, arith, false, String, List, [], ◌∷◌, Option, some, none, Bytes,
  length, Never, ok, take, drop,
}
use soroban_ml_dsa.Prelude.Int.{ℤ}
use soroban_ml_dsa.Stellar.External.{Xdr, HashIdPreimageSorobanAuthorization}
use soroban_ml_dsa.Stellar.Auth.{Entry}
use soroban_ml_dsa.Cli.External.{
  Json, System, Crates, DecoratedSignature, TransactionEnvelope, TransactionSignaturePayload, v1,
}
use soroban_ml_dsa.Cli.Format.{simulation_params, transaction_params, hex}
use soroban_ml_dsa.Cli.Liveness.{submit_finishes}
use soroban_ml_dsa.Cli.Poll.{Waits, verdict}
use soroban_ml_dsa.Cli.Rpc.{rpc, get_str, ask, is_not_found, read_simulation, simulate, submit}
use soroban_ml_dsa.Cli.Transactions.{
  Op, Tx, SimResult, contract_addr, invoke_op, build_tx, sign_envelope, plus_1000, as_u32,
}

-- Encoding has no limits, short vectors and signatures convert, and so do the two symbols.
pub record Converts {Y : Xdr} (X : Crates Y) : Type 0 where
  pub to_xdr :
      (h : HashIdPreimageSorobanAuthorization Y.SorobanAuthorizedInvocation)
      → (b : Bytes) × (Y.to_xdr h ≡ some b)
  pub init : (s : X.ScSymbol) × (X.symbol "init" ≡ some s)
  pub protected : (s : X.ScSymbol) × (X.symbol "protected" ≡ some s)
  pub args : (l : List Y.ScVal) → length l ≤ 1 → (a : X.Args) × (X.args l ≡ some a)
  pub auth : (l : List (Entry Y)) → length l ≤ 1 → (a : X.Auth) × (X.auth l ≡ some a)
  pub operations : (op : Op X) → (o : X.Operations) × (X.operations (op ∷ []) ≡ some o)
  pub payload_xdr :
      (p : TransactionSignaturePayload (Tx X)) → (b : Bytes) × (X.payload_xdr p ≡ some b)
  pub signature_bytes :
      (seed message : Bytes) → (s : Bytes) × (X.signature_bytes (X.sign seed message) ≡ some s)
  pub signature_list :
      (d : DecoratedSignature)
      → (l : List DecoratedSignature) × (X.signature_list (d ∷ []) ≡ some l)
  pub envelope_base64 :
      (e : TransactionEnvelope (Tx X)) → (t : String) × (X.envelope_base64 e ≡ some t)

module _ {Y : Xdr} (X : Crates Y) (J : Json) (S : System) (Good : J.Value → Type 0) where
  -- From the world `w`, the server takes any envelope, and after fewer than 40 answers that are
  -- `NOT_FOUND` it gives one that is good once the hash is added to it.
  abbrev pub Includes : S.World → Type 0
  Includes w =
      (envelope hash : String)
      → (send : J.Value) × (k : ℕ) × (g : J.Value) × (v : J.Value) × (w1 : S.World) × (w2 : S.World)
        × (w3 : S.World) × (rpc J S {E = Never} "sendTransaction" (transaction_params envelope) w
            ≡ (ok send, w1))
        × (get_str J S X (J.field send "result") "errorResultXdr" ≡ none)
        × (k < 40)
        × Waits J S hash k w1 w2
        × (ask J S hash w2 ≡ (ok g, w3))
        × (is_not_found J S g ≡ false)
        × (J.set_field g "_hash" (J.string hash) ≡ some v)
        × Good v

  -- It simulates any envelope, with resources, and then includes any.
  abbrev pub Serves : S.World → Type 0
  Serves w =
      (envelope : String) (auth_mode : Option String)
      → (v : J.Value) × (sim : SimResult X) × (w1 : S.World) × (rpc J S {E = String}
            "simulateTransaction" (simulation_params envelope auth_mode) w
          ≡ (ok v, w1))
        × (read_simulation J S X v ≡ ok sim)
        × Includes w1

module _ {Y : Xdr} (X : Crates Y) (V : Converts X) where
  pub invoke_op_total :
      (account function : String) (args : List Y.ScVal) (auth : List (Entry Y))
      {address : Y.ScAddress} {name : X.ScSymbol}
      → contract_addr X account ≡ ok address
      → X.symbol function ≡ some name
      → length args ≤ 1
      → length auth ≤ 1
      → (op : Op X) × (invoke_op X account function args auth ≡ ok op)
  unfolding invoke_op
  invoke_op_total account function args auth at named one one' =
      let (_, a) = V.args args one in
      let (_, b) = V.auth auth one' in
      elim (verdict (invoke_op X account function args auth)) [
        | inl done ↦ done
        | inr e ↦ absurd (ground arith)
      ]

  pub build_tx_total :
      (source : Bytes) (seq : ℤ) (op : Op X) → (tx : Tx X) × (build_tx X source seq op ≡ ok tx)
  unfolding build_tx
  build_tx_total source seq op =
      let (_, o) = V.operations op in
      elim (verdict (build_tx X source seq op)) [ inl done ↦ done | inr e ↦ absurd (ground arith) ]

  pub sign_envelope_total :
      (tx : Tx X) (sim : SimResult X) (seed network_id : Bytes)
      → (env : TransactionEnvelope (Tx X)) × (hash : Bytes) × (sign_envelope X tx sim seed
            network_id
          ≡ ok (env, hash))
  unfolding sign_envelope
  sign_envelope_total tx sim seed network_id =
      let ready : Tx X = record tx {
        ext = v1 sim.resources;
        fee = as_u32 (plus_1000 sim.min_fee);
      } in
      let (payload, p) =
        V.payload_xdr (record { network_id = network_id; tagged_transaction = ready }) in
      let hash = X.sha256 payload in
      let (sig, s) = V.signature_bytes seed hash in
      let (sigs, l) =
        V.signature_list
          (record { hint = take 4 (drop 28 (X.verifying_key seed)); signature = sig }) in
      (record { tx = ready; signatures = sigs }, hash, rw p (rw s (rw l refl)))

  module _ (J : Json) (S : System) (Good : J.Value → Type 0) where
    pub simulate_total :
        (tx : Tx X) (auth_mode : Option String) (w : S.World)
        → Serves X J S Good w
        → (sim : SimResult X) × (w1 : S.World) × (simulate J S X tx auth_mode w ≡ (ok sim, w1))
          × Includes X J S Good w1
    unfolding simulate
    simulate_total tx auth_mode w serves =
        let (b64, b) = V.envelope_base64 (record { tx = tx; signatures = [] }) in
        let (v, sim, w1, asked, found, includes) = serves b64 auth_mode in
        (sim, w1, rw b (rw asked (rw found refl)), includes)

    pub submit_total :
        (tx : Tx X) (sim : SimResult X) (seed network_id : Bytes) (w : S.World)
        → Includes X J S Good w
        → (v : J.Value) × (w' : S.World) × (submit J S X tx sim seed network_id w ≡ (ok v, w'))
          × Good v
    submit_total tx sim seed network_id w includes =
        let (env, hash, signed) = sign_envelope_total tx sim seed network_id in
        let (b64, b) = V.envelope_base64 env in
        let (_, _, _, v, _, _, w', sent, taken, less, waits, asked, found, added, good) =
          includes b64 (hex hash) in
        (
          v,
          w',
          submit_finishes J S X tx sim seed network_id w signed b sent taken less waits asked found
              added,
          good,
        )
