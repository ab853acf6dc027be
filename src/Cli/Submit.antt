-- ===== src/Cli/Submit.antt =====
-- `submit` of crates/pq-cli/src/lib.rs: the fee, the signature, and the loop that waits.
use soroban_ml_dsa.Prelude.{
  ℕ, ◌+◌, ◌%◌, ◌^◌, ◌⊎◌, ◌∙◌, ap, ◌≤◌, ◌<◌, ◌≡◌, inl, inr, sym, arith, Bool, true, false, Bytes, [],
  ◌∷◌, String, Never, none, some, take, drop, ok, Option-cases,
}
use soroban_ml_dsa.Prelude.Int.{pos}
use soroban_ml_dsa.Stellar.External.{Xdr}
use soroban_ml_dsa.Cli.External
use soroban_ml_dsa.Cli.External.{Json, System, Crates, TransactionEnvelope, DecoratedSignature, v1}
use soroban_ml_dsa.Cli.Poll.{Waits, poll-Ending}
use soroban_ml_dsa.Cli.Format.{hex, transaction_params}
use soroban_ml_dsa.Cli.Transactions.{Tx, SimResult, plus_1000, as_u32, sign_envelope}
use soroban_ml_dsa.Cli.Stages.{sign_envelope_stages, submit_stages}
use soroban_ml_dsa.Cli.Rpc.{ask, is_not_found, submit, get_str, rpc}

-- What the cast leaves of the minimum and 1000 more.
cast_cases :
    (n : ℕ)
    → let fee = (n + 1000) % 2 ^ 32 in
      ((n + 1000 < 2 ^ 32) × (fee ≡ n + 1000))
      ⊎ ((2 ^ 32 ≤ n + 1000) × (fee ≡ (n + 1000) % 2 ^ 32) × (fee < n))
cast_cases n = ground arith

module _ {Y : Xdr} (X : Crates Y) (J : Json) (S : System) where
  -- If `submit` returns, where the simulated minimum is not negative, the transaction in the
  -- envelope that it has sent offers this minimum and 1000 more when the sum fits 32 bits;
  -- otherwise the cast leaves the remainder by 2^32, which is less than the minimum.
  pub fee_covers :
      (tx : Tx X) (sim : SimResult X) (seed network_id : Bytes) (w : S.World) {v : J.Value}
      {w' : S.World} {min_fee : ℕ}
      → sim.min_fee ≡ pos min_fee
      → submit J S X tx sim seed network_id w ≡ (ok v, w')
      → (env : TransactionEnvelope (Tx X)) × (hash : Bytes) × (b64 : String) × (send : J.Value)
        × (w1 : S.World) × (sign_envelope X tx sim seed network_id ≡ ok (env, hash))
        × (X.envelope_base64 env ≡ some b64)
        × (rpc J S {E = Never} "sendTransaction" (transaction_params b64) w ≡ (ok send, w1))
        × (((min_fee + 1000 < 2 ^ 32) × (env.tx.fee ≡ min_fee + 1000))
            ⊎ ((2 ^ 32 ≤ min_fee + 1000)
                × (env.tx.fee ≡ (min_fee + 1000) % 2 ^ 32)
                × (env.tx.fee < min_fee)))
  fee_covers tx sim seed network_id w {min_fee = min_fee} minimum h =
      let (env, hash, b64, send, w1, e, f, r, _, _) =
        submit_stages X J S tx sim seed network_id w h in
      let (_, _, _, _, _, same, _) = sign_envelope_stages X tx sim seed network_id e in
      let fee : env.tx.fee ≡ (min_fee + 1000) % 2 ^ 32 =
        ap (λ (t : Tx X). t.fee) same ∙ ap (λ m. as_u32 (plus_1000 m)) minimum in
      (env, hash, b64, send, w1, e, f, r, rw fee (cast_cases min_fee))

module _ {Y : Xdr} (X : Crates Y) (verify : Bytes → Bytes → Bytes → Bool) where
  -- The transaction with resources and fee, under one signature that verifies over its hash.
  abbrev pub Signed :
      Tx X → SimResult X → Bytes → Bytes → TransactionEnvelope (Tx X) → Bytes → Type 0
  Signed tx sim seed network_id env hash =
      (payload : Bytes) × (sig : Bytes) × (env.tx
        ≡ record tx { fee = as_u32 (plus_1000 sim.min_fee); ext = v1 sim.resources })
      × (X.payload_xdr (record { network_id = network_id; tagged_transaction = env.tx })
          ≡ some payload)
      × (hash ≡ X.sha256 payload)
      × (env.signatures
          ≡ record { hint = take 4 (drop 28 (X.verifying_key seed)); signature = sig } ∷ [])
      × (verify (X.verifying_key seed) hash sig ≡ true)

  pub sign_envelope-Signed :
      External.IsLawful X verify
      → (tx : Tx X) (sim : SimResult X) (seed network_id : Bytes) {env : TransactionEnvelope (Tx X)}
        {hash : Bytes}
      → sign_envelope X tx sim seed network_id ≡ ok (env, hash)
      → Signed tx sim seed network_id env hash
  sign_envelope-Signed L tx sim seed network_id h =
      let (payload, sig, p, q, t, e, same) = sign_envelope_stages X tx sim seed network_id h in
      let kept = L.signature_bytes_lem _ q in
      (
        payload,
        sig,
        e,
        rw e p,
        same,
        L.signature_list_lem _ t,
        rw same (rw kept (L.verify-sign seed (X.sha256 payload))),
      )

  module _ (J : Json) (S : System) where
    -- Over lawful crates, if `submit` returns an answer, then the envelope that it sent carries the
    -- transaction with the simulated resources and fee under one signature that verifies, by the key
    -- of the seed, over the hash of this very transaction and network; the server did not reject it;
    -- and the answer is the first one about that hash that is not `NOT_FOUND`, after fewer than 40
    -- that are, with the hash added.
    pub submit_answers :
        External.IsLawful X verify
        → (tx : Tx X) (sim : SimResult X) (seed network_id : Bytes) (w : S.World) {v : J.Value}
          {w' : S.World}
        → submit J S X tx sim seed network_id w ≡ (ok v, w')
        → (env : TransactionEnvelope (Tx X)) × (hash : Bytes) × (b64 : String) × (send : J.Value)
          × (w1 : S.World) × (k : ℕ) × (w2 : S.World) × (g : J.Value) × Signed tx sim seed
              network_id env hash
          × (X.envelope_base64 env ≡ some b64)
          × (rpc J S {E = Never} "sendTransaction" (transaction_params b64) w ≡ (ok send, w1))
          × (get_str J S X (J.field send "result") "errorResultXdr" ≡ none)
          × (k < 40)
          × Waits J S (hex hash) k w1 w2
          × (ask J S (hex hash) w2 ≡ (ok g, w'))
          × (is_not_found J S g ≡ false)
          × (J.set_field g "_hash" (J.string (hex hash)) ≡ some v)
    submit_answers L tx sim seed network_id w {v} {w'} h =
        let (env, hash, b64, send, w1, e, f, r, n, p) =
          submit_stages X J S tx sim seed network_id w h in
        let signed = sign_envelope-Signed L tx sim seed network_id e in
        elim (poll-Ending J S 40 (hex hash) w1) [
          | inl (_, _, q) ↦ absurd cc
          | inr (_, _, _, _, _, inl (_, q)) ↦ absurd cc
          | inr (k, w2, w3, less, waits, inr (g, a, b, q)) ↦
              elim (Option-cases (J.set_field g "_hash" (J.string (hex hash)))) [
                | inl t ↦ absurd (ground arith)
                | inr (x, t) ↦
                    let (same, last) : (x ≡ v) × (w3 ≡ w') = (ground arith, ground arith) in
                    (
                      env,
                      hash,
                      b64,
                      send,
                      w1,
                      k,
                      w2,
                      g,
                      signed,
                      f,
                      r,
                      n,
                      less,
                      waits,
                      rw (sym last) a,
                      b,
                      rw (sym same) t,
                    )
              ]
        ]
