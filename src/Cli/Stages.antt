-- ===== src/Cli/Stages.antt =====
-- The stages of `submit` of crates/pq-cli/src/lib.rs, where it returns.
use soroban_ml_dsa.Prelude.{
  ◌≡◌, inl, inr, arith, Bytes, List, [], ◌∷◌, String, Never, none, some, take, drop, ok,
  Option-cases,
}
use soroban_ml_dsa.Stellar.External.{Xdr}
use soroban_ml_dsa.Cli.External.{Json, System, Crates, TransactionEnvelope, DecoratedSignature, v1}
use soroban_ml_dsa.Cli.Poll.{verdict, outcome}
use soroban_ml_dsa.Cli.Format.{hex, transaction_params}
use soroban_ml_dsa.Cli.Transactions.{Tx, SimResult, plus_1000, as_u32, sign_envelope}
use soroban_ml_dsa.Cli.Rpc.{poll, submit, get_str, rpc}

module _ {Y : Xdr} (X : Crates Y) where
  abbrev pub ready : Tx X → SimResult X → Tx X
  ready tx sim = record tx { ext = v1 sim.resources; fee = as_u32 (plus_1000 sim.min_fee) }

  abbrev pub decorated : Bytes → Bytes → List DecoratedSignature
  decorated seed sig =
      record { hint = take 4 (drop 28 (X.verifying_key seed)); signature = sig } ∷ []

  pub sign_envelope_stages :
      (tx : Tx X) (sim : SimResult X) (seed network_id : Bytes) {env : TransactionEnvelope (Tx X)}
      {hash : Bytes}
      → sign_envelope X tx sim seed network_id ≡ ok (env, hash)
      → (payload : Bytes) × (sig : Bytes) × (X.payload_xdr
            (record { network_id = network_id; tagged_transaction = ready tx sim })
          ≡ some payload)
        × (X.signature_bytes (X.sign seed (X.sha256 payload)) ≡ some sig)
        × (X.signature_list (decorated seed sig) ≡ some env.signatures)
        × (env.tx ≡ ready tx sim)
        × (hash ≡ X.sha256 payload)
  unfolding sign_envelope
  sign_envelope_stages tx sim seed network_id h =
      elim (Option-cases
        (X.payload_xdr (record { network_id = network_id; tagged_transaction = ready tx sim }))) [
          | inl p ↦ absurd (ground arith)
          | inr (payload, p) ↦
              elim (Option-cases (X.signature_bytes (X.sign seed (X.sha256 payload)))) [
                | inl q ↦ absurd (ground arith)
                | inr (sig, q) ↦ (payload, sig, p, q, ground arith, ground arith, ground arith)
              ]
        ]

  module _ (J : Json) (S : System) where
    pub submit_stages :
        (tx : Tx X) (sim : SimResult X) (seed network_id : Bytes) (w : S.World) {v : J.Value}
        {w' : S.World}
        → submit J S X tx sim seed network_id w ≡ (ok v, w')
        → (env : TransactionEnvelope (Tx X)) × (hash : Bytes) × (b64 : String) × (send : J.Value)
          × (w1 : S.World) × (sign_envelope X tx sim seed network_id ≡ ok (env, hash))
          × (X.envelope_base64 env ≡ some b64)
          × (rpc J S {E = Never} "sendTransaction" (transaction_params b64) w ≡ (ok send, w1))
          × (get_str J S X (J.field send "result") "errorResultXdr" ≡ none)
          × (poll J S 40 (hex hash) w1 ≡ (ok v, w'))
    unfolding submit
    submit_stages tx sim seed network_id w h =
        elim (verdict (sign_envelope X tx sim seed network_id)) [
          | inr e ↦ absurd (ground arith)
          | inl ((env, hash), e) ↦ elim (Option-cases (X.envelope_base64 env)) [
            | inl f ↦ absurd (ground arith)
            | inr (b64, f) ↦
                elim (outcome (rpc J S {E = Never} "sendTransaction" (transaction_params b64) w)) [
                  | inr (w1, r) ↦ absurd (ground arith)
                  | inl (send, w1, r) ↦
                      elim (Option-cases (get_str J S X (J.field send "result") "errorResultXdr")) [
                        | inr (text, g) ↦ absurd (ground arith)
                        | inl g ↦ (env, hash, b64, send, w1, e, f, r, g, ground arith)
                      ]
                ]
          ]
        ]
