-- ===== src/Examples/Cli.antt =====
-- The client over a stand-in server that answers by a fixed list, and the theorems at its run.
use soroban_ml_dsa.Prelude.{
  ℕ, ◌+◌, ◌%◌, ◌^◌, ◌≤◌, ◌<◌, ◌≡◌, ◌↔◌, ◌⊎◌, refl, arith, String, true, false, some, none, Option,
  [], ◌∷◌, Bytes, zeros, Never, ok,
}
use soroban_ml_dsa.Prelude.Int.{ℤ, pos}
use soroban_ml_dsa.Stellar.Auth.{Entry}
use soroban_ml_dsa.Examples.World.{wire, wire-IsLawful, digest}
use soroban_ml_dsa.Core.Traits.{check_context, check_len, copy_prefix}
use soroban_ml_dsa.Prelude.Texts.{as_bytes}
use soroban_ml_dsa.Stellar.Auth.{build_auth_entry, sign_authorization, bytes_to_scval}
use soroban_ml_dsa.Examples.Toy.{tag, fit, backend, backend-IsLawful}
use soroban_ml_dsa.Core.MlDsa.{mldsa65, Keypair, from_seed, sign_into}
use soroban_ml_dsa.Core.MlDsa.External.{Backend}
use soroban_ml_dsa.Stellar.Payload.{network_id, testnet_passphrase, signature_payload}
use soroban_ml_dsa.Cli.Authorize.{
  transaction, auth_transaction, context, key_seed, plus_1, authorization_payload, succeeded, main,
}
use soroban_ml_dsa.Cli.Authorize.Built.{invocation, nonce_separates}
use soroban_ml_dsa.Cli.Authorize.Flow.{Authorizes, main-Authorizes}
use soroban_ml_dsa.Cli.External.{TransactionEnvelope, no_preconditions, no_memo, v0}
use soroban_ml_dsa.Cli.Format.{hex, transaction_params}
use soroban_ml_dsa.Cli.Transactions.{
  Tx, SimResult, secret_seed, account_pk, contract_addr, invoke_op, build_tx, sign_envelope,
}
use soroban_ml_dsa.Cli.Rpc.{
  read_simulation, simulate, account_state, rpc, get_str, ask, is_not_found, poll, submit,
}
use soroban_ml_dsa.Cli.Poll.{Waits, Ending, poll-Ending}
use soroban_ml_dsa.Cli.Submit.{Signed, fee_covers, submit_answers}
use soroban_ml_dsa.Examples.Server.{
  Doc, words, entry, get, as_str, field, answer, json, world, Op, crates, verify, crates-IsLawful,
}

abbrev hash_text : String
hash_text = "0500000000000000000000000000000000000000000000000000000000000000"

abbrev tx : Tx crates
tx = record {
  source_account = [];
  fee = 100;
  seq_num = pos 7;
  cond = no_preconditions;
  memo = no_memo;
  operations = [];
  ext = v0;
}

abbrev sim : SimResult crates
sim = record {
  instructions = 1;
  disk_read_bytes = 2;
  write_bytes = 3;
  min_fee = pos 500;
  resources = 0;
}

-- One `NOT_FOUND`, and then the answer.
submit_run :
    submit json world crates tx sim (4 ∷ []) (5 ∷ []) []
    ≡ (ok (entry "_hash" (words hash_text) (answer "SUCCESS")), 1 ∷ 1 ∷ 1 ∷ [])
unfolding submit sign_envelope rpc get field poll ask is_not_found as_str hex digest zeros
submit_run = refl

fee_covers_example :
    (env : TransactionEnvelope (Tx crates)) × (hash : Bytes) × (b64 : String) × (send : Doc)
    × (w1 : Bytes) × (sign_envelope crates tx sim (4 ∷ []) (5 ∷ []) ≡ ok (env, hash))
    × (some "envelope" ≡ some b64)
    × (rpc json world {E = Never} "sendTransaction" (transaction_params b64) [] ≡ (ok send, w1))
    × (((500 + 1000 < 2 ^ 32) × (env.tx.fee ≡ 500 + 1000))
        ⊎ ((2 ^ 32 ≤ 500 + 1000) × (env.tx.fee ≡ (500 + 1000) % 2 ^ 32) × (env.tx.fee < 500)))
fee_covers_example = fee_covers crates json world tx sim (4 ∷ []) (5 ∷ []) [] refl submit_run

poll-Ending_example :
    Ending json world 40 hash_text (1 ∷ []) (poll json world 40 hash_text (1 ∷ []))
poll-Ending_example = poll-Ending json world 40 hash_text (1 ∷ [])

submit_answers_example :
    (env : TransactionEnvelope (Tx crates)) × (hash : Bytes) × (b64 : String) × (send : Doc)
    × (w1 : Bytes) × (k : ℕ) × (w2 : Bytes) × (g : Doc) × Signed crates verify tx sim
        (4 ∷ [])
        (5 ∷ [])
        env
        hash
    × (some "envelope" ≡ some b64)
    × (rpc json world {E = Never} "sendTransaction" (transaction_params b64) [] ≡ (ok send, w1))
    × (get_str json world crates (field send "result") "errorResultXdr" ≡ none)
    × (k < 40)
    × Waits json world (hex hash) k w1 w2
    × (ask json world (hex hash) w2 ≡ (ok g, 1 ∷ 1 ∷ 1 ∷ []))
    × (is_not_found json world g ≡ false)
    × (some (entry "_hash" (words (hex hash)) g)
        ≡ some (entry "_hash" (words hash_text) (answer "SUCCESS")))
submit_answers_example =
    submit_answers crates verify json world crates-IsLawful tx sim (4 ∷ []) (5 ∷ []) [] submit_run

abbrev pub M : Backend
M = backend 1952 4032 3309

abbrev Rerun : Type 0
Rerun =
    (seed : Bytes) × (source : Bytes) × (kp : Keypair M) × (seq : ℤ) × (latest : ℕ) × (t : Tx
      crates)
    × (s : SimResult crates) × (r : Doc) × (w1 : Bytes) × (w2 : Bytes) × (secret_seed crates "S"
        ≡ ok seed)
    × (account_pk crates "G" ≡ ok source)
    × (from_seed mldsa65 M key_seed ≡ ok kp)
    × (account_state json world crates source [] ≡ (ok (seq, latest), w1))
    × ((address : ℕ) × (name : String) × (message : Bytes) × (e : Entry wire) × (op : Op)
        × (contract_addr crates "C" ≡ ok address)
        × (◌≡◌ {A = Option String} (some "protected") (some name))
        × (invoke_op crates "C" "protected" [] (e ∷ []) ≡ ok op)
        × (build_tx crates source (plus_1 seq) op ≡ ok t)
        × (signature_payload wire digest
              (authorization_payload crates latest (invocation crates address name))
            ≡ ok message)
        × Authorizes M json world crates address kp
            (authorization_payload crates latest (invocation crates address name)) message e)
    × (submit json world crates t s seed (network_id digest testnet_passphrase) w2
        ≡ (ok r, 1 ∷ 1 ∷ 1 ∷ 1 ∷ []))
    × (succeeded M json world crates r ≡ true)

-- Four requests: the account, the simulation, the submission, and one round of waiting.
pub main_run : main M json world crates "G" "C" none "S" [] ≡ (ok tt, 1 ∷ 1 ∷ 1 ∷ 1 ∷ [])
unfolding main secret_seed account_pk from_seed key_seed account_state rpc transaction
    auth_transaction contract_addr signature_payload build_auth_entry sign_authorization sign_into
    context zeros tag fit authorization_payload succeeded hex ask is_not_found poll read_simulation
    simulate submit build_tx invoke_op sign_envelope check_context check_len copy_prefix as_bytes
    bytes_to_scval network_id digest get field as_str
main_run = refl

main-Authorizes_example : Rerun
main-Authorizes_example =
    main-Authorizes M json world crates (backend-IsLawful 1952 4032 3309) wire-IsLawful "G" "C" none
      "S" [] (λ h. cc) main_run

nonce_separates_example :
    let p = authorization_payload crates 100 5 in
    let p' = authorization_payload crates 101 5 in
    ((n : ℕ) × (p.nonce ≡ pos n) × (n < 2 ^ 63))
    × ((p.nonce ≡ p'.nonce) ↔ (◌≡◌ {A = ℕ} 100 101))
    × (((100 + 1000 < 2 ^ 32) × (p.signature_expiration_ledger ≡ 100 + 1000))
        ⊎ ((2 ^ 32 ≤ 100 + 1000) × (p.signature_expiration_ledger < 100)))
nonce_separates_example = nonce_separates crates 100 101 5 5 (omega arith)

hex_run : hex (0 ∷ 255 ∷ 16 ∷ []) ≡ "00ff10"
unfolding hex
hex_run = refl
