-- ===== src/Examples/Chain.antt =====
-- The tool of pq-cli run twice against the stand-in server, and the account contract over the
-- stand-in host: a key is stored and then a call is authorized.
use soroban_ml_dsa.Prelude.{arith, zeros, ◌≡◌, refl, some, none, [], ◌∷◌, Bytes, ok, err}
use soroban_ml_dsa.Prelude.Int.{pos}
use soroban_ml_dsa.Prelude.Texts.{as_bytes}
use soroban_ml_dsa.Core.Traits.{check_len, copy_prefix}
use soroban_ml_dsa.Core.MlDsa.{from_seed, vk_write_to}
use soroban_ml_dsa.Core.MlDsa.External.{Backend}
use soroban_ml_dsa.Stellar.Auth.{encode_verifying_key, bytes_to_scval}
use soroban_ml_dsa.Stellar.Payload.{network_id}
use soroban_ml_dsa.Contracts.Account.{bad_sig_len}
use soroban_ml_dsa.Contracts.Account.View.{Viewed, answers, view_lem}
use soroban_ml_dsa.Cli.Authorize.{main, key_seed, transaction, init_transaction, succeeded}
use soroban_ml_dsa.Cli.Authorize.Chain.{Chained, authorizes_after_init}
use soroban_ml_dsa.Cli.Authorize.Total.{Willing, main_finishes}
use soroban_ml_dsa.Cli.Poll.{arrived}
use soroban_ml_dsa.Cli.Format.{hex}
use soroban_ml_dsa.Cli.Transactions.{
  secret_seed, account_pk, contract_addr, invoke_op, build_tx, sign_envelope,
}
use soroban_ml_dsa.Cli.Rpc.{
  read_simulation, simulate, account_state, rpc, ask, is_not_found, poll, submit,
}
use soroban_ml_dsa.Examples.Toy.{tag, fit, length-fit, backend, backend-IsLawful}
use soroban_ml_dsa.Examples.World.{
  wire-IsLawful, digest, length-digest, sdk, sdk-IsLawful, State, ledger, ledger-IsLedger,
}
use soroban_ml_dsa.Examples.Server.{get, as_str, field, json, world, crates, crates-Converts}
use soroban_ml_dsa.Examples.Cli.{main_run}

abbrev M : Backend
M = backend 1952 4032 3309

abbrev fresh : State
fresh = record { key = none; credential = none }

init_run : main M json world crates "G" "C" (some "init") "S" [] ≡ (ok tt, 1 ∷ 1 ∷ 1 ∷ 1 ∷ [])
unfolding main secret_seed account_pk from_seed key_seed account_state rpc transaction
    init_transaction encode_verifying_key vk_write_to contract_addr zeros tag fit succeeded hex ask
    is_not_found poll read_simulation simulate submit build_tx invoke_op sign_envelope check_len
    copy_prefix as_bytes bytes_to_scval network_id digest get field as_str
init_run = refl

authorizes_after_init_example :
    Chained M json world crates sdk ledger fresh
      ((1 ∷ []) ∷ [])
      "G"
      "G"
      "C"
      "S"
      "S"
      []
      (1 ∷ 1 ∷ 1 ∷ 1 ∷ [])
      []
      (1 ∷ 1 ∷ 1 ∷ 1 ∷ [])
authorizes_after_init_example =
    authorizes_after_init M json world crates sdk ledger (backend-IsLawful 1952 4032 3309)
      wire-IsLawful sdk-IsLawful ledger-IsLedger length-digest fresh ((1 ∷ []) ∷ []) "G" "G" "C" "S"
      "S" none [] [] (omega arith, tt) (λ h. cc) init_run main_run

answers_short :
    answers M sdk ledger (some (fit 1952 [], length-fit 1952 [])) (fit 32 []) [] ≡ err bad_sig_len
answers_short = refl

view_lem_example : Viewed M sdk ledger fresh
view_lem_example =
    view_lem M sdk ledger (backend-IsLawful 1952 4032 3309) sdk-IsLawful ledger-IsLedger fresh refl

-- The account of the run: the state that the server tells, and what it does with transactions.
state_run : account_state json world crates [] [] ≡ (ok (pos 7, 100), 1 ∷ [])
unfolding account_state rpc get field as_str
state_run = refl

world-Willing : Willing M json world crates (1 ∷ [])
unfolding read_simulation rpc ask is_not_found succeeded get field as_str
world-Willing envelope auth_mode = (
  _,
  _,
  _,
  refl,
  refl,
  λ signed hash. (_, 0, _, _, _, _, _, refl, refl, omega arith, arrived, refl, refl, refl, refl),
)

parsed :
    (secret_seed crates "S" ≡ ok (4 ∷ []))
    × (account_pk crates "G" ≡ ok [])
    × (contract_addr crates "C" ≡ ok 0)
unfolding secret_seed account_pk contract_addr
parsed = (refl, refl, refl)

main_finishes_example : (w' : Bytes) × (main M json world crates "G" "C" none "S" [] ≡ (ok tt, w'))
main_finishes_example =
    main_finishes M json world crates (backend-IsLawful 1952 4032 3309) wire-IsLawful
      crates-Converts "G" "C" none "S" [] parsed.0 parsed.1 parsed.2 state_run world-Willing
