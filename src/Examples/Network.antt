-- ===== src/Examples/Network.antt =====
-- The programs submit.rs and simulate.rs of phase0/harness over the stand-in server.
use soroban_ml_dsa.Prelude.{
  ℕ, ◌≡◌, ◌≢◌, ◌↔◌, refl, arith, inr, true, some, none, List, [], ◌∷◌, replicate, ok, zeros,
  Bytes-discrete, ℕ_discrete, String, Bytes,
}
use soroban_ml_dsa.Prelude.Int.{pos}
use soroban_ml_dsa.Prelude.Texts.{as_bytes}
use soroban_ml_dsa.Stellar.Payload.{network_id}
use soroban_ml_dsa.Cli.Format.{hex}
use soroban_ml_dsa.Cli.Transactions.{
  Tx, SimResult, account_pk, secret_seed, contract_addr, invoke_op, build_tx, sign_envelope,
}
use soroban_ml_dsa.Cli.External.{no_preconditions, no_memo, v0}
use soroban_ml_dsa.Cli.Rpc
use soroban_ml_dsa.Cli.Rpc.{rpc, ask, is_not_found}
use soroban_ml_dsa.Cli.Bench.{b, values}
use soroban_ml_dsa.Phase0.Account.{check_auth}
use soroban_ml_dsa.Phase0.Harness.Envelope.{sized}
use soroban_ml_dsa.Phase0.Harness.Signed.{sign_checked, key_bytes, vk}
use soroban_ml_dsa.Phase0.Harness.Entry.{
  protected_invocation, digest, entry_with, protected_op, authorize, Authorized,
}
use soroban_ml_dsa.Phase0.Harness.Entry.Agreement.{Covers, authorize_approved}
use soroban_ml_dsa.Phase0.Harness.Submit as Submit
use soroban_ml_dsa.Phase0.Harness.Submit.Agreement.{added, submission-Agrees}
use soroban_ml_dsa.Phase0.Harness.Submit.Submitted.{Submitted, main-Submitted, Finalised}
use soroban_ml_dsa.Phase0.Harness.Submit.Finishes.{finalise_iff}
use soroban_ml_dsa.Phase0.Harness.Submit.Total.{Serves, main_reports}
use soroban_ml_dsa.Cli.Poll.{arrived}
use soroban_ml_dsa.Phase0.Harness.Simulate as Simulate
use soroban_ml_dsa.Phase0.Harness.Simulate.Figures as Figures
use soroban_ml_dsa.Phase0.Harness.Simulate.Figures.{Sim}
use soroban_ml_dsa.Phase0.Harness.Simulate.Measured.{Measured, main-Measured}
use soroban_ml_dsa.Examples.Toy.{fit, tag, backend-IsLawful}
use soroban_ml_dsa.Examples.World as World
use soroban_ml_dsa.Examples.World.{wire, wire-IsLawful, sdk, sdk-IsLawful, State, length-digest}
use soroban_ml_dsa.Examples.Server.{
  Doc, get, as_str, field, json, world, crates, verify, crates-IsLawful, crates-Converts,
}
use soroban_ml_dsa.Examples.Direct.{M, M44, host, calls-IsLawful}
use soroban_ml_dsa.Examples.Signers.{signing-IsLawful, ed25519, N, N44, G, G44, results}

-- Four requests: the account, the simulation, the submission, and one round of waiting.
submit_run :
    (report : Submit.Report json world crates results) × (Submit.main json world crates results M N
        G "G" "C" "S" []
      ≡ (ok report, replicate 4 1))
unfolding Submit.main Submit.simulate Submit.finalise Submit.poll Submit.final_of account_pk
    secret_seed contract_addr Rpc.account_state rpc authorize protected_invocation digest entry_with
    protected_op build_tx sign_checked sign_envelope ask fit tag zeros World.digest Bytes-discrete
    get as_str field hex as_bytes network_id ℕ_discrete
submit_run = (_, refl)

main-Submitted_example :
    Submitted json world crates results M N G
      (backend-IsLawful 1952 4032 3309)
      (calls-IsLawful 1952 4032 3309)
      (signing-IsLawful 1952 4032 3309)
      verify
      "G"
      "C"
      "S"
      []
      submit_run.0
      (replicate 4 1)
main-Submitted_example =
    main-Submitted json world crates results M N G (backend-IsLawful 1952 4032 3309)
      (calls-IsLawful 1952 4032 3309) (signing-IsLawful 1952 4032 3309) verify crates-IsLawful "G"
      "C" "S" [] submit_run.1

empty_fails : (td : ℕ) → crates.resources_from_base64 "" ≢ ok td
empty_fails td h = cc

simulate_run :
    (report : Simulate.Report) × (Simulate.main json world crates results M44 M N44 N G44 G ed25519
        "G" "C" "C" []
      ≡ (ok report, replicate 7 1))
unfolding Simulate.main Simulate.simulate Simulate.measured Simulate.account_state
    Simulate.instance_len Simulate.simulate_call Simulate.probe_rows Simulate.account_sim sized b
    values account_pk contract_addr invoke_op rpc authorize protected_invocation digest entry_with
    protected_op build_tx sign_checked fit tag zeros World.digest Bytes-discrete get as_str field
    as_bytes network_id ℕ_discrete
simulate_run = (_, refl)

main-Measured_example :
    Measured json world crates results empty_fails M44 M N44 N G44 G ed25519
      (backend-IsLawful 1952 4032 3309)
      (calls-IsLawful 1952 4032 3309)
      (signing-IsLawful 1952 4032 3309)
      "G"
      "C"
      "C"
      []
      simulate_run.0
      (replicate 7 1)
main-Measured_example =
    main-Measured json world crates results empty_fails M44 M N44 N G44 G ed25519
      (backend-IsLawful 1952 4032 3309) (calls-IsLawful 1952 4032 3309)
      (signing-IsLawful 1952 4032 3309) "G" "C" "C" [] simulate_run.1

abbrev verified : Sim
verified = record {
  insns = 700_000;
  disk_read = 1;
  write = 2;
  ro = 3;
  rw = 4;
  fee = pos 5;
  envelope_len = 6;
  final_len = 7;
  is_ok = true;
  err = "";
}

abbrev rows : List (String × Sim)
rows = ("wrong", Figures.failed 9 "no such contract") ∷ ("verify", verified) ∷ []

shown : Figures.throughput rows ≡ ("verify", 828, 1656) ∷ []
unfolding Figures.throughput Figures.seq_n Figures.par_n
shown = refl

abbrev tx : Tx crates
tx = record {
  source_account = [];
  fee = 100;
  seq_num = pos 7;
  cond = no_preconditions;
  memo = no_memo;
  operations = [];
  ext = v0;
}

abbrev stored : State
stored = record { key = some (key_bytes M (vk M N G)); credential = none }

entry_run : (a : Authorized crates M N G) × (authorize crates M N G 0 (9 ∷ []) (pos 5) 1000 ≡ ok a)
unfolding authorize protected_invocation digest entry_with sign_checked fit tag zeros World.digest
    Bytes-discrete ℕ_discrete
entry_run = (_, refl)

authorize_approved_example :
    Covers crates M N G
      (backend-IsLawful 1952 4032 3309)
      (calls-IsLawful 1952 4032 3309)
      (signing-IsLawful 1952 4032 3309)
      0
      (9 ∷ [])
      (pos 5)
      1000
      entry_run.0
    × (check_auth M N sdk host stored entry_run.0.payload entry_run.0.signature ≡ ok tt)
authorize_approved_example =
    authorize_approved crates M N G (backend-IsLawful 1952 4032 3309)
      (calls-IsLawful 1952 4032 3309) (signing-IsLawful 1952 4032 3309) sdk host sdk-IsLawful
      length-digest stored refl 0 (9 ∷ []) (pos 5) 1000 entry_run.1

simulated_run :
    (s : SimResult crates) × (Submit.simulate json world crates results tx [] ≡ (ok s, 1 ∷ []))
unfolding Submit.simulate rpc get as_str field
simulated_run = (_, refl)

finalised_run :
    (length : ℕ) × (hash : Bytes) × (final : Submit.Final) × (Submit.finalise json world crates
        results tx simulated_run.0
        (4 ∷ [])
        (5 ∷ [])
        (1 ∷ [])
      ≡ (ok (length, hash, some final), 1 ∷ 1 ∷ 1 ∷ []))
unfolding Submit.finalise Submit.poll Submit.final_of sign_envelope rpc ask get as_str field hex
    World.digest zeros simulated_run
finalised_run = (_, _, _, refl)

submission-Agrees_example :
    (Rpc.simulate json world crates tx (some "enforce") [] ≡ (ok simulated_run.0, 1 ∷ []))
    × ((g : Doc) × (Rpc.submit json world crates tx simulated_run.0 (4 ∷ []) (5 ∷ []) (1 ∷ [])
          ≡ (added json world crates results g (hex finalised_run.1), 1 ∷ 1 ∷ 1 ∷ []))
        × (finalised_run.2.status ≡ Submit.status_of json world crates results g))
submission-Agrees_example =
    submission-Agrees json world crates results tx (4 ∷ []) (5 ∷ []) [] simulated_run.1
      finalised_run.3

finalise_iff_example :
    (Submit.finalise json world crates results tx simulated_run.0 (4 ∷ []) (5 ∷ []) (1 ∷ [])
      ≡ (ok (finalised_run.0, finalised_run.1, some finalised_run.2), 1 ∷ 1 ∷ 1 ∷ []))
    ↔ Finalised json world crates results tx simulated_run.0
        (4 ∷ [])
        (5 ∷ [])
        (1 ∷ [])
        (finalised_run.0, finalised_run.1, some finalised_run.2)
        (1 ∷ 1 ∷ 1 ∷ [])
finalise_iff_example =
    finalise_iff json world crates results tx simulated_run.0 (4 ∷ []) (5 ∷ []) (1 ∷ [])
      (finalised_run.0, finalised_run.1, some finalised_run.2) (1 ∷ 1 ∷ 1 ∷ [])

world-Serves : Serves json world crates results (1 ∷ [])
unfolding rpc ask is_not_found get field as_str Submit.final_of
world-Serves envelope = (
  _,
  _,
  _,
  _,
  _,
  _,
  refl,
  refl,
  refl,
  refl,
  refl,
  refl,
  λ signed hash.
      (_, _, _, _, refl, refl, inr (0, _, _, _, _, omega arith, arrived, refl, refl, refl, refl)),
)

state_run : Rpc.account_state json world crates [] [] ≡ (ok (pos 7, 100), 1 ∷ [])
unfolding Rpc.account_state rpc get as_str field
state_run = refl

parsed :
    (account_pk crates "G" ≡ ok [])
    × (secret_seed crates "S" ≡ ok (4 ∷ []))
    × (contract_addr crates "C" ≡ ok 0)
unfolding secret_seed account_pk contract_addr
parsed = (refl, refl, refl)

main_reports_example :
    (report : Submit.Report json world crates results) × (w' : Bytes) × (Submit.main json world
        crates results M N G "G" "C" "S" []
      ≡ (ok report, w'))
main_reports_example =
    main_reports json world crates results crates-Converts (λ e. (1 ∷ 2 ∷ 3 ∷ [], refl)) M N G
      (backend-IsLawful 1952 4032 3309) (calls-IsLawful 1952 4032 3309)
      (signing-IsLawful 1952 4032 3309) wire-IsLawful "G" "C" "S" [] parsed.0 parsed.1 parsed.2
      state_run world-Serves
