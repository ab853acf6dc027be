-- ===== src/Examples/Bench.antt =====
-- The benchmark over the stand-ins: runs, and each theorem at a concrete input.
use soroban_ml_dsa.Prelude.{
  ◌*◌, ◌≤◌, ◌<◌, ◌≡◌, ◌↔◌, refl, arith, true, some, [], Bytes, replicate, zeros, ok,
}
use soroban_ml_dsa.Core.Traits.{check_context, check_len, copy_prefix}
use soroban_ml_dsa.Core.MlDsa.{mldsa65, Keypair, from_seed, sign_into, vk_write_to}
use soroban_ml_dsa.Contracts.Verifier.{verify_bytes, decode_bytes}
use soroban_ml_dsa.Stellar.Display.{decimal}
use soroban_ml_dsa.Cli.Transactions.{account_pk, contract_addr, invoke_op, build_tx}
use soroban_ml_dsa.Cli.Rpc.{account_state, simulate, read_simulation, rpc}
use soroban_ml_dsa.Cli.Bench.{
  P256, Report, key_vector, sign_vector, msg32, b, measure, measure_bytes, values, measure_rows,
  inputs, sweep, main,
}
use soroban_ml_dsa.Cli.Bench.Cost.{seq_n, par, clusters, ledger_max_tx_count, find, summarise}
use soroban_ml_dsa.Cli.Bench.Vectors.{vectors_accepted}
use soroban_ml_dsa.Cli.Bench.Throughput.{par_lem}
use soroban_ml_dsa.Cli.Bench.Lookups.{Benchmarked, main-Benchmarked}
use soroban_ml_dsa.Examples.Toy.{sized, fit, backend-IsLawful, tag}
use soroban_ml_dsa.Examples.World.{sdk, sdk-IsLawful, digest}
use soroban_ml_dsa.Examples.Server.{get, as_str, field, json, world, crates}
use soroban_ml_dsa.Examples.Direct.{M, M44}

abbrev seed : Bytes
seed = replicate 32 42

abbrev kp : Keypair M
kp = record { signing = sized 4032 seed; verifying = sized 1952 (fit 4032 seed) }

seeded : from_seed mldsa65 M seed ≡ ok kp
unfolding from_seed
seeded = refl

vectors_accepted_example :
    (vk : Bytes) × (sig : Bytes) × (key_vector mldsa65 M kp ≡ ok vk)
    × (sign_vector mldsa65 M kp msg32 ≡ ok sig)
    × (decode_bytes M sdk mldsa65 1952 vk ≡ ok true)
    × (verify_bytes M sdk mldsa65 1952 3309 vk msg32 sig ≡ ok true)
vectors_accepted_example =
    vectors_accepted mldsa65 M (backend-IsLawful 1952 4032 3309) sdk sdk-IsLawful seed msg32 seeded
      (omega arith)

par_lem_example :
    (par 579420 ≤ ledger_max_tx_count)
    × (par 579420 ≤ clusters * seq_n 579420)
    × ((par 579420 < clusters * seq_n 579420) ↔ (◌<◌ 579420 579421))
par_lem_example = par_lem 579420

abbrev p256 : P256
p256 = record {
  SigningKey = Bytes;
  from_bytes = λ k. some k;
  sign_prehash = λ k digest. some digest;
  encoded_point = λ k. k;
}

-- 13 requests: the account, seven measurements, and five lengths of message.
main_run :
    (report : Report) × (main M44 M json world crates p256 "G" "C" [] ≡ (ok report, replicate 13 1))
unfolding main inputs measure_rows sweep measure measure_bytes values summarise find b key_vector
    sign_vector vk_write_to sign_into from_seed account_pk account_state rpc contract_addr invoke_op
    build_tx simulate read_simulation check_context check_len copy_prefix zeros tag fit digest get
    field as_str decimal
main_run = (_, refl)

main-Benchmarked_example :
    Benchmarked M44 M json world crates p256 "G" "C" [] main_run.0 (replicate 13 1)
main-Benchmarked_example = main-Benchmarked M44 M json world crates p256 "G" "C" [] main_run.1
