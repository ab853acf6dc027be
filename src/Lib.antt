-- ===== src/Lib.antt =====
-- A verification library for this repository: post-quantum (ML-DSA) signatures for Soroban
-- contract accounts.
--
-- The parts, and where they are modelled:
--
-- - crates/pq-core/src (error.rs, traits.rs, schemes/): module Core. A trait is a record of its
--   methods (Core/Traits.antt); `check_context` and `check_len` keep their names. The macro
--   `impl_mldsa!` is Core/MlDsa.antt, over its arguments `Params`, with `mldsa44` and `mldsa65` as its
--   two uses; `VerifyingKey::write_to`, `from_bytes` and `verify` are `vk_write_to`, `vk_from_bytes`
--   and `verify`, those of `SigningKey` are `sk_write_to`, `sk_from_bytes` and `sign_into`, and
--   `Keypair::from_seed` is `from_seed`. schemes/slhdsa_sketch.rs is Core/SlhDsa.antt and
--   Core/Adapter.antt. Core/Contract.antt states what callers of the traits rely on, and
--   `KeepsPromises` there what their documentation promises. The test
--   `size_guard` of the macro is Core/MlDsa/Guard.antt, its `Debug` texts are Core/MlDsa/Debug.antt.
-- - crates/pq-stellar/src (payload.rs, auth.rs, error.rs): module Stellar. Its functions keep their
--   names and are over any scheme, as in the source. Stellar/Display.antt holds the texts of the errors
--   of both crates, with the decimal digits of a number on the number itself as fuel. The bodies of
--   the tests in pq-stellar/tests/roundtrip.rs are Stellar/Tests.antt.
-- - contracts/pq-account/src/lib.rs: Contracts/Account.antt (`init`, `check_auth` for `__check_auth`,
--   `protected`). contracts/pq-verifier/src/lib.rs: Contracts/Verifier.antt. Contracts/Flow.antt joins
--   the client of pq-stellar to the account contract, Contracts/Account/View.antt has the contract as a
--   specification over an optional key, Contracts/Account/Machine.antt as a machine that takes any
--   sequence of calls.
-- - phase0/account/src/lib.rs is Phase0/Account.antt, phase0/contract/src/lib.rs is
--   Phase0/Contract.antt; both call the crate ml-dsa directly, and an Agreement.antt below each compares
--   it with the contract that replaces it.
-- - crates/pq-cli/src/lib.rs: module Cli. Cli/Format.antt holds the texts it formats,
--   Cli/Transactions.antt the parts with no effect (`sign_envelope` is the first part of `submit`, and
--   Cli/Stages.antt what its return implies),
--   Cli/Rpc.antt those that talk to the server, as functions of the state of the outside world
--   (Cli/Act.antt). `poll` is the loop of `submit` and `ask` one round of it.
--   src/bin/authorize.rs is Cli/Authorize.antt, src/bin/bench.rs is Cli/Bench.antt: `main` takes the
--   arguments and the secret that the program reads from its surroundings; `measure`, `find`, `net`
--   and `b` keep their names, and a report is what would be printed. Cli/Bench/Cost.antt is the
--   arithmetic on the costs, Cli/Live.antt says what a server has to answer for the tool to finish, and
--   Cli/Authorize/Chain.antt joins two runs of the tool to the account contract.
-- - phase0/harness/src: module Phase0.Harness. main.rs is Probe.antt, and bin/account.rs,
--   bin/vectors.rs, bin/submit.rs and bin/simulate.rs are the files of their names. They share
--   Signed.antt (the key of the seed of 42s, a signature and its check, a flipped byte) and Entry.antt
--   (the authorization entry of a call of `protected`, which three of them build by hand). The
--   programs that talk to the network use the requests of module Cli, whose text they repeat. The
--   time limit of a request, 60 seconds in simulate.rs and 90 elsewhere, is left to `System`, which
--   may fail at any request.
-- - Examples holds concrete stand-ins for all that is assumed, and runs of the code on them.
--
-- How they interact: pq-stellar computes the 32 bytes of a payload, has a scheme of pq-core sign them
-- and puts the signature into an authorization entry; pq-cli submits the transaction; the host hands
-- payload and signature to `__check_auth`, which verifies them with the same pq-core binding against the
-- key that `init` stored. The measuring programs send the same calls to pq-verifier and to the contracts of
-- phase0, in a test environment or through the server's simulation.
--
-- How the code is modelled. A call returns, fails with an error, or panics (`Run` in
-- Prelude/Results.antt); `?` is bind, with `map_err` for a conversion. A `&mut [u8]` comes back beside
-- the result as the call left it, also after an error. Bytes, lengths and `u32` are native numbers;
-- arithmetic on machine integers is done on fees, ledgers and nonces, where the casts to `u32` are
-- written out, and on costs. A sum there is that of the integers: where it leaves its type a debug build
-- panics, and the low 32 bits are those of a release build. The loops that wait for a transaction are
-- recursion on their rounds, 40 in pq-cli and 30 in the harness; all others run over lists.
--
-- What is a parameter, since its code is not in the repository: the crate ml-dsa (`Backend` in
-- Core/MlDsa/External.antt), stellar-xdr and sha2 (Stellar/External.antt), soroban-sdk with the
-- host (Contracts/Host.antt), the methods that phase0 calls (Phase0/External.antt), and JSON, strkeys,
-- ed25519 and the network (Cli/External.antt), p256 (Cli/Bench.antt), the signing side of ml-dsa and
-- ed25519-dalek with the XDR of results (Phase0/Harness/External.antt), and the test environment of
-- soroban-sdk (Phase0/Harness/Account.antt). `IsLawful` and `IsLedger` beside them state the
-- documented behaviour that theorems assume; no theorem assumes that a signature cannot be forged or
-- that the hash has no collision. Where the source relies on the latter, the theorem names a collision
-- instead.
--
-- Not modelled: the derived Debug texts but that of a key pair, the text that is printed and the
-- figures in floating point in it (shares of a limit, ratios, fees per operation, rates), and the
-- tests but `size_guard` and roundtrip.rs: they run fixed vectors from files, compare with another
-- crate, or search the text of the sources.
pub mod Prelude
pub mod Core
pub mod Stellar
pub mod Contracts
pub mod Phase0
pub mod Cli
pub mod Examples
