-- ===== src/Cli.antt =====
-- crates/pq-cli/src: the command line tools that submit transactions.
pub mod Act
pub mod External
pub mod Format
pub mod Transactions
pub mod Rpc
pub mod Poll
pub mod Submit
pub mod Stages
pub mod Liveness
pub mod Live
pub mod Authorize
pub mod Bench
