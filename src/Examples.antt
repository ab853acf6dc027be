-- ===== src/Examples.antt =====
-- Concrete stand-ins for the crates and the host that the development takes as parameters, which
-- show that what it assumes of them can hold; runs of the code on them; and each theorem at a
-- concrete input.
mod Toy
mod World
mod Core
mod Stellar
mod Contracts
mod Direct
mod Phase0
mod Server
mod Cli
mod Adapter
mod Signers
mod Bench
mod Harness
mod Account
mod Network
mod Chain
