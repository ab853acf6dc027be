-- ===== src/Phase0/Harness/Probe.antt =====
-- phase0/harness/src/main.rs: the cost of each call of the contract pq-probe. What `main` prints is
-- its result here, but for the figures that it computes in floating point.
pub mod Verdicts
use soroban_ml_dsa.Prelude.{
  ℕ, ◌-◌, ltb, if◌then◌else◌, String, Bool, true, false, Bytes, replicate, length, List, [], ◌∷◌,
  Run, Never, ok, ◌>>=◌, or_panic,
}
use soroban_ml_dsa.Core.MlDsa.External.{Backend}
use soroban_ml_dsa.Contracts.Host.{Sdk, Crypto}
use soroban_ml_dsa.Phase0.External.{Calls}
use soroban_ml_dsa.Phase0.Contract
use soroban_ml_dsa.Phase0.Harness.External.{Signing, Ed25519}
use soroban_ml_dsa.Prelude.Slices.{flip_at}
use soroban_ml_dsa.Phase0.Harness.Signed.{key_bytes, sig_bytes, vk, sign_checked}

abbrev pub tx_max_insn : ℕ
tx_max_insn = 400_000_000

abbrev pub msg : Bytes
msg = replicate 32 7

-- A function of the contract, with its arguments.
pub data Call : Type 0 where
  noop : Call
  verify verify44 ed25519 : Bytes → Bytes → Bytes → Call
  decode_only : Bytes → Call

-- A line of the table, with its cost and the cost net of the no-op.
pub record Line : Type 0 where
  pub name : String
  pub cpu : ℕ
  pub net : ℕ
  pub result : String

pub record Report : Type 0 where
  pub cpu_noop : ℕ
  pub mem_noop : ℕ
  pub rows : List Line
  pub mem65 : ℕ
  pub mem44 : ℕ
  -- The lengths of a key and a signature of ML-DSA-65, and of ML-DSA-44.
  pub sizes : List ℕ
  pub verdict : String

-- `cost` is what the host's budget reports of a call: instructions and memory.
module _ (M44 M65 : Backend) (N44 : Calls M44) (N65 : Calls M65) (K : Sdk) (C : Crypto)
    (cost : Call → ℕ × ℕ) where
  -- A call of the contract that is registered.
  unfoldable pub invoke : Call → Run Never Bool
  invoke noop = Contract.noop
  invoke (verify pk m sig) = Contract.verify M65 N65 K pk m sig
  invoke (verify44 pk m sig) = Contract.verify44 M44 N44 K pk m sig
  invoke (ed25519 pk m sig) = Contract.ed25519 K C pk m sig
  invoke (decode_only pk) = Contract.decode_only M65 N65 K pk

  unfoldable pub measure : Call → Run Never (ℕ × ℕ × Bool)
  measure call = do r ← invoke call; let (cpu, mem) = cost call; ok (cpu, mem, r)

module _ (M44 M65 : Backend) (N44 : Calls M44) (N65 : Calls M65) (G44 : Signing M44)
    (G65 : Signing M65) (K : Sdk) (C : Crypto) (D : Ed25519) (cost : Call → ℕ × ℕ) where
  unfoldable pub main : Run Never Report
  main = do
    (cpu_noop, mem_noop, _) ← measure M44 M65 N44 N65 K C cost noop
    s65 ← sign_checked M65 N65 G65 msg
    let pk65 = key_bytes M65 (vk M65 N65 G65)
    let sig65 = sig_bytes M65 s65
    (cpu65, mem65, ok65) ← measure M44 M65 N44 N65 K C cost (verify pk65 msg sig65)
    (cpu65d, _, _) ← measure M44 M65 N44 N65 K C cost (decode_only pk65)
    bad ← or_panic (flip_at 100 sig65)
    (cpu65f, _, ok65f) ← measure M44 M65 N44 N65 K C cost (verify pk65 msg bad)
    s44 ← sign_checked M44 N44 G44 msg
    let pk44 = key_bytes M44 (vk M44 N44 G44)
    let sig44 = sig_bytes M44 s44
    (cpu44, mem44, ok44) ← measure M44 M65 N44 N65 K C cost (verify44 pk44 msg sig44)
    let seed = replicate 32 9
    (cpu_ed, _, _) ←
        measure M44 M65 N44 N65 K C cost (ed25519 (D.verifying_key seed) msg (D.sign seed msg))
    let line : String → ℕ → String → Line =
        λ name cpu result. record { name = name; cpu = cpu; net = cpu - cpu_noop; result = result }
    ok (record {
      cpu_noop = cpu_noop;
      mem_noop = mem_noop;
      rows =
          line "Ed25519 (host fn)" cpu_ed "ok"
          ∷ line "ML-DSA-44 verify (in-contract)" cpu44 (if ok44 then "ok" else "FAIL")
          ∷ line "ML-DSA-65 verify (in-contract)" cpu65 (if ok65 then "ok" else "FAIL")
          ∷ line "  └─ key decode / ExpandA only" cpu65d "ok"
          ∷ line "ML-DSA-65 verify (bad sig)" cpu65f (if ok65f then "LEAK" else "rejected")
          ∷ [];
      mem65 = mem65;
      mem44 = mem44;
      sizes = length pk65 ∷ length sig65 ∷ length pk44 ∷ length sig44 ∷ [];
      verdict = if ltb cpu65 tx_max_insn then "FITS" else "EXCEEDS";
    })
