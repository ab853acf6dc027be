-- ===== src/Examples/World.antt =====
-- An XDR encoder that lists the fields, a digest that cuts to 32 bytes, and a host with one key.
use soroban_ml_dsa.Prelude.{
  ℕ, ◌≡◌, refl, arith, Bool, true, false, ◌&&◌, Option, some, none, [], ◌∷◌, ◌++◌, Bytes, length,
  ◌==◌, if◌then◌else◌,
}
use soroban_ml_dsa.Prelude.Int.{ℤ, pos, negsuc}
use soroban_ml_dsa.Stellar.External
use soroban_ml_dsa.Stellar.External.{Xdr, HashIdPreimageSorobanAuthorization}
use soroban_ml_dsa.Contracts.Host
use soroban_ml_dsa.Contracts.Host.{Sdk, Ledger, IsLedger}
use soroban_ml_dsa.Contracts.Account.{DataKey}
use soroban_ml_dsa.Examples.Toy.{fit, length-fit}

abbrev pub Preimage : Type 0
Preimage = HashIdPreimageSorobanAuthorization ℕ

abbrev pub sign_and_size : ℤ → Bytes
sign_and_size (pos n) = 0 ∷ n ∷ []
sign_and_size (negsuc n) = 1 ∷ n ∷ []

abbrev pub to_bytes : Preimage → Bytes
to_bytes h = sign_and_size h.nonce ++ (h.signature_expiration_ledger ∷ h.invocation ∷ h.network_id)

abbrev from_bytes : Bytes → Option Preimage
from_bytes (s ∷ n ∷ e ∷ i ∷ net) = some (record {
  network_id = net;
  nonce = if s == 0 then pos n else negsuc n;
  signature_expiration_ledger = e;
  invocation = i;
})
from_bytes _ = none

from_bytes-to_bytes : (z : ℤ) (h : Preimage) → h.nonce ≡ z → from_bytes (to_bytes h) ≡ some h
from_bytes-to_bytes (pos n) h e = ground arith
from_bytes-to_bytes (negsuc n) h e = ground arith

abbrev pub wire : Xdr
wire = record {
  ScAddress = ℕ;
  SorobanAuthorizedInvocation = ℕ;
  ScBytes = Bytes;
  ScVal = Bytes;
  scval_bytes = λ b. b;
  sc_bytes = λ b. some b;
  as_slice = λ b. b;
  to_xdr = λ h. some (to_bytes h);
  from_xdr = from_bytes;
}

pub wire-IsLawful : External.IsLawful wire
wire-IsLawful = record {
  from_xdr-to_xdr = λ h {b} e. ground (arith, from_bytes-to_bytes h.nonce h refl);
  sc_bytes_within = λ b h. (b, refl, refl);
}

unfoldable pub digest : Bytes → Bytes
unfolding fit
digest b = fit 32 b

pub length-digest : (b : Bytes) → length (digest b) ≡ 32
unfolding digest
length-digest b = length-fit 32 b

abbrev pub sdk : Sdk
sdk = record {
  copy_into_slice = λ b slice. if length b == length slice then some b else none;
  try_into = λ n b. if length b == n then some b else none;
}

pub sdk-IsLawful : Host.IsLawful sdk
sdk-IsLawful = record {
  copy_same_length = λ b slice h. ground arith;
  try_into_sized = λ n b h. ground arith;
  try_into_unsized = λ n b h. ground arith;
}

pub record State : Type 0 where
  pub key : Option Bytes
  pub credential : Option (Bytes × Bytes)

abbrev consult : Option (Bytes × Bytes) → (Bytes → Bytes → Bool) → Bool
consult none check = false
consult (some (payload, signature)) check = length payload == 32 && check payload signature

abbrev pub ledger : Ledger DataKey
ledger = record {
  Env = State;
  get = λ env k. env.key;
  set = λ env k v. record env { key = some v };
  require_auth = λ env check. consult env.credential check;
  credential = λ env. env.credential;
}

consult_checks :
    (c : Option (Bytes × Bytes)) (check : Bytes → Bytes → Bool)
    → consult c check ≡ true
    → (payload : Bytes) × (signature : Bytes) × (c ≡ some (payload, signature))
      × (length payload ≡ 32)
      × (check payload signature ≡ true)
consult_checks none check h = cc
consult_checks (some (payload, signature)) check h =
    (payload, signature, refl, ground arith, ground arith)

pub ledger-IsLedger : IsLedger ledger
ledger-IsLedger = record {
  get-set = λ env k v. refl;
  require_auth_checks = λ env check h. consult_checks env.credential check h;
}
