-- ===== src/Stellar/External.antt =====
-- What crates/pq-stellar/src uses of the crates `stellar-xdr` and `sha2`, which are not in the
-- repository: their types and functions are the fields of `Xdr` and a function `sha256`. The
-- records below have the fields that the source fills in.
use soroban_ml_dsa.Prelude.{ℕ, ◌^◌, ◌<◌, ◌≡◌, ◌≢◌, Option, some, Bytes, length}
use soroban_ml_dsa.Prelude.Int.{ℤ}

pub record HashIdPreimageSorobanAuthorization (Invocation : Type 0) : Type 0 where
  pub network_id : Bytes
  pub nonce : ℤ
  pub signature_expiration_ledger : ℕ
  pub invocation : Invocation

pub record SorobanAddressCredentials (ScAddress ScVal : Type 0) : Type 0 where
  pub address : ScAddress
  pub nonce : ℤ
  pub signature_expiration_ledger : ℕ
  pub signature : ScVal

-- The one variant of the enum that the source builds.
pub data SorobanCredentials (ScAddress ScVal : Type 0) : Type 0 where
  address : SorobanAddressCredentials ScAddress ScVal → SorobanCredentials ScAddress ScVal

pub record SorobanAuthorizationEntry (ScAddress ScVal Invocation : Type 0) : Type 0 where
  pub credentials : SorobanCredentials ScAddress ScVal
  pub root_invocation : Invocation

pub record Xdr : Type 1 where
  pub ScAddress : Type 0
  pub SorobanAuthorizedInvocation : Type 0
  pub ScBytes : Type 0
  pub ScVal : Type 0
  -- `ScVal::Bytes`
  pub scval_bytes : ScBytes → ScVal
  -- `Vec<u8>::try_into`, which `none` says has failed, and `as_slice`
  pub sc_bytes : Bytes → Option ScBytes
  pub as_slice : ScBytes → Bytes
  -- `to_xdr(Limits::none())` and `from_xdr` of `HashIdPreimage::SorobanAuthorization`
  pub to_xdr : HashIdPreimageSorobanAuthorization SorobanAuthorizedInvocation → Option Bytes
  pub from_xdr : Bytes → Option (HashIdPreimageSorobanAuthorization SorobanAuthorizedInvocation)

pub record IsLawful (X : Xdr) : Type 0 where
  -- What was encoded decodes to the same value.
  pub from_xdr-to_xdr :
      (h : HashIdPreimageSorobanAuthorization X.SorobanAuthorizedInvocation) {b : Bytes}
      → X.to_xdr h ≡ some b
      → X.from_xdr b ≡ some h
  -- An XDR byte string holds any bytes whose length fits 32 bits.
  pub sc_bytes_within :
      (b : Bytes)
      → length b < 2 ^ 32
      → (s : X.ScBytes) × (X.sc_bytes b ≡ some s) × (X.as_slice s ≡ b)

-- Two different byte strings with one digest.
abbrev pub Collision : (Bytes → Bytes) → Type 0
Collision sha256 = (a : Bytes) × (b : Bytes) × (a ≢ b) × (sha256 a ≡ sha256 b)
