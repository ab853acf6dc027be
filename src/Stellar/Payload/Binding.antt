-- ===== src/Stellar/Payload/Binding.antt =====
-- What a signature payload binds, over a lawful XDR encoder and any hash function.
use soroban_ml_dsa.Prelude.{
  ◌≡◌, ◌≢◌, ap, ◌⊎◌, inl, inr, arith, some, Bytes, Bytes-discrete, length, ok,
}
use soroban_ml_dsa.Prelude.Texts.{as_bytes}
use soroban_ml_dsa.Stellar.External.{Xdr, IsLawful, Collision, HashIdPreimageSorobanAuthorization}
use soroban_ml_dsa.Stellar.Payload.{
  AuthorizationPayload, signature_payload, network_id, testnet_passphrase, mainnet_passphrase,
}

passphrases_differ : as_bytes testnet_passphrase ≢ as_bytes mainnet_passphrase
unfolding as_bytes
passphrases_differ e = omega (arith, ap length e)

module _ (X : Xdr) (sha256 : Bytes → Bytes) where
  abbrev pub preimage :
      AuthorizationPayload X → HashIdPreimageSorobanAuthorization X.SorobanAuthorizedInvocation
  preimage p = record {
    network_id = p.network_id;
    nonce = p.nonce;
    signature_expiration_ledger = p.signature_expiration_ledger;
    invocation = p.invocation;
  }

  pub signature_payload-eq-ok :
      (p : AuthorizationPayload X) {d : Bytes}
      → signature_payload X sha256 p ≡ ok d
      → (b : Bytes) × (X.to_xdr (preimage p) ≡ some b) × (d ≡ sha256 b)
  unfolding signature_payload
  signature_payload-eq-ok p h = ground arith

  preimage-injective : (p q : AuthorizationPayload X) → preimage p ≡ preimage q → p ≡ q
  preimage-injective p q h = ground arith

  -- Two authorization payloads that give the same 32 bytes to sign agree in every field (network,
  -- nonce, expiration ledger and invocation), or the hash function has a collision.
  pub signature_payload_binds :
      IsLawful X
      → (p q : AuthorizationPayload X) {d : Bytes} → signature_payload X sha256 p ≡ ok d
      → signature_payload X sha256 q ≡ ok d
      → (p ≡ q) ⊎ Collision sha256
  signature_payload_binds L p q hp hq =
      let (a, ea, da) = signature_payload-eq-ok p hp in
      let (b, eb, db) = signature_payload-eq-ok q hq in
      elim (Bytes-discrete a b) [
        | yes e ↦
            let pa = L.from_xdr-to_xdr (preimage p) ea in
            let qb = L.from_xdr-to_xdr (preimage q) eb in
            inl (preimage-injective p q (cc (ap X.from_xdr e)))
        | no ne ↦ inr (a, b, ne, cc)
      ]

  -- A payload for the test network and one for the main network, whatever else they hold, never
  -- give the same bytes to sign unless the hash function has a collision.
  pub networks_separate :
      IsLawful X
      → (p q : AuthorizationPayload X) {d : Bytes}
      → p.network_id ≡ network_id sha256 testnet_passphrase
      → q.network_id ≡ network_id sha256 mainnet_passphrase
      → signature_payload X sha256 p ≡ ok d
      → signature_payload X sha256 q ≡ ok d
      → Collision sha256
  unfolding network_id
  networks_separate L p q np nq hp hq = elim (signature_payload_binds L p q hp hq) [
    | inl same ↦
        let at : sha256 (as_bytes testnet_passphrase) ≡ sha256 (as_bytes mainnet_passphrase) = cc in
        (as_bytes testnet_passphrase, as_bytes mainnet_passphrase, passphrases_differ, at)
    | inr found ↦ found
  ]
