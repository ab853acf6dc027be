-- ===== src/Contracts/Flow.antt =====
-- The client of crates/pq-stellar/src/auth.rs against the contract of
-- contracts/pq-account/src/lib.rs, from key storage to approval.
use soroban_ml_dsa.Prelude.{◌≡◌, arith, ap, ◌∙◌, subst, Bytes, length, ok}
use soroban_ml_dsa.Core.MlDsa.{mldsa65, Keypair, from_seed, scheme}
use soroban_ml_dsa.Core.MlDsa.External
use soroban_ml_dsa.Core.MlDsa.External.{Backend}
use soroban_ml_dsa.Core.MlDsa.Encode.{length-vk_from_bytes}
use soroban_ml_dsa.Core.MlDsa.Keys.{seed_total, scheme-IsLawful}
use soroban_ml_dsa.Core.MlDsa.Verify.{Accepts, verify_iff}
use soroban_ml_dsa.Stellar.External as Wire
use soroban_ml_dsa.Stellar.External.{Xdr}
use soroban_ml_dsa.Stellar.Payload.{AuthorizationPayload, signature_payload}
use soroban_ml_dsa.Stellar.Payload.Binding.{signature_payload-eq-ok}
use soroban_ml_dsa.Stellar.Auth.{Entry, encode_verifying_key, build_auth_entry}
use soroban_ml_dsa.Stellar.Auth.RoundTrip.{
  credentials_of, encode_verifying_key_lem, build_auth_entry_lem,
}
use soroban_ml_dsa.Contracts.Host
use soroban_ml_dsa.Contracts.Host.{Sdk, Ledger, IsLedger}
use soroban_ml_dsa.Contracts.Account.{DataKey, context, init, check_auth}
use soroban_ml_dsa.Contracts.Account.Check.{context-short}
use soroban_ml_dsa.Contracts.Account.Init.{check_auth-init}

module _ (M : Backend) (X : Xdr) (sha256 : Bytes → Bytes) (K : Sdk) (H : Ledger DataKey)
    (LM : External.IsLawful M mldsa65.vk_len mldsa65.sk_len mldsa65.sig_len) (LX : Wire.IsLawful X)
    (LK : Host.IsLawful K) (LH : IsLedger H)
    (digest_length : (b : Bytes) → length (sha256 b) ≡ 32) where
  -- Over lawful stand-ins for every crate and the host: from any seed of 32 bytes and any payload
  -- that encodes, the client derives a key pair, encodes its verifying key and builds an entry
  -- under the account's context; `init` stores that key in any state, and `__check_auth` then
  -- approves the entry's signature over the payload's 32 bytes.
  pub client_authorizes :
      (env : H.Env) (account : X.ScAddress) (seed : Bytes) (payload : AuthorizationPayload X)
      {msg : Bytes}
      → length seed ≡ 32
      → signature_payload X sha256 payload ≡ ok msg
      → (kp : Keypair M) × (pk : X.ScBytes) × (entry : Entry X) × (sig : X.ScBytes) × (from_seed
            mldsa65 M seed
          ≡ ok kp)
        × (encode_verifying_key X (scheme mldsa65 M) kp.verifying ≡ ok (X.scval_bytes pk))
        × (build_auth_entry X sha256 (scheme mldsa65 M) account kp.signing payload context
            ≡ ok entry)
        × ((credentials_of entry.credentials).signature ≡ X.scval_bytes sig)
        × ((init M K H env (X.as_slice pk)).0 ≡ ok tt)
        × (check_auth M K H (init M K H env (X.as_slice pk)).1 msg (X.as_slice sig) ≡ ok tt)
  client_authorizes env account seed payload {msg} s m =
      let S = scheme mldsa65 M in
      let LS = scheme-IsLawful mldsa65 M LM in
      let (kp, k) = seed_total mldsa65 M LM seed s in
      let (pk, e, d, _) = encode_verifying_key_lem X S LX LS kp.verifying (omega arith) in
      let (entry, sig, b, _, c, _, _, v) =
        build_auth_entry_lem X sha256 S LX LS account seed context payload k context-short m
          (omega arith) in
      let (bytes, _, h) = signature_payload-eq-ok X sha256 payload m in
      let u : length msg ≡ 32 = ap length h ∙ digest_length bytes in
      let (stored, (vk, d', iff)) =
        check_auth-init M K H LM LK LH env (X.as_slice pk) msg (X.as_slice sig)
          (length-vk_from_bytes mldsa65 M (X.as_slice pk) d) u in
      let same : kp.verifying ≡ vk = cc in
      let a = (verify_iff mldsa65 M kp.verifying msg context (X.as_slice sig)).0 v in
      (
        kp,
        pk,
        entry,
        sig,
        k,
        e,
        b,
        c,
        stored,
        iff.1 (subst (λ w. Accepts mldsa65 M w msg context (X.as_slice sig)) same a),
      )
