-- ===== src/Cli/Authorize/Chain.antt =====
-- Two runs of crates/pq-cli/src/bin/authorize.rs against the contract of
-- contracts/pq-account/src/lib.rs: one that stores the key, and one that authorizes a call.
use soroban_ml_dsa.Prelude.{
  ap, ◌∙◌, ◌≢◌, ℕ, ◌≡◌, arith, String, Bytes, length, some, List, inl, inr, [], ◌∷◌, Option, ok,
  subst,
}
use soroban_ml_dsa.Core.MlDsa.{mldsa65, scheme, Keypair}
use soroban_ml_dsa.Core.MlDsa.External as Crate
use soroban_ml_dsa.Core.MlDsa.External.{Backend}
use soroban_ml_dsa.Core.MlDsa.Encode.{length-vk_from_bytes}
use soroban_ml_dsa.Core.MlDsa.Verify.{Accepts}
use soroban_ml_dsa.Core.MlDsa.Keys.{scheme-IsLawful}
use soroban_ml_dsa.Stellar.External as XdrLaws
use soroban_ml_dsa.Stellar.External.{Xdr}
use soroban_ml_dsa.Stellar.Payload.{signature_payload, network_id, testnet_passphrase}
use soroban_ml_dsa.Stellar.Payload.Binding.{signature_payload-eq-ok}
use soroban_ml_dsa.Stellar.Auth.{Entry, encode_verifying_key}
use soroban_ml_dsa.Stellar.Auth.RoundTrip.{credentials_of, host_payload, encode_verifying_key_lem}
use soroban_ml_dsa.Contracts.Host
use soroban_ml_dsa.Contracts.Host.{Sdk, Ledger, IsLedger}
use soroban_ml_dsa.Contracts.Account
use soroban_ml_dsa.Contracts.Account.{DataKey, pub_key, init, check_auth}
use soroban_ml_dsa.Contracts.Account.Check.{check_auth_for_key}
use soroban_ml_dsa.Contracts.Account.History.{
  AllRefused, last_key-AllRefused, run_inits, get-run_inits,
}
use soroban_ml_dsa.Contracts.Account.Init.{init_cases}
use soroban_ml_dsa.Cli.External.{Json, System, Crates}
use soroban_ml_dsa.Cli.Transactions.{Op, contract_addr, invoke_op}
use soroban_ml_dsa.Cli.Authorize.Built.{invocation}
use soroban_ml_dsa.Cli.Authorize.Stored.{Submits, main-Stores}
use soroban_ml_dsa.Cli.Authorize.Flow.{main-Authorizes}
use soroban_ml_dsa.Cli.Authorize.{authorization_payload, main}

module _ {Y : Xdr} (M : Backend) (J : Json) (S : System) (X : Crates Y) (K : Sdk)
    (H : Ledger DataKey) where
  -- A call of `init` with a key and then a call of `protected`, as the tool has submitted them, and
  -- what the contract in the state `env` makes of the key and, when others have called `init` with
  -- `keys` in between, of the second call's signature.
  abbrev pub Chained :
      H.Env
      → List Bytes
      → (source_text source_text' account secret secret' : String) → (w w' v v' : S.World) → Type 0
  Chained env keys source_text source_text' account secret secret' w w' v v' =
      (pk : Y.ScBytes) × (store : Op X) × (ledger : ℕ) × (invoke_op X account "init"
          (Y.scval_bytes pk ∷ []) []
        ≡ ok store)
      × Submits M J S X source_text secret ledger store w w'
      × ((init M K H env (Y.as_slice pk)).0 ≡ ok tt)
      × ((address : Y.ScAddress) × (name : X.ScSymbol) × (entry : Entry Y) × (sig : Y.ScBytes)
          × (digest : Bytes) × (call : Op X) × (latest : ℕ) × (contract_addr X account ≡ ok address)
          × (X.symbol "protected" ≡ some name)
          × (invoke_op X account "protected" [] (entry ∷ []) ≡ ok call)
          × Submits M J S X source_text' secret' latest call v v'
          × ((credentials_of entry.credentials).address ≡ address)
          × ((credentials_of entry.credentials).signature ≡ Y.scval_bytes sig)
          × (host_payload Y (network_id X.sha256 testnet_passphrase) entry
              ≡ authorization_payload X latest (invocation X address name))
          × (signature_payload Y X.sha256
                (authorization_payload X latest (invocation X address name))
              ≡ ok digest)
          × (check_auth M K H (run_inits M K H (init M K H env (Y.as_slice pk)).1 keys) digest
                (Y.as_slice sig)
              ≡ ok tt))

module _ {Y : Xdr} (M : Backend) (J : Json) (S : System) (X : Crates Y) (K : Sdk)
    (H : Ledger DataKey) (LM : Crate.IsLawful M mldsa65.vk_len mldsa65.sk_len mldsa65.sig_len)
    (LY : XdrLaws.IsLawful Y) (LK : Host.IsLawful K) (LH : IsLedger H)
    (digest_length : (b : Bytes) → length (X.sha256 b) ≡ 32) where
  -- The state after an `init` with a key and calls of `init` with keys that are refused.
  get-run_inits-init :
      (env : H.Env) (key : Bytes) (keys : List Bytes)
      → length key ≡ Account.vk_len
      → AllRefused keys
      → (init M K H env key ≡ (ok tt, H.set env pub_key key))
        × (H.get (run_inits M K H (init M K H env key).1 keys) pub_key ≡ some key)
  get-run_inits-init env key keys sized refused = elim (init_cases M K H LM LK env key) [
    | inr (ne, _) ↦ absurd (ne sized)
    | inl (_, e) ↦ (
      e,
      get-run_inits M K H LM LK LH keys (init M K H env key).1
          ∙ last_key-AllRefused keys (H.get (init M K H env key).1 pub_key) refused
          ∙ ap (λ r. H.get r.1 pub_key) e
          ∙ LH.get-set env pub_key key,
    )
  ]

  -- What the contract makes of the bytes that the client has encoded.
  init-encoded :
      (env : H.Env) (keys : List Bytes) (kp : Keypair M) {vk : Y.ScVal}
      → AllRefused keys
      → encode_verifying_key Y (scheme mldsa65 M) kp.verifying ≡ ok vk
      → (pk : Y.ScBytes) × (vk ≡ Y.scval_bytes pk)
        × ((init M K H env (Y.as_slice pk)).0 ≡ ok tt)
        × ((payload signature : Bytes)
            → length payload ≡ 32
            → Accepts mldsa65 M kp.verifying payload Account.context signature
            → check_auth M K H
                (run_inits M K H (init M K H env (Y.as_slice pk)).1 keys)
                payload
                signature
              ≡ ok tt)
  init-encoded env keys kp {vk} refused e =
      let S' = scheme mldsa65 M in
      let (pk, encoded, decodes, _) =
        encode_verifying_key_lem Y S' LY (scheme-IsLawful mldsa65 M LM) kp.verifying
          (omega arith) in
      let key = Y.as_slice pk in
      let (called, held) =
        get-run_inits-init env key keys (length-vk_from_bytes mldsa65 M key decodes) refused in
      let same : vk ≡ Y.scval_bytes pk = cc in
      (
        pk,
        same,
        ap (λ r. r.0) called,
        λ payload signature u accepted.
            (check_auth_for_key M K H LK (run_inits M K H (init M K H env key).1 keys) payload
                signature u held decodes).1
              accepted,
      )

  -- Over lawful crates and hosts and a hash of 32 bytes: if the tool finishes in the mode `init` and,
  -- from any world, in another mode for the same account, then the first run has submitted a
  -- call of `init` with a key, and the second a call of `protected` under an entry for the account,
  -- the testnet and the payload made from the latest ledger. In any state the contract accepts that
  -- `init`, and `__check_auth` then approves the entry's signature over the payload's bytes, also
  -- after any further calls of `init` with keys of another length.
  pub authorizes_after_init :
      (env : H.Env) (keys : List Bytes) (source_text source_text' account secret secret' : String)
      (mode : Option String) (w v : S.World) {w' v' : S.World}
      → AllRefused keys
      → mode ≢ some "init"
      → main M J S X source_text account (some "init") secret w ≡ (ok tt, w')
      → main M J S X source_text' account mode secret' v ≡ (ok tt, v')
      → Chained M J S X K H env keys source_text source_text' account secret secret' w w' v v'
  unfolding authorization_payload
  authorizes_after_init env keys source_text source_text' account secret secret' mode w v refused
        other h h' =
      let (kp, ledger, vk, store, made, encoded, stores, submitted) =
        main-Stores M J S X source_text account secret w h in
      let (seed, source, kp', seq, latest, tx, sim, r, w1, w2, a, b, made', d, built, f, good) =
        main-Authorizes M J S X LM LY source_text' account mode secret' v other h' in
      let (address, name, digest, entry, call, at, named, o, t, m, signed) = built in
      let (sig, whose, what, replayed, accepted) = signed in
      let (pk, bytes, stored, approves) = init-encoded env keys kp refused encoded in
      let (preimage, _, hashed) =
        signature_payload-eq-ok Y X.sha256
          (authorization_payload X latest (invocation X address name)) m in
      let u : length digest ≡ 32 = ap length hashed ∙ digest_length preimage in
      let same : kp' ≡ kp = cc in
      (
        pk,
        store,
        ledger,
        subst (λ x. invoke_op X account "init" (x ∷ []) [] ≡ ok store) bytes stores,
        submitted,
        stored,
        (
          address,
          name,
          entry,
          sig,
          digest,
          call,
          latest,
          at,
          named,
          o,
          (seed, source, seq, tx, sim, r, w1, w2, a, b, d, t, f, good),
          whose,
          what,
          replayed,
          m,
          approves digest (Y.as_slice sig) u (
              subst (λ k. Accepts mldsa65 M k.verifying digest Account.context (Y.as_slice sig))
                same accepted),
        ),
      )
