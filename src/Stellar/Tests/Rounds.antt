-- ===== src/Stellar/Tests/Rounds.antt =====
-- A round of the adapter's tests of crates/pq-stellar/tests/roundtrip.rs: when it passes.
use soroban_ml_dsa.Prelude.{
  eq→==, ℕ, ◌/◌, ◌≤◌, ◌<◌, ◌≡◌, ◌≢◌, ◌↔◌, ◌⊎◌, inl, inr, refl, sym, ◌∙◌, arith, subst, Bytes,
  length, zeros, take, length-zeros, length-take, ap, [], ◌∷◌, Option, some, Run, Never, ok, err,
  panic, ◌>>◌,
}
use soroban_ml_dsa.Prelude.Int.{ℤ, pos}
use soroban_ml_dsa.Prelude.Slices.{flip_at, flip_at_within}
use soroban_ml_dsa.Core.Contract
use soroban_ml_dsa.Core.Error.{max_context_len}
use soroban_ml_dsa.Core.Traits.{PqScheme, Filled}
use soroban_ml_dsa.Stellar.External
use soroban_ml_dsa.Stellar.External.{Xdr, address}
use soroban_ml_dsa.Stellar.Payload.{AuthorizationPayload, signature_payload}
use soroban_ml_dsa.Stellar.Auth.{sign_authorization, verify_authorization}
use soroban_ml_dsa.Stellar.Auth.RoundTrip.{sign_authorization-ok, verify-sign_authorization}
use soroban_ml_dsa.Stellar.Tests.{assert_err, payload, round}

-- A scheme that fills exactly the declared lengths.
pub record IsExact (S : PqScheme) : Type 0 where
  pub sign :
      (k : S.SigningKey) (message context out : Bytes) {n : ℕ} {out' : Bytes}
      → S.signer.sign_into k message context out ≡ (ok n, out')
      → n ≡ S.signature_len
  pub write :
      (v : S.VerifyingKey) (out : Bytes) {n : ℕ} {out' : Bytes}
      → S.verifier.encode.write_to v out ≡ (ok n, out')
      → n ≡ S.verifying_key_len

pub then_iff : (m n : Run Never (Unit {0})) → ((m >> n) ≡ ok tt) ↔ ((m ≡ ok tt) × (n ≡ ok tt))
then_iff (ok tt) n = (λ h. (refl, h), λ h. h.1)
then_iff (err e) n = elim e [ ]
then_iff panic n = (λ h. cc, λ h. cc)

assert_err_iff :
    {E : Type 0} (r : Run E (Unit {0})) → r ≢ panic → (assert_err r ≡ ok tt) ↔ (r ≢ ok tt)
assert_err_iff (ok tt) safe = (λ h. cc, λ h. absurd (h refl))
assert_err_iff (err e) safe = (λ h same. cc, λ h. refl)
assert_err_iff panic safe = absurd (safe refl)

module _ (X : Xdr) (sha256 : Bytes → Bytes) (as_scval_bytes : X.ScVal → Option X.ScBytes)
    (account : X.ScAddress) (invocation : X.SorobanAuthorizedInvocation) (S : PqScheme)
    (LX : External.IsLawful X) (LS : Contract.IsLawful S) (E : IsExact S)
    (some_bytes : 0 < S.signature_len)
    (encodes : (nonce : ℤ)
      → (msg : Bytes) × (signature_payload X sha256
            (payload X sha256 as_scval_bytes account invocation nonce)
          ≡ ok msg)) where
  abbrev pub the_payload : ℤ → AuthorizationPayload X
  the_payload = payload X sha256 as_scval_bytes account invocation

  -- The signature of a round, with the same one altered, and what does not verify: the signature
  -- under no context, where it was made under one, or for another nonce, and the altered one.
  abbrev pub Refused : S.Keypair → Bytes → ℤ → Type 0
  Refused kp context nonce =
      let vk = S.keypair.verifying_key kp in
      let p = the_payload nonce in
      (sig : Bytes) × (bad : Bytes) × (sign_authorization X sha256 S (S.keypair.signing_key kp) p
          context
        ≡ ok sig)
      × (flip_at (S.signature_len / 2) sig ≡ some bad)
      × ((context ≡ []) ⊎ (verify_authorization X sha256 S vk p [] sig ≢ ok tt))
      × (verify_authorization X sha256 S vk (the_payload (pos 9999)) context sig ≢ ok tt)
      × (verify_authorization X sha256 S vk p context bad ≢ ok tt)

  verify_authorization_safe :
      (vk : S.VerifyingKey) (p : AuthorizationPayload X) (context signature : Bytes) {msg : Bytes}
      → signature_payload X sha256 p ≡ ok msg
      → verify_authorization X sha256 S vk p context signature ≢ panic
  unfolding verify_authorization
  verify_authorization_safe vk p context signature {msg} m =
      ground (arith, LS.verify_safe vk msg context signature)

  context_iff :
      (context : Bytes) (r : Run Never (Unit {0})) (P : Type 0)
      → (r ≡ ok tt) ↔ P
      → (elim context as (λ x. Run Never (Unit {0})) [ [] ↦ ok tt | _ ↦ r ] ≡ ok tt)
        ↔ ((context ≡ []) ⊎ P)
  context_iff [] r P h = (λ e. inl refl, λ e. refl)
  context_iff (b ∷ context) r P h =
      (λ e. inr (h.0 e), λ e. elim e [ inl same ↦ cc | inr p ↦ h.1 p ])

  pub length-sign_authorization :
      (k : S.SigningKey) (p : AuthorizationPayload X) (context : Bytes) {msg sig : Bytes}
      → signature_payload X sha256 p ≡ ok msg
      → length context ≤ max_context_len
      → sign_authorization X sha256 S k p context ≡ ok sig
      → length sig ≡ S.signature_len
  length-sign_authorization k p context {msg} {sig} m c signed =
      let empty : Bytes = zeros S.signature_len in
      let z : length empty ≡ S.signature_len = length-zeros _ in
      let (n, out, w) = LS.sign_total k msg context empty c z in
      let whole : n ≡ S.signature_len = E.sign k msg context empty w in
      let kept : length out ≡ S.signature_len =
        sym (ap (λ (r : Filled). length r.1) w) ∙ LS.length-sign k msg context empty ∙ z in
      let same : sig ≡ take n out =
        ground (arith, sign_authorization-ok X sha256 S LS p context k m w) in
      omega (arith, ap length same, length-take n out)

  -- What is left of a round once its signature is made and verified.
  abbrev tail : S.Keypair → Bytes → ℤ → Bytes → Bytes → Run Never (Unit {0})
  tail kp context nonce sig bad =
      let vk = S.keypair.verifying_key kp in
      let p = the_payload nonce in
      elim context as (λ x. Run Never (Unit {0})) [
        | [] ↦ ok tt
        | _ ↦ assert_err (verify_authorization X sha256 S vk p [] sig)
      ]
      >> (assert_err (verify_authorization X sha256 S vk (the_payload (pos 9999)) context sig)
          >> assert_err (verify_authorization X sha256 S vk p context bad))

  round-eq-tail :
      (kp : S.Keypair) (context : Bytes) (nonce : ℤ) {sig bad : Bytes}
      → sign_authorization X sha256 S (S.keypair.signing_key kp) (the_payload nonce) context
        ≡ ok sig
      → length sig ≡ S.signature_len
      → verify_authorization X sha256 S (S.keypair.verifying_key kp) (the_payload nonce) context sig
        ≡ ok tt
      → flip_at (S.signature_len / 2) sig ≡ some bad
      → round X sha256 as_scval_bytes account invocation S kp context nonce
        ≡ tail kp context nonce sig bad
  unfolding round
  round-eq-tail kp context nonce signed long good flipped =
      rw signed (rw (eq→== _ _ long) (rw good (rw flipped refl)))

  tail_iff :
      (kp : S.Keypair) (context : Bytes) (nonce : ℤ) (sig bad : Bytes)
      → let vk = S.keypair.verifying_key kp in
        let p = the_payload nonce in
        (tail kp context nonce sig bad ≡ ok tt) ↔ (
          ((context ≡ []) ⊎ (verify_authorization X sha256 S vk p [] sig ≢ ok tt))
          × (verify_authorization X sha256 S vk (the_payload (pos 9999)) context sig ≢ ok tt)
          × (verify_authorization X sha256 S vk p context bad ≢ ok tt))
  tail_iff kp context nonce sig bad =
      let vk = S.keypair.verifying_key kp in
      let p = the_payload nonce in
      let safe =
        λ (n : ℤ) (c s : Bytes). verify_authorization_safe vk (the_payload n) c s (encodes n).1 in
      let first =
        context_iff context (assert_err (verify_authorization X sha256 S vk p [] sig))
          (verify_authorization X sha256 S vk p [] sig ≢ ok tt)
          (assert_err_iff (verify_authorization X sha256 S vk p [] sig) (safe nonce [] sig)) in
      let second =
        assert_err_iff (verify_authorization X sha256 S vk (the_payload (pos 9999)) context sig)
          (safe (pos 9999) context sig) in
      let third =
        assert_err_iff (verify_authorization X sha256 S vk p context bad)
          (safe nonce context bad) in
      let split = then_iff _ _ in
      let split' = then_iff _ _ in
      (
        λ h.
            let (a, rest) = split.0 h in
            let (b, d) = split'.0 rest in (first.0 a, second.0 b, third.0 d),
        λ h. split.1 (first.1 h.0, split'.1 (second.1 h.1, third.1 h.2)),
      )

  -- A round passes exactly when those do not verify.
  pub round_iff :
      (kp : S.Keypair) (context : Bytes) (nonce : ℤ) {seed : Bytes}
      → S.keypair.from_seed seed ≡ ok kp
      → length context ≤ max_context_len
      → (round X sha256 as_scval_bytes account invocation S kp context nonce ≡ ok tt)
        ↔ Refused kp context nonce
  round_iff kp context nonce {seed} s c =
      let (msg, m) = encodes nonce in
      let (other, m') = encodes (pos 9999) in
      let (sig, signed, good, _, _) =
        verify-sign_authorization X sha256 S LS seed context (the_payload nonce) s c m in
      let long = length-sign_authorization _ (the_payload nonce) context m c signed in
      let (bad, flipped, _) = flip_at_within (S.signature_len / 2) sig (omega arith) in
      let same = round-eq-tail kp context nonce signed long good flipped in
      let judged = tail_iff kp context nonce sig bad in
      (
        λ h. let (a, b, d) = judged.0 (sym same ∙ h) in (sig, bad, signed, flipped, a, b, d),
        λ (sig', bad', signed', flipped', a, b, d).
            let alike : sig ≡ sig' = ground arith in
            let long' = length-sign_authorization _ (the_payload nonce) context m c signed' in
            let good' =
              subst
                (λ x.
                  verify_authorization X sha256 S (S.keypair.verifying_key kp) (the_payload nonce)
                    context x
                  ≡ ok tt)
                alike good in
            round-eq-tail kp context nonce signed' long' good' flipped'
            ∙ (tail_iff kp context nonce sig' bad').1 (a, b, d),
      )
