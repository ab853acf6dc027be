-- ===== src/Phase0/Harness/Signed.antt =====
-- The key and the signatures that each program of phase0/harness makes first.
use soroban_ml_dsa.Prelude.{
  ◌≡◌, arith, [], Bytes, replicate, Run, Never, ok, assert, or_panic, ◌>>=◌, ◌>>◌,
}
use soroban_ml_dsa.Core.MlDsa.{Params, vk_from_bytes}
use soroban_ml_dsa.Core.MlDsa.External as Crate
use soroban_ml_dsa.Core.MlDsa.External.{Backend}
use soroban_ml_dsa.Core.MlDsa.Verify.{Accepts}
use soroban_ml_dsa.Phase0.External as Direct
use soroban_ml_dsa.Phase0.External.{Calls}
use soroban_ml_dsa.Phase0.Harness.External
use soroban_ml_dsa.Phase0.Harness.External.{Signing}

module _ (M : Backend) where
  -- `encode().as_slice()` of a key and of a signature.
  abbrev pub key_bytes : M.VerifyingKey → Bytes
  key_bytes vk = M.EncodedVerifyingKey.as_slice (M.vk_encode vk)

  abbrev pub sig_bytes : M.Signature → Bytes
  sig_bytes s = M.EncodedSignature.as_slice (M.sig_encode s)

module _ (M : Backend) (N : Calls M) (G : Signing M) where
  -- The key of the seed of 42s.
  abbrev pub signing_key : G.SigningKey
  signing_key = G.from_seed (replicate 32 42)

  abbrev pub vk : M.VerifyingKey
  vk = G.verifying_key signing_key

  -- Sign, and check one's own signature.
  unfoldable pub sign_checked : Bytes → Run Never M.Signature
  sign_checked m = do s ← or_panic (G.sign signing_key m); assert (N.verify vk m s); ok s

module _ (p : Params) (M : Backend) (L : Crate.IsLawful M p.vk_len p.sk_len p.sig_len) where
  -- The bytes of a key decode to it.
  pub vk_from_bytes-key_bytes : (v : M.VerifyingKey) → vk_from_bytes p M (key_bytes M v) ≡ ok v
  unfolding vk_from_bytes
  vk_from_bytes-key_bytes v = grind (
    arith,
    L.vk_array.length-as_slice (M.vk_encode v),
    L.vk_array.try_from-as_slice (M.vk_encode v),
    L.vk_decode-encode v,
  )

module _ (p : Params) (M : Backend) (N : Calls M) (G : Signing M)
    (L : Crate.IsLawful M p.vk_len p.sk_len p.sig_len) (LN : Direct.IsLawful M N p.vk_len)
    (LG : External.IsLawful M G) where
  -- Signing and the check of it succeed, and the bytes are a signature that the key accepts.
  pub sign_checked_lem :
      (m : Bytes)
      → (s : M.Signature) × (sign_checked M N G m ≡ ok s)
        × Accepts p M (vk M N G) m [] (sig_bytes M s)
  unfolding sign_checked
  sign_checked_lem m =
      let (s, e) = LG.sign_total (signing_key M N G) m in
      let good = LG.verify-sign (signing_key M N G) m e in
      (
        s,
        ground (arith, LN.verify_lem (vk M N G) m s),
        (
          omega arith,
          L.sig_array.length-as_slice (M.sig_encode s),
          (
            M.sig_encode s,
            s,
            L.sig_array.try_from-as_slice (M.sig_encode s),
            L.sig_decode-encode s,
            good,
          ),
        ),
      )
