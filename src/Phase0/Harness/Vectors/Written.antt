-- ===== src/Phase0/Harness/Vectors/Written.antt =====
-- The files that phase0/harness/src/bin/vectors.rs leaves behind.
use soroban_ml_dsa.Prelude.{
  ◌≡◌, refl, arith, true, String, Bytes, replicate, length, List, [], ◌∷◌, some, ok,
}
use soroban_ml_dsa.Core.MlDsa.{mldsa44, mldsa65, vk_from_bytes}
use soroban_ml_dsa.Core.MlDsa.External as Crate
use soroban_ml_dsa.Core.MlDsa.External.{Backend}
use soroban_ml_dsa.Core.MlDsa.Verify.{Accepts}
use soroban_ml_dsa.Contracts.Host.{Crypto}
use soroban_ml_dsa.Cli.Format.{hex}
use soroban_ml_dsa.Phase0.External as Direct
use soroban_ml_dsa.Phase0.External.{Calls}
use soroban_ml_dsa.Phase0.Harness.External
use soroban_ml_dsa.Phase0.Harness.External.{Signing, Ed25519, IsEd25519}
use soroban_ml_dsa.Phase0.Harness.Signed.{
  key_bytes, sig_bytes, vk, sign_checked_lem, vk_from_bytes-key_bytes,
}
use soroban_ml_dsa.Phase0.Harness.Vectors.{Files, path, out, main, msg}

-- Files written one after another, each with bytes in hex.
pub data Written (F : Files) (dir : String)
    : List (String × Bytes) → F.World → F.World → Type 0 where
  done : {w : F.World} → Written F dir [] w w
  next :
      {n : String} {b : Bytes} {rest : List (String × Bytes)} {w w' w'' : F.World}
      → F.write (path dir n) (hex b) w ≡ some w'
      → Written F dir rest w' w''
      → Written F dir ((n, b) ∷ rest) w w''

module _ (F : Files)
    (total : (p t : String) (w : F.World) → (w' : F.World) × (F.write p t w ≡ some w'))
    (dir : String) where
  out_lem :
      (n : String) (b : Bytes) (w : F.World)
      → (w' : F.World) × (F.write (path dir n) (hex b) w ≡ some w')
        × (out F dir n b w ≡ (ok (n, length b), w'))
  unfolding out
  out_lem n b w = let (w', e) = total (path dir n) (hex b) w in (w', e, ground arith)

  module _ (M44 M65 : Backend) (N44 : Calls M44) (N65 : Calls M65) (G44 : Signing M44)
      (G65 : Signing M65) (D : Ed25519) (C : Crypto) where
    -- Over lawful crates, and where every file can be written: the program finishes; it writes
    -- the seven files, in this order; the key and the signature of each scheme have the sizes that
    -- it prints, the keys are those of the seed, and they accept their signatures.
    pub main-Written :
        Crate.IsLawful M44 mldsa44.vk_len mldsa44.sk_len mldsa44.sig_len
        → Crate.IsLawful M65 mldsa65.vk_len mldsa65.sk_len mldsa65.sig_len
        → Direct.IsLawful M44 N44 mldsa44.vk_len
        → Direct.IsLawful M65 N65 mldsa65.vk_len
        → External.IsLawful M44 G44
        → External.IsLawful M65 G65
        → IsEd25519 D C
        → (w : F.World)
        → (w' : F.World) × (pk65 : Bytes) × (sig65 : Bytes) × (pk44 : Bytes) × (sig44 : Bytes)
          × (ed_pk : Bytes) × (ed_sig : Bytes) × (main F M44 M65 N44 N65 G44 G65 D dir w ≡ (
            ok (
                ("msg", 32)
                ∷ ("pk65", 1952)
                ∷ ("sig65", 3309)
                ∷ ("pk44", 1312)
                ∷ ("sig44", 2420)
                ∷ ("ed_pk", 32)
                ∷ ("ed_sig", 64)
                ∷ []),
            w',
          ))
          × Written F dir
              (("msg", msg)
                ∷ ("pk65", pk65)
                ∷ ("sig65", sig65)
                ∷ ("pk44", pk44)
                ∷ ("sig44", sig44)
                ∷ ("ed_pk", ed_pk)
                ∷ ("ed_sig", ed_sig)
                ∷ [])
              w
              w'
          × (vk_from_bytes mldsa65 M65 pk65 ≡ ok (vk M65 N65 G65))
          × Accepts mldsa65 M65 (vk M65 N65 G65) msg [] sig65
          × (vk_from_bytes mldsa44 M44 pk44 ≡ ok (vk M44 N44 G44))
          × Accepts mldsa44 M44 (vk M44 N44 G44) msg [] sig44
          × (C.ed25519_verify ed_pk msg ed_sig ≡ true)
    unfolding main
    main-Written L44 L65 LN44 LN65 LG44 LG65 LD w =
        let seed : Bytes = replicate 32 9 in
        let (s, a, good) = sign_checked_lem mldsa65 M65 N65 G65 L65 LN65 LG65 msg in
        let (s4, a4, good4) = sign_checked_lem mldsa44 M44 N44 G44 L44 LN44 LG44 msg in
        let (pk, pk4) : Bytes × Bytes =
          (key_bytes M65 (vk M65 N65 G65), key_bytes M44 (vk M44 N44 G44)) in
        let (w1, b1, c1) = out_lem "msg" msg w in
        let (w2, b2, c2) = out_lem "pk65" pk w1 in
        let (w3, b3, c3) = out_lem "sig65" (sig_bytes M65 s) w2 in
        let (w4, b4, c4) = out_lem "pk44" pk4 w3 in
        let (w5, b5, c5) = out_lem "sig44" (sig_bytes M44 s4) w4 in
        let (w6, b6, c6) = out_lem "ed_pk" (D.verifying_key seed) w5 in
        let (w7, b7, c7) = out_lem "ed_sig" (D.sign seed msg) w6 in
        let len = L65.vk_array.length-as_slice (M65.vk_encode (vk M65 N65 G65)) in
        let len4 = L44.vk_array.length-as_slice (M44.vk_encode (vk M44 N44 G44)) in
        (
          w7,
          pk,
          sig_bytes M65 s,
          pk4,
          sig_bytes M44 s4,
          D.verifying_key seed,
          D.sign seed msg,
          rw (a, a4, c1, c2, c3, c4, c5, c6, c7)
              (rw
                (len, good.1, len4, good4.1, LD.length-verifying_key seed, LD.length-sign seed msg)
                refl),
          next b1 (next b2 (next b3 (next b4 (next b5 (next b6 (next b7 done)))))),
          vk_from_bytes-key_bytes mldsa65 M65 L65 (vk M65 N65 G65),
          good,
          vk_from_bytes-key_bytes mldsa44 M44 L44 (vk M44 N44 G44),
          good4,
          LD.verify-sign seed msg,
        )
