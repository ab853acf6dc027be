-- ===== src/Phase0/Harness/Vectors.antt =====
-- phase0/harness/src/bin/vectors.rs: the key and the signature of each scheme as files in hex. The
-- names and lengths that `main` prints are its result here.
pub mod Written
use Prim.Native.String.{◌++◌}
use soroban_ml_dsa.Prelude.{
  ℕ, String, Bytes, replicate, length, List, [], ◌∷◌, Option, some, none, Never, ok, panic,
}
use soroban_ml_dsa.Core.MlDsa.External.{Backend}
use soroban_ml_dsa.Cli.Act.{Act, ◌>>=◌, pure}
use soroban_ml_dsa.Cli.Format.{hex}
use soroban_ml_dsa.Phase0.External.{Calls}
use soroban_ml_dsa.Phase0.Harness.External.{Signing, Ed25519}
use soroban_ml_dsa.Phase0.Harness.Signed.{key_bytes, sig_bytes, vk, sign_checked}

abbrev pub msg : Bytes
msg = replicate 32 7

-- The file system: create a file at a path and write a text to it; `none` is an error.
pub record Files : Type 1 where
  pub World : Type 0
  pub write : String → String → World → Option World

abbrev pub path : String → String → String
path dir n = dir ++ "/" ++ n ++ ".hex"

unfoldable pub out : (F : Files) → String → String → Bytes → Act F.World Never (String × ℕ)
out F dir n bytes w = elim (F.write (path dir n) (hex bytes) w) [
  | some w' ↦ (ok (n, length bytes), w')
  | none ↦ (panic, w)
]

module _ (F : Files) (M44 M65 : Backend) (N44 : Calls M44) (N65 : Calls M65) (G44 : Signing M44)
    (G65 : Signing M65) (D : Ed25519) where
  unfoldable pub main : String → Act F.World Never (List (String × ℕ))
  main dir = do
    s65 ← pure (sign_checked M65 N65 G65 msg)
    s44 ← pure (sign_checked M44 N44 G44 msg)
    m ← out F dir "msg" msg
    pk65 ← out F dir "pk65" (key_bytes M65 (vk M65 N65 G65))
    sig65 ← out F dir "sig65" (sig_bytes M65 s65)
    pk44 ← out F dir "pk44" (key_bytes M44 (vk M44 N44 G44))
    sig44 ← out F dir "sig44" (sig_bytes M44 s44)
    let ed = replicate 32 9
    ed_pk ← out F dir "ed_pk" (D.verifying_key ed)
    ed_sig ← out F dir "ed_sig" (D.sign ed msg)
    pure (ok (m ∷ pk65 ∷ sig65 ∷ pk44 ∷ sig44 ∷ ed_pk ∷ ed_sig ∷ []))
