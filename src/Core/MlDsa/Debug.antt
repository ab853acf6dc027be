-- ===== src/Core/MlDsa/Debug.antt =====
-- The `Debug` texts of crates/pq-core/src/schemes/mldsa.rs; that of a key pair is derived.
use Prim.Native.String.{◌++◌}
use text.Mathlib.TextLemmas.{append_cancel_left, append_cancel_right}
use soroban_ml_dsa.Prelude.{◌≡◌, ◌↔◌, ap, String}
use soroban_ml_dsa.Core.MlDsa.{Params, Keypair}
use soroban_ml_dsa.Core.MlDsa.External.{Backend}

module _ (p : Params) (M : Backend) where
  unfoldable pub vk_debug : M.VerifyingKey → String
  vk_debug vk = "VerifyingKey<" ++ p.name ++ ">"

  unfoldable pub sk_debug : M.ExpandedSigningKey → String
  sk_debug sk = "SigningKey<" ++ p.name ++ ">(redacted)"

  unfoldable pub keypair_debug : Keypair M → String
  unfolding vk_debug sk_debug
  keypair_debug kp =
      "Keypair { signing: "
      ++ sk_debug kp.signing
      ++ ", verifying: "
      ++ vk_debug kp.verifying
      ++ " }"

-- The text of a signing key tells the parameter set by its name, and nothing else: any two keys, of
-- any two sets, have the same text exactly if the sets have the same name.
pub sk_debug_iff :
    (p q : Params) (M N : Backend) (k : M.ExpandedSigningKey) (l : N.ExpandedSigningKey)
    → (sk_debug p M k ≡ sk_debug q N l) ↔ (p.name ≡ q.name)
unfolding sk_debug
sk_debug_iff p q M N k l = (
  λ h.
      append_cancel_right p.name q.name ">(redacted)"
        (append_cancel_left "SigningKey<" (p.name ++ ">(redacted)") (q.name ++ ">(redacted)") h),
  λ e. ap (λ name. "SigningKey<" ++ name ++ ">(redacted)") e,
)
