-- ===== src/Contracts/Account/View.antt =====
-- What contracts/pq-account/src/lib.rs comes to after a history of `init` calls, up to what it stores:
-- an optional key of the declared length.
use std.Equiv.{Iso, iso_to_equiv}
use std.Path.{transport}
use std.Univalence.{iso_to_path, ua-β}
use mathlib.Core.HLevel.{Σ_prop_path}
use mathlib.Core.Quot
use mathlib.Core.Quot.{Quot, Quot-set}
use native.Mathlib.Nat.{ℕ_set}
use soroban_ml_dsa.Prelude.{
  ◌≡◌, refl, ◌∙◌, ap, sym, arith, Bytes, length, List, [], ◌∷◌, Option, some, none, ◌==◌,
  ℕ_discrete, Run, err, eq→==, ne→==, ◌>>=◌, ◌>>◌, ensure, or_panic, zeros,
}
use soroban_ml_dsa.Core.MlDsa.{mldsa65}
use soroban_ml_dsa.Core.MlDsa.External
use soroban_ml_dsa.Core.MlDsa.External.{Backend}
use soroban_ml_dsa.Contracts.Host
use soroban_ml_dsa.Contracts.Host.{Sdk, Ledger, IsLedger}
use soroban_ml_dsa.Contracts.Account.{
  DataKey, pub_key, Error, not_inited, bad_sig_len, vk_len, sig_len, check_auth,
}
use soroban_ml_dsa.Contracts.Account.Check.{run_check, copy_zeros}
use soroban_ml_dsa.Contracts.Account.History.{run_inits, last_key, get-run_inits}

-- A key that `init` stores.
abbrev pub Key : Type 0
Key = (k : Bytes) × (length k ≡ vk_len)

sized : Option Bytes → Option Key
sized none = none
sized (some k) = elim (ℕ_discrete (length k) vk_len) [ yes h ↦ some (k, h) | no _ ↦ none ]

abbrev pub bytes_of : Option Key → Option Bytes
bytes_of none = none
bytes_of (some (k, _)) = some k

Key-ext : {a b : Key} → a.0 ≡ b.0 → a ≡ b
Key-ext h = Σ_prop_path (λ k. ℕ_set (length k) vk_len) h

sized-bytes_of : (o : Option Key) → sized (bytes_of o) ≡ o
unfolding sized
sized-bytes_of none = refl
sized-bytes_of (some (k, h)) =
    elim (ℕ_discrete (length k) vk_len)
      as (λ d.
        (elim d as (λ x. Option Key) [ yes h' ↦ some (k, h') | no _ ↦ none ]) ≡ some (k, h)) [
          | yes h' ↦ ap some (Key-ext refl)
          | no ne ↦ absurd (ne h)
        ]

-- A history leaves no key or one that has the declared length.
last_key-bytes_of :
    (keys : List Bytes) (old : Option Key)
    → (o : Option Key) × (last_key (bytes_of old) keys ≡ bytes_of o)
unfolding last_key
last_key-bytes_of [] old = (old, refl)
last_key-bytes_of (k ∷ keys) old = elim (ℕ_discrete (length k) vk_len) [
  | yes h ↦
      let (o, e) = last_key-bytes_of keys (some (k, h)) in (o, rw (eq→== (length k) vk_len h) e)
  | no ne ↦ let (o, e) = last_key-bytes_of keys old in (o, rw (ne→== (length k) vk_len ne) e)
]

Key-IsSet : IsSet (Option Key)
Key-IsSet = hlevel

module _ (M : Backend) (K : Sdk) (H : Ledger DataKey) where
  -- Histories of `init` calls, up to the key that is stored after them.
  abbrev pub View : H.Env → Type 0
  View env = Quot (λ (a : List Bytes) (b : List Bytes).
      H.get (run_inits M K H env a) pub_key ≡ H.get (run_inits M K H env b) pub_key)

  -- The account as its specification: it answers by the key alone.
  abbrev pub answers : Option Key → Bytes → Bytes → Run Error (Unit {0})
  answers none payload signature = err not_inited
  answers (some (k, _)) payload signature = do
    ensure (length signature == sig_len) bad_sig_len
    msg ← or_panic (K.copy_into_slice payload (zeros 32))
    run_check M K H k msg signature

  -- The histories from `env` are the optional keys, with what the contract stores and answers.
  abbrev pub Viewed : H.Env → Type 1
  Viewed env =
      (p : View env ≡ Option Key) × ((keys : List Bytes)
        → (bytes_of (transport p (Quot.mk keys)) ≡ H.get (run_inits M K H env keys) pub_key)
          × ((payload signature : Bytes)
              → check_auth M K H (run_inits M K H env keys) payload signature
                ≡ answers (transport p (Quot.mk keys)) payload signature))

  check_auth-answers :
      Host.IsLawful K
      → (env : H.Env) (payload signature : Bytes) (o : Option Key) → H.get env pub_key ≡ bytes_of o
      → check_auth M K H env payload signature ≡ answers o payload signature
  unfolding check_auth
  check_auth-answers LK env payload signature none g = rw g refl
  check_auth-answers LK env payload signature (some (k, h)) g =
      elim (ℕ_discrete (length signature) sig_len) [
        | yes t ↦ ground (arith, copy_zeros K LK k h, copy_zeros K LK signature t)
        | no ne ↦ ground arith
      ]

module _ (M : Backend) (K : Sdk) (H : Ledger DataKey)
    (LM : External.IsLawful M mldsa65.vk_len mldsa65.sk_len mldsa65.sig_len) (LK : Host.IsLawful K)
    (LH : IsLedger H) (env : H.Env) (fresh : H.get env pub_key ≡ none) where
  stored : List Bytes → Option Bytes
  stored keys = H.get (run_inits M K H env keys) pub_key

  stored_lem : (keys : List Bytes) → (o : Option Key) × (stored keys ≡ bytes_of o)
  unfolding stored
  stored_lem keys =
      let (o, e) = last_key-bytes_of keys none in
      (o, get-run_inits M K H LM LK LH keys env ∙ ap (λ old. last_key old keys) fresh ∙ e)

  stored_nothing : stored [] ≡ none
  unfolding stored run_inits
  stored_nothing = fresh

  stored_one : (k : Key) → stored (k.0 ∷ []) ≡ some k.0
  unfolding stored last_key
  stored_one (k, h) =
      get-run_inits M K H LM LK LH (k ∷ []) env ∙ rw (eq→== (length k) vk_len h) refl

  key_of : View M K H env → Option Key
  unfolding stored
  key_of = Quot.lift Key-IsSet (λ keys. sized (stored keys)) (λ a b e. ap sized e)

  history_of : Option Key → View M K H env
  history_of none = Quot.mk []
  history_of (some (k, _)) = Quot.mk (k ∷ [])

  stored-sized : (keys : List Bytes) → bytes_of (sized (stored keys)) ≡ stored keys
  stored-sized keys =
      let (o, e) = stored_lem keys in
      ap (λ x. bytes_of (sized x)) e ∙ ap bytes_of (sized-bytes_of o) ∙ sym e

  key_of-history_of : (o : Option Key) → key_of (history_of o) ≡ o
  unfolding key_of history_of
  key_of-history_of none = ap sized stored_nothing ∙ sized-bytes_of none
  key_of-history_of (some k) = ap sized (stored_one k) ∙ sized-bytes_of (some k)

  history_of_same :
      (keys : List Bytes) (o : Option Key) → stored keys ≡ bytes_of o → history_of o ≡ Quot.mk keys
  unfolding history_of stored
  history_of_same keys none e = Quot.sound (stored_nothing ∙ sym e)
  history_of_same keys (some k) e = Quot.sound (stored_one k ∙ sym e)

  history_of-key_of : (v : View M K H env) → history_of (key_of v) ≡ v
  unfolding key_of
  history_of-key_of =
      Quot.ind (λ v. Quot-set _ _)
        (λ keys. history_of_same keys (sized (stored keys)) (sym (stored-sized keys)))

  -- From a fresh contract, histories of `init` calls, up to the key that they store, are the optional
  -- keys of the declared length: the two types are equal. A history stands for the key that the
  -- contract stores after it, and `__check_auth` then answers as the specification at that key.
  pub view_lem : Viewed M K H env
  unfolding key_of stored
  view_lem =
      let same : Iso (View M K H env) (Option Key) = record {
        fun = key_of;
        inv = history_of;
        rinv = key_of-history_of;
        linv = history_of-key_of;
      } in
      let p : View M K H env ≡ Option Key = iso_to_path same in
      (
        p,
        λ keys.
            let moved : bytes_of (transport p (Quot.mk keys)) ≡ stored keys =
              ap bytes_of (ua-β (iso_to_equiv same) (Quot.mk keys)) ∙ stored-sized keys in
            (
              moved,
              λ payload signature.
                  check_auth-answers M K H LK (run_inits M K H env keys) payload signature
                    (transport p (Quot.mk keys)) (sym moved),
            ),
      )
