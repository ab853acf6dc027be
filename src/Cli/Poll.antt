-- ===== src/Cli/Poll.antt =====
-- The loop of `submit` in crates/pq-cli/src/lib.rs that waits for a transaction.
use soroban_ml_dsa.Prelude.{
  ℕ, zero, suc, ◌<◌, ◌≡◌, ◌⊎◌, inl, inr, refl, arith, true, false, String, Never, Run, ok, err,
  panic, or_panic, Bool-cases,
}
use soroban_ml_dsa.Cli.External.{Json, System}
use soroban_ml_dsa.Cli.Rpc.{ask, is_not_found, poll}

pub verdict : {A : Type 0} (r : Run Never A) → ((a : A) × (r ≡ ok a)) ⊎ (r ≡ panic)
verdict (ok a) = inl (a, refl)
verdict (err e) = elim e [ ]
verdict panic = inr refl

pub outcome :
    {A W : Type 0} (r : Run Never A × W)
    → ((a : A) × (w : W) × (r ≡ (ok a, w))) ⊎ ((w : W) × (r ≡ (panic, w)))
outcome (ok a, w) = inl (a, w, refl)
outcome (err e, w) = elim e [ ]
outcome (panic, w) = inr (w, refl)

module _ (J : Json) (S : System) where
  -- Some rounds in a row that are answered by `NOT_FOUND`.
  pub data Waits (hash : String) : ℕ → S.World → S.World → Type 0 where
    arrived : {w : S.World} → Waits hash 0 w w
    again :
        {w : S.World} {g : J.Value} {w' : S.World} {n : ℕ} {w'' : S.World}
        → ask J S hash w ≡ (ok g, w')
        → is_not_found J S g ≡ true
        → Waits hash n w' w''
        → Waits hash (suc n) w w''

  -- How the loop ends: all rounds are spent, or the round after some waiting panics or answers.
  abbrev pub Ending : ℕ → String → S.World → Run Never J.Value × S.World → Type 0
  Ending rounds hash w r =
      ((w' : S.World) × Waits hash rounds w w' × (r ≡ (panic, w')))
      ⊎ ((k : ℕ) × (w' : S.World) × (w'' : S.World) × (k < rounds)
          × Waits hash k w w'
          × (((ask J S hash w' ≡ (panic, w'')) × (r ≡ (panic, w'')))
              ⊎ ((g : J.Value) × (ask J S hash w' ≡ (ok g, w''))
                  × (is_not_found J S g ≡ false)
                  × (r ≡ (or_panic (J.set_field g "_hash" (J.string hash)), w'')))))

  Ending-again :
      {rounds : ℕ} {hash : String} {w w' : S.World} {g : J.Value} {r : Run Never J.Value × S.World}
      → ask J S hash w ≡ (ok g, w')
      → is_not_found J S g ≡ true
      → Ending rounds hash w' r
      → Ending (suc rounds) hash w r
  Ending-again a b (inl (w'', waits, r)) = inl (w'', again a b waits, r)
  Ending-again a b (inr (k, w'', w3, less, waits, r)) =
      inr (suc k, w'', w3, omega arith, again a b waits, r)

  -- The loop asks at most as often as it has rounds. It answers with the first answer that is not
  -- `NOT_FOUND`, to which it adds the hash; it panics when a request does, where the
  -- hash cannot be added, and after the last round.
  pub poll-Ending :
      (rounds : ℕ) (hash : String) (w : S.World) → Ending rounds hash w (poll J S rounds hash w)
  unfolding poll
  poll-Ending zero hash w = inl (w, arrived, refl)
  poll-Ending (suc rounds) hash w = elim (outcome (ask J S hash w)) [
    | inr (w', e) ↦ inr (0, w, w', omega arith, arrived, inl (e, rw e refl))
    | inl (g, w', e) ↦ elim (Bool-cases (is_not_found J S g)) [
      | inl b ↦ Ending-again e b (rw e (rw b (poll-Ending rounds hash w')))
      | inr b ↦ inr (0, w, w', omega arith, arrived, inr (g, e, b, rw e (rw b refl)))
    ]
  ]
