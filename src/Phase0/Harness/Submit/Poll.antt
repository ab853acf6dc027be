-- ===== src/Phase0/Harness/Submit/Poll.antt =====
-- The loop of phase0/harness/src/bin/submit.rs that waits for the transaction.
use text.Mathlib.Text.{◌==◌}
use soroban_ml_dsa.Prelude.{
  ℕ, zero, suc, ◌<◌, ◌≡◌, ◌⊎◌, inl, inr, refl, arith, true, false, String, Option, some, none,
  Never, Run, ok, panic, Bool-cases,
}
use soroban_ml_dsa.Stellar.External.{Xdr}
use soroban_ml_dsa.Cli.Act.{◌>>=◌, pure}
use soroban_ml_dsa.Cli.External.{Json, System, Crates}
use soroban_ml_dsa.Cli.Poll.{Waits, arrived, again, outcome}
use soroban_ml_dsa.Cli.Rpc.{ask, is_not_found}
use soroban_ml_dsa.Phase0.Harness.External.{Results}
use soroban_ml_dsa.Phase0.Harness.Submit.{Final, status_of, final_of, poll}

-- "?" is not "NOT_FOUND".
unknown_differs :
    (o : Option String)
    → ((elim o [ some st ↦ st | none ↦ "?" ]) == "NOT_FOUND")
      ≡ elim o [ some st ↦ st == "NOT_FOUND" | none ↦ false ]
unknown_differs (some st) = refl
unknown_differs none = refl

module _ (J : Json) (S : System) {Y : Xdr} (X : Crates Y) (R : Results X) where
  -- The test is that of pq-cli.
  pub status_of-is_not_found :
      (g : J.Value) → (status_of J S X R g == "NOT_FOUND") ≡ is_not_found J S g
  unfolding is_not_found
  status_of-is_not_found g = unknown_differs (J.as_str (J.field (J.field g "result") "status"))

  -- How the loop ends.
  abbrev pub Ending : ℕ → String → S.World → Run Never (Option Final) × S.World → Type 0
  Ending rounds hash w r =
      ((w' : S.World) × Waits J S hash rounds w w' × (r ≡ (ok none, w')))
      ⊎ ((k : ℕ) × (w' : S.World) × (w'' : S.World) × (k < rounds)
          × Waits J S hash k w w'
          × (((ask J S hash w' ≡ (panic, w'')) × (r ≡ (panic, w'')))
              ⊎ ((g : J.Value) × (ask J S hash w' ≡ (ok g, w''))
                  × (is_not_found J S g ≡ false)
                  × (r ≡ (final_of J S X R g >>= λ f. pure (ok (some f))) w''))))

  Ending-again :
      {rounds : ℕ} {hash : String} {w w' : S.World} {g : J.Value}
      {r : Run Never (Option Final) × S.World}
      → ask J S hash w ≡ (ok g, w')
      → is_not_found J S g ≡ true
      → Ending rounds hash w' r
      → Ending (suc rounds) hash w r
  Ending-again a b (inl (w'', waits, r)) = inl (w'', again a b waits, r)
  Ending-again a b (inr (k, w'', w3, less, waits, r)) =
      inr (suc k, w'', w3, omega arith, again a b waits, r)

  -- The loop asks at most as often as it has rounds. It ends with the first answer that is not
  -- `NOT_FOUND`, with no answer after the last round, or with the panic of a request.
  pub poll-Ending :
      (rounds : ℕ) (hash : String) (w : S.World) → Ending rounds hash w (poll J S X R rounds hash w)
  unfolding poll
  poll-Ending zero hash w = inl (w, arrived, refl)
  poll-Ending (suc rounds) hash w = elim (outcome (ask J S hash w)) [
    | inr (w', e) ↦ inr (0, w, w', omega arith, arrived, inl (e, rw e refl))
    | inl (g, w', e) ↦ elim (Bool-cases (is_not_found J S g)) [
      | inl b ↦
          Ending-again e b
            (rw e (rw (status_of-is_not_found g) (rw b (poll-Ending rounds hash w'))))
      | inr b ↦ inr (
        0,
        w,
        w',
        omega arith,
        arrived,
        inr (g, e, b, rw e (rw (status_of-is_not_found g) (rw b refl))),
      )
    ]
  ]
