-- ===== src/Phase0/Harness/Submit/Finishes.antt =====
-- When phase0/harness/src/bin/submit.rs has sent its transaction, and is done waiting for it.
use soroban_ml_dsa.Prelude.{
  ℕ, zero, suc, ◌<◌, ◌≡◌, ◌↔◌, inl, inr, refl, arith, true, false, String, Bytes, Option, some,
  none, ok,
}
use soroban_ml_dsa.Stellar.External.{Xdr}
use soroban_ml_dsa.Cli.External.{Json, System, Crates}
use soroban_ml_dsa.Cli.Format.{hex}
use soroban_ml_dsa.Cli.Transactions.{Tx, SimResult}
use soroban_ml_dsa.Cli.Rpc.{ask, is_not_found}
use soroban_ml_dsa.Cli.Poll.{Waits, arrived, again}
use soroban_ml_dsa.Phase0.Harness.External.{Results}
use soroban_ml_dsa.Phase0.Harness.Submit.{Final, final_of, poll, finalise}
use soroban_ml_dsa.Phase0.Harness.Submit.Poll.{status_of-is_not_found}
use soroban_ml_dsa.Phase0.Harness.Submit.Submitted.{Waited, Finalised, finalise-Sent}

module _ (J : Json) (S : System) {Y : Xdr} (X : Crates Y) (R : Results X) where
  poll_again :
      (rounds : ℕ) (hash : String) (w : S.World) {w' : S.World} {g : J.Value}
      → ask J S hash w ≡ (ok g, w')
      → is_not_found J S g ≡ true
      → poll J S X R (suc rounds) hash w ≡ poll J S X R rounds hash w'
  unfolding poll
  poll_again rounds hash w {g = g} a b = rw a (rw (status_of-is_not_found J S X R g) (rw b refl))

  poll_there :
      (rounds : ℕ) (hash : String) (w : S.World) {w' w'' : S.World} {g : J.Value} {f : Final}
      → ask J S hash w ≡ (ok g, w')
      → is_not_found J S g ≡ false
      → final_of J S X R g w' ≡ (ok f, w'')
      → poll J S X R (suc rounds) hash w ≡ (ok (some f), w'')
  unfolding poll
  poll_there rounds hash w {g = g} a b c =
      rw a (rw (status_of-is_not_found J S X R g) (rw b (rw c refl)))

  poll_times_out :
      {hash : String} {rounds : ℕ} {w w' : S.World}
      → Waits J S hash rounds w w'
      → poll J S X R rounds hash w ≡ (ok none, w')
  unfolding poll
  poll_times_out arrived = refl
  poll_times_out {hash = hash} {w = w} (again {n = n} a b waits) =
      rw (poll_again n hash w a b) (poll_times_out waits)

  poll_reads :
      {hash : String} {k : ℕ} {w w1 : S.World}
      → Waits J S hash k w w1
      → (rounds : ℕ) → k < rounds
      → {g : J.Value} {f : Final} {w2 w3 : S.World} → ask J S hash w1 ≡ (ok g, w2)
      → is_not_found J S g ≡ false
      → final_of J S X R g w2 ≡ (ok f, w3)
      → poll J S X R rounds hash w ≡ (ok (some f), w3)
  poll_reads arrived zero less a b c = absurd (omega arith)
  poll_reads {hash = hash} {w = w} arrived (suc rounds) less a b c = poll_there rounds hash w a b c
  poll_reads (again _ _ waits) zero less a b c = absurd (omega arith)
  poll_reads {hash = hash} {w = w} (again x y waits) (suc rounds) less a b c =
      rw (poll_again rounds hash w x y) (poll_reads waits rounds (omega arith) a b c)

  Waited-poll :
      (hash : String) (w : S.World) {final : Option Final} {w' : S.World}
      → Waited J S X R hash w final w'
      → poll J S X R 30 hash w ≡ (ok final, w')
  Waited-poll hash w (inl (same, waits)) = rw same (poll_times_out waits)
  Waited-poll hash w (inr (_, _, _, _, _, less, waits, a, b, c, same)) =
      rw same (poll_reads waits 30 less a b c)

  Finalised-finalise :
      (tx : Tx X) (sim : SimResult X) (seed network : Bytes) (w : S.World)
      (done : ℕ × Bytes × Option Final) {w' : S.World}
      → Finalised J S X R tx sim seed network w done w'
      → finalise J S X R tx sim seed network w ≡ (ok done, w')
  unfolding finalise
  Finalised-finalise tx sim seed network w (wire_len, hash, final)
        (env, a, (wire, b64, send, w1, b, same, c, d, e, waited)) =
      let there = Waited-poll (hex hash) w1 waited in rw (a, b) (rw (c, d) (ground arith))

  -- The program sends its transaction and is done waiting exactly when the envelope is signed and
  -- encodes, the server answers and does not reject it, and then either each of 30 answers is
  -- `NOT_FOUND`, which is reported as a time-out, or fewer than 30 are and the next has a result
  -- that can be read or none; the length, the hash and the status that it returns are those.
  pub finalise_iff :
      (tx : Tx X) (sim : SimResult X) (seed network : Bytes) (w : S.World)
      (done : ℕ × Bytes × Option Final) (w' : S.World)
      → (finalise J S X R tx sim seed network w ≡ (ok done, w'))
        ↔ Finalised J S X R tx sim seed network w done w'
  finalise_iff tx sim seed network w done w' =
      (finalise-Sent J S X R tx sim seed network w, Finalised-finalise tx sim seed network w done)
