-- ===== src/Threads/Machine/CollatzLines.antt =====
-- hw3: the rounds of a `collatz` thread of the machine.
use sp_homework.Common.{
  ℕ, suc, ◌+◌, ◌*◌, ◌^◌, ◌≡◌, ◌≢◌, ◌<◌, ◌≤◌, refl, ap, ◌∙◌, inl, inr, List, [], ◌∷◌, arith, length,
  ltb, Bool-cases,
}
use sp_homework.Common.Int.{ℤ, pos}
use sp_homework.Scheduler.View.{Event, begin, yield, block, exit}
use sp_homework.Threads.{Tcb, collatz}
use sp_homework.Threads.Collatz.{orbit, collatz_entry, collatz-orbit}
use sp_homework.Threads.Machine.{runs_collatz, begins, resume, next_point}
use sp_homework.Threads.Machine.Rounds.{values_of, exited_iff, round_of, DoesRounds}

-- The first `n` values of the orbit behind its start, the latest first.
abbrev pub orbit_values : ℕ → ℕ → List ℤ
orbit_values start = values_of (λ k. pos (orbit (suc k) start))

-- The orbit comes to 1 in step `suc n`, not before, and the arithmetic up to then fits an `int`.
pub record IsOrbit (start n : ℕ) : Type 0 where
  pub fits : (j : ℕ) → j ≤ n → orbit j start * 3 + 1 < 2 ^ 31
  pub goes_on : (j : ℕ) → j < n → orbit (suc j) start ≢ 1
  pub ends : orbit (suc n) start ≡ 1

resume_first :
    (t : Tcb) (chunk : List ℕ) → resume runs_collatz begins chunk t ≡ collatz (collatz_entry 0 t)
unfolding resume collatz_entry
resume_first t chunk = refl

resume_next :
    (e : Event) (n : ℕ) (t : Tcb) (chunk : List ℕ)
    → resume runs_collatz (next_point e) chunk (collatz (collatz_entry n t)).0
      ≡ collatz (collatz_entry (suc n) t)
unfolding resume collatz_entry
resume_next begin n t chunk = refl
resume_next yield n t chunk = refl
resume_next block n t chunk = refl
resume_next exit n t chunk = refl

round_lem :
    (t : Tcb) (chunk : List ℕ) (chunks : List (List ℕ))
    → round_of runs_collatz t chunk chunks ≡ collatz (collatz_entry (length chunks) t)
round_lem t chunk [] = resume_first t chunk
round_lem t chunk (c ∷ chunks) = rw (round_lem t c chunks) (resume_next _ (length chunks) t chunk)

last_step : (start n j : ℕ) → IsOrbit start n → j < suc n → orbit (suc j) start ≡ 1 → suc j ≡ suc n
last_step start n j o less e = elim (Bool-cases (ltb j n)) [
  | inl before ↦ absurd (o.goes_on j (ground (arith, before)) e)
  | inr last ↦ ground (arith, last, less)
]

-- A thread that runs `collatz` prints the next value of the orbit in each round.
pub collatz-DoesRounds :
    (t : Tcb) (start n : ℕ)
    → t.arg ≡ pos start
    → suc n < 2 ^ 31
    → IsOrbit start n
    → DoesRounds runs_collatz t (λ k. pos (orbit (suc k) start)) (suc n)
collatz-DoesRounds t start n arg room o chunk chunks less =
    let k = length chunks in
    let (value, exits, yields) =
      collatz-orbit k start t arg (omega arith) (λ j h. o.fits j (omega arith)) in
    let e = round_lem t chunk chunks in
    rw e (
      rw value refl,
      (
        (λ h. last_step start n k o less (exits.0 ((exited_iff _).0 h))),
        (λ h. (exited_iff _).1 (exits.1 (ap (λ j. orbit j start) h ∙ o.ends))),
      ),
    )
