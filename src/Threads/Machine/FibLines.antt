-- ===== src/Threads/Machine/FibLines.antt =====
-- hw3: the rounds of a `fibonacci` thread of the machine.
use sp_homework.Common.{ℕ, suc, ◌^◌, ◌≡◌, ◌<◌, refl, ap, ◌∙◌, List, [], ◌∷◌, arith, length, sym}
use sp_homework.Common.Int.{ℤ, pos, pos_part, to_int}
use sp_homework.Scheduler.View.{Event, begin, yield, block, exit}
use sp_homework.Threads.{Tcb, fibonacci}
use sp_homework.Threads.Fibonacci.{fib, fib_entry, fibonacci-fib}
use sp_homework.Threads.Machine.{runs_fibonacci, begins, resume, next_point}
use sp_homework.Threads.Machine.Rounds.{values_of, exited_iff, round_of, DoesRounds}

-- The first `n` Fibonacci numbers as an `int`, the latest first.
abbrev pub fib_values : ℕ → List ℤ
fib_values = values_of (λ k. to_int (pos (fib k)))

resume_first :
    (t : Tcb) (chunk : List ℕ) → resume runs_fibonacci begins chunk t ≡ fibonacci (fib_entry 0 t)
unfolding resume fib_entry
resume_first t chunk = refl

resume_next :
    (e : Event) (n : ℕ) (t : Tcb) (chunk : List ℕ)
    → resume runs_fibonacci (next_point e) chunk (fibonacci (fib_entry n t)).0
      ≡ fibonacci (fib_entry (suc n) t)
unfolding resume fib_entry
resume_next begin n t chunk = refl
resume_next yield n t chunk = refl
resume_next block n t chunk = refl
resume_next exit n t chunk = refl

round_lem :
    (t : Tcb) (chunk : List ℕ) (chunks : List (List ℕ))
    → round_of runs_fibonacci t chunk chunks ≡ fibonacci (fib_entry (length chunks) t)
round_lem t chunk [] = resume_first t chunk
round_lem t chunk (c ∷ chunks) = rw (round_lem t c chunks) (resume_next _ (length chunks) t chunk)

-- A thread that runs `fibonacci` prints the next Fibonacci number in each round.
pub fibonacci-DoesRounds :
    (t : Tcb) (n : ℕ)
    → t.arg ≡ pos (suc n)
    → suc n < 2 ^ 31
    → DoesRounds runs_fibonacci t (λ k. to_int (pos (fib k))) (suc n)
fibonacci-DoesRounds t n arg room chunk chunks less =
    let (value, exits, yields) = fibonacci-fib (length chunks) t (omega arith) in
    let e = round_lem t chunk chunks in
    rw e (
      rw value refl,
      (
        (λ h. ap pos_part (sym (exits.0 ((exited_iff _).0 h)) ∙ arg)),
        (λ h. (exited_iff _).1 (exits.1 (arg ∙ ap pos (sym h)))),
      ),
    )
