-- ===== src/Threads/Machine/Start.antt =====
-- hw3/main.c: the arguments, the threads that they create, and what can be reached from the start.
use sp_homework.Common.{ℕ, zero, suc, ◌≡◌, Bool, Option, some, List, [], ◌∷◌, ◌>>=◌}
use sp_homework.Common.Int.{ℤ, pos}
use sp_homework.Common.Text.{atoi}
use sp_homework.Scheduler.{scheduler}
use sp_homework.Threads.{Tcb, System, init_threads}
use sp_homework.Threads.Created.{blank}
use sp_homework.Threads.Machine.{
  Body, runs_fibonacci, runs_collatz, runs_max_subarray, begins, Machine, Input, Result, continues,
  result_of, step,
}
use sp_homework.Threads.Machine.Safe.{Wakes}

-- The function that `init_threads` creates with an id.
abbrev pub body_of : ℤ → Body
body_of (pos zero) = runs_fibonacci
body_of (pos (suc zero)) = runs_collatz
body_of id = runs_max_subarray

-- The threads behind thread_setup, before the first of them is resumed.
abbrev pub ready_to_run : System → Machine
ready_to_run s = record {
  tcbs = s.tcbs;
  bodies = λ t. body_of (s.tcbs t).id;
  points = λ t. begins;
  sched = s.sched;
  running = 0;
  printed = [];
}

-- `init_threads` and the first pass of `scheduler`, from zeroed globals.
unfoldable pub boot : ℤ → ℤ → ℤ → (ℕ → ℕ) → (ℕ → Bool) → (ℕ → Bool) → (ℕ → Tcb) → Option Result
boot fib_arg col_arg sub_arg fifo_fd polled blocked tcbs =
    init_threads fib_arg col_arg sub_arg fifo_fd (blank tcbs) >>= λ s.
    scheduler (λ t. (s.tcbs t).fd) polled blocked s.sched >>= λ o.
    some (result_of (ready_to_run s) o)

-- `exit(1)` behind the usage line, or the time slice and what the boot comes to.
pub data Start : Type 0 where
  usage : Start
  boots : ℤ → Option Result → Start

unfoldable pub main : List (List ℕ) → (ℕ → ℕ) → (ℕ → Bool) → (ℕ → Bool) → (ℕ → Tcb) → Start
main (name ∷ timeslice ∷ fib_arg ∷ col_arg ∷ sub_arg ∷ []) fifo_fd polled blocked tcbs =
    boots (atoi timeslice)
      (boot (atoi fib_arg) (atoi col_arg) (atoi sub_arg) fifo_fd polled blocked tcbs)
main argv fifo_fd polled blocked tcbs = usage

module _ (fib_arg col_arg sub_arg : ℤ) (fifo_fd : ℕ → ℕ) (tcbs : ℕ → Tcb) where
  -- What the program can come to: the machine behind the boot, and behind steps in which a blocking
  -- `select` wakes a thread, where there is one.
  pub data Reachable : Machine → Type 0 where
    starts :
        (polled blocked : ℕ → Bool) (m : Machine)
        → boot fib_arg col_arg sub_arg fifo_fd polled blocked tcbs ≡ some (continues m)
        → Reachable m
    steps :
        (input : Input) (m m' : Machine)
        → Reachable m
        → Wakes input m
        → step input m ≡ some (continues m')
        → Reachable m'
