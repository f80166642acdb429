-- ===== src/Threads/Boot.antt =====
-- `init_threads` and `start_threading` of hw3/main.c: which threads are created, and which runs first.
use mathlib.Core.Path.{subst}
use sp_homework.Common.{
  ℕ, suc, ◌≤◌, ◌≡◌, ◌≢◌, refl, arith, List, [], ◌∷◌, ◌++◌, length, Bool, true, none, some,
}
use sp_homework.Common.Int.{ℤ, pos, ltb_ℤ}
use sp_homework.Scheduler.{
  Sched, run, thread_max, scheduler, enter, select_and_wake, collect, wake, dispatch, jump,
}
use sp_homework.Scheduler.Arrays.{Queues}
use sp_homework.Scheduler.Ready.{Represents}
use sp_homework.Scheduler.Refine.{enter-schedule}
use sp_homework.Scheduler.View.{View, begin}
use sp_homework.Threads.{Tcb, System, create_if, init_threads}
use sp_homework.Threads.Created.{
  blank, Blocks, upto, length-upto, all_created, length-all_created, Booted-init,
}

-- The view behind the first pass of the scheduler over `n + 1` ready blocks.
abbrev pub first_view : ℕ → View
first_view n = record { before = []; running = 0; after = upto 1 n ++ []; waiting = [] }

-- The first pass of the scheduler when every block is ready and none waits.
first_pass :
    (fd : ℕ → ℕ) (polled blocked : ℕ → Bool) (s : Sched) (n : ℕ)
    → Queues s (upto 0 (suc n)) []
    → suc n ≤ thread_max
    → (s' : Sched) × (scheduler fd polled blocked s ≡ some (run 0 s'))
      × Represents s' (first_view n)
unfolding scheduler
first_pass fd polled blocked s n q room =
    let s' = record s { rq_current = 0 } in
    let r : Represents s' (record { before = []; running = 0; after = upto 1 n; waiting = [] }) =
      record {
        queues = record {
          ready_holds = q.ready_holds;
          ready_size = q.ready_size;
          waiting_holds = q.waiting_holds;
          waiting_size = q.waiting_size;
        };
        current = refl;
      } in
    enter-schedule fd begin polled blocked s' _ r (omega (arith, length-upto 1 n))

-- `init_threads` and the first pass of the scheduler, when a block is created.
pub boot_lem :
    (fib_arg col_arg sub_arg : ℤ) (fifo_fd : ℕ → ℕ) (tcbs : ℕ → Tcb) (n : ℕ)
    → length (all_created fib_arg col_arg sub_arg fifo_fd) ≡ suc n
    → (s : System) × (init_threads fib_arg col_arg sub_arg fifo_fd (blank tcbs) ≡ some s)
      × Blocks s.tcbs 0 (all_created fib_arg col_arg sub_arg fifo_fd)
      × ((fd : ℕ → ℕ) (polled blocked : ℕ → Bool)
          → (s' : Sched) × (scheduler fd polled blocked s.sched ≡ some (run 0 s'))
            × Represents s' (first_view n))
boot_lem fib_arg col_arg sub_arg fifo_fd tcbs n size =
    let (s, made, b) = Booted-init fib_arg col_arg sub_arg fifo_fd tcbs in
    let few = length-all_created fib_arg col_arg sub_arg fifo_fd in
    let q = b.queues in
    let q' : Queues s.sched (upto 0 (suc n)) [] =
      subst (λ k. Queues s.sched (upto 0 k) []) size q in
    (
      s,
      made,
      b.blocks,
      λ fd polled blocked. first_pass fd polled blocked s.sched n q' (omega (arith, few, size)),
    )

pub length-nonempty : {A : Type 0} (xs : List A) → xs ≢ [] → (n : ℕ) × (length xs ≡ suc n)
length-nonempty [] ne = absurd (ne refl)
length-nonempty (x ∷ xs) ne = (length xs, refl)

-- With an argument that is not negative, `main` creates the threads for such arguments, in the order
-- fibonacci, collatz, max_subarray, with their ids and arguments, and the scheduler starts the first
-- of them, whatever is readable.
pub boot-runs :
    (fib_arg col_arg sub_arg : ℤ) (fifo_fd : ℕ → ℕ) (tcbs : ℕ → Tcb) (fd : ℕ → ℕ)
    (polled blocked : ℕ → Bool)
    → all_created fib_arg col_arg sub_arg fifo_fd ≢ []
    → (s : System) × (s' : Sched) × (init_threads fib_arg col_arg sub_arg fifo_fd (blank tcbs)
        ≡ some s)
      × Blocks s.tcbs 0 (all_created fib_arg col_arg sub_arg fifo_fd)
      × (scheduler fd polled blocked s.sched ≡ some (run 0 s'))
boot-runs fib_arg col_arg sub_arg fifo_fd tcbs fd polled blocked some_arg =
    let (n, size) = length-nonempty _ some_arg in
    let (s, made, blocks, starts) = boot_lem fib_arg col_arg sub_arg fifo_fd tcbs n size in
    let (s', runs, r) = starts fd polled blocked in (s, s', made, blocks, runs)

-- With negative arguments alone no thread is created, and the scheduler follows the NULL pointer in
-- the first slot of the ready queue.
pub boot-faults :
    (fib_arg col_arg sub_arg : ℤ) (fifo_fd : ℕ → ℕ) (tcbs : ℕ → Tcb) (fd : ℕ → ℕ)
    (polled blocked : ℕ → Bool)
    → ltb_ℤ fib_arg (pos 0) ≡ true
    → ltb_ℤ col_arg (pos 0) ≡ true
    → ltb_ℤ sub_arg (pos 0) ≡ true
    → (init_threads fib_arg col_arg sub_arg fifo_fd (blank tcbs) ≡ some (blank tcbs))
      × (scheduler fd polled blocked (blank tcbs).sched ≡ none)
unfolding init_threads create_if scheduler enter select_and_wake collect wake dispatch jump
boot-faults fib_arg col_arg sub_arg fifo_fd tcbs fd polled blocked f c s = (rw (f, c, s), refl)
