-- ===== src/Tests/Threading.antt =====
-- hw3: the scheduler and the three threads at concrete inputs.
use sp_homework.Common.{
  ℕ, ◌+◌, ◌≡◌, ◌≢◌, ◌↔◌, refl, Bool, false, none, some, List, [], ◌∷◌, arith, ◌==◌, if◌then◌else◌,
}
use sp_homework.Common.Int.{pos, negsuc, ◌≤ℤ◌, to_int}
use sp_homework.Scheduler.{Slots, Sched, run, scheduler, enter, select_and_wake}
use sp_homework.Scheduler.Arrays.{Queues}
use sp_homework.Scheduler.View.{View, yield, block, exit}
use sp_homework.Scheduler.Ready.{Represents}
use sp_homework.Scheduler.Refine.{enter-schedule}
use sp_homework.Scheduler.Conserve.{KeepsThreads, enter-KeepsThreads}
use sp_homework.Scheduler.Fair.{ComesUp, yields-ComesUp}
use sp_homework.Scheduler.Wake.{Woken, select_and_wake_lem}
use sp_homework.Threads.{Tcb, System, init_threads, fibonacci, max_subarray}
use sp_homework.Threads.Boot.{boot-runs, boot-faults}
use sp_homework.Threads.Created.{blank, fresh, Blocks}
use sp_homework.Threads.Fibonacci.{fib, fib_entry, fibonacci-fib}
use sp_homework.Threads.MaxSubarray.{numbers, max_entry, IsLargestSum, max_subarray-IsLargestSum}

-- The threads 0 and 1 are ready, 1 runs, and 2 and 3 wait.
abbrev queue_of : ℕ → ℕ → Slots
queue_of a b j = if j == 0 then some a else if j == 1 then some b else none

abbrev four : Sched
four = record {
  ready_queue = queue_of 0 1;
  waiting_queue = queue_of 2 3;
  rq_size = 2;
  rq_current = 1;
  wq_size = 2;
}

abbrev four_view : View
four_view = record { before = 0 ∷ []; running = 1; after = []; waiting = 2 ∷ 3 ∷ [] }

four-Queues : Queues four (0 ∷ 1 ∷ []) (2 ∷ 3 ∷ [])
four-Queues = record {
  ready_holds = (refl, (refl, tt));
  ready_size = refl;
  waiting_holds = (refl, (refl, tt));
  waiting_size = refl;
}

four-Represents : Represents four four_view
four-Represents = record { queues = four-Queues; current = refl }

abbrev descriptor : ℕ → ℕ
descriptor t = t + 5

abbrev at_seven : ℕ → Bool
at_seven d = d == 7

abbrev at_nothing : ℕ → Bool
at_nothing d = false

-- Thread 1 blocks while the descriptor of thread 2 is readable: thread 2 takes its slot.
enter-schedule_example :
    (s' : Sched) × (enter descriptor 2 at_seven at_nothing four ≡ some (run 2 s'))
    × Represents s' (record { before = 0 ∷ []; running = 2; after = []; waiting = 3 ∷ 1 ∷ [] })
enter-schedule_example =
    enter-schedule descriptor block at_seven at_nothing four four_view four-Represents (omega arith)

enter-KeepsThreads_example :
    KeepsThreads (enter descriptor 3 at_seven at_nothing four) exit four_view
enter-KeepsThreads_example =
    enter-KeepsThreads descriptor exit at_seven at_nothing four four_view four-Represents
      (omega arith) (λ waiting e. cc)

yields-ComesUp_example : ComesUp descriptor four 0
yields-ComesUp_example =
    yields-ComesUp descriptor four four_view 0 four-Represents (omega arith) (omega arith)

select_and_wake_example :
    Woken (select_and_wake descriptor at_seven four) 1 (0 ∷ 1 ∷ 2 ∷ []) (3 ∷ [])
select_and_wake_example =
    select_and_wake_lem descriptor at_seven four (0 ∷ 1 ∷ []) (2 ∷ 3 ∷ []) four-Queues (omega arith)

abbrev no_block : ℕ → Tcb
no_block j = fresh (pos 0) (pos 0) 0

-- ./main 1 -1 7 2
boot-runs_example :
    (s : System) × (s' : Sched) × (init_threads
        (negsuc 0)
        (pos 7)
        (pos 2)
        descriptor
        (blank no_block)
      ≡ some s)
    × Blocks s.tcbs 0 (fresh (pos 1) (pos 7) 6 ∷ fresh (pos 2) (pos 2) 7 ∷ [])
    × (scheduler descriptor at_nothing at_nothing s.sched ≡ some (run 0 s'))
boot-runs_example =
    boot-runs (negsuc 0) (pos 7) (pos 2) descriptor no_block descriptor at_nothing at_nothing
      (λ e. cc)

boot-faults_example :
    (init_threads (negsuc 0) (negsuc 1) (negsuc 0) descriptor (blank no_block)
      ≡ some (blank no_block))
    × (scheduler descriptor at_seven at_nothing (blank no_block).sched ≡ none)
boot-faults_example =
    boot-faults (negsuc 0) (negsuc 1) (negsuc 0) descriptor no_block descriptor at_seven at_nothing
      refl refl refl

-- The fifth round of a thread with the argument 5 prints 5 and exits.
fibonacci-fib_example :
    ((fibonacci (fib_entry 4 (fresh (pos 0) (pos 5) 5))).0.y ≡ to_int (pos (fib 4)))
    × ((fibonacci (fib_entry 4 (fresh (pos 0) (pos 5) 5))).1 ≡ exit ↔ pos 5 ≡ pos 5)
    × ((fibonacci (fib_entry 4 (fresh (pos 0) (pos 5) 5))).1 ≡ yield ↔ pos 5 ≢ pos 5)
fibonacci-fib_example = fibonacci-fib 4 (fresh (pos 0) (pos 5) 5) (omega arith)

-- The chunks "-3\n\0\0" and "10\n\0\0", the later one first.
abbrev ten : List ℕ
ten = b'1' ∷ b'0' ∷ 10 ∷ 0 ∷ 0 ∷ []

abbrev minus_three : List ℕ
minus_three = b'-' ∷ b'3' ∷ 10 ∷ 0 ∷ 0 ∷ []

max_subarray-IsLargestSum_example :
    IsLargestSum
      (max_subarray ten (max_entry (minus_three ∷ []) (fresh (pos 2) (pos 2) 7))).0.y
      (numbers (ten ∷ minus_three ∷ []))
    × ((max_subarray ten (max_entry (minus_three ∷ []) (fresh (pos 2) (pos 2) 7))).1 ≡ exit
        ↔ pos 2 ≤ℤ pos 2)
max_subarray-IsLargestSum_example =
    max_subarray-IsLargestSum ten (minus_three ∷ []) (fresh (pos 2) (pos 2) 7) refl
      (refl, (refl, tt)) (omega arith)
