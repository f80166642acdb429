-- ===== src/Tests/Machines.antt =====
-- hw3/main.c: a run of `./main 1 2 -1 1` up to its first switch.
use sp_homework.Common.{ℕ, ◌+◌, ◌≡◌, ◌≤◌, refl, Bool, true, Option, some, [], arith}
use sp_homework.Common.Int.{pos, negsuc}
use sp_homework.Threads.{
  Tcb, fibonacci, fib_body, first_round, init_threads, thread_setup, create_if,
}
use sp_homework.Scheduler.{
  scheduler, enter, select_and_wake, collect, wake, dispatch, jump, advance,
}
use sp_homework.Threads.Created.{fresh, blank}
use sp_homework.Threads.Machine.{
  Machine, Input, runs_fibonacci, begins, Result, continues, ends, step,
}
use sp_homework.Threads.Machine.Safe.{Wakes-all, Wakes, GoesWell}
use sp_homework.Threads.Machine.Prints.{lines}
use sp_homework.Threads.Machine.FibLines.{fib_values}
use sp_homework.Threads.Machine.Start.{boot, Reachable, starts, steps}
use sp_homework.Threads.Machine.Reach.{reachable-GoesWell, reachable-fib_values}

abbrev pub unused : ℕ → Tcb
unused j = fresh (pos 0) (pos 0) 0

abbrev pub fifo : ℕ → ℕ
fifo j = 5 + j

abbrev pub all_readable : ℕ → Bool
all_readable fd = true

abbrev pub machine_or : Machine → Option Result → Machine
machine_or m (some (continues m')) = m'
machine_or m r = m

abbrev pub nothing : Machine
nothing = record {
  tcbs = unused;
  bodies = λ t. runs_fibonacci;
  points = λ t. begins;
  sched = (blank unused).sched;
  running = 0;
  printed = [];
}

abbrev booted : Machine
booted = machine_or nothing (boot (pos 2) (negsuc 0) (pos 1) fifo all_readable all_readable unused)

booted-continues :
    boot (pos 2) (negsuc 0) (pos 1) fifo all_readable all_readable unused ≡ some (continues booted)
unfolding boot init_threads create_if thread_setup scheduler enter select_and_wake collect wake
    dispatch jump
booted-continues = refl

abbrev pub pass : Input
pass = record { chunk = []; signal = true; polled = all_readable; blocked = all_readable }

-- Behind the first round of `fibonacci`, which printed 1.
abbrev first_switch : Machine
first_switch = machine_or nothing (step pass booted)

step-continues : step pass booted ≡ some (continues first_switch)
unfolding step boot init_threads create_if thread_setup scheduler enter select_and_wake collect wake
    dispatch jump fibonacci fib_body first_round advance
step-continues = refl

first_switch-Reachable : Reachable (pos 2) (negsuc 0) (pos 1) fifo unused first_switch
first_switch-Reachable =
    steps pass booted first_switch (starts all_readable all_readable booted booted-continues)
      (Wakes-all pass booted (λ t. refl)) step-continues

reachable-GoesWell_example : GoesWell 2 (step pass first_switch)
reachable-GoesWell_example =
    reachable-GoesWell (pos 2) (negsuc 0) (pos 1) fifo unused (λ e. cc) first_switch
      first_switch-Reachable pass (Wakes-all pass first_switch (λ t. refl))

reachable-fib_values_example :
    ((j : ℕ) × j ≤ 2 × (lines 0 first_switch.printed ≡ fib_values j))
    × ((input : Input) (m' : Machine)
        → Wakes input first_switch
        → step input first_switch ≡ some (ends m')
        → lines 0 m'.printed ≡ fib_values 2)
reachable-fib_values_example =
    reachable-fib_values (pos 2) (negsuc 0) (pos 1) fifo unused 1 refl (omega arith) first_switch
      first_switch-Reachable
