-- ===== src/Tests/Orbits.antt =====
-- hw3/main.c: a run of `./main 1 -1 8 1` up to its first switch.
use sp_homework.Common.{ℕ, zero, suc, ◌+◌, ◌*◌, ◌^◌, ◌≡◌, ◌≤◌, ◌<◌, refl, some, [], ◌∷◌, ◌≢◌, arith}
use sp_homework.Common.Int.{pos, negsuc, int_half, is_even}
use sp_homework.Threads.{
  collatz, collatz_body, collatz_start, first_round, init_threads, thread_setup, create_if,
}
use sp_homework.Scheduler.{
  scheduler, enter, select_and_wake, collect, wake, dispatch, jump, advance,
}
use sp_homework.Threads.Collatz.{orbit}
use sp_homework.Threads.Machine.{Machine, Input, continues, ends, step}
use sp_homework.Threads.Machine.Safe.{Wakes-all, Wakes}
use sp_homework.Threads.Machine.Prints.{lines}
use sp_homework.Threads.Machine.CollatzLines.{IsOrbit, orbit_values}
use sp_homework.Threads.Machine.Start.{boot, Reachable, starts, steps}
use sp_homework.Threads.Machine.Reach.{reachable-orbit_values}
use sp_homework.Tests.Machines.{unused, fifo, all_readable, machine_or, nothing, pass}

abbrev second : Machine
second = machine_or nothing (boot (negsuc 0) (pos 8) (pos 1) fifo all_readable all_readable unused)

second-continues :
    boot (negsuc 0) (pos 8) (pos 1) fifo all_readable all_readable unused ≡ some (continues second)
unfolding boot init_threads create_if thread_setup scheduler enter select_and_wake collect wake
    dispatch jump
second-continues = refl

-- Behind the first round of `collatz`, which printed 4.
abbrev halved_once : Machine
halved_once = machine_or nothing (step pass second)

halves : step pass second ≡ some (continues halved_once)
unfolding step boot init_threads create_if thread_setup scheduler enter select_and_wake collect wake
    dispatch jump collatz collatz_body collatz_start first_round advance is_even int_half
halves = refl

halved_once-Reachable : Reachable (negsuc 0) (pos 8) (pos 1) fifo unused halved_once
halved_once-Reachable =
    steps pass second halved_once (starts all_readable all_readable second second-continues)
      (Wakes-all pass second (λ t. refl)) halves

-- 8, 4, 2, 1
eight-IsOrbit : IsOrbit 8 2
eight-IsOrbit = record { fits = fits; goes_on = goes_on; ends = refl }
  where
    fits : (j : ℕ) → j ≤ 2 → orbit j 8 * 3 + 1 < 2 ^ 31
    fits zero h = omega arith
    fits (suc zero) h = omega arith
    fits (suc (suc zero)) h = omega arith
    fits (suc (suc (suc j))) h = absurd (omega arith)

    goes_on : (j : ℕ) → j < 2 → orbit (suc j) 8 ≢ 1
    goes_on zero h = λ e. omega arith
    goes_on (suc zero) h = λ e. omega arith
    goes_on (suc (suc j)) h = absurd (omega arith)

reachable-orbit_values_example :
    ((j : ℕ) × j ≤ 3 × (lines 0 halved_once.printed ≡ orbit_values 8 j))
    × ((input : Input) (m' : Machine)
        → Wakes input halved_once
        → step input halved_once ≡ some (ends m')
        → lines 0 m'.printed ≡ pos 1 ∷ pos 2 ∷ pos 4 ∷ [])
reachable-orbit_values_example =
    reachable-orbit_values (negsuc 0) (pos 8) (pos 1) fifo unused 8 2 refl (omega arith)
      eight-IsOrbit halved_once halved_once-Reachable
