-- ===== src/Threads/Machine/Reach.antt =====
-- hw3 from its start: no step that can be reached faults, and what the `fibonacci` thread prints.
use mathlib.Core.Path.{subst}
use mathlib.Core.Option.{some-injective}
use mathlib.Core.List.{append_assoc}
use sp_homework.Common.{
  ℕ, suc, ◌+◌, ◌^◌, ◌≡◌, ◌≢◌, ◌<◌, ◌≤◌, refl, sym, ap, ◌∙◌, Bool, some, List, [], ◌∷◌, ◌++◌, arith,
  length, length-append,
}
use sp_homework.Common.Int.{ℤ, pos, to_int}
use sp_homework.Threads.{Tcb, System}
use sp_homework.Threads.Boot.{boot_lem, length-nonempty}
use sp_homework.Threads.Created.{fresh, created, all_created, length-all_created, Blocks}
use sp_homework.Threads.Machine.{Machine, Input, continues, ends, step}
use sp_homework.Threads.Machine.Safe.{Wakes, GoesWell, step_lem}
use sp_homework.Threads.Machine.Prints.{lines, machine_of}
use sp_homework.Threads.Fibonacci.{fib}
use sp_homework.Threads.Collatz.{orbit}
use sp_homework.Threads.Machine.Rounds.{values_of, DoesRounds, rounds-HasPrinted}
use sp_homework.Threads.Machine.FibLines.{fib_values, fibonacci-DoesRounds}
use sp_homework.Threads.Machine.CollatzLines.{orbit_values, IsOrbit, collatz-DoesRounds}
use sp_homework.Threads.Machine.Start.{body_of, ready_to_run, boot, Reachable, starts, steps}
use sp_homework.Threads.Machine.Holding.{Runs-first, created_natural, Holds, Holds-step, Blocks-at}

module _ (fib_arg col_arg sub_arg : ℤ) (fifo_fd : ℕ → ℕ) (tcbs : ℕ → Tcb) where
  module _ (n : ℕ) (size : length (all_created fib_arg col_arg sub_arg fifo_fd) ≡ suc n) where
    made : System
    made = (boot_lem fib_arg col_arg sub_arg fifo_fd tcbs n size).0

    Holds-start :
        (polled blocked : ℕ → Bool) (m : Machine)
        → boot fib_arg col_arg sub_arg fifo_fd polled blocked tcbs ≡ some (continues m)
        → Holds (suc n) made m
    unfolding boot made
    Holds-start polled blocked m e =
        let (s, created, blocks, first) = boot_lem fib_arg col_arg sub_arg fifo_fd tcbs n size in
        let (s', ran, r) = first (λ t. (s.tcbs t).fd) polled blocked in
        let few = length-all_created fib_arg col_arg sub_arg fifo_fd in
        let here : some (continues (record (ready_to_run s) { sched = s' })) ≡ some (continues m) =
          sym (rw (created, ran) refl) ∙ e in
        subst (Holds (suc n) s) (ap machine_of (some-injective _ _ here)) (record {
          runs = Runs-first n _ refl (λ t. refl) r (omega (arith, few, size));
          alone = (λ t. refl, λ t. ([], refl, tt));
        })

    Holds-reachable :
        (m : Machine) → Reachable fib_arg col_arg sub_arg fifo_fd tcbs m → Holds (suc n) made m
    Holds-reachable _ (starts polled blocked m e) = Holds-start polled blocked m e
    Holds-reachable _ (steps input m0 m1 r wakes e) =
        (Holds-step (suc n) made input m0 (continues m1) (Holds-reachable m0 r) wakes e).1 m1 refl

  -- The block that stands behind `xs` among those that `main` creates.
  block_at :
      (xs ys : List Tcb) (b : Tcb)
      → all_created fib_arg col_arg sub_arg fifo_fd ≡ xs ++ b ∷ ys
      → (n : ℕ) × (size : length (all_created fib_arg col_arg sub_arg fifo_fd) ≡ suc n) × length xs
          < suc n
        × ((made n size).tcbs (length xs) ≡ b)
  unfolding made
  block_at xs ys b e =
      let size' = length-append {0} xs (b ∷ ys) in
      let n = length xs + length ys in
      let size : length (all_created fib_arg col_arg sub_arg fifo_fd) ≡ suc n =
        ap (length {A = Tcb}) e ∙ omega (arith, size') in
      let blocks = (boot_lem fib_arg col_arg sub_arg fifo_fd tcbs n size).2 in
      (
        n,
        size,
        omega arith,
        Blocks-at (made n size).tcbs 0 (length xs) xs b ys (omega arith)
            (subst (Blocks (made n size).tcbs 0) e blocks),
      )

  -- What a thread that prints a value in each of its rounds has printed in the output.
  lines_lem :
      (n : ℕ) (size : length (all_created fib_arg col_arg sub_arg fifo_fd) ≡ suc n) (t : ℕ)
      (value : ℕ → ℤ) (total : ℕ)
      → t < suc n
      → 0 < total
      → DoesRounds (body_of ((made n size).tcbs t).id) ((made n size).tcbs t) value total
      → (m : Machine) → Reachable fib_arg col_arg sub_arg fifo_fd tcbs m
      → ((j : ℕ) × j ≤ total × (lines t m.printed ≡ values_of value j))
        × ((input : Input) (m' : Machine)
            → Wakes input m
            → step input m ≡ some (ends m')
            → lines t m'.printed ≡ values_of value total)
  lines_lem n size t value total small some_round rounds m reached =
      let s = made n size in
      let h = Holds-reachable n size m reached in
      let (j, bound, printed, last) =
        rounds-HasPrinted _ s.tcbs m t value total h.alone some_round rounds in
      (
        (j, bound, printed),
        λ input m' wakes e.
            let (alone', goes, exits) = Holds-step (suc n) s input m (ends m') h wakes e in
            let (j', bound', printed', last') =
              rounds-HasPrinted _ s.tcbs m' t value total alone' some_round rounds in
            printed' ∙ ap (values_of value) (last' (exits m' refl t small)),
      )

  -- No machine that can be reached faults in its next step: the step goes on with a machine in which
  -- each thread that has not exited stands once in the queues, or `scheduler` returns and every thread
  -- has exited. The conditions are that an argument is not negative and that a blocking `select` wakes
  -- a thread.
  pub reachable-GoesWell :
      all_created fib_arg col_arg sub_arg fifo_fd ≢ []
      → (m : Machine) → Reachable fib_arg col_arg sub_arg fifo_fd tcbs m
      → (input : Input) → Wakes input m
      → GoesWell (length (all_created fib_arg col_arg sub_arg fifo_fd)) (step input m)
  reachable-GoesWell some_arg m reached input wakes =
      let (n, size) = length-nonempty _ some_arg in
      subst (λ k. GoesWell k (step input m)) (sym size)
        (step_lem (suc n) input m (Holds-reachable n size m reached).runs wakes)

  -- With a positive first argument that is an `int`, the lines of thread 0 are the first Fibonacci
  -- numbers, at most that many, whatever the signals, the other threads and their input, and when
  -- `scheduler` returns they are exactly that many.
  pub reachable-fib_values :
      (k : ℕ)
      → fib_arg ≡ pos (suc k)
      → suc k < 2 ^ 31
      → (m : Machine) → Reachable fib_arg col_arg sub_arg fifo_fd tcbs m
      → ((j : ℕ) × j ≤ suc k × (lines 0 m.printed ≡ fib_values j))
        × ((input : Input) (m' : Machine)
            → Wakes input m
            → step input m ≡ some (ends m')
            → lines 0 m'.printed ≡ fib_values (suc k))
  reachable-fib_values k positive room =
      let made_first = created_natural (suc k) (pos 0) (fifo_fd 0) in
      let block = fresh (pos 0) (pos (suc k)) (fifo_fd 0) in
      let more = created (pos 1) col_arg (fifo_fd 1) ++ created (pos 2) sub_arg (fifo_fd 2) in
      let (n, size, small, e) = block_at [] more block (rw (positive, made_first) refl) in
      lines_lem n size 0 _ (suc k) small (omega arith) (
        subst (λ (u : Tcb). DoesRounds (body_of u.id) u (λ k. to_int (pos (fib k))) (suc k)) (sym e)
          (fibonacci-DoesRounds block k refl room))

  -- With a natural second argument whose orbit comes to 1 for the first time in step `suc k`, the lines
  -- of the `collatz` thread, which is the second one where a first one is created, are the first values
  -- of the orbit, at most `suc k`, whatever the signals, the other threads and their input, and when
  -- `scheduler` returns they are all of them, up to 1. The condition is that the values up to then,
  -- times three and one, and the number of rounds fit an `int`.
  pub reachable-orbit_values :
      (start k : ℕ)
      → col_arg ≡ pos start
      → suc k < 2 ^ 31
      → IsOrbit start k
      → (m : Machine) → Reachable fib_arg col_arg sub_arg fifo_fd tcbs m
      → ((j : ℕ) × j ≤ suc k
          × (lines (length (created (pos 0) fib_arg (fifo_fd 0))) m.printed ≡ orbit_values start j))
        × ((input : Input) (m' : Machine)
            → Wakes input m
            → step input m ≡ some (ends m')
            → lines (length (created (pos 0) fib_arg (fifo_fd 0))) m'.printed
              ≡ orbit_values start (suc k))
  reachable-orbit_values start k natural room o =
      let made_second = created_natural start (pos 1) (fifo_fd 1) in
      let block = fresh (pos 1) (pos start) (fifo_fd 1) in
      let first = created (pos 0) fib_arg (fifo_fd 0) in
      let more = created (pos 2) sub_arg (fifo_fd 2) in
      let (n, size, small, e) =
        block_at first more block (rw (natural, made_second) (append_assoc first _ _)) in
      lines_lem n size (length first) _ (suc k) small (omega arith) (
        subst (λ (u : Tcb). DoesRounds (body_of u.id) u (λ k. pos (orbit (suc k) start)) (suc k))
          (sym e) (collatz-DoesRounds block start k refl room o))
