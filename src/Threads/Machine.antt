-- ===== src/Threads/Machine.antt =====
-- The threads of hw3/threads.c under the scheduler of hw3/scheduler.c: what happens from one switch to
-- the next, with thread_yield, thread_exit and async_read of hw3/threadtools.h and the signal handler.
pub mod Safe
pub mod Prints
pub mod Rounds
pub mod FibLines
pub mod CollatzLines
pub mod Start
pub mod Holding
pub mod Reach
use sp_homework.Common.{
  ℕ, zero, suc, ◌≡◌, Bool, true, false, Option, none, some, List, [], ◌∷◌, ◌>>=◌, ◌==◌,
  if◌then◌else◌,
}
use sp_homework.Common.Int.{ℤ}
use sp_homework.Scheduler.{Slots, Sched, Outcome, run, returned, update, enter}
use sp_homework.Scheduler.View.{Event, begin, yield, block, exit}
use sp_homework.Scheduler.Refine.{jmpval_of}
use sp_homework.Threads.{Tcb, first_round, next_round, fibonacci, collatz, max_begin, max_subarray}

-- The function that a thread runs, and where its jump buffer continues it: behind thread_setup, in
-- async_read, or behind the setjmp of thread_yield. A thread that has exited is not continued.
pub data Body : Type 0 where
  runs_fibonacci runs_collatz runs_max_subarray : Body

pub data Point : Type 0 where
  begins reads yielded exited : Point

-- What the system does: the bytes of a `read`, whether a signal is pending when the thread unblocks
-- them, and what is readable at the two calls of `select`.
pub record Input : Type 0 where
  pub chunk : List ℕ
  pub signal : Bool
  pub polled : ℕ → Bool
  pub blocked : ℕ → Bool

-- The threads' blocks, functions and points, the scheduler, the thread RUNNING, and the values that
-- were printed, the latest first, each with the number of the block whose id is printed beside it.
pub record Machine : Type 0 where
  pub tcbs : ℕ → Tcb
  pub bodies : ℕ → Body
  pub points : ℕ → Point
  pub sched : Sched
  pub running : ℕ
  pub printed : List (ℕ × ℤ)

-- A thread runs from its point to its next call of thread_exit, thread_yield or async_read.
unfoldable pub resume : Body → Point → List ℕ → Tcb → Tcb × Event
resume runs_fibonacci begins chunk t = fibonacci (first_round t)
resume runs_fibonacci point chunk t = fibonacci (next_round t)
resume runs_collatz begins chunk t = collatz (first_round t)
resume runs_collatz point chunk t = collatz (next_round t)
resume runs_max_subarray begins chunk t = max_begin (first_round t)
resume runs_max_subarray reads chunk t = max_subarray chunk t
resume runs_max_subarray point chunk t = max_begin (next_round t)

abbrev pub next_point : Event → Point
next_point block = reads
next_point exit = exited
next_point event = yielded

-- The printf of a round; the rounds of `max_subarray` print behind async_read.
abbrev pub prints : Body → Event → Tcb → Option ℤ
prints runs_fibonacci event t = some t.y
prints runs_collatz event t = some t.x
prints runs_max_subarray block t = none
prints runs_max_subarray event t = some t.y

abbrev pub log : ℕ → Option ℤ → List (ℕ × ℤ) → List (ℕ × ℤ)
log t none lines = lines
log t (some z) lines = (t, z) ∷ lines

abbrev pub set {ℓ} : {A : Type ℓ} → (ℕ → A) → ℕ → A → ℕ → A
set f i a j = if i == j then a else f j

-- The thread RUNNING between two switches.
unfoldable pub advance_thread : List ℕ → Machine → Machine × Event
unfolding resume
advance_thread chunk m =
    let t = m.running in
    let (block', event) = resume (m.bodies t) (m.points t) chunk (m.tcbs t) in
    (
      record m {
        tcbs = set m.tcbs t block';
        points = set m.points t (next_point event);
        printed = log t (prints (m.bodies t) event block') m.printed;
      },
      event,
    )

-- thread_yield jumps to the scheduler only through a signal that is pending: sighandler jumps with 1.
-- With none the thread goes on. thread_exit and async_read always jump.
abbrev pub switches : Event → Bool → Bool
switches yield signal = signal
switches event signal = true

unfoldable pub switch : Event → Input → Machine → Option Outcome
switch event input m =
    if switches event input.signal
    then enter (λ t. (m.tcbs t).fd) (jmpval_of event) input.polled input.blocked m.sched
    else some (run m.running m.sched)

-- The machine goes on with a thread, or `scheduler` returns to `main`.
pub data Result : Type 0 where
  continues : Machine → Result
  ends : Machine → Result

abbrev pub result_of : Machine → Outcome → Result
result_of m (run t s) = continues (record m { sched = s; running = t })
result_of m (returned s) = ends (record m { sched = s })

-- `none` is a fault.
unfoldable pub step : Input → Machine → Option Result
unfolding advance_thread switch
step input m =
    let (m', event) = advance_thread input.chunk m in
    switch event input m' >>= λ o. some (result_of m' o)
