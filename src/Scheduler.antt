-- ===== src/Scheduler.antt =====
-- hw3/scheduler.c and the globals of hw3/main.c: the ready and the waiting queue, and what
-- `scheduler` does each time a thread jumps back into it.
pub mod Arrays
pub mod Wake
pub mod View
pub mod Ready
pub mod Conserve
pub mod Fair
pub mod Refine
use mathlib.Core.Logic.{ite}
use sp_homework.Common.{
  ◌>>=◌, ℕ, zero, suc, ◌+◌, ◌-◌, ◌≡◌, Bool, true, false, Option, none, some, List, [], ◌∷◌, ◌==◌,
  ◌||◌, ltb, if◌then◌else◌, keep, ◌&&◌,
}

abbrev pub thread_max : ℕ
thread_max = 16

-- An array of pointers to thread blocks. A pointer is the number of its block, `none` is NULL.
abbrev pub Slots : Type 0
Slots = ℕ → Option ℕ

abbrev pub update : Slots → ℕ → Option ℕ → Slots
update f i a j = if i == j then a else f j

-- The globals of the scheduler.
pub record Sched : Type 0 where
  pub ready_queue : Slots
  pub waiting_queue : Slots
  pub rq_size : ℕ
  pub rq_current : ℕ
  pub wq_size : ℕ

-- How one entry into the scheduler ends: a jump into the thread RUNNING, or a return to `main`.
pub data Outcome : Type 0 where
  run : (thread : ℕ) → Sched → Outcome
  returned : Sched → Outcome

-- FD_ISSET
unfoldable pub is_set : List ℕ → ℕ → Bool
is_set [] fd = false
is_set (x ∷ xs) fd = (x == fd) || is_set xs fd

-- `for (j = i; j < wq_size - 1; j++) waiting_queue[j] = waiting_queue[j + 1]`, on the rounds left.
unfoldable pub shift : ℕ → Slots → ℕ → Slots
shift zero f j = f
shift (suc n) f j = shift n (update f j (f (suc j))) (suc j)

-- The body of the wake loop at a descriptor that is set. A write past the array is a fault.
unfoldable pub move_ready : ℕ → ℕ → Sched → Option Sched
move_ready t i s =
    if ltb s.rq_size thread_max
    then some (record s {
      ready_queue = update s.ready_queue s.rq_size (some t);
      rq_size = s.rq_size + 1;
      waiting_queue = shift (s.wq_size - 1 - i) (update s.waiting_queue i none) i;
      wq_size = s.wq_size - 1;
    })
    else none

-- longjmp(RUNNING->environment, 1)
unfoldable pub jump : Sched → Option Outcome
jump s = s.ready_queue s.rq_current >>= λ t. some (run t s)

-- The thread RUNNING leaves the ready queue: the last thread takes its place.
unfoldable pub drop_running : Sched → Sched
drop_running s =
    if s.rq_current == s.rq_size - 1
    then record s { rq_current = 0; rq_size = s.rq_size - 1 }
    else record s {
      ready_queue = update s.ready_queue s.rq_current (s.ready_queue (s.rq_size - 1));
      rq_size = s.rq_size - 1;
    }

-- The case `jmpval == 1`: the next thread in turn.
unfoldable pub advance : Sched → Sched
advance s =
    if s.rq_current == s.rq_size - 1
    then record s { rq_current = 0 }
    else record s { rq_current = s.rq_current + 1 }

-- waiting_queue[wq_size] = ready_queue[rq_current]; wq_size++
unfoldable pub park : Sched → Option Sched
park s =
    if ltb s.wq_size thread_max
    then some (record s {
      waiting_queue = update s.waiting_queue s.wq_size (s.ready_queue s.rq_current);
      wq_size = s.wq_size + 1;
    })
    else none

-- `fd` gives the descriptor of each thread block.
module _ (fd : ℕ → ℕ) where
  -- The loop of FD_SET calls over the waiting queue, on the rounds left. NULL is a fault.
  unfoldable pub collect : ℕ → Slots → ℕ → Option (List ℕ)
  collect zero f i = some []
  collect (suc n) f i = f i >>= λ t. collect n f (suc i) >>= λ fds. some (fd t ∷ fds)

  -- The loop that moves the threads of the set descriptors, on fuel. `none` is a fault.
  unfoldable pub wake : List ℕ → ℕ → ℕ → Sched → Option Sched
  wake fds zero i s = none
  wake fds (suc n) i s = elim (ltb i s.wq_size) [
    | true ↦ s.waiting_queue i >>= λ t. elim (is_set fds (fd t)) [
      | true ↦ move_ready t i s >>= λ s'. wake fds n i s'
      | false ↦ wake fds n (suc i) s
    ]
    | false ↦ some s
  ]

  -- FD_ZERO, FD_SET of each waiting thread, select, and the loop over its result. `select` leaves
  -- in the set the descriptors that are readable.
  unfoldable pub select_and_wake : (ℕ → Bool) → Sched → Option Sched
  select_and_wake readable s =
      collect s.wq_size s.waiting_queue 0 >>= λ fds. wake (keep readable fds) (suc s.wq_size) 0 s

  -- With no ready thread, wait in a blocking `select`.
  unfoldable pub await : (ℕ → Bool) → Sched → Option Outcome
  await blocked s = if s.rq_size == 0 then select_and_wake blocked s >>= jump else jump s

  -- The body of `scheduler` behind `setjmp(sched_buf)`, by the value that it returns: `polled` and
  -- `blocked` say what is readable at the first `select` and at the blocking one.
  unfoldable pub dispatch : ℕ → (ℕ → Bool) → Sched → Option Outcome
  dispatch zero blocked s = jump s
  dispatch (suc zero) blocked s = jump (advance s)
  dispatch (suc (suc zero)) blocked s = park s >>= λ s'. await blocked (drop_running s')
  dispatch (suc (suc (suc zero))) blocked s =
      let s' = drop_running s in
      if (s'.rq_size == 0) && (s'.wq_size == 0) then some (returned s') else await blocked s'
  dispatch (suc (suc (suc (suc n)))) blocked s = some (returned s)

  unfoldable pub enter : ℕ → (ℕ → Bool) → (ℕ → Bool) → Sched → Option Outcome
  enter jmpval polled blocked s = select_and_wake polled s >>= λ s'. dispatch jmpval blocked s'

  -- The call of `scheduler` itself: `rq_current = 0`, then the first pass with `jmpval` 0.
  unfoldable pub scheduler : (ℕ → Bool) → (ℕ → Bool) → Sched → Option Outcome
  scheduler polled blocked s = enter 0 polled blocked (record s { rq_current = 0 })
