-- ===== src/Scheduler/Refine.antt =====
-- `enter` of hw3/scheduler.c, over the arrays, does what `schedule` says on lists.
use mathlib.Core.List.{append_assoc}
use sp_homework.Common.{
  ℕ, ◌+◌, ◌≢◌, ◌≤◌, ◌≡◌, refl, Bool, true, false, Option, some, List, [], ◌∷◌, ◌++◌, ◌∙◌, arith,
  length, length-append, length-keep, keep, ◌==◌, ◌&&◌, if◌then◌else◌,
}
use sp_homework.Scheduler.{
  Sched, Outcome, run, returned, thread_max, jump, drop_running, advance, await, dispatch, enter,
}
use sp_homework.Scheduler.Arrays.{Queues}
use sp_homework.Scheduler.Wake.{select_and_wake_lem}
use sp_homework.Scheduler.Ready.{
  Represents, RepresentsReady, jump_lem, leave_lem, advance_lem, park_lem,
}
use sp_homework.Scheduler.View.{
  View, Event, begin, yield, block, exit, Ready, busy, idle, Next, go, finished, stuck, focus,
  leave, turn, react, woken, settle, schedule, awaited,
}

-- The outcome over the arrays is the one on lists. Nothing is said where `select` woke no thread.
abbrev pub Agrees : Option Outcome → Next → Type 0
Agrees o (go v) = (s' : Sched) × (o ≡ some (run v.running s')) × Represents s' v
Agrees o finished = (s' : Sched) × (o ≡ some (returned s')) × Queues s' [] []
Agrees o (stuck waiting) = Unit {0}

abbrev pub jmpval_of : Event → ℕ
jmpval_of begin = 0
jmpval_of yield = 1
jmpval_of block = 2
jmpval_of exit = 3

abbrev IsBusy : Ready → Type 0
IsBusy (busy v) = Unit {0}
IsBusy (idle waiting) = ⊥

-- Between `yield` and the next thread there is always a ready one: the one that yields.
turn-IsBusy :
    (before : List ℕ) (x : ℕ) (after waiting : List ℕ) → IsBusy (turn before x after waiting)
turn-IsBusy [] x [] waiting = tt
turn-IsBusy (b ∷ before) x [] waiting = tt
turn-IsBusy before x (y ∷ ys) waiting = tt

-- A thread that blocks leaves something to wait for.
leave-ne-idle :
    (before after waiting : List ℕ) (x : ℕ) → leave before after (waiting ++ x ∷ []) ≢ idle []
leave-ne-idle [] [] [] x = λ e. cc
leave-ne-idle [] [] (w ∷ waiting) x = λ e. cc
leave-ne-idle (b ∷ before) [] waiting x = λ e. cc
leave-ne-idle before (y ∷ ys) waiting x = λ e. cc

wq_size-drop_running : (s : Sched) → (drop_running s).wq_size ≡ s.wq_size
unfolding drop_running
wq_size-drop_running s = ground arith

jump_busy :
    (p : ℕ → Bool) (s : Sched) (r : Ready)
    → RepresentsReady s r
    → IsBusy r
    → Agrees (jump s) (settle p r)
jump_busy p s (busy v) r is_busy = (s, jump_lem s v r, r)
jump_busy p s (idle waiting) r is_busy = absurd is_busy

module _ (fd : ℕ → ℕ) where
  jump-focus :
      (s : Sched) (ready waiting : List ℕ)
      → Queues s ready waiting
      → s.rq_current ≡ 0
      → Agrees (jump s) (awaited (focus ready waiting))
  jump-focus s [] waiting q e = tt
  jump-focus s (t ∷ ready) waiting q e =
      let r : Represents s (record { before = []; running = t; after = ready; waiting = waiting }) =
        record { queues = q; current = e } in
      (s, jump_lem s _ r, r)

  await_lem :
      (blocked : ℕ → Bool) (s : Sched) (r : Ready)
      → RepresentsReady s r
      → r ≢ idle []
      → s.wq_size ≤ thread_max
      → Agrees (await fd blocked s) (settle (λ t. blocked (fd t)) r)
  unfolding await
  await_lem blocked s (busy v) r some_left room =
      let size = length-append {0} v.before (v.running ∷ v.after) in
      let ready : (s.rq_size == 0) ≡ false = ground (arith, size, r.queues.ready_size) in
      (s, rw ready (jump_lem s v r), r)
  await_lem blocked s (idle []) r some_left room = absurd (some_left refl)
  await_lem blocked s (idle (t ∷ ts)) (q, e) some_left room =
      let none_ready : (s.rq_size == 0) ≡ true = ground (arith, q.ready_size) in
      let (s', woke, q', kept) =
        select_and_wake_lem fd blocked s [] (t ∷ ts) q (omega (arith, q.waiting_size)) in
      rw (none_ready, woke) (jump-focus s' _ _ q' (kept ∙ e))

  return_or_await :
      (blocked : ℕ → Bool) (s : Sched) (r : Ready)
      → RepresentsReady s r
      → s.wq_size ≤ thread_max
      → Agrees
          (if (s.rq_size == 0) && (s.wq_size == 0) then some (returned s) else await fd blocked s)
          (settle (λ t. blocked (fd t)) r)
  return_or_await blocked s (busy v) r room =
      let size = length-append {0} v.before (v.running ∷ v.after) in
      let ready : (s.rq_size == 0) ≡ false = ground (arith, size, r.queues.ready_size) in
      rw ready (await_lem blocked s (busy v) r (λ e. cc) room)
  return_or_await blocked s (idle []) (q, e) room =
      let no_ready : (s.rq_size == 0) ≡ true = ground (arith, q.ready_size) in
      let no_waiting : (s.wq_size == 0) ≡ true = ground (arith, q.waiting_size) in
      rw (no_ready, no_waiting) (s, refl, q)
  return_or_await blocked s (idle (t ∷ ts)) (q, e) room =
      let no_ready : (s.rq_size == 0) ≡ true = ground (arith, q.ready_size) in
      let some_waiting : (s.wq_size == 0) ≡ false = ground (arith, q.waiting_size) in
      rw (no_ready, some_waiting) (await_lem blocked s (idle (t ∷ ts)) (q, e) (λ e'. cc) room)

  -- The pass behind the first `select`.
  dispatch_lem :
      (event : Event) (blocked : ℕ → Bool) (s : Sched) (v : View)
      → Represents s v
      → length v.before + 1 + length v.after + length v.waiting ≤ thread_max
      → Agrees
          (dispatch fd (jmpval_of event) blocked s)
          (settle (λ t. blocked (fd t)) (react event v))
  unfolding dispatch
  dispatch_lem begin blocked s v r room = (s, jump_lem s v r, r)
  dispatch_lem yield blocked s v r room =
      jump_busy _ (advance s) _
        (advance_lem s v.running v.before v.after v.waiting r.queues r.current)
        (turn-IsBusy v.before v.running v.after v.waiting)
  dispatch_lem block blocked s v r room =
      let (s', parked, q', kept) = park_lem s v r (omega arith) in
      let fits : (drop_running s').wq_size ≤ thread_max = omega (
        arith,
        wq_size-drop_running s',
        q'.waiting_size,
        length-append {0} v.waiting (v.running ∷ []),
      ) in
      rw parked (
        await_lem blocked (drop_running s') _
          (leave_lem s' v.running v.before v.after (v.waiting ++ v.running ∷ []) q' kept)
          (leave-ne-idle v.before v.after v.waiting v.running) fits)
  dispatch_lem exit blocked s v r room =
      return_or_await blocked (drop_running s) _
        (leave_lem s v.running v.before v.after v.waiting r.queues r.current)
        (omega (arith, wq_size-drop_running s, r.queues.waiting_size))

  -- `enter` over the arrays ends as `schedule` does on lists: it follows no NULL pointer, writes
  -- nothing past an array of `thread_max` slots, leaves its loops by their tests, and the arrays, the
  -- sizes and `rq_current` stand for the view that `schedule` gives. The condition is that they stand
  -- for a view of at most `thread_max` threads before. Where `schedule` is stuck, so that a blocking
  -- `select` came back with nothing set, nothing is said.
  pub enter-schedule :
      (event : Event) (polled blocked : ℕ → Bool) (s : Sched) (v : View)
      → Represents s v
      → length v.before + 1 + length v.after + length v.waiting ≤ thread_max
      → Agrees
          (enter fd (jmpval_of event) polled blocked s)
          (schedule event (λ t. polled (fd t)) (λ t. blocked (fd t)) v)
  unfolding enter
  enter-schedule event polled blocked s v r room =
      let ready = v.before ++ v.running ∷ v.after in
      let fits = length-append {0} v.before (v.running ∷ v.after) in
      let (s', woke, q', kept) =
        select_and_wake_lem fd polled s ready v.waiting r.queues (omega arith) in
      let v' = woken (λ t. polled (fd t)) v in
      let r' : Represents s' v' = record {
        queues = rw (append_assoc v.before) at q';
        current = kept ∙ r.current;
      } in
      rw woke (
        dispatch_lem event blocked s' v' r' (
          omega (
            arith,
            room,
            length-append {0} v.after (keep (λ t. polled (fd t)) v.waiting),
            length-keep {0} (λ t. polled (fd t)) v.waiting,
          )))
