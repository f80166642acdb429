-- ===== src/Scheduler/Conserve.antt =====
-- Conservation of threads by `scheduler` of hw3/scheduler.c.
use sp_homework.Common.{
  ℕ, ◌+◌, ◌≤◌, ◌≡◌, ◌≢◌, ◌⊎◌, inl, inr, refl, Bool, not, Option, some, List, [], ◌∷◌, ◌++◌, arith,
  length, keep, ◌==◌, if◌then◌else◌,
}
use sp_homework.Scheduler.{Sched, Outcome, run, returned, thread_max, enter}
use sp_homework.Scheduler.Refine.{Agrees, jmpval_of, enter-schedule}
use sp_homework.Scheduler.Ready.{Represents}
use sp_homework.Scheduler.View.{
  View, Event, begin, yield, block, exit, Ready, busy, idle, Next, go, finished, stuck, focus, last,
  init, leave, turn, react, woken, settle, schedule, awaited, count, count-append, count-keep,
  threads,
}

-- How often a thread stands in what is left after a pass.
abbrev left_over : ℕ → Next → ℕ
left_over t (go v) = count t (threads v)
left_over t finished = 0
left_over t (stuck waiting) = count t waiting

abbrev left_ready : ℕ → Ready → ℕ
left_ready t (busy v) = count t (threads v)
left_ready t (idle waiting) = count t waiting

-- The thread that goes away with an event.
abbrev pub gone : ℕ → Event → View → ℕ
gone t exit v = if v.running == t then 1 else 0
gone t event v = 0

count-last-init : (t y : ℕ) (ys : List ℕ) → count t (last y ys ∷ init y ys) ≡ count t (y ∷ ys)
count-last-init t y [] = refl
count-last-init t y (z ∷ zs) = omega (arith, count-last-init t z zs)

left_ready-focus :
    (t : ℕ) (ready waiting : List ℕ)
    → left_ready t (focus ready waiting) ≡ count t ready + count t waiting
left_ready-focus t [] waiting = omega arith
left_ready-focus t (x ∷ ready) waiting = omega (arith, count-append t ready waiting)

left_ready-leave :
    (t : ℕ) (before after waiting : List ℕ)
    → left_ready t (leave before after waiting) ≡ count t before + count t after + count t waiting
left_ready-leave t before [] waiting = omega (arith, left_ready-focus t before waiting)
left_ready-leave t before (y ∷ ys) waiting = omega (
  arith,
  count-last-init t y ys,
  count-append t before (last y ys ∷ (init y ys ++ waiting)),
  count-append t (init y ys) waiting,
)

left_ready-turn :
    (t : ℕ) (before : List ℕ) (x : ℕ) (after waiting : List ℕ)
    → left_ready t (turn before x after waiting)
      ≡ count t before + count t (x ∷ after) + count t waiting
left_ready-turn t before x [] waiting =
    omega (arith, left_ready-focus t (before ++ x ∷ []) waiting, count-append t before (x ∷ []))
left_ready-turn t before x (y ∷ ys) waiting = omega (
  arith,
  count-append t (before ++ x ∷ []) (y ∷ (ys ++ waiting)),
  count-append t before (x ∷ []),
  count-append t ys waiting,
)

count-threads :
    (t : ℕ) (v : View)
    → count t (threads v) ≡ count t v.before + count t (v.running ∷ v.after) + count t v.waiting
count-threads t v = omega (
  arith,
  count-append t v.before (v.running ∷ (v.after ++ v.waiting)),
  count-append t v.after v.waiting,
)

count-woken :
    (t : ℕ) (p : ℕ → Bool) (v : View) → count t (threads (woken p v)) ≡ count t (threads v)
count-woken t p v = omega (
  arith,
  count-threads t v,
  count-threads t (woken p v),
  count-append t v.after (keep p v.waiting),
  count-keep t p v.waiting,
)

left_ready-react :
    (t : ℕ) (event : Event) (v : View)
    → left_ready t (react event v) + gone t event v ≡ count t (threads v)
left_ready-react t begin v = omega arith
left_ready-react t yield v =
    omega (arith, left_ready-turn t v.before v.running v.after v.waiting, count-threads t v)
left_ready-react t block v = omega (
  arith,
  left_ready-leave t v.before v.after (v.waiting ++ v.running ∷ []),
  count-append t v.waiting (v.running ∷ []),
  count-threads t v,
)
left_ready-react t exit v =
    omega (arith, left_ready-leave t v.before v.after v.waiting, count-threads t v)

left_over-awaited : (t : ℕ) (r : Ready) → left_over t (awaited r) ≡ left_ready t r
left_over-awaited t (busy v) = refl
left_over-awaited t (idle waiting) = refl

left_over-settle : (t : ℕ) (p : ℕ → Bool) (r : Ready) → left_over t (settle p r) ≡ left_ready t r
left_over-settle t p (busy v) = refl
left_over-settle t p (idle []) = refl
left_over-settle t p (idle (w ∷ ws)) =
    let ready = keep p (w ∷ ws) in
    let waiting = keep (λ x. not (p x)) (w ∷ ws) in
    omega (
      arith,
      left_over-awaited t (focus ready waiting),
      left_ready-focus t ready waiting,
      count-keep t p (w ∷ ws),
    )

-- A pass loses no thread and makes up none: an exit takes away the thread that exits, once.
schedule-count :
    (t : ℕ) (event : Event) (polled blocked : ℕ → Bool) (v : View)
    → left_over t (schedule event polled blocked v) + gone t event v ≡ count t (threads v)
schedule-count t event polled blocked v =
    let v' = woken polled v in
    let same : gone t event v' ≡ gone t event v = same_gone event in
    omega (
      arith,
      left_over-settle t blocked (react event v'),
      left_ready-react t event v',
      count-woken t polled v,
    )
  where
    same_gone : (e : Event) → gone t e (woken polled v) ≡ gone t e v
    same_gone begin = refl
    same_gone yield = refl
    same_gone block = refl
    same_gone exit = refl

-- A pass that ends in a jump into the running thread of a view with the same threads, less the one
-- that exits, or in a return, with no thread but the exiting one.
abbrev pub KeepsThreads : Option Outcome → Event → View → Type 0
KeepsThreads o event v =
    ((s' : Sched) × (v' : View) × (o ≡ some (run v'.running s'))
      × Represents s' v'
      × ((t : ℕ) → count t (threads v') + gone t event v ≡ count t (threads v)))
    ⊎ ((s' : Sched) × (o ≡ some (returned s')) × ((t : ℕ) → gone t event v ≡ count t (threads v)))

keeps :
    (o : Option Outcome) (event : Event) (v : View) (n : Next)
    → Agrees o n
    → ((t : ℕ) → left_over t n + gone t event v ≡ count t (threads v))
    → ((waiting : List ℕ) → n ≢ stuck waiting)
    → KeepsThreads o event v
keeps o event v (go v') (s', e, r) same never = inl (s', v', e, r, same)
keeps o event v finished (s', e, q) same never = inr (s', e, λ t. omega (arith, same t))
keeps o event v (stuck waiting) a same never = absurd (never waiting refl)

module _ (fd : ℕ → ℕ) where
  -- No thread is lost and none is made up: from a state that stands for a view of at most
  -- `thread_max` threads, with a blocking `select` that wakes a thread, a pass of the scheduler for any
  -- event ends in a jump into the running thread of a view in which each thread occurs as often as
  -- before, or, for the thread that exits, once less; or it returns, and then no thread but the
  -- exiting one was there.
  pub enter-KeepsThreads :
      (event : Event) (polled blocked : ℕ → Bool) (s : Sched) (v : View)
      → Represents s v
      → length v.before + 1 + length v.after + length v.waiting ≤ thread_max
      → ((waiting : List ℕ)
          → schedule event (λ t. polled (fd t)) (λ t. blocked (fd t)) v ≢ stuck waiting)
      → KeepsThreads (enter fd (jmpval_of event) polled blocked s) event v
  enter-KeepsThreads event polled blocked s v r room never =
      keeps _ event v _ (enter-schedule fd event polled blocked s v r room)
        (λ t. schedule-count t event (λ t. polled (fd t)) (λ t. blocked (fd t)) v) never
