-- ===== src/Scheduler/View.antt =====
-- What the scheduler of hw3/scheduler.c promises, on lists: the ready threads before and after the
-- running one, and the waiting threads. It names no array, no index and no size.
use sp_homework.Common.{
  ℕ, ◌+◌, ◌≡◌, refl, Bool, not, List, [], ◌∷◌, ◌++◌, arith, keep, ◌==◌, if◌then◌else◌,
}

pub record View : Type 0 where
  pub before : List ℕ
  pub running : ℕ
  pub after : List ℕ
  pub waiting : List ℕ

-- Why a thread comes back to the scheduler: the values 0, 1, 2 and 3 of `jmpval`.
pub data Event : Type 0 where
  begin : Event
  yield : Event
  block : Event
  exit : Event

-- What is ready after an event; `idle` has waiting threads alone.
pub data Ready : Type 0 where
  busy : View → Ready
  idle : List ℕ → Ready

pub data Next : Type 0 where
  go : View → Next  -- the scheduler jumps into the running thread of the view
  finished : Next  -- it returns
  stuck : List ℕ → Next  -- no thread is ready and none can be woken

-- The first of the ready threads runs.
abbrev pub focus : List ℕ → List ℕ → Ready
focus [] waiting = idle waiting
focus (t ∷ ready) waiting =
    busy (record { before = []; running = t; after = ready; waiting = waiting })

abbrev pub last : ℕ → List ℕ → ℕ
last y [] = y
last y (z ∷ zs) = last z zs

abbrev pub init : ℕ → List ℕ → List ℕ
init y [] = []
init y (z ∷ zs) = y ∷ init z zs

-- The running thread leaves the ready ones, and the last one takes its place.
abbrev pub leave : List ℕ → List ℕ → List ℕ → Ready
leave before [] waiting = focus before waiting
leave before (y ∷ ys) waiting =
    busy (record { before = before; running = last y ys; after = init y ys; waiting = waiting })

abbrev pub turn : List ℕ → ℕ → List ℕ → List ℕ → Ready
turn before x [] waiting = focus (before ++ x ∷ []) waiting
turn before x (y ∷ ys) waiting =
    busy (record { before = before ++ x ∷ []; running = y; after = ys; waiting = waiting })

abbrev pub react : Event → View → Ready
react begin v = busy v
react yield v = turn v.before v.running v.after v.waiting
react block v = leave v.before v.after (v.waiting ++ v.running ∷ [])
react exit v = leave v.before v.after v.waiting

abbrev pub woken : (ℕ → Bool) → View → View
woken p v = record v {
  after = v.after ++ keep p v.waiting;
  waiting = keep (λ t. not (p t)) v.waiting;
}

abbrev pub awaited : Ready → Next
awaited (busy v) = go v
awaited (idle waiting) = stuck waiting

abbrev pub settle : (ℕ → Bool) → Ready → Next
settle p (busy v) = go v
settle p (idle []) = finished
settle p (idle (t ∷ ts)) = awaited (focus (keep p (t ∷ ts)) (keep (λ t. not (p t)) (t ∷ ts)))

-- One pass: poll, react to the event, and wait if nothing is ready.
abbrev pub schedule : Event → (ℕ → Bool) → (ℕ → Bool) → View → Next
schedule event polled blocked v = settle blocked (react event (woken polled v))

-- How often a thread stands in a list.
abbrev pub count : ℕ → List ℕ → ℕ
count t [] = 0
count t (x ∷ xs) = (if x == t then 1 else 0) + count t xs

pub count-append : (t : ℕ) (xs ys : List ℕ) → count t (xs ++ ys) ≡ count t xs + count t ys
count-append t [] ys = omega arith
count-append t (x ∷ xs) ys = omega (arith, count-append t xs ys)

pub count-keep :
    (t : ℕ) (p : ℕ → Bool) (xs : List ℕ)
    → count t (keep p xs) + count t (keep (λ x. not (p x)) xs) ≡ count t xs
count-keep t p [] = refl
count-keep t p (x ∷ xs) = ground (arith, count-keep t p xs)

-- The threads that the scheduler knows of.
abbrev pub threads : View → List ℕ
threads v = v.before ++ v.running ∷ (v.after ++ v.waiting)
