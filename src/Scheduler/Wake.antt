-- ===== src/Scheduler/Wake.antt =====
-- The loop of hw3/scheduler.c that wakes the waiting threads, against a filter of the list.
use mathlib.Core.List.{append_assoc, append-nil}
use sp_homework.Common.{
  ℕ, zero, suc, ◌+◌, ◌-◌, ◌≤◌, ◌<◌, ◌≡◌, refl, Bool, true, false, not, Option, none, some, List, [],
  ◌∷◌, ◌++◌, ◌∙◌, ◌&&◌, arith, ap, length, length-append, keep, Bool-cases, inl, inr, lt→ltb, map,
}
use sp_homework.Scheduler.{
  Slots, update, shift, Sched, move_ready, thread_max, is_set, collect, wake, select_and_wake,
}
use sp_homework.Scheduler.Arrays.{Holds, Holds-push, shift-Holds_cleared, Holds-eq, Queues}

-- One round: the thread `t` goes from the waiting to the ready queue.
pub move_ready_lem :
    (s : Sched) (t : ℕ) (ready before behind : List ℕ)
    → Queues s ready (before ++ t ∷ behind)
    → length ready < thread_max
    → (s' : Sched) × (move_ready t (length before) s ≡ some s')
      × Queues s' (ready ++ t ∷ []) (before ++ behind)
      × (s'.rq_current ≡ s.rq_current)
unfolding move_ready
move_ready_lem s t ready before behind q room =
    let i = length before in
    (
      record s {
        ready_queue = update s.ready_queue s.rq_size (some t);
        rq_size = s.rq_size + 1;
        waiting_queue = shift (s.wq_size - 1 - i) (update s.waiting_queue i none) i;
        wq_size = s.wq_size - 1;
      },
      rw (lt→ltb s.rq_size thread_max (omega arith)),
      record {
        ready_holds = Holds-push s.ready_queue s.rq_size t ready q.ready_size q.ready_holds;
        ready_size = omega (arith, length-append {0} ready (t ∷ []));
        waiting_holds =
            shift-Holds_cleared s.waiting_queue s.wq_size t before behind
              (omega (arith, q.waiting_size, length-append {0} before (t ∷ behind)))
              q.waiting_holds;
        waiting_size =
            omega (arith, length-append {0} before (t ∷ behind), length-append {0} before behind);
      },
      refl,
    )

-- The outcome of a wake pass that turns `ready` and `waiting` into the two lists.
abbrev pub Woken : Option Sched → ℕ → List ℕ → List ℕ → Type 0
Woken result current ready waiting =
    (s' : Sched) × (result ≡ some s') × Queues s' ready waiting × (s'.rq_current ≡ current)

-- The tests of one descriptor list, as a test of threads.
module _ (fd : ℕ → ℕ) where
  pub collect_lem :
      (f : Slots) (i : ℕ) (xs : List ℕ)
      → Holds f i xs
      → collect fd (length xs) f i ≡ some (map fd xs)
  unfolding collect
  collect_lem f i [] h = refl
  collect_lem f i (x ∷ xs) h = rw (h.0, collect_lem f (suc i) xs h.1)

  wake_done :
      (fds : List ℕ) (n i : ℕ) (s : Sched) → s.wq_size ≤ i → wake fd fds (suc n) i s ≡ some s
  unfolding wake
  wake_done fds n i s h = ground arith

  wake_skips :
      (fds : List ℕ) (n i t : ℕ) (s : Sched)
      → i < s.wq_size
      → s.waiting_queue i ≡ some t
      → is_set fds (fd t) ≡ false
      → wake fd fds (suc n) i s ≡ wake fd fds n (suc i) s
  unfolding wake
  wake_skips fds n i t s h e no_data = ground arith

  wake_moves :
      (fds : List ℕ) (n i t : ℕ) (s s' : Sched)
      → i < s.wq_size
      → s.waiting_queue i ≡ some t
      → is_set fds (fd t) ≡ true
      → move_ready t i s ≡ some s'
      → wake fd fds (suc n) i s ≡ wake fd fds n i s'
  unfolding wake
  wake_moves fds n i t s s' h e has_data moved = ground arith

  -- The loop moves the threads of the set descriptors behind the ready ones, keeps the order of both
  -- and ends within its fuel. `left` are the threads that it has passed.
  wake_lem :
      (fds : List ℕ) (fuel : ℕ) (s : Sched) (ready left todo : List ℕ)
      → Queues s ready (left ++ todo)
      → length ready + length todo ≤ thread_max
      → length todo < fuel
      → Woken
          (wake fd fds fuel (length left) s)
          s.rq_current
          (ready ++ keep (λ t. is_set fds (fd t)) todo)
          (left ++ keep (λ t. not (is_set fds (fd t))) todo)
  wake_lem fds zero s ready left todo q room enough = absurd (omega arith)
  wake_lem fds (suc n) s ready left [] q room enough = rw (append-nil ready) (
    s,
    wake_done fds n (length left) s (omega (arith, q.waiting_size, length-append {0} left [])),
    record {
      ready_holds = q.ready_holds;
      ready_size = q.ready_size;
      waiting_holds = q.waiting_holds;
      waiting_size = q.waiting_size;
    },
    refl,
  )
  wake_lem fds (suc n) s ready left (t ∷ todo) q room enough =
      let i = length left in
      let here : i < s.wq_size = omega (arith, q.waiting_size, length-append {0} left (t ∷ todo)) in
      let slot = Holds-eq s.waiting_queue 0 i t left todo (omega arith) q.waiting_holds in
      elim (Bool-cases (is_set fds (fd t))) [
        | inl has_data ↦
            let (s', moved, q', kept) = move_ready_lem s t ready left todo q (omega arith) in
            let (s'', ends, q'', kept') =
              wake_lem fds n s' (ready ++ t ∷ []) left todo q'
                (omega (arith, length-append {0} ready (t ∷ []))) (omega arith) in
            rw has_data (
              s'',
              wake_moves fds n i t s s' here slot has_data moved ∙ ends,
              rw (append_assoc ready (t ∷ [])) at q'',
              kept' ∙ kept,
            )
        | inr no_data ↦
            let (s'', ends, q'', kept') =
              wake_lem fds n s ready (left ++ t ∷ []) todo (rw (append_assoc left (t ∷ [])) q)
                (omega arith) (omega arith) in
            let next : suc i ≡ length (left ++ t ∷ []) =
              omega (arith, length-append {0} left (t ∷ [])) in
            rw no_data (
              s'',
              wake_skips fds n i t s here slot no_data ∙ rw next ends,
              rw (append_assoc left (t ∷ [])) at q'',
              kept',
            )
      ]

-- What `select` leaves set: the descriptors of the set that are readable.
is_set-keep :
    (readable : ℕ → Bool) (fds : List ℕ) (x : ℕ)
    → is_set (keep readable fds) x ≡ (is_set fds x && readable x)
unfolding is_set
is_set-keep readable [] x = refl
is_set-keep readable (y ∷ fds) x = ground (arith, is_set-keep readable fds x)

abbrev All : (ℕ → Type 0) → List ℕ → Type 0
All P [] = Unit {0}
All P (x ∷ xs) = P x × All P xs

is_set_middle : (before behind : List ℕ) (x : ℕ) → is_set (before ++ x ∷ behind) x ≡ true
unfolding is_set
is_set_middle [] behind x = ground arith
is_set_middle (y ∷ before) behind x = ground (arith, is_set_middle before behind x)

keep-eq : (p q : ℕ → Bool) (xs : List ℕ) → All (λ t. p t ≡ q t) xs → keep p xs ≡ keep q xs
keep-eq p q [] h = refl
keep-eq p q (x ∷ xs) h = rw (h.0, keep-eq p q xs h.1)

All-map : {P Q : ℕ → Type 0} (xs : List ℕ) → ((x : ℕ) → P x → Q x) → All P xs → All Q xs
All-map [] f h = tt
All-map (x ∷ xs) f h = (f x h.0, All-map xs f h.1)

module _ (fd : ℕ → ℕ) where
  All-is_set :
      (before : List ℕ) (xs : List ℕ) → All (λ t. is_set (before ++ map fd xs) (fd t) ≡ true) xs
  All-is_set before [] = tt
  All-is_set before (x ∷ xs) = (
    is_set_middle before (map fd xs) (fd x),
    rw (append_assoc before (fd x ∷ [])) at (All-is_set (before ++ fd x ∷ []) xs),
  )

  -- A whole pass wakes the waiting threads whose descriptors are readable, and no others.
  pub select_and_wake_lem :
      (readable : ℕ → Bool) (s : Sched) (ready waiting : List ℕ)
      → Queues s ready waiting
      → length ready + length waiting ≤ thread_max
      → Woken
          (select_and_wake fd readable s)
          s.rq_current
          (ready ++ keep (λ t. readable (fd t)) waiting)
          (keep (λ t. not (readable (fd t))) waiting)
  unfolding select_and_wake
  select_and_wake_lem readable s ready waiting q room =
      let fds = keep readable (map fd waiting) in
      let same : All (λ t. is_set fds (fd t) ≡ readable (fd t)) waiting =
        All-map waiting (λ t h. is_set-keep readable (map fd waiting) (fd t) ∙ (rw h))
          (All-is_set [] waiting) in
      let woken =
        wake_lem fd fds (suc s.wq_size) s ready [] waiting q room (omega (arith, q.waiting_size)) in
      let collected : collect fd s.wq_size s.waiting_queue 0 ≡ some (map fd waiting) =
        rw q.waiting_size (collect_lem fd s.waiting_queue 0 waiting q.waiting_holds) in
      let (s', ends, q', kept) = woken in
      let woken_eq = keep-eq (λ t. is_set fds (fd t)) (λ t. readable (fd t)) waiting same in
      let left_eq =
        keep-eq (λ t. not (is_set fds (fd t))) (λ t. not (readable (fd t))) waiting
          (All-map waiting (λ t h. ap not h) same) in
      (s', rw collected ends, rw (woken_eq, left_eq) at q', kept)
