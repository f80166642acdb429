-- ===== src/Threads/Machine/Safe.antt =====
-- hw3: the scheduler and the threads together follow no NULL pointer and write past no array, and
-- `scheduler` returns only when every thread has exited.
use mathlib.Core.Path.{subst}
use sp_homework.Common.{
  ℕ, ◌+◌, ◌≡◌, ◌≢◌, ◌≤◌, ◌<◌, ◌⊎◌, inl, inr, refl, sym, ap, ◌∙◌, Bool, true, false, Option, some,
  List, [], ◌∷◌, ◌++◌, arith, length, length-append, ◌>>=◌, Bool-cases, ltb, ==_iff, if◌then◌else◌,
}
use sp_homework.Scheduler.{Outcome, thread_max}
use sp_homework.Scheduler.View.{
  View, Event, begin, yield, block, exit, schedule, stuck, settle, Ready, busy, idle, threads,
  count, count-append,
}
use sp_homework.Scheduler.Ready.{Represents}
use sp_homework.Scheduler.Conserve.{KeepsThreads, gone, enter-KeepsThreads}
use sp_homework.Scheduler.Fair.{split_at}
use sp_homework.Threads.Machine.{
  Point, begins, reads, yielded, exited, set, next_point, Machine, Input, advance_thread, switches,
  switch, Result, continues, ends, result_of, step,
}

abbrev pub has_exited : Point → Bool
has_exited begins = false
has_exited reads = false
has_exited yielded = false
has_exited exited = true

-- How often the scheduler has the thread `t`, of `n` threads.
abbrev pub places : ℕ → (ℕ → Point) → ℕ → ℕ
places n points t = if ltb t n then (if has_exited (points t) then 0 else 1) else 0

-- The scheduler's arrays stand for a view in which RUNNING is the running thread, and each of the `n`
-- threads that has not exited stands once.
pub record Runs (n : ℕ) (m : Machine) : Type 0 where
  pub view : View
  pub stands : Represents m.sched view
  pub current : view.running ≡ m.running
  pub once : (t : ℕ) → count t (threads view) ≡ places n m.points t
  pub room : length (threads view) ≤ thread_max

-- A blocking `select` wakes one of the threads, where the step makes one.
abbrev pub Wakes : Input → Machine → Type 0
Wakes input m =
    let (m', event) = advance_thread input.chunk m in
    (v : View)
    → Represents m.sched v
    → (waiting : List ℕ)
    → schedule event (λ t. input.polled (m'.tcbs t).fd) (λ t. input.blocked (m'.tcbs t).fd) v
      ≢ stuck waiting

settle-ne-stuck :
    (p : ℕ → Bool) (r : Ready) (waiting : List ℕ)
    → ((t : ℕ) → p t ≡ true)
    → settle p r ≢ stuck waiting
settle-ne-stuck p (busy v) waiting all = λ e. cc
settle-ne-stuck p (idle []) waiting all = λ e. cc
settle-ne-stuck p (idle (t ∷ ts)) waiting all = rw (all t) (λ e. cc)

-- Where every descriptor is readable, `select` does.
pub Wakes-all : (input : Input) (m : Machine) → ((t : ℕ) → input.blocked t ≡ true) → Wakes input m
Wakes-all input m all v r waiting = settle-ne-stuck _ _ waiting (λ t. all _)

-- Equally many of each thread make equally long lists.
length_of_counts : (xs ys : List ℕ) → ((t : ℕ) → count t xs ≡ count t ys) → length xs ≡ length ys
length_of_counts [] [] same = refl
length_of_counts [] (y ∷ ys) same = absurd (ground (arith, same y, ==_iff y y))
length_of_counts (x ∷ xs) ys same =
    let (front, back, e) = split_at x ys (ground (arith, same x, ==_iff x x)) in
    let rest = length_of_counts xs (front ++ back) (λ t. omega (
      arith,
      same t,
      ap (count t) e,
      count-append t front (x ∷ back),
      count-append t front back,
    )) in
    omega (
      arith,
      rest,
      ap (length {A = ℕ}) e,
      length-append {0} front (x ∷ back),
      length-append {0} front back,
    )

length-threads :
    (v : View) → length (threads v) ≡ length v.before + 1 + length v.after + length v.waiting
length-threads v = omega (
  arith,
  length-append {0} v.before (v.running ∷ (v.after ++ v.waiting)),
  length-append {0} v.after v.waiting,
)

place_of_running :
    (n : ℕ) (points : ℕ → Point) (v : View)
    → ((t : ℕ) → count t (threads v) ≡ places n points t)
    → places n points v.running ≡ 1
place_of_running n points v once =
    let r = v.running in
    let here = count-append r v.before (r ∷ (v.after ++ v.waiting)) in
    ground (arith, here, once r, ==_iff r r)

-- The thread that exits gives up its place, and no other thread does.
places-set :
    (n : ℕ) (points : ℕ → Point) (e : Event) (v : View) (r t : ℕ)
    → v.running ≡ r
    → places n points v.running ≡ 1
    → places n (set points r (next_point e)) t + gone t e v ≡ places n points t
places-set n points begin v r t here one = ground (arith, ==_iff r t)
places-set n points yield v r t here one = ground (arith, ==_iff r t)
places-set n points block v r t here one = ground (arith, ==_iff r t)
places-set n points exit v r t here one = ground (arith, ==_iff r t)

-- What a step comes to: the machine goes on, or `scheduler` returns and every thread has exited.
abbrev pub GoesWell : ℕ → Option Result → Type 0
GoesWell n o =
    ((m : Machine) × (o ≡ some (continues m)) × Runs n m)
    ⊎ ((m : Machine) × (o ≡ some (ends m)) × ((t : ℕ) → t < n → has_exited (m.points t) ≡ true))

no_longer :
    (event : Event) (v v' : View)
    → ((t : ℕ) → count t (threads v') + gone t event v ≡ count t (threads v))
    → length (threads v') ≤ length (threads v)
no_longer begin v v' same =
    omega (arith, length_of_counts (threads v') (threads v) (λ t. omega (arith, same t)))
no_longer yield v v' same =
    omega (arith, length_of_counts (threads v') (threads v) (λ t. omega (arith, same t)))
no_longer block v v' same =
    omega (arith, length_of_counts (threads v') (threads v) (λ t. omega (arith, same t)))
no_longer exit v v' same =
    omega
      (arith, length_of_counts (v.running ∷ threads v') (threads v) (λ t. omega (arith, same t)))

-- A thread that goes on without a switch has not exited.
stays_lem :
    (event : Event) (signal : Bool) (v : View) (t : ℕ)
    → switches event signal ≡ false
    → gone t event v ≡ 0
stays_lem begin signal v t h = refl
stays_lem yield signal v t h = refl
stays_lem block signal v t h = refl
stays_lem exit signal v t h = cc

switched :
    (n : ℕ) (event : Event) (o : Option Outcome) (m' : Machine) (v : View)
    → KeepsThreads o event v
    → ((t : ℕ) → places n m'.points t + gone t event v ≡ count t (threads v))
    → length (threads v) ≤ thread_max
    → GoesWell n (o >>= λ x. some (result_of m' x))
switched n event o m' v (inl (s', v', e, r, same)) once room =
    let shorter = no_longer event v v' same in
    inl (
      record m' { sched = s'; running = v'.running },
      rw e refl,
      record {
        view = v';
        stands = r;
        current = refl;
        once = λ t. omega (arith, same t, once t);
        room = omega (arith, shorter);
      },
    )
switched n event o m' v (inr (s', e, same)) once room =
    inr (record m' { sched = s' }, rw e refl, λ t h. ground (arith, same t, once t, h))

pub step_lem :
    (n : ℕ) (input : Input) (m : Machine) → Runs n m → Wakes input m → GoesWell n (step input m)
unfolding step switch
step_lem n input m inv wakes =
    let v = inv.view in
    let m' = (advance_thread input.chunk m).0 in
    let event = (advance_thread input.chunk m).1 in
    let once : (t : ℕ) → places n m'.points t + gone t event v ≡ count t (threads v) = λ t.
      places-set n m.points event v m.running t inv.current (place_of_running n m.points v inv.once)
      ∙ sym (inv.once t) in
    elim (Bool-cases (switches event input.signal)) [
      | inl jumps ↦ rw jumps (
          switched n event _ m' v
            (enter-KeepsThreads (λ t. (m'.tcbs t).fd) event input.polled input.blocked m.sched v
              inv.stands (omega (arith, inv.room, length-threads v)) (wakes v inv.stands))
            once inv.room)
      | inr stays ↦ inl (
        m',
        rw stays refl,
        record {
          view = v;
          stands = inv.stands;
          current = inv.current;
          once = λ t. omega (arith, once t, stays_lem event input.signal v t stays);
          room = inv.room;
        },
      )
    ]

-- The thread that is running has not exited.
pub running_lem : (n : ℕ) (m : Machine) → Runs n m → has_exited (m.points m.running) ≡ false
running_lem n m inv =
    let one = place_of_running n m.points inv.view inv.once in
    let current = inv.current in
    let stands_here = subst (λ t. places n m.points t ≡ 1) current one in
    ground (arith, stands_here)
