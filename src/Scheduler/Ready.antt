-- ===== src/Scheduler/Ready.antt =====
-- The steps of `scheduler` in hw3/scheduler.c that choose the next thread, over the arrays.
use mathlib.Core.List.{append_assoc}
use sp_homework.Common.{
  ℕ, suc, ◌+◌, ◌-◌, ◌≢◌, ◌<◌, ◌≡◌, refl, true, false, some, List, [], ◌∷◌, ◌++◌, arith, ap, length,
  length-append, lt→ltb, ◌==◌,
}
use sp_homework.Scheduler.{Slots, update, Sched, run, thread_max, jump, drop_running, advance, park}
use sp_homework.Scheduler.Arrays.{
  Holds, Holds-append, Holds-before, Holds-behind, Holds-update, Holds-push, Holds-eq, Queues,
}
use sp_homework.Scheduler.View.{View, Ready, busy, idle, focus, last, init, leave, turn}

-- The arrays and the sizes stand for a view.
pub record Represents (s : Sched) (v : View) : Type 0 where
  pub queues : Queues s (v.before ++ v.running ∷ v.after) v.waiting
  pub current : s.rq_current ≡ length v.before

-- Without a running thread.
abbrev pub RepresentsReady : Sched → Ready → Type 0
RepresentsReady s (busy v) = Represents s v
RepresentsReady s (idle waiting) = Queues s [] waiting × (s.rq_current ≡ 0)

init-last : (y : ℕ) (ys : List ℕ) → y ∷ ys ≡ init y ys ++ last y ys ∷ []
init-last y [] = refl
init-last y (z ∷ zs) = ap (◌∷◌ y) (init-last z zs)

length-init : (y : ℕ) (ys : List ℕ) → length (init y ys) ≡ length ys
length-init y [] = refl
length-init y (z ∷ zs) = ap suc (length-init z zs)

pub focus-Represents :
    (s : Sched) (ready waiting : List ℕ)
    → Queues s ready waiting
    → s.rq_current ≡ 0
    → RepresentsReady s (focus ready waiting)
focus-Represents s [] waiting q e = (q, e)
focus-Represents s (t ∷ ready) waiting q e = record { queues = q; current = e }

-- RUNNING is the running thread.
pub jump_lem : (s : Sched) (v : View) → Represents s v → jump s ≡ some (run v.running s)
unfolding jump
jump_lem s v r = rw (
    Holds-eq s.ready_queue 0 s.rq_current v.running v.before v.after (omega (arith, r.current))
      r.queues.ready_holds)

at_end :
    (s : Sched)
    → s.rq_current ≡ s.rq_size - 1
    → drop_running s ≡ record s { rq_current = 0; rq_size = s.rq_size - 1 }
unfolding drop_running
at_end s e = ground arith

not_at_end :
    (s : Sched)
    → s.rq_current ≢ s.rq_size - 1
    → drop_running s ≡ record s {
      ready_queue = update s.ready_queue s.rq_current (s.ready_queue (s.rq_size - 1));
      rq_size = s.rq_size - 1;
    }
unfolding drop_running
not_at_end s e = ground arith

drop_last :
    (s : Sched) (before waiting : List ℕ) (x : ℕ)
    → Queues s (before ++ x ∷ []) waiting
    → s.rq_current ≡ length before
    → Queues (drop_running s) before waiting × ((drop_running s).rq_current ≡ 0)
drop_last s before waiting x q e =
    let size : s.rq_size ≡ length before + 1 =
      omega (arith, q.ready_size, length-append {0} before (x ∷ [])) in
    rw (at_end s (omega arith)) (
      record {
        ready_holds = Holds-before s.ready_queue 0 before (x ∷ []) q.ready_holds;
        ready_size = omega arith;
        waiting_holds = q.waiting_holds;
        waiting_size = q.waiting_size;
      },
      refl,
    )

-- The slots after the running thread's slot is overwritten.
refill :
    (f : Slots) (i : ℕ) (before mid : List ℕ) (x z : ℕ)
    → i ≡ length before
    → Holds f 0 (before ++ x ∷ (mid ++ z ∷ []))
    → Holds (update f i (f (i + 1 + length mid))) 0 (before ++ z ∷ mid)
refill f i before mid x z e h =
    let a = f (i + 1 + length mid) in
    let rest = (Holds-behind f 0 i before (x ∷ (mid ++ z ∷ [])) (omega arith) h).1 in
    let moved : a ≡ some z = Holds-eq f (suc i) (i + 1 + length mid) z mid [] (omega arith) rest in
    Holds-append (update f i a) 0 i before (z ∷ mid) (omega arith)
      (Holds-update f 0 i before a (omega arith) (Holds-before f 0 before (x ∷ (mid ++ z ∷ [])) h))
      (
        ground arith,
        Holds-update f (suc i) i mid a (omega arith) (Holds-before f (suc i) mid (z ∷ []) rest),
      )

drop_middle :
    (s : Sched) (before waiting : List ℕ) (x y : ℕ) (ys : List ℕ)
    → Queues s (before ++ x ∷ y ∷ ys) waiting
    → s.rq_current ≡ length before
    → Queues (drop_running s) (before ++ last y ys ∷ init y ys) waiting
      × ((drop_running s).rq_current ≡ length before)
drop_middle s before waiting x y ys q e =
    let size : s.rq_size ≡ length before + 2 + length ys =
      omega (arith, q.ready_size, length-append {0} before (x ∷ y ∷ ys)) in
    let slot : s.rq_size - 1 ≡ s.rq_current + 1 + length (init y ys) =
      omega (arith, length-init y ys) in
    let holds = rw (init-last y ys) at q.ready_holds in
    rw (not_at_end s (omega arith), slot)
      (
        record {
          ready_holds = refill s.ready_queue s.rq_current before (init y ys) x (last y ys) e holds;
          ready_size =
              omega (arith, length-append {0} before (last y ys ∷ init y ys), length-init y ys);
          waiting_holds = q.waiting_holds;
          waiting_size = q.waiting_size;
        },
        e,
      )

pub leave_lem :
    (s : Sched) (x : ℕ) (before after waiting : List ℕ)
    → Queues s (before ++ x ∷ after) waiting
    → s.rq_current ≡ length before
    → RepresentsReady (drop_running s) (leave before after waiting)
leave_lem s x before [] waiting q e =
    let (q', e') = drop_last s before waiting x q e in
    focus-Represents (drop_running s) before waiting q' e'
leave_lem s x before (y ∷ ys) waiting q e =
    let (q', e') = drop_middle s before waiting x y ys q e in record { queues = q'; current = e' }

-- The queues do not depend on which thread is the current one.
moved_current :
    (s : Sched) (i : ℕ) {ready waiting : List ℕ}
    → Queues s ready waiting
    → Queues (record s { rq_current = i }) ready waiting
moved_current s i q = record {
  ready_holds = q.ready_holds;
  ready_size = q.ready_size;
  waiting_holds = q.waiting_holds;
  waiting_size = q.waiting_size;
}

pub advance_lem :
    (s : Sched) (x : ℕ) (before after waiting : List ℕ)
    → Queues s (before ++ x ∷ after) waiting
    → s.rq_current ≡ length before
    → RepresentsReady (advance s) (turn before x after waiting)
unfolding advance
advance_lem s x before [] waiting q e =
    let size = length-append {0} before (x ∷ []) in
    let wraps : (s.rq_current == s.rq_size - 1) ≡ true = ground (arith, size, q.ready_size) in
    rw wraps (
      focus-Represents (record s { rq_current = 0 }) (before ++ x ∷ []) waiting
        (moved_current s 0 q) refl)
advance_lem s x before (y ∷ ys) waiting q e =
    let size = length-append {0} before (x ∷ y ∷ ys) in
    let inside : (s.rq_current == s.rq_size - 1) ≡ false = ground (arith, size, q.ready_size) in
    rw inside (record {
      queues = rw (append_assoc before (x ∷ [])) (moved_current s (s.rq_current + 1) q);
      current = omega (arith, length-append {0} before (x ∷ []));
    })

pub park_lem :
    (s : Sched) (v : View)
    → Represents s v
    → length v.waiting < thread_max
    → (s' : Sched) × (park s ≡ some s')
      × Queues s' (v.before ++ v.running ∷ v.after) (v.waiting ++ v.running ∷ [])
      × (s'.rq_current ≡ length v.before)
unfolding park
park_lem s v r room =
    let q = r.queues in
    let slot =
      Holds-eq s.ready_queue 0 s.rq_current v.running v.before v.after (omega (arith, r.current))
        q.ready_holds in
    (
      record s {
        waiting_queue = update s.waiting_queue s.wq_size (s.ready_queue s.rq_current);
        wq_size = s.wq_size + 1;
      },
      rw (lt→ltb s.wq_size thread_max (omega (arith, q.waiting_size))),
      record {
        ready_holds = q.ready_holds;
        ready_size = q.ready_size;
        waiting_holds = rw slot (
            Holds-push s.waiting_queue s.wq_size v.running v.waiting q.waiting_size
              q.waiting_holds);
        waiting_size = omega (arith, q.waiting_size, length-append {0} v.waiting (v.running ∷ []));
      },
      r.current,
    )
