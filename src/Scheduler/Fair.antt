-- ===== src/Scheduler/Fair.antt =====
-- Round robin in `scheduler` of hw3/scheduler.c.
use mathlib.Core.List.{append_assoc, append-nil}
use sp_homework.Common.{
  ◌>>=◌, ℕ, zero, suc, ◌+◌, ◌≤◌, ◌≡◌, inl, inr, refl, true, false, Option, none, some, List, [],
  ◌∷◌, ◌++◌, ◌∙◌, arith, ap, length, length-append, keep, ◌==◌, ==_iff, Bool-cases, ◌<◌, dec_lt,
}
use sp_homework.Scheduler.{Sched, Outcome, run, returned, thread_max, enter}
use sp_homework.Scheduler.Refine.{enter-schedule}
use sp_homework.Scheduler.Ready.{Represents}
use sp_homework.Scheduler.Arrays.{Holds-eq}
use sp_homework.Scheduler.View.{View, yield, go, schedule, count, count-append}

-- The state in which a thread runs on.
abbrev pub resumed : Outcome → Option Sched
resumed (run t s) = some s
resumed (returned s) = none

-- Where a thread stands in a list.
pub split_at :
    (t : ℕ) (xs : List ℕ)
    → 0 < count t xs
    → (front : List ℕ) × (back : List ℕ) × (xs ≡ front ++ t ∷ back)
split_at t [] h = absurd (omega arith)
split_at t (x ∷ xs) h = elim (Bool-cases (x == t)) [
  | inl here ↦ ([], xs, ap (λ y. y ∷ xs) ((==_iff x t).0 here))
  | inr there ↦
      let (front, back, e) = split_at t xs (ground arith) in (x ∷ front, back, ap (◌∷◌ x) e)
]

bind_eq :
    (o : Option Sched) (f g : Sched → Option Sched) {s : Sched} {x : Option Sched}
    → (o >>= f) ≡ some s
    → ((s' : Sched) → f s' ≡ some s → g s' ≡ x)
    → (o >>= g) ≡ x
bind_eq none f g h k = cc
bind_eq (some s') f g h k = k s' h

module _ (fd : ℕ → ℕ) where
  -- `n` threads in turn yield, and no descriptor becomes readable.
  pub yields : ℕ → Sched → Option Sched
  yields zero s = some s
  yields (suc n) s = enter fd 1 (λ _. false) (λ _. false) s >>= resumed >>= λ s'. yields n s'

  -- A pass for a yield, with nothing readable.
  yield_once :
      (s : Sched) (v v' : View)
      → Represents s v
      → length v.before + 1 + length v.after + length v.waiting ≤ thread_max
      → schedule yield (λ _. false) (λ _. false) v ≡ go v'
      → (s' : Sched) × (enter fd 1 (λ _. false) (λ _. false) s ≡ some (run v'.running s'))
        × Represents s' v'
  yield_once s v v' r room e =
      rw e at (enter-schedule fd yield (λ _. false) (λ _. false) s v r room)

  abbrev Reaches : ℕ → Sched → List ℕ → ℕ → List ℕ → List ℕ → Type 0
  Reaches n s before x after waiting =
      (s' : Sched) × (yields n s ≡ some s')
      × Represents s' (record { before = before; running = x; after = after; waiting = waiting })

  keep_none : (xs : List ℕ) → (keep (λ _. false) xs ≡ []) × (keep (λ _. true) xs ≡ xs)
  keep_none [] = (refl, refl)
  keep_none (x ∷ xs) = ((keep_none xs).0, ap (◌∷◌ x) (keep_none xs).1)

  schedule-yield :
      (before : List ℕ) (x y : ℕ) (ys waiting : List ℕ)
      → schedule yield
          (λ _. false)
          (λ _. false)
          (record { before = before; running = x; after = y ∷ ys; waiting = waiting })
        ≡ go (record { before = before ++ x ∷ []; running = y; after = ys; waiting = waiting })
  schedule-yield before x y ys waiting =
      simp ((keep_none waiting).0, (keep_none waiting).1, append-nil)

  schedule-yield_last :
      (b : ℕ) (before : List ℕ) (x : ℕ) (waiting : List ℕ)
      → schedule yield
          (λ _. false)
          (λ _. false)
          (record { before = b ∷ before; running = x; after = []; waiting = waiting })
        ≡ go (record { before = []; running = b; after = before ++ x ∷ []; waiting = waiting })
  schedule-yield_last b before x waiting = simp ((keep_none waiting).0, (keep_none waiting).1)

  -- The threads after the running one come up in order.
  Reaches-after :
      (s : Sched) (before : List ℕ) (x : ℕ) (mid : List ℕ) (y : ℕ) (rest waiting : List ℕ)
      → Represents s
          (record { before = before; running = x; after = mid ++ y ∷ rest; waiting = waiting })
      → length before + 1 + length (mid ++ y ∷ rest) + length waiting ≤ thread_max
      → Reaches (suc (length mid)) s (before ++ x ∷ mid) y rest waiting
  unfolding yields
  Reaches-after s before x [] y rest waiting r room =
      let (s', once, r') = yield_once s _ _ r room (schedule-yield before x y rest waiting) in
      (s', rw once, r')
  Reaches-after s before x (m ∷ mid) y rest waiting r room =
      let (s', once, r') =
        yield_once s _ _ r room (schedule-yield before x m (mid ++ y ∷ rest) waiting) in
      let (s'', later, r'') =
        Reaches-after s' (before ++ x ∷ []) m mid y rest waiting r'
          (omega (arith, length-append {0} before (x ∷ []))) in
      (s'', rw once later, rw (append_assoc before (x ∷ [])) at r'')

  -- From any thread the turn comes back to the first one.
  Reaches-front :
      (s : Sched) (b : ℕ) (before : List ℕ) (x : ℕ) (after waiting : List ℕ)
      → Represents s (record { before = b ∷ before; running = x; after = after; waiting = waiting })
      → suc (length before) + 1 + length after + length waiting ≤ thread_max
      → Reaches (suc (length after)) s [] b (before ++ x ∷ after) waiting
  unfolding yields
  Reaches-front s b before x [] waiting r room =
      let (s', once, r') = yield_once s _ _ r room (schedule-yield_last b before x waiting) in
      (s', rw once, r')
  Reaches-front s b before x (y ∷ ys) waiting r room =
      let (s', once, r') = yield_once s _ _ r room (schedule-yield (b ∷ before) x y ys waiting) in
      let (s'', later, r'') =
        Reaches-front s' b (before ++ x ∷ []) y ys waiting r'
          (omega (arith, length-append {0} before (x ∷ []))) in
      (s'', rw once later, rw (append_assoc before (x ∷ [])) at r'')

  yields_add :
      (m n k : ℕ) (s s' : Sched) → k ≡ m + n → yields m s ≡ some s' → yields k s ≡ yields n s'
  unfolding yields
  yields_add zero n k s s' e h =
      let same : k ≡ n = omega arith in let here : s ≡ s' = cc in rw (same, here)
  yields_add (suc m) n k s s' e h =
      let more : k ≡ suc (m + n) = omega arith in
      rw more (
        bind_eq (enter fd 1 (λ _. false) (λ _. false) s >>= resumed) (yields m) (yields (m + n)) h
          (λ s1 h1. yields_add m n (m + n) s1 s' refl h1))

  -- Within as many yields as there are ready threads, the thread `t` runs.
  abbrev pub ComesUp : Sched → ℕ → Type 0
  ComesUp s t =
      (n : ℕ) × (s' : Sched) × (n ≤ s.rq_size)
      × (yields n s ≡ some s')
      × (s'.ready_queue s'.rq_current ≡ some t)

  running_slot :
      (s : Sched) (v : View) → Represents s v → s.ready_queue s.rq_current ≡ some v.running
  running_slot s v r =
      Holds-eq s.ready_queue 0 s.rq_current v.running v.before v.after (omega (arith, r.current))
        r.queues.ready_holds

  after_is :
      (s : Sched) (v : View) (after : List ℕ)
      → v.after ≡ after
      → Represents s v
      → Represents s (record v { after = after })
  after_is s v after e r = record { queues = rw e at r.queues; current = r.current }

  before_is :
      (s : Sched) (v : View) (before : List ℕ)
      → v.before ≡ before
      → Represents s v
      → Represents s (record v { before = before })
  before_is s v before e r = record { queues = rw e at r.queues; current = rw e at r.current }

  comes_after :
      (s : Sched) (before : List ℕ) (x : ℕ) (front : List ℕ) (t : ℕ) (back waiting : List ℕ)
      → Represents s
          (record { before = before; running = x; after = front ++ t ∷ back; waiting = waiting })
      → length before + 1 + length (front ++ t ∷ back) + length waiting ≤ thread_max
      → ComesUp s t
  comes_after s before x front t back waiting r room =
      let (s', reached, r') = Reaches-after s before x front t back waiting r room in
      let size = length-append {0} before (x ∷ (front ++ t ∷ back)) in
      let size' = length-append {0} front (t ∷ back) in
      (
        suc (length front),
        s',
        omega (arith, size, size', r.queues.ready_size),
        reached,
        running_slot s' _ r',
      )

  comes_before :
      (s : Sched) (front : List ℕ) (t : ℕ) (back : List ℕ) (x : ℕ) (after waiting : List ℕ)
      → Represents s
          (record { before = front ++ t ∷ back; running = x; after = after; waiting = waiting })
      → length (front ++ t ∷ back) + 1 + length after + length waiting ≤ thread_max
      → ComesUp s t
  comes_before s [] t back x after waiting r room =
      let (s', reached, r') = Reaches-front s t back x after waiting r room in
      let size = length-append {0} back (x ∷ after) in
      (
        suc (length after),
        s',
        omega (arith, size, r.queues.ready_size),
        reached,
        running_slot s' _ r',
      )
  comes_before s (b ∷ front) t back x after waiting r room =
      let (s', reached, r') = Reaches-front s b (front ++ t ∷ back) x after waiting r room in
      let size = length-append {0} (front ++ t ∷ back) (x ∷ after) in
      let size' = length-append {0} front (t ∷ back) in
      let size'' = length-append {0} front (t ∷ (back ++ x ∷ after)) in
      let size3 = length-append {0} back (x ∷ after) in
      let (s'', reached', r'') =
        Reaches-after s' [] b front t (back ++ x ∷ after) waiting
          (rw (append_assoc front (t ∷ back)) at r') (omega (arith, size, size', size'', size3)) in
      let n = suc (length after) + suc (length front) in
      (
        n,
        s'',
        omega (arith, size, size', r.queues.ready_size),
        yields_add (suc (length after)) (suc (length front)) n s s' refl reached ∙ reached',
        running_slot s'' _ r'',
      )

  -- No ready thread starves: from a state that stands for a view of at most `thread_max` threads,
  -- while the running threads yield and no descriptor becomes readable, each ready thread runs within
  -- as many yields as there are ready threads.
  pub yields-ComesUp :
      (s : Sched) (v : View) (t : ℕ)
      → Represents s v
      → length v.before + 1 + length v.after + length v.waiting ≤ thread_max
      → 0 < count t (v.before ++ v.running ∷ v.after)
      → ComesUp s t
  unfolding yields
  yields-ComesUp s v t r room ready =
      let in_before = λ (e : (v.running == t) ≡ false) (h : ¬ (0 < count t v.after)).
        let p : 0 < count t v.before =
          ground (arith, count-append t v.before (v.running ∷ v.after)) in
        p in
      elim (Bool-cases (v.running == t)) [
        | inl here ↦
            (0, s, omega arith, refl, running_slot s v r ∙ ap some ((==_iff v.running t).0 here))
        | inr elsewhere ↦ elim (dec_lt 0 (count t v.after)) [
          | yes h ↦
              let (front, back, e) = split_at t v.after h in
              comes_after s v.before v.running front t back v.waiting (after_is s v _ e r)
                (rw (← e) room)
          | no h ↦
              let (front, back, e) = split_at t v.before (in_before elsewhere h) in
              comes_before s front t back v.running v.after v.waiting (before_is s v _ e r)
                (rw (← e) room)
        ]
      ]
