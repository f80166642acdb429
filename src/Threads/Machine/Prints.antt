-- ===== src/Threads/Machine/Prints.antt =====
-- hw3: each thread of the machine runs as it would alone, however the threads are switched.
use mathlib.Core.Path.{subst}
use mathlib.Core.Option.{some-injective}
use sp_homework.Common.{
  ℕ, ◌≡◌, refl, sym, ap, ◌∙◌, true, false, inl, inr, Option, none, some, List, [], ◌∷◌, arith, ◌==◌,
  ==_iff, ◌>>=◌, Bool-cases, if◌then◌else◌,
}
use sp_homework.Common.Int.{ℤ}
use sp_homework.Scheduler.{Outcome, run, returned}
use sp_homework.Threads.{Tcb}
use sp_homework.Threads.Machine.Safe.{has_exited}
use sp_homework.Threads.Machine.{
  Body, Point, begins, Machine, Input, resume, next_point, prints, log, advance_thread, Result,
  continues, ends, result_of, step,
}

-- A thread alone: its block, its point and the values that it has printed, the latest first.
pub record Alone : Type 0 where
  pub tcb : Tcb
  pub point : Point
  pub values : List ℤ

abbrev pub and_print : Option ℤ → List ℤ → List ℤ
and_print none zs = zs
and_print (some z) zs = z ∷ zs

abbrev pub resumed : Body → List ℕ → Alone → Alone
resumed b chunk a =
    let (t, event) = resume b a.point chunk a.tcb in
    record { tcb = t; point = next_point event; values = and_print (prints b event t) a.values }

-- A thread that is always resumed, with the bytes that are there each time, the latest first.
abbrev pub alone : Body → Tcb → List (List ℕ) → Alone
alone b t [] = record { tcb = t; point = begins; values = [] }
alone b t (chunk ∷ chunks) = resumed b chunk (alone b t chunks)

-- The values in the output that the thread `t` has printed.
abbrev pub lines : ℕ → List (ℕ × ℤ) → List ℤ
lines t [] = []
lines t ((u, z) ∷ rest) = if u == t then z ∷ lines t rest else lines t rest

abbrev pub seen : ℕ → Machine → Alone
seen t m = record { tcb = m.tcbs t; point = m.points t; values = lines t m.printed }

-- The thread had not exited before any of the resumptions.
abbrev pub InTime : Body → Tcb → List (List ℕ) → Type 0
InTime b t [] = Unit {0}
InTime b t (chunk ∷ chunks) = (has_exited (alone b t chunks).point ≡ false) × InTime b t chunks

-- Some resumptions of the thread alone lead where the machine has brought it.
abbrev pub IsAlone : (ℕ → Body) → (ℕ → Tcb) → Machine → Type 0
IsAlone bodies tcbs m =
    ((t : ℕ) → m.bodies t ≡ bodies t)
    × ((t : ℕ)
        → (chunks : List (List ℕ)) × (seen t m ≡ alone (bodies t) (tcbs t) chunks)
          × InTime (bodies t) (tcbs t) chunks)

lines-log_other :
    (t u : ℕ) (z : Option ℤ) (rest : List (ℕ × ℤ))
    → (u == t) ≡ false
    → lines t (log u z rest) ≡ lines t rest
lines-log_other t u none rest h = refl
lines-log_other t u (some z) rest h = rw h refl

lines-log_own :
    (t u : ℕ) (z : Option ℤ) (rest : List (ℕ × ℤ))
    → (u == t) ≡ true
    → lines t (log u z rest) ≡ and_print z (lines t rest)
lines-log_own t u none rest h = refl
lines-log_own t u (some z) rest h = rw h refl

advance_own :
    (chunk : List ℕ) (m : Machine)
    → seen m.running (advance_thread chunk m).0
      ≡ resumed (m.bodies m.running) chunk (seen m.running m)
unfolding advance_thread
advance_own chunk m =
    let own : (m.running == m.running) ≡ true = ground (arith, ==_iff m.running m.running) in
    rw (own, lines-log_own m.running m.running _ m.printed own) refl

advance_other :
    (chunk : List ℕ) (m : Machine) (t : ℕ)
    → (m.running == t) ≡ false
    → seen t (advance_thread chunk m).0 ≡ seen t m
unfolding advance_thread
advance_other chunk m t other = rw (other, lines-log_other t m.running _ m.printed other) refl

advance-IsAlone :
    (bodies : ℕ → Body) (tcbs : ℕ → Tcb) (chunk : List ℕ) (m : Machine)
    → IsAlone bodies tcbs m
    → has_exited (m.points m.running) ≡ false
    → IsAlone bodies tcbs (advance_thread chunk m).0
unfolding advance_thread
advance-IsAlone bodies tcbs chunk m (same, inv) live = (
  same,
  λ t. elim (Bool-cases (m.running == t)) [
    | inl here ↦
        let (chunks, e, timely) = inv t in
        let at_t : m.running ≡ t = ground (arith, ==_iff m.running t) in
        let stepped =
          subst (λ u. seen u (advance_thread chunk m).0 ≡ resumed (m.bodies u) chunk (seen u m))
            at_t (advance_own chunk m) in
        let awake : has_exited (alone (bodies t) (tcbs t) chunks).point ≡ false =
          ap (λ (a : Alone). has_exited a.point) (sym e)
          ∙ ap (λ u. has_exited (m.points u)) (sym at_t)
          ∙ live in
        (
          chunk ∷ chunks,
          stepped ∙ ap (λ b. resumed b chunk (seen t m)) (same t) ∙ ap (resumed (bodies t) chunk) e,
          (awake, timely),
        )
    | inr other ↦
        let (chunks, e, timely) = inv t in (chunks, advance_other chunk m t other ∙ e, timely)
  ],
)

abbrev pub machine_of : Result → Machine
machine_of (continues m) = m
machine_of (ends m) = m

IsAlone-result_of :
    (bodies : ℕ → Body) (tcbs : ℕ → Tcb) (m : Machine) (o : Outcome)
    → IsAlone bodies tcbs m
    → IsAlone bodies tcbs (machine_of (result_of m o))
IsAlone-result_of bodies tcbs m (run t s) inv = inv
IsAlone-result_of bodies tcbs m (returned s) inv = inv

result_lem :
    (bodies : ℕ → Body) (tcbs : ℕ → Tcb) (m : Machine) (o : Option Outcome) (r : Result)
    → IsAlone bodies tcbs m
    → (o >>= λ x. some (result_of m x)) ≡ some r
    → IsAlone bodies tcbs (machine_of r)
result_lem bodies tcbs m none r inv e = cc
result_lem bodies tcbs m (some o) r inv e =
    subst (λ x. IsAlone bodies tcbs (machine_of x)) (some-injective _ _ e)
      (IsAlone-result_of bodies tcbs m o inv)

-- A step of a thread that has not exited keeps the threads apart: what the others did has no part in
-- what a thread prints.
pub step-IsAlone :
    (bodies : ℕ → Body) (tcbs : ℕ → Tcb) (input : Input) (m : Machine) (r : Result)
    → IsAlone bodies tcbs m
    → has_exited (m.points m.running) ≡ false
    → step input m ≡ some r
    → IsAlone bodies tcbs (machine_of r)
unfolding step
step-IsAlone bodies tcbs input m r inv live e =
    result_lem bodies tcbs (advance_thread input.chunk m).0 _ r
      (advance-IsAlone bodies tcbs input.chunk m inv live) e
