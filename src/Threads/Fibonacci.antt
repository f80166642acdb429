-- ===== src/Threads/Fibonacci.antt =====
-- `fibonacci` of hw3/threads.c against the Fibonacci numbers.
use sp_homework.Common.{
  ℕ, zero, suc, ◌+◌, ◌<◌, ◌^◌, ◌≡◌, refl, sym, ◌↔◌, ◌≤◌, ◌≢◌, if◌then◌else◌, arith,
}
use sp_homework.Common.Int.{ℤ, pos, negsuc, eqb_ℤ, int_add, to_int, int_add-to_int, int_add-one}
use sp_homework.Scheduler.View.{yield, exit}
use sp_homework.Threads.{Tcb, first_round, next_round, fib_body, fibonacci}

-- The Fibonacci numbers 1, 1, 2, 3, 5, ...
abbrev pub fib : ℕ → ℕ
fib zero = 1
fib (suc zero) = 1
fib (suc (suc n)) = fib n + fib (suc n)

-- The block at the start of round `n`, counted from 0, of a thread that is always resumed.
unfoldable pub fib_entry : ℕ → Tcb → Tcb
fib_entry zero t = first_round t
fib_entry (suc n) t = next_round (fibonacci (fib_entry n t)).0

record Round (n : ℕ) (t t' : Tcb) : Type 0 where
  counter : t'.i ≡ pos (suc n)
  argument : t'.arg ≡ t.arg
  last_two : (m : ℕ) → n ≡ suc m → t'.x ≡ to_int (pos (fib m))
  value : t'.y ≡ to_int (pos (fib n))

fib_body_small :
    (u : Tcb) (k : ℕ) → u.i ≡ pos k → k ≤ 2 → fib_body u ≡ record u { y = pos 1; x = pos 1 }
unfolding fib_body
fib_body_small u k e h = ground arith

fib_body_large :
    (u : Tcb) (k : ℕ) → u.i ≡ pos k → 2 < k → fib_body u ≡ record u { y = int_add u.x u.y; x = u.y }
unfolding fib_body
fib_body_large u k e h = ground arith

small : to_int (pos 1) ≡ pos 1
unfolding to_int
small = refl

Round-first : (t : Tcb) → Round 0 t (fib_body (first_round t))
unfolding first_round
Round-first t = rw (fib_body_small (record t { i = pos 1 }) 1 refl (omega arith)) (record {
  counter = refl;
  argument = refl;
  last_two = λ m e. absurd (omega arith);
  value = sym small;
})

Round-body :
    (n : ℕ) (t u : Tcb)
    → u.i ≡ pos (suc (suc n))
    → u.arg ≡ t.arg
    → ((m : ℕ) → n ≡ suc m → u.x ≡ to_int (pos (fib m)))
    → u.y ≡ to_int (pos (fib n))
    → Round (suc n) t (fib_body u)
Round-body zero t u e same last value = rw (fib_body_small u 2 e (omega arith)) (record {
  counter = e;
  argument = same;
  last_two = λ m h. let only : m ≡ 0 = omega arith in rw only (sym small);
  value = sym small;
})
Round-body (suc n) t u e same last value =
    rw (fib_body_large u (suc (suc (suc n))) e (omega arith)) (record {
      counter = e;
      argument = same;
      last_two = λ m h. let only : m ≡ suc n = omega arith in rw only value;
      value = rw (last n refl, value) (int_add-to_int (fib n) (fib (suc n)));
    })

Round-next :
    (n : ℕ) (t t' : Tcb)
    → suc (suc n) < 2 ^ 31
    → Round n t t'
    → Round (suc n) t (fib_body (next_round t'))
unfolding next_round
Round-next n t t' room r =
    Round-body n t (record t' { i = int_add t'.i (pos 1) })
      (rw r.counter (int_add-one (suc n) room)) r.argument r.last_two r.value

fib_round : (n : ℕ) (t : Tcb) → suc n < 2 ^ 31 → Round n t (fibonacci (fib_entry n t)).0
unfolding fibonacci fib_entry
fib_round zero t room = Round-first t
fib_round (suc n) t room = Round-next n t _ room (fib_round n t (omega arith))

event_at :
    (t' : Tcb)
    → (fibonacci t').1 ≡ (if eqb_ℤ (fibonacci t').0.i (fibonacci t').0.arg then exit else yield)
unfolding fibonacci
event_at t' = refl

exits_at :
    (k : ℕ) (arg : ℤ)
    → ((if eqb_ℤ (pos k) arg then exit else yield) ≡ exit ↔ arg ≡ pos k)
      × ((if eqb_ℤ (pos k) arg then exit else yield) ≡ yield ↔ arg ≢ pos k)
exits_at k (pos n) = ground arith
exits_at k (negsuc n) = ground arith

-- In its `n`-th round, counted from 0 and below INT_MAX - 1, the thread prints the `n`-th Fibonacci number as an
-- `int`, that is modulo 2^32, and it exits in the round whose number, counted from 1, is its
-- argument, and yields in all others.
pub fibonacci-fib :
    (n : ℕ) (t : Tcb)
    → suc n < 2 ^ 31
    → ((fibonacci (fib_entry n t)).0.y ≡ to_int (pos (fib n)))
      × ((fibonacci (fib_entry n t)).1 ≡ exit ↔ t.arg ≡ pos (suc n))
      × ((fibonacci (fib_entry n t)).1 ≡ yield ↔ t.arg ≢ pos (suc n))
fibonacci-fib n t room =
    let r = fib_round n t room in
    let ends = exits_at (suc n) t.arg in
    let e = rw (r.counter, r.argument) at (event_at (fib_entry n t)) in
    (r.value, rw e ends.0, rw e ends.1)
