-- ===== src/Threads/Collatz.antt =====
-- `collatz` of hw3/threads.c against the Collatz orbit of its argument.
use sp_homework.Common.{
  ℕ, zero, suc, ◌+◌, ◌*◌, ◌/◌, ◌%◌, ◌<◌, ◌≤◌, ◌^◌, ◌≡◌, ◌≢◌, ◌↔◌, refl, arith, ◌==◌, if◌then◌else◌,
}
use sp_homework.Common.Int.{
  pos, eqb_ℤ, int_add, int_add-one, int_mul, int_half, is_even, to_int, ◌+ℤ◌, ◌*ℤ◌,
}
use sp_homework.Scheduler.View.{yield, exit}
use sp_homework.Threads.{Tcb, first_round, next_round, collatz_start, collatz_body, collatz}

-- One step of the Collatz map, and its iterates.
abbrev pub collatz_next : ℕ → ℕ
collatz_next n = if n % 2 == 0 then n / 2 else n * 3 + 1

abbrev pub orbit : ℕ → ℕ → ℕ
orbit zero n = n
orbit (suc k) n = collatz_next (orbit k n)

-- The block at the start of round `n`, counted from 0, of a thread that is always resumed.
unfoldable pub collatz_entry : ℕ → Tcb → Tcb
collatz_entry zero t = first_round t
collatz_entry (suc n) t = next_round (collatz (collatz_entry n t)).0

-- The arithmetic of one round, on a value whose successor fits an `int`.
halved : (n : ℕ) → int_half (pos n) ≡ pos (n / 2)
unfolding int_half
halved n = refl

tripled : (n : ℕ) → n * 3 + 1 < 2 ^ 31 → int_add (int_mul (pos n) (pos 3)) (pos 1) ≡ pos (n * 3 + 1)
unfolding to_int ◌+ℤ◌ ◌*ℤ◌
tripled n h = ground arith

collatz_step :
    (u : Tcb) (n : ℕ)
    → (collatz_start u).x ≡ pos n
    → n * 3 + 1 < 2 ^ 31
    → collatz_body u ≡ record (collatz_start u) { x = pos (collatz_next n) }
unfolding collatz_body is_even
collatz_step u n e h = ground (arith, halved n, tripled n h)

-- What is known after round `k` of a thread with argument `n`.
record Round (k n : ℕ) (u : Tcb) : Type 0 where
  counter : u.i ≡ pos (suc k)
  argument : u.arg ≡ pos n
  value : u.x ≡ pos (orbit (suc k) n)

start_first : (t : Tcb) → collatz_start (record t { i = pos 1 }) ≡ record t { i = pos 1; x = t.arg }
unfolding collatz_start
start_first t = refl

start_later : (u : Tcb) (k : ℕ) → u.i ≡ pos (suc (suc k)) → collatz_start u ≡ u
unfolding collatz_start
start_later u k e = ground arith

body : (u : Tcb) → (collatz u).0 ≡ collatz_body u
unfolding collatz
body u = refl

ends : (u : Tcb) → (collatz u).1 ≡ (if eqb_ℤ (collatz u).0.x (pos 1) then exit else yield)
unfolding collatz
ends u = refl

collatz_round :
    (k n : ℕ) (t : Tcb)
    → t.arg ≡ pos n
    → suc k < 2 ^ 31
    → ((j : ℕ) → j ≤ k → orbit j n * 3 + 1 < 2 ^ 31)
    → Round k n (collatz (collatz_entry k t)).0
unfolding collatz_entry first_round next_round
collatz_round zero n t e room fits =
    let u = record t { i = pos 1 } in
    let starts = start_first t in
    let stepped = collatz_step u n (rw starts e) (fits 0 (omega arith)) in
    rw (body u, stepped, starts) (record { counter = refl; argument = e; value = refl })
collatz_round (suc k) n t e room fits =
    let u' = (collatz (collatz_entry k t)).0 in
    let r = collatz_round k n t e (omega arith) (λ j h. fits j (omega arith)) in
    let u = record u' { i = int_add u'.i (pos 1) } in
    let counted : u.i ≡ pos (suc (suc k)) = rw r.counter (int_add-one (suc k) room) in
    let starts = start_later u k counted in
    let stepped =
      collatz_step u (orbit (suc k) n) (rw starts r.value) (fits (suc k) (omega arith)) in
    rw (body u, stepped, starts) (record { counter = counted; argument = r.argument; value = refl })

exits_at_one :
    (n : ℕ)
    → ((if eqb_ℤ (pos n) (pos 1) then exit else yield) ≡ exit ↔ n ≡ 1)
      × ((if eqb_ℤ (pos n) (pos 1) then exit else yield) ≡ yield ↔ n ≢ 1)
exits_at_one n = ground arith

-- A thread with a natural argument prints its Collatz orbit: in round `k`, counted from 0, it prints
-- the value after `k + 1` steps, and it exits if that is 1 and yields if not. The conditions are that
-- no value up to then is so large that three times it plus one exceeds an `int`, and that the count
-- of rounds does not either.
pub collatz-orbit :
    (k n : ℕ) (t : Tcb)
    → t.arg ≡ pos n
    → suc k < 2 ^ 31
    → ((j : ℕ) → j ≤ k → orbit j n * 3 + 1 < 2 ^ 31)
    → ((collatz (collatz_entry k t)).0.x ≡ pos (orbit (suc k) n))
      × ((collatz (collatz_entry k t)).1 ≡ exit ↔ orbit (suc k) n ≡ 1)
      × ((collatz (collatz_entry k t)).1 ≡ yield ↔ orbit (suc k) n ≢ 1)
collatz-orbit k n t e room fits =
    let r = collatz_round k n t e room fits in
    let at_end = exits_at_one (orbit (suc k) n) in
    let event = rw r.value at (ends (collatz_entry k t)) in
    (r.value, rw event at_end.0, rw event at_end.1)
