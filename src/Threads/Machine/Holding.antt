-- ===== src/Threads/Machine/Holding.antt =====
-- hw3: what holds of each machine that the program can come to, and blocks of the start.
use mathlib.Core.Path.{subst}
use mathlib.Core.Option.{some-injective}
use mathlib.Core.List.{append-nil}
use sp_homework.Common.{
  ℕ, zero, suc, ◌+◌, ◌≡◌, ◌<◌, ◌≤◌, refl, sym, ap, ◌∙◌, true, inl, inr, some, List, [], ◌∷◌, ◌++◌,
  arith, length, ==_iff, ltb, if◌then◌else◌,
}
use sp_homework.Common.Int.{ℤ, pos}
use sp_homework.Scheduler.{thread_max}
use sp_homework.Scheduler.View.{count}
use sp_homework.Scheduler.Ready.{Represents}
use sp_homework.Threads.{Tcb, System}
use sp_homework.Threads.Boot.{first_view}
use sp_homework.Threads.Created.{fresh, created, length-upto, Blocks, upto}
use sp_homework.Threads.Machine.{
  Point, begins, reads, yielded, exited, Machine, Input, Result, continues, ends, step,
}
use sp_homework.Threads.Machine.Safe.{has_exited, places, Runs, Wakes, step_lem, running_lem}
use sp_homework.Threads.Machine.Prints.{IsAlone, machine_of, step-IsAlone}
use sp_homework.Threads.Machine.Start.{body_of}

count-upto :
    (t lo n : ℕ) → count t (upto lo n) ≡ (if ltb t lo then 0 else (if ltb t (lo + n) then 1 else 0))
count-upto t lo zero = ground arith
count-upto t lo (suc n) = ground (arith, count-upto t (suc lo) n, ==_iff lo t)

pub Runs-first :
    (n : ℕ) (m : Machine)
    → m.running ≡ 0
    → ((t : ℕ) → m.points t ≡ begins)
    → Represents m.sched (first_view n)
    → suc n ≤ 3
    → Runs (suc n) m
Runs-first n m first fresh r room =
    let plain : (upto 1 n ++ []) ++ [] ≡ upto 1 n =
      rw (append-nil (upto 1 n), append-nil (upto 1 n)) refl in
    record {
      view = first_view n;
      stands = r;
      current = sym first;
      once = λ t.
          subst (λ ts. count t (0 ∷ ts) ≡ places (suc n) m.points t) (sym plain)
            (rw (fresh t) (ground (arith, count-upto t 1 n)));
      room =
          subst (λ ts. length (0 ∷ ts) ≤ thread_max) (sym plain) (omega (arith, length-upto 1 n));
    }

pub created_natural :
    (n : ℕ) (id : ℤ) (fifo_fd : ℕ) → created id (pos n) fifo_fd ≡ fresh id (pos n) fifo_fd ∷ []
created_natural n id fifo_fd = ground arith

point_of : (p : Point) → has_exited p ≡ true → p ≡ exited
point_of begins h = cc
point_of reads h = cc
point_of yielded h = cc
point_of exited h = refl

-- What holds of every machine that can be reached, with the blocks that `init_threads` leaves.
pub record Holds (n : ℕ) (s : System) (m : Machine) : Type 0 where
  pub runs : Runs n m
  pub alone : IsAlone (λ t. body_of (s.tcbs t).id) s.tcbs m

-- Where the machine goes on it still holds, and where `scheduler` returns every thread has exited.
pub Holds-step :
    (n : ℕ) (s : System) (input : Input) (m : Machine) (r : Result)
    → Holds n s m
    → Wakes input m
    → step input m ≡ some r
    → IsAlone (λ t. body_of (s.tcbs t).id) s.tcbs (machine_of r)
      × ((m' : Machine) → r ≡ continues m' → Holds n s m')
      × ((m' : Machine) → r ≡ ends m' → (t : ℕ) → t < n → m'.points t ≡ exited)
Holds-step n s input m r h wakes e =
    let alone' = step-IsAlone _ _ input m r h.alone (running_lem n m h.runs) e in
    elim (step_lem n input m h.runs wakes) [
      | inl (m'', e', runs) ↦
          let same : continues m'' ≡ r = some-injective _ _ (sym e' ∙ e) in
          (
            alone',
            λ m' is. subst (Holds n s) (ap machine_of (same ∙ is)) (record {
              runs = runs;
              alone =
                  subst (λ x. IsAlone (λ t. body_of (s.tcbs t).id) s.tcbs (machine_of x)) (sym same)
                    alone';
            }),
            λ m' is. let clash : continues m'' ≡ ends m' = same ∙ is in cc,
          )
      | inr (m'', e', all) ↦
          let same : ends m'' ≡ r = some-injective _ _ (sym e' ∙ e) in
          (
            alone',
            λ m' is. let clash : ends m'' ≡ continues m' = same ∙ is in cc,
            λ m' is t small.
                subst (λ (x : Machine). x.points t ≡ exited) (ap machine_of (same ∙ is))
                  (point_of (m''.points t) (all t small)),
          )
    ]

pub Blocks-at :
    (f : ℕ → Tcb) (lo k : ℕ) (xs : List Tcb) (b : Tcb) (ys : List Tcb)
    → k ≡ lo + length xs
    → Blocks f lo (xs ++ b ∷ ys)
    → f k ≡ b
Blocks-at f lo k [] b ys same (e, rest) = let here : k ≡ lo = omega arith in rw here e
Blocks-at f lo k (x ∷ xs) b ys same (e, rest) = Blocks-at f (suc lo) k xs b ys (omega arith) rest
