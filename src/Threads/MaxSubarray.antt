-- ===== src/Threads/MaxSubarray.antt =====
-- `max_subarray` of hw3/threads.c: what the thread prints, round by round.
use mathlib.Core.List.{append-nil}
use sp_homework.Common.{
  ℕ, suc, ◌*◌, ◌<◌, ◌^◌, ◌≡◌, ◌↔◌, refl, sym, ap, ◌∙◌, arith, if◌then◌else◌, List, [], ◌∷◌, ◌++◌,
  length, drop, drop-append,
}
use sp_homework.Common.Int.{
  ℤ, pos, ltb_ℤ, int_add, int_add_small, int_add-one, ◌+ℤ◌, ◌≤ℤ◌, IsInt, IsWithin, +ℤ-IsWithin,
}
use sp_homework.Common.Text.{c_string, atoi}
use sp_homework.Common.TextBounds.{atoi-IsWithin}
use sp_homework.Scheduler.View.{Event, yield, exit}
use sp_homework.Threads.{Tcb, first_round, next_round, max_begin, read_into, max_body, max_subarray}
use sp_homework.Threads.Runs.{
  max_ℤ, best_end, best, sum, HasRun, best_bounds, best_attained, max_ℤ-IsWithin,
}

-- Every `read` delivers five bytes.
abbrev pub AllFive : List (List ℕ) → Type 0
AllFive [] = Unit {0}
AllFive (c ∷ cs) = (length c ≡ 5) × AllFive cs

-- The number in a chunk, and those of several.
abbrev pub number : List ℕ → ℤ
number chunk = atoi (c_string chunk)

abbrev pub numbers : List (List ℕ) → List ℤ
numbers [] = []
numbers (c ∷ cs) = number c ∷ numbers cs

-- The block before the `read` of the round after the given chunks, of which the latest stands first.
pub max_entry : List (List ℕ) → Tcb → Tcb
max_entry [] t = (max_begin (first_round t)).0
max_entry (c ∷ cs) t = (max_begin (next_round (max_subarray c (max_entry cs t)).0)).0

-- What is known before a `read`.
record Entry (cs : List (List ℕ)) (t u : Tcb) : Type 0 where
  counter : u.i ≡ pos (suc (length cs))
  argument : u.arg ≡ t.arg
  ending : u.x ≡ best_end (numbers cs)
  so_far : u.y ≡ best (numbers cs)
  buffer : drop 5 u.buf ≡ []

-- The two maxima stay small.
best_end-IsWithin :
    (cs : List (List ℕ)) → AllFive cs → IsWithin (length cs * 99999) (best_end (numbers cs))
best_end-IsWithin [] five = omega arith
best_end-IsWithin (c ∷ cs) five =
    let small = atoi-IsWithin c (omega (arith, five.0)) in
    let before = best_end (numbers cs) in
    let sum =
      +ℤ-IsWithin (length cs * 99999) 99999 before (number c) (best_end-IsWithin cs five.1) small in
    max_ℤ-IsWithin (suc (length cs) * 99999) (before +ℤ number c) (number c) (omega arith)
      (omega arith)

max_body_lem :
    (num : ℤ) (u : Tcb)
    → IsInt (u.x +ℤ num)
    → max_body num u
      ≡ record u { x = max_ℤ (u.x +ℤ num) num; y = max_ℤ (max_ℤ (u.x +ℤ num) num) u.y }
unfolding max_body max_ℤ
max_body_lem num u h = rw (int_add_small u.x num h)

begin_first :
    (t : Tcb) → (max_begin (first_round t)).0 ≡ record t { i = pos 1; x = pos 0; y = pos 0 }
unfolding max_begin first_round
begin_first t = refl

begin_later :
    (u : Tcb) (k : ℕ)
    → u.i ≡ pos (suc k)
    → suc (suc k) < 2 ^ 31
    → (max_begin (next_round u)).0 ≡ record u { i = pos (suc (suc k)) }
unfolding max_begin next_round
begin_later u k e room =
    let counted : int_add u.i (pos 1) ≡ pos (suc (suc k)) = rw e (int_add-one (suc k) room) in
    ground (arith, counted)

read_lem :
    (c : List ℕ) (u : Tcb) → length c ≡ 5 → drop 5 u.buf ≡ [] → read_into c u ≡ record u { buf = c }
unfolding read_into
read_lem c u h e =
    let whole : c ++ drop (length c) u.buf ≡ c = rw (h, e, append-nil c) in
    λ i. record u { buf = whole i }

steps :
    (c : List ℕ) (u : Tcb)
    → (max_subarray c u).0 ≡ max_body (number (read_into c u).buf) (read_into c u)
unfolding max_subarray
steps c u = refl

event_at :
    (c : List ℕ) (u : Tcb)
    → (max_subarray c u).1
      ≡ (if ltb_ℤ (max_subarray c u).0.i (max_subarray c u).0.arg then yield else exit)
unfolding max_subarray
event_at c u = refl

-- A round on a whole chunk.
round :
    (c : List ℕ) (cs : List (List ℕ)) (t u : Tcb)
    → Entry cs t u
    → AllFive (c ∷ cs)
    → suc (length cs) * 99999 < 2 ^ 31
    → (max_subarray c u).0
      ≡ record u { buf = c; x = best_end (numbers (c ∷ cs)); y = best (numbers (c ∷ cs)) }
round c cs t u entry five room =
    let n = number c in
    let u' = record u { buf = c } in
    let small = atoi-IsWithin c (omega (arith, five.0)) in
    let sum = +ℤ-IsWithin (length cs * 99999) 99999 _ n (best_end-IsWithin cs five.1) small in
    let fits : IsInt (u.x +ℤ n) = rw entry.ending (omega arith) in
    steps c u
    ∙ ap (λ (v : Tcb). max_body (number v.buf) v) (read_lem c u five.0 entry.buffer)
    ∙ max_body_lem n u' fits
    ∙ (λ i. record u {
      buf = c;
      x = max_ℤ (entry.ending i +ℤ n) n;
      y = max_ℤ (max_ℤ (entry.ending i +ℤ n) n) (entry.so_far i);
    })

max_entry-Entry :
    (cs : List (List ℕ)) (t : Tcb)
    → t.buf ≡ []
    → AllFive cs
    → suc (length cs) * 99999 < 2 ^ 31
    → Entry cs t (max_entry cs t)
unfolding max_entry max_begin
max_entry-Entry [] t fresh five room =
    rw (begin_first t)
      (record { counter = refl; argument = refl; ending = refl; so_far = refl; buffer = rw fresh })
max_entry-Entry (c ∷ cs) t fresh five room =
    let entry = max_entry-Entry cs t fresh five.1 (omega arith) in
    let u = max_entry cs t in
    let rounded = round c cs t u entry five (omega arith) in
    rw
      (
        rounded,
        begin_later
            (record u { buf = c; x = best_end (numbers (c ∷ cs)); y = best (numbers (c ∷ cs)) })
            (length cs) entry.counter (omega arith),
      )
      (record {
        counter = refl;
        argument = entry.argument;
        ending = refl;
        so_far = refl;
        buffer = rw (append-nil c) at (drop-append 5 c [] (sym five.0));
      })

-- `z` is the largest sum of a run of neighbours, the empty run with the sum 0 included.
abbrev pub IsLargestSum : ℤ → List ℤ → Type 0
IsLargestSum z ns =
    HasRun ns z × ((front run rest : List ℤ) → ns ≡ front ++ (run ++ rest) → sum run ≤ℤ z)

best-IsLargestSum : (ns : List ℤ) → IsLargestSum (best ns) ns
best-IsLargestSum ns = (best_attained ns, λ front run rest e. rw e (best_bounds front run rest))

exits_from :
    (e : Event) (i arg : ℤ) (k : ℕ) (a : ℤ)
    → e ≡ (if ltb_ℤ i arg then yield else exit)
    → i ≡ pos k
    → arg ≡ a
    → e ≡ exit ↔ a ≤ℤ pos k
exits_from e i arg k a h counted same = rw (h, counted, same) (ends k a)
  where
    ends : (k : ℕ) (a : ℤ) → (if ltb_ℤ (pos k) a then yield else exit) ≡ exit ↔ a ≤ℤ pos k
    ends k a = ground arith

-- In every round the thread prints the largest sum of a run of neighbours among the numbers read so
-- far, 0 for the empty run, and it exits exactly when it has read as many numbers as its argument
-- says. The conditions: the thread is fresh, each `read` delivers five bytes, and the rounds are few
-- enough for the sums to fit an `int` (21474 and fewer).
pub max_subarray-IsLargestSum :
    (c : List ℕ) (cs : List (List ℕ)) (t : Tcb)
    → t.buf ≡ []
    → AllFive (c ∷ cs)
    → suc (length cs) * 99999 < 2 ^ 31
    → IsLargestSum (max_subarray c (max_entry cs t)).0.y (numbers (c ∷ cs))
      × ((max_subarray c (max_entry cs t)).1 ≡ exit ↔ t.arg ≤ℤ pos (length (c ∷ cs)))
max_subarray-IsLargestSum c cs t fresh five room =
    let u = max_entry cs t in
    let entry = max_entry-Entry cs t fresh five.1 room in
    let rounded = round c cs t u entry five room in
    let counted = ap (λ (v : Tcb). v.i) rounded ∙ entry.counter in
    let same = ap (λ (v : Tcb). v.arg) rounded ∙ entry.argument in
    (
      rw rounded (best-IsLargestSum (numbers (c ∷ cs))),
      exits_from _ _ _ (suc (length cs)) t.arg (event_at c u) counted same,
    )
