-- ===== src/Scheduler/Arrays.antt =====
-- The live part of an array of hw3/scheduler.c as a list of thread blocks.
use sp_homework.Common.{
  ℕ, zero, suc, ◌+◌, ◌-◌, ◌≤◌, ◌<◌, ◌≡◌, refl, Option, none, some, List, [], ◌∷◌, ◌++◌, ◌⊎◌, ◌∙◌,
  arith, length,
}
use sp_homework.Scheduler.{Slots, update, shift, Sched}

-- From slot `lo` on, the array holds the threads of the list.
abbrev pub Holds : Slots → ℕ → List ℕ → Type 0
Holds f lo [] = Unit {0}
Holds f lo (x ∷ xs) = (f lo ≡ some x) × Holds f (suc lo) xs

pub Holds-append :
    (f : Slots) (lo hi : ℕ) (xs ys : List ℕ)
    → hi ≡ lo + length xs
    → Holds f lo xs
    → Holds f hi ys
    → Holds f lo (xs ++ ys)
Holds-append f lo hi [] ys e h k = let e' : hi ≡ lo = omega arith in rw e' at k
Holds-append f lo hi (x ∷ xs) ys e h k = (h.0, Holds-append f (suc lo) hi xs ys (omega arith) h.1 k)

pub Holds-before : (f : Slots) (lo : ℕ) (xs ys : List ℕ) → Holds f lo (xs ++ ys) → Holds f lo xs
Holds-before f lo [] ys h = tt
Holds-before f lo (x ∷ xs) ys h = (h.0, Holds-before f (suc lo) xs ys h.1)

pub Holds-behind :
    (f : Slots) (lo hi : ℕ) (xs ys : List ℕ)
    → hi ≡ lo + length xs
    → Holds f lo (xs ++ ys)
    → Holds f hi ys
Holds-behind f lo hi [] ys e h = let e' : lo ≡ hi = omega arith in rw e' at h
Holds-behind f lo hi (x ∷ xs) ys e h = Holds-behind f (suc lo) hi xs ys (omega arith) h.1

-- A write outside the live part is not seen.
pub Holds-update :
    (f : Slots) (lo i : ℕ) (xs : List ℕ) (a : Option ℕ)
    → (i < lo) ⊎ (lo + length xs ≤ i)
    → Holds f lo xs
    → Holds (update f i a) lo xs
Holds-update f lo i [] a out h = tt
Holds-update f lo i (x ∷ xs) a out h =
    (ground arith, Holds-update f (suc lo) i xs a (ground arith) h.1)

pub Holds-push :
    (f : Slots) (i t : ℕ) (xs : List ℕ)
    → i ≡ length xs
    → Holds f 0 xs
    → Holds (update f i (some t)) 0 (xs ++ t ∷ [])
Holds-push f i t xs e h =
    Holds-append (update f i (some t)) 0 i xs (t ∷ []) (omega arith)
      (Holds-update f 0 i xs (some t) (omega arith) h) (ground arith, tt)

-- The inner loop leaves the slots before it alone.
pub shift_before : (n : ℕ) (f : Slots) (i j : ℕ) → j < i → shift n f i j ≡ f j
unfolding shift
shift_before zero f i j h = refl
shift_before (suc n) f i j h =
    ground (arith, shift_before n (update f i (f (suc i))) (suc i) j (omega arith))

-- The inner loop moves what stands behind slot `i` one slot forward.
pub shift-Holds :
    (f : Slots) (i : ℕ) (xs : List ℕ) → Holds f (suc i) xs → Holds (shift (length xs) f i) i xs
unfolding shift
shift-Holds f i [] h = tt
shift-Holds f i (x ∷ xs) h =
    let f' = update f i (f (suc i)) in
    let moved : f' i ≡ some x = ground (arith, h.0) in
    let kept : f' (suc i) ≡ f (suc i) = ground arith in
    (
      shift_before (length xs) f' (suc i) i (omega arith) ∙ moved,
      shift-Holds f' (suc i) xs (Holds-update f (suc (suc i)) i xs (f (suc i)) (omega arith) h.1),
    )

pub Holds-shift_before :
    (n : ℕ) (f : Slots) (lo i : ℕ) (xs : List ℕ)
    → lo + length xs ≤ i
    → Holds f lo xs
    → Holds (shift n f i) lo xs
Holds-shift_before n f lo i [] e h = tt
Holds-shift_before n f lo i (x ∷ xs) e h = (
  shift_before n f i lo (omega arith) ∙ h.0,
  Holds-shift_before n f (suc lo) i xs (omega arith) h.1,
)

-- The slot behind `before` is cleared, and the rest moves up.
pub shift-Holds_cleared :
    (f : Slots) (size t : ℕ) (before behind : List ℕ)
    → size ≡ length before + suc (length behind)
    → Holds f 0 (before ++ t ∷ behind)
    → Holds
        (shift (size - 1 - length before) (update f (length before) none) (length before))
        0
        (before ++ behind)
shift-Holds_cleared f size t before behind e h =
    let i = length before in
    let f' = update f i none in
    let rounds : size - 1 - i ≡ length behind = omega arith in
    let rest = (Holds-behind f 0 i before (t ∷ behind) (omega arith) h).1 in
    rw rounds (
      Holds-append (shift (length behind) f' i) 0 i before behind (omega arith)
        (Holds-shift_before (length behind) f' 0 i before (omega arith)
          (Holds-update f 0 i before none (omega arith) (Holds-before f 0 before (t ∷ behind) h)))
        (shift-Holds f' i behind (Holds-update f (suc i) i behind none (omega arith) rest)))

-- What a slot of the live part holds.
pub Holds-eq :
    (f : Slots) (lo i x : ℕ) (xs ys : List ℕ)
    → i ≡ lo + length xs
    → Holds f lo (xs ++ x ∷ ys)
    → f i ≡ some x
Holds-eq f lo i x xs ys e h = (Holds-behind f lo i xs (x ∷ ys) e h).0

-- What the two queues of the scheduler hold.
pub record Queues (s : Sched) (ready waiting : List ℕ) : Type 0 where
  pub ready_holds : Holds s.ready_queue 0 ready
  pub ready_size : s.rq_size ≡ length ready
  pub waiting_holds : Holds s.waiting_queue 0 waiting
  pub waiting_size : s.wq_size ≡ length waiting
