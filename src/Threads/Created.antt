-- ===== src/Threads/Created.antt =====
-- The threads that `init_threads` of hw3/main.c creates, block by block.
use mathlib.Core.List.{append-nil}
use sp_homework.Common.{
  ℕ, zero, suc, ◌+◌, ◌<◌, ◌≤◌, ◌≡◌, refl, ap, arith, if◌then◌else◌, ◌==◌, List, [], ◌∷◌, ◌++◌,
  length, length-append, Bool-cases, inl, inr, lt→ltb, none, some,
}
use sp_homework.Common.Int.{ℤ, pos, ltb_ℤ}
use sp_homework.Scheduler.{thread_max, update}
use sp_homework.Scheduler.Arrays.{Queues, Holds-push}
use sp_homework.Threads.{Tcb, System, thread_setup, create_if, init_threads}

-- The globals before `init_threads`: NULL slots and zero sizes.
abbrev pub blank : (ℕ → Tcb) → System
blank tcbs = record {
  tcbs = tcbs;
  allocated = 0;
  sched = record {
    ready_queue = λ _. none;
    waiting_queue = λ _. none;
    rq_size = 0;
    rq_current = 0;
    wq_size = 0;
  };
}

-- A block as `calloc` and the assignments of `thread_setup` leave it.
abbrev pub fresh : ℤ → ℤ → ℕ → Tcb
fresh id arg fifo_fd = record {
  id = id;
  arg = arg;
  fd = fifo_fd;
  buf = [];
  i = pos 0;
  x = pos 0;
  y = pos 0;
}

abbrev pub Blocks : (ℕ → Tcb) → ℕ → List Tcb → Type 0
Blocks f lo [] = Unit {0}
Blocks f lo (b ∷ bs) = (f lo ≡ b) × Blocks f (suc lo) bs

abbrev pub upto : ℕ → ℕ → List ℕ
upto lo zero = []
upto lo (suc n) = lo ∷ upto (suc lo) n

upto_snoc : (lo n k : ℕ) → k ≡ lo + n → upto lo n ++ k ∷ [] ≡ upto lo (suc n)
upto_snoc lo zero k e = let here : k ≡ lo = omega arith in rw here
upto_snoc lo (suc n) k e = ap (◌∷◌ lo) (upto_snoc (suc lo) n k (omega arith))

pub length-upto : (lo n : ℕ) → length (upto lo n) ≡ n
length-upto lo zero = refl
length-upto lo (suc n) = ap suc (length-upto (suc lo) n)

-- The blocks of the list are allocated in order, and all of them are ready in order.
pub record Booted (s : System) (bs : List Tcb) : Type 0 where
  pub allocated : s.allocated ≡ length bs
  pub blocks : Blocks s.tcbs 0 bs
  pub queues : Queues s.sched (upto 0 (length bs)) []

Blocks-push :
    (f : ℕ → Tcb) (lo k : ℕ) (b : Tcb) (bs : List Tcb)
    → k ≡ lo + length bs
    → Blocks f lo bs
    → Blocks (λ j. if k == j then b else f j) lo (bs ++ b ∷ [])
Blocks-push f lo k b [] e h = (ground arith, tt)
Blocks-push f lo k b (c ∷ bs) e h = (ground arith, Blocks-push f (suc lo) k b bs (omega arith) h.1)

setup_lem :
    (id arg : ℤ) (fifo_fd : ℕ) (s : System) (bs : List Tcb)
    → Booted s bs
    → length bs < thread_max
    → (s' : System) × (thread_setup id arg fifo_fd s ≡ some s')
      × Booted s' (bs ++ fresh id arg fifo_fd ∷ [])
unfolding thread_setup
setup_lem id arg fifo_fd s bs b room =
    let q = b.queues in
    let size : s.sched.rq_size ≡ length bs =
      omega (arith, q.ready_size, length-upto 0 (length bs)) in
    let longer = length-append {0} bs (fresh id arg fifo_fd ∷ []) in
    let more : length (bs ++ fresh id arg fifo_fd ∷ []) ≡ suc (length bs) = omega arith in
    (
      record s {
        tcbs = λ j. if s.allocated == j then fresh id arg fifo_fd else s.tcbs j;
        allocated = s.allocated + 1;
        sched = record s.sched {
          ready_queue = update s.sched.ready_queue s.sched.rq_size (some s.allocated);
          rq_size = s.sched.rq_size + 1;
        };
      },
      rw (lt→ltb s.sched.rq_size thread_max (omega arith)),
      record {
        allocated = omega (arith, b.allocated);
        blocks = Blocks-push s.tcbs 0 s.allocated _ bs (omega (arith, b.allocated)) b.blocks;
        queues = record {
          ready_holds =
              let pushed =
                Holds-push s.sched.ready_queue s.sched.rq_size s.allocated (upto 0 (length bs))
                  q.ready_size q.ready_holds in
              rw more
                (rw (upto_snoc 0 (length bs) s.allocated (omega (arith, b.allocated))) at pushed);
          ready_size = omega (arith, length-upto 0 (length (bs ++ fresh id arg fifo_fd ∷ [])));
          waiting_holds = q.waiting_holds;
          waiting_size = q.waiting_size;
        };
      },
    )

-- The blocks that an argument of the command line makes: none if it is negative.
abbrev pub created : ℤ → ℤ → ℕ → List Tcb
created id arg fifo_fd = if ltb_ℤ arg (pos 0) then [] else fresh id arg fifo_fd ∷ []

create_lem :
    (id arg : ℤ) (fifo_fd : ℕ) (s : System) (bs : List Tcb)
    → Booted s bs
    → length bs < thread_max
    → (s' : System) × (create_if id arg fifo_fd s ≡ some s')
      × Booted s' (bs ++ created id arg fifo_fd)
unfolding create_if
create_lem id arg fifo_fd s bs b room = elim (Bool-cases (ltb_ℤ arg (pos 0))) [
  | inl negative ↦ rw (negative, append-nil bs) (s, refl, b)
  | inr natural ↦ rw natural (setup_lem id arg fifo_fd s bs b room)
]

length-created : (id arg : ℤ) (fifo_fd : ℕ) → length (created id arg fifo_fd) ≤ 1
length-created id arg fifo_fd = ground arith

-- All the blocks that `main` creates.
abbrev pub all_created : ℤ → ℤ → ℤ → (ℕ → ℕ) → List Tcb
all_created fib_arg col_arg sub_arg fifo_fd =
    (created (pos 0) fib_arg (fifo_fd 0) ++ created (pos 1) col_arg (fifo_fd 1))
    ++ created (pos 2) sub_arg (fifo_fd 2)

pub length-all_created :
    (fib_arg col_arg sub_arg : ℤ) (fifo_fd : ℕ → ℕ)
    → length (all_created fib_arg col_arg sub_arg fifo_fd) ≤ 3
length-all_created fib_arg col_arg sub_arg fifo_fd =
    let fib = created (pos 0) fib_arg (fifo_fd 0) in
    let col = created (pos 1) col_arg (fifo_fd 1) in
    let sub = created (pos 2) sub_arg (fifo_fd 2) in
    omega (
      arith,
      length-append {0} (fib ++ col) sub,
      length-append {0} fib col,
      length-created (pos 0) fib_arg (fifo_fd 0),
      length-created (pos 1) col_arg (fifo_fd 1),
      length-created (pos 2) sub_arg (fifo_fd 2),
    )

pub Booted-init :
    (fib_arg col_arg sub_arg : ℤ) (fifo_fd : ℕ → ℕ) (tcbs : ℕ → Tcb)
    → (s : System) × (init_threads fib_arg col_arg sub_arg fifo_fd (blank tcbs) ≡ some s)
      × Booted s (all_created fib_arg col_arg sub_arg fifo_fd)
unfolding init_threads
Booted-init fib_arg col_arg sub_arg fifo_fd tcbs =
    let fib = created (pos 0) fib_arg (fifo_fd 0) in
    let col = created (pos 1) col_arg (fifo_fd 1) in
    let start : Booted (blank tcbs) [] = record {
      allocated = refl;
      blocks = tt;
      queues = record {
        ready_holds = tt;
        ready_size = refl;
        waiting_holds = tt;
        waiting_size = refl;
      };
    } in
    let (s1, e1, b1) = create_lem (pos 0) fib_arg (fifo_fd 0) (blank tcbs) [] start (omega arith) in
    let one = length-created (pos 0) fib_arg (fifo_fd 0) in
    let two = length-created (pos 1) col_arg (fifo_fd 1) in
    let (s2, e2, b2) = create_lem (pos 1) col_arg (fifo_fd 1) s1 fib b1 (omega (arith, one)) in
    let (s3, e3, b3) =
      create_lem (pos 2) sub_arg (fifo_fd 2) s2 (fib ++ col) b2
        (omega (arith, one, two, length-append {0} fib col)) in
    (s3, rw (e1, e2, e3), b3)
