-- ===== src/Threads.antt =====
-- hw3/threadtools.h, hw3/threads.c and hw3/main.c: thread blocks, their creation, and the three
-- thread functions between two switches.
pub mod Created
pub mod Boot
pub mod Collatz
pub mod Fibonacci
pub mod Runs
pub mod MaxSubarray
pub mod Machine
use sp_homework.Common.{
  ◌>>=◌, ℕ, zero, suc, ◌+◌, ◌-◌, ◌≡◌, Bool, true, false, Option, none, some, List, [], ◌∷◌, ◌++◌,
  ◌==◌, ltb, if◌then◌else◌, length, drop, take,
}
use sp_homework.Common.Int.{
  ℤ, pos, negsuc, int_add, int_mul, int_half, is_even, ltb_ℤ, eqb_ℤ, ◌+ℤ◌, ◌*ℤ◌, to_int,
}
use sp_homework.Common.Text.{c_string, atoi}
use sp_homework.Scheduler.{Slots, Sched, thread_max, update}
use sp_homework.Scheduler.View.{Event, yield, block, exit}

-- struct tcb, less the jump buffer and `fifoName`, which nothing reads
pub record Tcb : Type 0 where
  pub id : ℤ
  pub arg : ℤ
  pub fd : ℕ
  pub buf : List ℕ
  pub i : ℤ
  pub x : ℤ
  pub y : ℤ

-- The thread blocks by number, and how many are allocated, beside the scheduler's globals.
pub record System : Type 0 where
  pub tcbs : ℕ → Tcb
  pub allocated : ℕ
  pub sched : Sched

-- thread_setup, with the descriptor that `open` gives. The array bound is a fault.
unfoldable pub thread_setup : ℤ → ℤ → ℕ → System → Option System
thread_setup id arg fifo_fd s =
    if ltb s.sched.rq_size thread_max
    then some (record s {
      tcbs = λ j.
          if s.allocated == j
          then record {
            id = id;
            arg = arg;
            fd = fifo_fd;
            buf = [];
            i = pos 0;
            x = pos 0;
            y = pos 0;
          }
          else s.tcbs j;
      allocated = s.allocated + 1;
      sched = record s.sched {
        ready_queue = update s.sched.ready_queue s.sched.rq_size (some s.allocated);
        rq_size = s.sched.rq_size + 1;
      };
    })
    else none

-- `if (arg >= 0) thread_create(func, id, arg)`
unfoldable pub create_if : ℤ → ℤ → ℕ → System → Option System
create_if id arg fifo_fd s = if ltb_ℤ arg (pos 0) then some s else thread_setup id arg fifo_fd s

unfoldable pub init_threads : ℤ → ℤ → ℤ → (ℕ → ℕ) → System → Option System
init_threads fib_arg col_arg sub_arg fifo_fd s =
    create_if (pos 0) fib_arg (fifo_fd 0) s
    >>= create_if (pos 1) col_arg (fifo_fd 1)
    >>= create_if (pos 2) sub_arg (fifo_fd 2)

-- The start of a loop `for (i = 1; ; i++)`, and its step when the thread is resumed.
unfoldable pub first_round : Tcb → Tcb
first_round t = record t { i = pos 1 }

unfoldable pub next_round : Tcb → Tcb
next_round t = record t { i = int_add t.i (pos 1) }

-- The assignments of one round of `fibonacci`.
unfoldable pub fib_body : Tcb → Tcb
fib_body t =
    if ltb_ℤ (pos 2) t.i
    then record t { y = int_add t.x t.y; x = t.y }
    else record t { x = pos 1; y = pos 1 }

-- A round ends in thread_exit or in thread_yield.
unfoldable pub fibonacci : Tcb → Tcb × Event
fibonacci t = let t' = fib_body t in (t', if eqb_ℤ t'.i t'.arg then exit else yield)

unfoldable pub collatz_start : Tcb → Tcb
collatz_start t = if eqb_ℤ t.i (pos 1) then record t { x = t.arg } else t

unfoldable pub collatz_body : Tcb → Tcb
collatz_body t =
    let t' = collatz_start t in
    if is_even t'.x
    then record t' { x = int_half t'.x }
    else record t' { x = int_add (int_mul t'.x (pos 3)) (pos 1) }

unfoldable pub collatz : Tcb → Tcb × Event
collatz t = let t' = collatz_body t in (t', if eqb_ℤ t'.x (pos 1) then exit else yield)

-- A round of `max_subarray` up to async_read, which jumps to the scheduler with 2.
unfoldable pub max_begin : Tcb → Tcb × Event
max_begin t = (if eqb_ℤ t.i (pos 1) then record t { x = pos 0; y = pos 0 } else t, block)

-- `read` overwrites the first bytes of the buffer.
pub read_into : List ℕ → Tcb → Tcb
read_into chunk t = record t { buf = chunk ++ drop (length chunk) t.buf }

pub max_body : ℤ → Tcb → Tcb
max_body num t =
    let a = int_add t.x num in
    let x' = if ltb_ℤ num a then a else num in
    record t { x = x'; y = if ltb_ℤ t.y x' then x' else t.y }

-- The rest of the round, with the bytes that `read` delivers.
pub max_subarray : List ℕ → Tcb → Tcb × Event
max_subarray chunk t =
    let t' = read_into chunk t in
    let t'' = max_body (atoi (c_string t'.buf)) t' in
    (t'', if ltb_ℤ t''.i t''.arg then yield else exit)
