-- ===== src/Booking/WriteServer/Reachable.antt =====
-- The write server of hw1/server.c as a system of steps: connections are accepted, and readable ones
-- are served in any order, while the clients send and other processes lock what they like.
use sp_homework.Common.{
  ℕ, ◌≡◌, ◌≢◌, ◌⊎◌, inl, inr, refl, Bool, true, false, some, arith, ◌==◌, ==_iff, Bool-cases, ap,
}
use sp_homework.Common.Int.{pos, negsuc}
use sp_homework.Booking.{unlocked, Server, Input, accept_on}
use sp_homework.Booking.WriteServer.{write_turn}
use sp_homework.Booking.WriteServer.Exclusive.{IsExclusive, keep_idle, write_turn-IsExclusive}
use sp_homework.Booking.WriteServer.Live.{IsLive, write_turn-IsLive}

-- The state behind init_server: every request at stage 0 and without a descriptor, but for the one of
-- the listening socket, and no record locked.
pub record IsFresh (s : Server) : Type 0 where
  pub idle : (i : ℕ) → (s.requests i).stage ≡ 0
  pub own : (i : ℕ) → ((s.requests i).conn_fd ≡ pos i) ⊎ ((s.requests i).conn_fd ≡ negsuc 0)
  pub free : (k : ℕ) → s.write_lock k ≡ false
  pub unheld : (k : ℕ) → s.held k ≡ unlocked

-- `accept` gives a descriptor that is not open, so it is not watched; `select` reports only what is
-- watched.
pub data Step (s : Server) : Server → Type 0 where
  accepts : (fd : ℕ) → s.master_set fd ≡ false → Step s (accept_on fd s)
  serves :
      (busy : ℕ → Bool) (input : Input) (i : ℕ) {s' : Server}
      → s.master_set i ≡ true
      → write_turn busy input i s ≡ some s'
      → Step s s'

pub data Reachable : Server → Type 0 where
  start : {s : Server} → IsFresh s → Reachable s
  next : {s s' : Server} → Reachable s → Step s s' → Reachable s'

fresh-IsExclusive : (s : Server) → IsFresh s → IsExclusive s
fresh-IsExclusive s fresh = record {
  unique = λ i j k hi hj. absurd (omega (arith, fresh.idle i, hi.0));
  locks = λ i k h. absurd (omega (arith, fresh.idle i, h.0));
  owned = λ k h. absurd (ground (arith, fresh.free k));
  freed = λ k h. fresh.unheld k;
}

fresh-IsLive : (s : Server) → IsFresh s → IsLive s
fresh-IsLive s fresh = record {
  own = fresh.own;
  books = λ i h. absurd (omega (arith, fresh.idle i));
}

accept_on-IsExclusive :
    (fd : ℕ) (s : Server) → IsExclusive s → (s.requests fd).stage ≢ 1 → IsExclusive (accept_on fd s)
unfolding accept_on
accept_on-IsExclusive fd s inv idle =
    let named = keep_idle inv fd (record (s.requests fd) { conn_fd = pos fd }) idle idle in
    keep_idle named fd _ (ground arith) (λ e. absurd (omega arith))

accept_on-IsLive : (fd : ℕ) (s : Server) → IsLive s → IsLive (accept_on fd s)
unfolding accept_on
accept_on-IsLive fd s inv = record {
  own = λ j. elim (Bool-cases (fd == j)) [
    | inl here ↦ rw (here, (==_iff fd fd).1 refl) (inl (ap pos ((==_iff fd j).0 here)))
    | inr other ↦ rw other (inv.own j)
  ];
  books = λ j h. ground (arith, inv.books j);
}

Step-kept : (s s' : Server) → Step s s' → IsExclusive s × IsLive s → IsExclusive s' × IsLive s'
Step-kept s s' (accepts fd closed) inv =
    let idle : (s.requests fd).stage ≢ 1 = λ e. ground (arith, closed, inv.1.books fd e) in
    (accept_on-IsExclusive fd s inv.0 idle, accept_on-IsLive fd s inv.1)
Step-kept s s' (serves busy input i watched turn) inv = (
  write_turn-IsExclusive busy i s inv.0 input turn,
  write_turn-IsLive busy i s inv.1 input watched turn,
)

pub kept : (s : Server) → Reachable s → IsExclusive s × IsLive s
kept s (start fresh) = (fresh-IsExclusive s fresh, fresh-IsLive s fresh)
kept s (next before step) = Step-kept _ s step (kept _ before)

-- In every state that the server reaches from its start by accepting connections and serving readable
-- ones, in any order, no two connections book on one record, exactly the records that are booked on
-- are marked in `writeLock`, and this process holds the write lock on each of them and no lock on any
-- other record. Each connection that books is watched for its command.
pub Reachable-IsExclusive :
    (s : Server)
    → Reachable s
    → IsExclusive s × ((i : ℕ) → (s.requests i).stage ≡ 1 → s.master_set i ≡ true)
Reachable-IsExclusive s reached = let (exclusive, live) = kept s reached in (exclusive, live.books)
