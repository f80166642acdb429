-- ===== src/Tests/Bookings.antt =====
-- hw1: the turns of both servers at concrete states.
use sp_homework.Common.{
  ◌⊎◌, inl, inr, ap, ==_iff, Bool-cases, ℕ, ◌≡◌, refl, true, false, Option, none, some, List, [],
  ◌∷◌, ◌==◌, ◌||◌, arith,
}
use sp_homework.Common.Int.{◌+ℤ◌, pos, negsuc}
use sp_homework.Booking.{
  Request, unlocked, read_locked, write_locked, Server, put, Input, bytes, end_of_file, valid_id,
  accept_on,
}
use sp_homework.Booking.ReadServer.{read_turn}
use sp_homework.Booking.ReadServer.Counting.{IsCounted}
use sp_homework.Booking.ReadServer.Turns.{read_turn-IsCounted}
use sp_homework.Booking.ReadServer.Ghost.{IsGhost, read_turn-IsGhost}
use sp_homework.Booking.WriteServer.Records.{Rewrites, write_turn-file}
use sp_homework.Booking.WriteServer.Reachable.{
  IsFresh, accepts, serves, Reachable, start, next, Reachable-IsExclusive,
}
use sp_homework.Booking.WriteServer.{write_turn, write_pass}
use sp_homework.Booking.WriteServer.Exclusive.{IsExclusive, write_pass-IsExclusive}
use sp_homework.Tests.Commands.{booked_record}

-- A request that reads its id on descriptor 4, and one that books on the record 3 on descriptor 5.
abbrev free : Request
free = record { conn_fd = negsuc 0; buf = []; buf_len = 0; id = 0; stage = 0 }

abbrev asking : Request
asking = record free { conn_fd = pos 4 }

abbrev booking : Request
booking = record free { conn_fd = pos 5; id = 3; stage = 1 }

abbrev one_books : Server
one_books = record {
  requests = put (put (λ i. free) 4 asking) 5 booking;
  master_set = λ d. (d == 4) || (d == 5);
  read_lock = λ k. pos 0;
  write_lock = put (λ k. false) 3 true;
  file =
      put (λ k. record { id = pos 0; food = pos 0; concert = pos 0; electronics = pos 0 }) 3
        booked_record;
  held = put (λ k. unlocked) 3 write_locked;
  effects = [];
}

one_books-IsExclusive : IsExclusive one_books
one_books-IsExclusive = record {
  unique = λ i j k hi hj. ground arith;
  locks = λ i k h. ground arith;
  owned = λ k h. (5, ground arith);
  freed = λ k h. ground arith;
}

-- Connection 4 asks for the record 2 while connection 5 books; then the pass is left by `break`.
abbrev readable : List (ℕ × Input)
readable = (4, bytes (b'9' ∷ b'0' ∷ b'2' ∷ b'0' ∷ b'0' ∷ b'3' ∷ 10 ∷ [])) ∷ (5, end_of_file) ∷ []

abbrev or_else : Option Server → Server → Server
or_else none s = s
or_else (some t) s = t

write_pass_run :
    write_pass (λ k. false) readable one_books
    ≡ some (or_else (write_pass (λ k. false) readable one_books) one_books)
unfolding write_pass valid_id
write_pass_run = refl

write_pass-IsExclusive_example :
    IsExclusive (or_else (write_pass (λ k. false) readable one_books) one_books)
write_pass-IsExclusive_example =
    write_pass-IsExclusive (λ k. false) readable one_books one_books-IsExclusive write_pass_run

-- The client on descriptor 5 adds 2 to its food: the record 3 is written.
abbrev adds_food : Input
adds_food = bytes (b'2' ∷ 32 ∷ b'0' ∷ 32 ∷ b'0' ∷ 10 ∷ [])

abbrev added_food : Server
added_food = or_else (write_turn (λ k. false) adds_food 5 one_books) one_books

added_food_run : write_turn (λ k. false) adds_food 5 one_books ≡ some added_food
unfolding write_turn ◌+ℤ◌
added_food_run = refl

write_turn-file_example :
    (added_food.file ≡ one_books.file) ⊎ Rewrites adds_food 5 one_books added_food
write_turn-file_example = write_turn-file (λ k. false) adds_food 5 one_books added_food_run

added_food_file : (added_food.file 3).food ≡ pos 3
unfolding write_turn ◌+ℤ◌
added_food_file = refl

-- The client on descriptor 4 has sent the id of the record 3 and asks to see the bookings.
abbrev reading : Server
reading = record {
  requests = put (put (λ i. free) 4 asking) 5 booking;
  master_set = λ d. (d == 4) || (d == 5);
  read_lock = put (λ k. pos 0) 3 (pos 1);
  write_lock = λ k. false;
  file = λ k. booked_record;
  held = put (λ k. unlocked) 3 read_locked;
  effects = [];
}

reading-IsCounted : IsCounted 8 reading
reading-IsCounted = record { counted = λ k. ground arith; lock = λ k. ground arith }

abbrev asks_three : Input
asks_three = bytes (b'9' ∷ b'0' ∷ b'2' ∷ b'0' ∷ b'0' ∷ b'4' ∷ 10 ∷ [])

read_turn_run :
    read_turn (λ k. false) asks_three 4 reading
    ≡ some (or_else (read_turn (λ k. false) asks_three 4 reading) reading)
unfolding read_turn valid_id
read_turn_run = refl

read_turn-IsCounted_example :
    IsCounted 8 (or_else (read_turn (λ k. false) asks_three 4 reading) reading)
read_turn-IsCounted_example =
    read_turn-IsCounted 8 (omega arith) 4 (omega arith) (λ k. false) asks_three reading
      reading-IsCounted read_turn_run

-- The buffer of slot 4 still holds "902004".
abbrev left_behind : Server
left_behind = record reading {
  requests =
      put reading.requests 4 (record asking { buf = b'9' ∷ b'0' ∷ b'2' ∷ b'0' ∷ b'0' ∷ b'4' ∷ [] });
}

read_turn-IsGhost_example :
    (s' : Server) × (read_turn (λ k. false) end_of_file 4 left_behind ≡ some s') × IsGhost 4 3 4 s'
unfolding valid_id
read_turn-IsGhost_example =
    read_turn-IsGhost 4 3 4 (λ k. false) left_behind refl refl refl refl refl

-- From the start, with the listening socket on descriptor 3, a client connects on 4 and asks for the
-- record 3, which is locked for it.
abbrev begun : Server
begun = record one_books {
  requests = put (λ i. free) 3 (record free { conn_fd = pos 3 });
  master_set = put (λ d. false) 3 true;
  write_lock = λ k. false;
  held = λ k. unlocked;
}

begun-IsFresh : IsFresh begun
begun-IsFresh = record {
  idle = λ i. ground arith;
  own = λ i. own_fd i;
  free = λ k. refl;
  unheld = λ k. refl;
}
  where
    own_fd :
        (i : ℕ) → ((begun.requests i).conn_fd ≡ pos i) ⊎ ((begun.requests i).conn_fd ≡ negsuc 0)
    own_fd i = elim (Bool-cases (3 == i)) [
      | inl here ↦ inl (rw here (ap pos ((==_iff 3 i).0 here)))
      | inr other ↦ inr (rw other refl)
    ]

abbrev now_books : Server
now_books = or_else (write_turn (λ k. false) asks_three 4 (accept_on 4 begun)) begun

now_books_run : write_turn (λ k. false) asks_three 4 (accept_on 4 begun) ≡ some now_books
unfolding write_turn valid_id accept_on
now_books_run = refl

now_books-Reachable : Reachable now_books
unfolding accept_on
now_books-Reachable =
    next (next (start begun-IsFresh) (accepts 4 refl))
      (serves (λ k. false) asks_three 4 refl now_books_run)

-- It does book.
now_books_stage : (now_books.requests 4).stage ≡ 1
unfolding write_turn valid_id accept_on
now_books_stage = refl

Reachable-IsExclusive_example :
    IsExclusive now_books
    × ((i : ℕ) → (now_books.requests i).stage ≡ 1 → now_books.master_set i ≡ true)
Reachable-IsExclusive_example = Reachable-IsExclusive now_books now_books-Reachable
