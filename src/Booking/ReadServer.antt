-- ===== src/Booking/ReadServer.antt =====
-- hw1/server.c under READ_SERVER: one turn of a connection that is readable.
pub mod Counting
pub mod Turns
pub mod Ghost
pub mod Loop
use sp_homework.Common.{
  ℕ, Bool, true, false, ◌&&◌, Option, none, some, List, [], ◌∷◌, ◌==◌, if◌then◌else◌,
}
use sp_homework.Common.Int.{pos, int_add, int_sub, eqb_ℤ}
use sp_homework.Booking.{
  failed, locked, booked, read_locked, Server, put, Input, ReadResult, line, exits, handle_read,
  stored, valid_id, lock_on, lock_off, hang_up, answer,
}

-- The record `k` is open to the client in slot `i`: the lock is counted, and the bookings are sent.
unfoldable pub show_bookings : ℕ → ℕ → Server → Server
unfolding answer
show_bookings i k s =
    let s' = record s { read_lock = put s.read_lock k (int_add (s.read_lock k) (pos 1)) } in
    let r = s'.file k in
    let s'' = answer i (booked r.food r.concert r.electronics) s' in
    record s'' { requests = put s''.requests i (record (s''.requests i) { stage = 1; id = k }) }

-- The client asks for record `k`.
unfoldable pub open_record : Bool → ℕ → ℕ → Server → Server
unfolding show_bookings lock_on answer hang_up
open_record busy i k s =
    if s.write_lock k then hang_up i (answer i locked s) else elim (lock_on read_locked busy k s) [
      | some s' ↦ show_bookings i k s'
      | none ↦ hang_up i (answer i locked s)
    ]

-- The request in the slot as handle_read leaves it.
unfoldable pub receive : ReadResult → ℕ → Server → Server
unfolding stored
receive result i s = record s { requests = put s.requests i (stored result (s.requests i)) }

-- The part behind handle_read at stage 0. It also runs where handle_read failed and the request was
-- freed: then `buf` is what an earlier connection left.
unfoldable pub check_id : (ℕ → Bool) → ℕ → Server → Server
unfolding open_record answer hang_up
check_id busy i s = elim (valid_id (s.requests i).buf) [
  | some k ↦ open_record (busy k) i k s
  | none ↦ if (s.requests i).stage == 0 then hang_up i (answer i failed s) else s
]

unfoldable pub read_stage0 : (ℕ → Bool) → ReadResult → ℕ → Server → Option Server
unfolding check_id receive hang_up
read_stage0 busy exits i s = none
read_stage0 busy (line text) i s = some (check_id busy i (receive (line text) i s))
read_stage0 busy result i s = some (check_id busy i (hang_up i s))

-- strcmp(buf, "Exit") == 0
unfoldable pub is_exit : List ℕ → Bool
is_exit (a ∷ b ∷ c ∷ d ∷ []) = (a == b'E') && (b == b'x') && (c == b'i') && (d == b't')
is_exit cs = false

-- The connection in slot `i` ends, and its read lock with it.
unfoldable pub release : ℕ → Server → Server
unfolding hang_up lock_off
release i s =
    let k = (s.requests i).id in
    let s' = hang_up i s in
    let s'' = record s' { read_lock = put s'.read_lock k (int_sub (s'.read_lock k) (pos 1)) } in
    if eqb_ℤ (s''.read_lock k) (pos 0) then lock_off k s'' else s''

unfoldable pub read_stage1 : ReadResult → ℕ → Server → Option Server
unfolding release receive is_exit
read_stage1 exits i s = none
read_stage1 (line text) i s =
    let s' = receive (line text) i s in some (if is_exit text then release i s' else s')
read_stage1 result i s = some (release i s)

-- The body of the loop for a readable connection; `none` is the end of the process.
unfoldable pub read_turn : (ℕ → Bool) → Input → ℕ → Server → Option Server
unfolding read_stage0 read_stage1 handle_read
read_turn busy input i s =
    if (s.requests i).stage == 0
    then read_stage0 busy (handle_read input) i s
    else if (s.requests i).stage == 1
    then read_stage1 (handle_read input) i s
    else some s
