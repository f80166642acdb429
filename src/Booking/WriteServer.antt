-- ===== src/Booking/WriteServer.antt =====
-- hw1/server.c under WRITE_SERVER: one turn of a connection that is readable.
pub mod Exclusive
pub mod Limits
pub mod Words
pub mod Records
pub mod Live
pub mod Reachable
pub mod Others
pub mod Loop
use sp_homework.Common.{
  ℕ, zero, suc, ◌+◌, ◌≡◌, Bool, true, false, ◌&&◌, ◌||◌, not, Option, none, some, List, [], ◌∷◌,
  ◌++◌, ◌==◌, if◌then◌else◌,
}
use sp_homework.Common.Int.{ℤ, pos, int_add, ltb_ℤ, eqb_ℤ}
use sp_homework.Booking.{
  Record, Request, Message, failed, locked, booked, too_many, too_few, updated, Lock, write_locked,
  Server, put, Input, ReadResult, minus_one, nothing, line, exits, handle_read, stored, valid_id,
  isint, lock_on, lock_off, hang_up, answer,
}
use sp_homework.Booking.ReadServer.{receive}

abbrev pub ends : ReadResult → Bool
ends minus_one = true
ends nothing = true
ends result = false

-- The record `k` is locked for the client in slot `i`, and the bookings are sent.
unfoldable pub start_booking : ℕ → ℕ → Server → Server
unfolding answer
start_booking i k s =
    let s' = record s { write_lock = put s.write_lock k true } in
    let r = s'.file k in
    let s'' = answer i (booked r.food r.concert r.electronics) s' in
    record s'' { requests = put s''.requests i (record (s''.requests i) { stage = 1; id = k }) }

unfoldable pub lock_record : Bool → ℕ → ℕ → Server → Server
unfolding start_booking lock_on answer hang_up
lock_record busy i k s =
    if s.write_lock k || not (eqb_ℤ (s.read_lock k) (pos 0))
    then hang_up i (answer i locked s)
    else elim (lock_on write_locked busy k s) [
      | some s' ↦ start_booking i k s'
      | none ↦ hang_up i (answer i locked s)
    ]

unfoldable pub check_line : (ℕ → Bool) → ℕ → Server → Server
unfolding lock_record answer hang_up
check_line busy i s = elim (valid_id (s.requests i).buf) [
  | some k ↦ lock_record (busy k) i k s
  | none ↦ hang_up i (answer i failed s)
]

unfoldable pub write_stage0 : (ℕ → Bool) → ReadResult → ℕ → Server → Option Server
unfolding check_line receive hang_up
write_stage0 busy exits i s = none
write_stage0 busy (line text) i s = some (check_line busy i (receive (line text) i s))
write_stage0 busy result i s = some (hang_up i s)

-- strtok(s, " "): the tokens between spaces, none empty.
unfoldable pub add_char : ℕ → Bool → List (List ℕ) → List (List ℕ)
add_char c true [] = (c ∷ []) ∷ []
add_char c true (t ∷ ts) = (c ∷ t) ∷ ts
add_char c false ts = (c ∷ []) ∷ ts

abbrev pub starts_token : List ℕ → Bool
starts_token [] = false
starts_token (c ∷ cs) = not (c == 32)

unfoldable pub tokens : List ℕ → List (List ℕ)
unfolding add_char
tokens [] = []
tokens (c ∷ cs) = let ts = tokens cs in if c == 32 then ts else add_char c (starts_token cs) ts

-- What becomes of a command: the process ends (a missing token is a NULL that isint follows), a
-- message of failure, or the new record.
pub data Verdict : Type 0 where
  crash : Verdict
  refuse : Message → Verdict
  accept : Record → Verdict

-- The test of the total and of each count, on wrapped sums.
unfoldable pub judge : Record → (food concert electronics : ℤ) → Verdict
judge r food concert electronics =
    let total = int_add (int_add r.food r.concert) r.electronics in
    if ltb_ℤ (pos 15) (int_add (int_add (int_add total food) concert) electronics)
    then refuse too_many
    else if ltb_ℤ (int_add food r.food) (pos 0)
    then refuse too_few
    else if ltb_ℤ (int_add concert r.concert) (pos 0)
    then refuse too_few
    else if ltb_ℤ (int_add electronics r.electronics) (pos 0)
    then refuse too_few
    else accept (record r {
      food = int_add r.food food;
      concert = int_add r.concert concert;
      electronics = int_add r.electronics electronics;
    })

-- isint of each token in turn: the first one that is no number is reported, a missing one is fatal.
unfoldable pub third_number : Record → ℤ → ℤ → List (List ℕ) → Verdict
unfolding isint judge
third_number r food concert [] = crash
third_number r food concert (t ∷ ts) = elim (isint t) [
  | none ↦ refuse failed
  | some electronics ↦ judge r food concert electronics
]

unfoldable pub second_number : Record → ℤ → List (List ℕ) → Verdict
unfolding isint third_number
second_number r food [] = crash
second_number r food (t ∷ ts) = elim (isint t) [
  | none ↦ refuse failed
  | some concert ↦ third_number r food concert ts
]

unfoldable pub parse_command : Record → List (List ℕ) → Verdict
unfolding isint second_number
parse_command r [] = crash
parse_command r (t ∷ ts) = elim (isint t) [
  | none ↦ refuse failed
  | some food ↦ second_number r food ts
]

-- FD_CLR, close, free_request, `writeLock[curr_id] = 0` and LockOff.
unfoldable pub finish : ℕ → Server → Server
unfolding hang_up lock_off
finish i s =
    let k = (s.requests i).id in
    let s' = hang_up i s in lock_off k (record s' { write_lock = put s'.write_lock k false })

unfoldable pub conclude : Verdict → ℕ → Server → Option Server
unfolding finish answer
conclude crash i s = none
conclude (refuse m) i s = some (finish i (answer i m s))
conclude (accept r) i s =
    let s' = record s { file = put s.file (s.requests i).id r } in
    some (finish i (answer i (updated r) s'))

-- The command in the buffer. strtok also cuts the buffer; each path behind it frees the request, and
-- nothing reads the buffer before a new line is stored, so the model leaves it whole.
unfoldable pub book : ℕ → Server → Option Server
unfolding conclude parse_command tokens
book i s = let r = s.requests i in conclude (parse_command (s.file r.id) (tokens r.buf)) i s

unfoldable pub write_stage1 : ReadResult → ℕ → Server → Option Server
unfolding book receive finish
write_stage1 exits i s = none
write_stage1 (line text) i s = book i (receive (line text) i s)
write_stage1 result i s = some (finish i s)

-- The body of the loop for a readable connection; `none` is the end of the process.
unfoldable pub write_turn : (ℕ → Bool) → Input → ℕ → Server → Option Server
unfolding write_stage0 write_stage1 handle_read
write_turn busy input i s =
    if (s.requests i).stage == 0
    then write_stage0 busy (handle_read input) i s
    else if (s.requests i).stage == 1
    then write_stage1 (handle_read input) i s
    else some s

-- `break`: after the end of a connection at stage 1 the loop takes no further connection.
unfoldable pub breaks : Input → ℕ → Server → Bool
unfolding handle_read
breaks input i s = ((s.requests i).stage == 1) && ends (handle_read input)

-- The loop over the readable connections, in order.
unfoldable pub write_pass : (ℕ → Bool) → List (ℕ × Input) → Server → Option Server
unfolding write_turn breaks
write_pass busy [] s = some s
write_pass busy ((i, input) ∷ rest) s = elim (write_turn busy input i s) [
  | none ↦ none
  | some s' ↦ if breaks input i s then some s' else write_pass busy rest s'
]
