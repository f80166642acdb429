-- ===== src/Booking.antt =====
-- hw1/server.c: requests, the booking file and its locks, and what both servers share: reading a line,
-- checking an id, parsing a number, accepting and closing a connection.
pub mod Parsing
pub mod ReadServer
pub mod WriteServer
pub mod Start
use sp_homework.Common.{
  ℕ, zero, suc, ◌+◌, ◌-◌, ◌≡◌, Bool, true, false, ◌&&◌, ◌||◌, not, Option, none, some, List, [],
  ◌∷◌, ◌++◌, ◌==◌, ltb, leb, if◌then◌else◌, length,
}
use sp_homework.Common.Int.{ℤ, pos, negsuc, ltb_ℤ, to_int}
use sp_homework.Common.Text.{is_digit, strtol, c_string}

-- record: the id and `bookingState`
pub record Record : Type 0 where
  pub id : ℤ
  pub food : ℤ
  pub concert : ℤ
  pub electronics : ℤ

-- request, with `buf` as the string that it holds; `host` and `wait_for_write` are only written.
pub record Request : Type 0 where
  pub conn_fd : ℤ
  pub buf : List ℕ
  pub buf_len : ℕ
  pub id : ℕ
  pub stage : ℕ

-- What a server sends.
pub data Message : Type 0 where
  enter_id failed locked too_many too_few : Message
  booked : (food concert electronics : ℤ) → Message
  updated : Record → Message

-- A descriptor is -1 in a request that was freed; the calls on it fail.
pub data Effect : Type 0 where
  send : ℤ → Message → Effect
  close : ℤ → Effect

-- The lock of this process on a record, as fcntl keeps it.
pub data Lock : Type 0 where
  unlocked read_locked write_locked : Lock

-- The globals, the file by record, the descriptors in `master_set`, the locks that this process holds
-- on the records, and what has been sent and closed, the latest first.
pub record Server : Type 0 where
  pub requests : ℕ → Request
  pub master_set : ℕ → Bool
  pub read_lock : ℕ → ℤ
  pub write_lock : ℕ → Bool
  pub file : ℕ → Record
  pub held : ℕ → Lock
  pub effects : List Effect

abbrev pub put {ℓ} : {A : Type ℓ} → (ℕ → A) → ℕ → A → ℕ → A
put f i a j = if i == j then a else f j

-- What `read` on a connection gives.
pub data Input : Type 0 where
  read_error end_of_file : Input
  bytes : List ℕ → Input

-- How handle_read ends; `exits` is ERR_EXIT.
pub data ReadResult : Type 0 where
  minus_one nothing : ReadResult
  line : List ℕ → ReadResult
  exits : ReadResult

-- strstr(buf, "\r\n") and strstr(buf, "\n"): the text before the first one.
unfoldable pub before_crlf : List ℕ → Option (List ℕ)
before_crlf [] = none
before_crlf (c ∷ []) = none
before_crlf (c ∷ d ∷ cs) =
    let rest = before_crlf (d ∷ cs) in
    if (c == 13) && (d == 10)
    then some []
    else elim rest [ none ↦ none | some text ↦ some (c ∷ text) ]

unfoldable pub before_lf : List ℕ → Option (List ℕ)
before_lf [] = none
before_lf (c ∷ cs) =
    let rest = before_lf cs in
    if c == 10 then some [] else elim rest [ none ↦ none | some text ↦ some (c ∷ text) ]

-- !strncmp(buf, IAC_IP, 2)
unfoldable pub is_interrupt : List ℕ → Bool
is_interrupt (a ∷ b ∷ cs) = (a == 0xff) && (b == 0xf4)
is_interrupt cs = false

unfoldable pub parse_line : List ℕ → ReadResult
unfolding before_crlf before_lf is_interrupt
parse_line buf = elim (before_crlf buf) [
  | some text ↦ line text
  | none ↦ elim (before_lf buf) [
    | some text ↦ line text
    | none ↦ if is_interrupt buf then nothing else exits
  ]
]

unfoldable pub handle_read : Input → ReadResult
unfolding parse_line c_string
handle_read read_error = minus_one
handle_read end_of_file = nothing
handle_read (bytes []) = nothing
handle_read (bytes (c ∷ cs)) = parse_line (c_string (c ∷ cs))

-- The buffer after handle_read: only a line is stored.
unfoldable pub stored : ReadResult → Request → Request
stored (line text) r = record r { buf = text; buf_len = length text }
stored result r = r

-- The index of the record of an id that is in range and was written with six characters.
unfoldable pub id_index : ℕ → ℤ → Option ℕ
id_index len (pos n) =
    if leb 902001 n && leb n 902020 && (len == 6) then some (n - 902001) else none
id_index len (negsuc n) = none

-- `none` is the value -1.
unfoldable pub valid_id : List ℕ → Option ℕ
unfolding id_index strtol to_int
valid_id str = id_index (length str) (to_int (strtol 0 str))

unfoldable pub all_digits : List ℕ → Bool
unfolding is_digit
all_digits [] = true
all_digits (c ∷ cs) = is_digit c && all_digits cs

-- `-` and at least one more character, all digits
unfoldable pub is_negative : List ℕ → Bool
unfolding all_digits
is_negative (c ∷ d ∷ cs) = (c == b'-') && all_digits (d ∷ cs)
is_negative cs = false

-- `none` is `*err = 1`. The long that strtol gives is converted to `int`.
unfoldable pub isint : List ℕ → Option ℤ
unfolding all_digits is_negative strtol to_int
isint str = if all_digits str || is_negative str then some (to_int (strtol 0 str)) else none

-- RDLockOn, WRLockOn and LockOff on a record: `busy` says that another process has a lock that stands
-- in the way, and then the call gives -1 and changes nothing.
unfoldable pub lock_on : Lock → (busy : Bool) → ℕ → Server → Option Server
lock_on kind true k s = none
lock_on kind false k s = some (record s { held = put s.held k kind })

unfoldable pub lock_off : ℕ → Server → Server
lock_off k s = record s { held = put s.held k unlocked }

-- init_request, through free_request: `buf` keeps its bytes.
unfoldable pub free_request : Request → Request
free_request r = record r { conn_fd = negsuc 0; buf_len = 0; id = 0; stage = 0 }

-- FD_CLR. At the descriptor -1 of a freed request C leaves it undefined; here nothing is cleared.
unfoldable pub fd_clr : ℤ → (ℕ → Bool) → ℕ → Bool
fd_clr (pos n) set = put set n false
fd_clr (negsuc n) set = set

unfoldable pub emit : Effect → Server → Server
emit e s = record s { effects = e ∷ s.effects }

-- FD_CLR, close and free_request of the request in slot `i`.
unfoldable pub hang_up : ℕ → Server → Server
unfolding free_request fd_clr emit
hang_up i s =
    let r = s.requests i in
    emit (close r.conn_fd) (record s {
      master_set = fd_clr r.conn_fd s.master_set;
      requests = put s.requests i (free_request r);
    })

-- sprintf into `buf`, and write to the client in slot `i`
unfoldable pub answer : ℕ → Message → Server → Server
unfolding emit
answer i m s = emit (send (s.requests i).conn_fd m) s

-- A new connection: the fields that `main` sets behind accept.
unfoldable pub accept_on : ℕ → Server → Server
unfolding answer emit
accept_on fd s =
    let s' =
      answer fd enter_id
        (record s { requests = put s.requests fd (record (s.requests fd) { conn_fd = pos fd }) }) in
    record s' {
      requests = put s'.requests fd (record (s'.requests fd) { stage = 0 });
      master_set = put s'.master_set fd true;
    }
