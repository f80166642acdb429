-- ===== src/Tests/Commands.antt =====
-- hw1: lines, ids and commands at concrete inputs.
use sp_homework.Common.{ℕ, ◌≡◌, ◌↔◌, refl, some, List, [], ◌∷◌, arith, ◌==◌, if◌then◌else◌}
use sp_homework.Common.Int.{pos, negsuc, ◌+ℤ◌}
use sp_homework.Booking.{
  Server, write_locked, unlocked, Record, failed, ReadResult, bytes, handle_read, valid_id, isint,
}
use sp_homework.Booking.Parsing.{IsClean, handle_read-line, six_digits, valid_id-six_digits}
use sp_homework.Booking.WriteServer.Words.{book-command}
use sp_homework.Booking.WriteServer.{
  judge, accept, refuse, crash, tokens, parse_command, conclude, book,
}
use sp_homework.Booking.WriteServer.Limits.{IsLegal, added, judge-IsLegal, judge-overflow}

abbrev pub booked_record : Record
booked_record = record { id = pos 902004; food = pos 1; concert = pos 2; electronics = pos 3 }

booked_record-IsLegal : IsLegal booked_record
unfolding ◌+ℤ◌
booked_record-IsLegal = record {
  some_food = omega arith;
  some_concert = omega arith;
  some_electronics = omega arith;
  few = omega arith;
}

judge-IsLegal_example :
    judge booked_record (pos 2) (negsuc 1) (pos 0)
      ≡ accept (added booked_record (pos 2) (negsuc 1) (pos 0))
    ↔ ((added booked_record (pos 2) (negsuc 1) (pos 0)
          ≡ added booked_record (pos 2) (negsuc 1) (pos 0))
        × IsLegal (added booked_record (pos 2) (negsuc 1) (pos 0)))
judge-IsLegal_example =
    judge-IsLegal booked_record (pos 2) (negsuc 1) (pos 0) booked_record-IsLegal (omega arith)
      (omega arith) (omega arith) (added booked_record (pos 2) (negsuc 1) (pos 0))

-- Two billion orders of food and as many concerts, though 15 is the limit.
judge-overflow_example :
    judge
      (record { id = pos 902001; food = pos 0; concert = pos 0; electronics = pos 0 })
      (pos 2000000000)
      (pos 2000000000)
      (pos 0)
    ≡ accept (record {
      id = pos 902001;
      food = pos 2000000000;
      concert = pos 2000000000;
      electronics = pos 0;
    })
judge-overflow_example =
    judge-overflow (pos 902001) 2000000000 2000000000 (omega arith) (omega arith) (omega arith)

-- "902004\r\n"
line_read :
    handle_read (bytes (b'9' ∷ b'0' ∷ b'2' ∷ b'0' ∷ b'0' ∷ b'4' ∷ 13 ∷ 10 ∷ []))
    ≡ ReadResult.line (b'9' ∷ b'0' ∷ b'2' ∷ b'0' ∷ b'0' ∷ b'4' ∷ [])
unfolding handle_read
line_read = refl

-- A number that is written with a leading zero is octal.
isint_octal : isint (b'0' ∷ b'1' ∷ b'0' ∷ []) ≡ some (pos 8)
unfolding isint
isint_octal = refl

-- "3 x": the second token is no number; "3 4": the third one is missing.
parse_failed : parse_command booked_record (tokens (b'3' ∷ 32 ∷ b'x' ∷ [])) ≡ refuse failed
unfolding parse_command tokens
parse_failed = refl

parse_crash : parse_command booked_record (tokens (b'3' ∷ 32 ∷ b'4' ∷ [])) ≡ crash
unfolding parse_command tokens
parse_crash = refl

-- The connection 5 books on the record 3 and has sent "1 -2 3".
abbrev three_numbers : List ℕ
three_numbers = b'1' ∷ 32 ∷ b'-' ∷ b'2' ∷ 32 ∷ b'3' ∷ []

abbrev sent : Server
sent = record {
  requests = λ i. record { conn_fd = pos i; buf = three_numbers; buf_len = 6; id = 3; stage = 1 };
  master_set = λ i. i == 5;
  read_lock = λ k. pos 0;
  write_lock = λ k. k == 3;
  file = λ k. booked_record;
  held = λ k. if k == 3 then write_locked else unlocked;
  effects = [];
}

book-command_example :
    book 5 sent ≡ conclude (judge booked_record (pos 1) (negsuc 1) (pos 3)) 5 sent
unfolding isint
book-command_example =
    book-command 5 sent 0 0 0 0 (b'1' ∷ []) (b'-' ∷ b'2' ∷ []) (b'3' ∷ []) (pos 1) (negsuc 1)
      (pos 3) refl ((λ e. cc), refl) ((λ e. cc), refl) ((λ e. cc), refl)

exit-IsClean : IsClean (b'E' ∷ b'x' ∷ b'i' ∷ b't' ∷ [])
exit-IsClean = ground arith

handle_read-line_example :
    (handle_read (bytes (b'E' ∷ b'x' ∷ b'i' ∷ b't' ∷ 13 ∷ 10 ∷ 0 ∷ []))
      ≡ ReadResult.line (b'E' ∷ b'x' ∷ b'i' ∷ b't' ∷ []))
    × (handle_read (bytes (b'E' ∷ b'x' ∷ b'i' ∷ b't' ∷ 10 ∷ []))
        ≡ ReadResult.line (b'E' ∷ b'x' ∷ b'i' ∷ b't' ∷ []))
handle_read-line_example = handle_read-line (b'E' ∷ b'x' ∷ b'i' ∷ b't' ∷ []) (0 ∷ []) exit-IsClean

valid_id-six_digits_example : valid_id (six_digits 902020) ≡ some 19
valid_id-six_digits_example = valid_id-six_digits 19 (omega arith)
