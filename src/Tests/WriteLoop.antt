-- ===== src/Tests/WriteLoop.antt =====
-- hw1: the write server from the start of `main` to its first connection.
use sp_homework.Common.{ℕ, ◌≡◌, refl, true, false, Option, none, some, [], arith}
use sp_homework.Common.Int.{pos}
use sp_homework.Booking.{Record, Request, Server, accept_on, unlocked}
use sp_homework.Booking.Start.{Calls, init_server, start_main, connects, Report, readable_from}
use sp_homework.Booking.WriteServer.{write_pass}
use sp_homework.Booking.WriteServer.Exclusive.{IsExclusive}
use sp_homework.Booking.WriteServer.Loop.{write_main, IsReport, begins, passes, Reached-IsExclusive}

abbrev calls : Calls
calls = record { socket = pos 4; setsockopt = pos 0; bind = pos 0; listen = pos 0; memory = true }

abbrev memory : ℕ → Request
memory i = record { conn_fd = pos 77; buf = []; buf_len = 9; id = 8; stage = 1 }

abbrev empty_file : ℕ → Record
empty_file k = record { id = pos (902001); food = pos 0; concert = pos 0; electronics = pos 0 }

abbrev server_or : Server → Option (ℕ × Server) → Server
server_or s none = s
server_or s (some (fd, s')) = s'

abbrev nothing : Server
nothing = record {
  requests = memory;
  master_set = λ i. false;
  read_lock = λ k. pos 0;
  write_lock = λ k. false;
  file = empty_file;
  held = λ k. unlocked;
  effects = [];
}

abbrev at_start : Server
at_start = server_or nothing (start_main calls memory empty_file)

at_start_run : start_main calls memory empty_file ≡ some (4, at_start)
unfolding start_main init_server
at_start_run = refl

-- A client connects with the descriptor 5, and nothing else is to be read.
abbrev first_client : Report
first_client = record { accepting = some (connects 5); working = λ i. none; busy = λ k. false }

first_pass : write_main 6 4 3 first_client at_start ≡ some (accept_on 5 at_start)
unfolding write_main readable_from write_pass
first_pass = refl

first_client-IsReport : IsReport first_client at_start
unfolding start_main init_server
first_client-IsReport = record { fresh_fd = λ fd e. ground arith; watched = λ i input e. cc }

Reached-IsExclusive_example : IsExclusive (accept_on 5 at_start)
Reached-IsExclusive_example =
    Reached-IsExclusive 6 3 calls memory empty_file 4 (accept_on 5 at_start) (
      passes 4 first_client at_start (accept_on 5 at_start) (begins 4 at_start at_start_run)
        first_client-IsReport first_pass)
