-- ===== src/Tests/ReadLoop.antt =====
-- hw1: the read server from the start of `main` to its first connection.
use sp_homework.Common.{ℕ, ◌≡◌, refl, true, false, Option, none, some, [], arith}
use sp_homework.Common.Int.{pos}
use sp_homework.Booking.{Record, Request, Server, accept_on, unlocked}
use sp_homework.Booking.Start.{Calls, init_server, start_main, connects, Report, readable_from}
use sp_homework.Booking.ReadServer.Counting.{IsCountedBut}
use sp_homework.Booking.ReadServer.Loop.{read_pass, read_main, begins, passes, Reached-IsCountedBut}

abbrev calls : Calls
calls = record { socket = pos 4; setsockopt = pos 0; bind = pos 0; listen = pos 0; memory = true }

abbrev memory : ℕ → Request
memory i = record { conn_fd = pos 77; buf = []; buf_len = 9; id = 8; stage = 1 }

abbrev empty_file : ℕ → Record
empty_file k = record { id = pos (902001); food = pos 0; concert = pos 0; electronics = pos 0 }

abbrev server_or : Server → Option (ℕ × Server) → Server
server_or s none = s
server_or s (some (fd, s')) = s'

abbrev nothing : Server
nothing = record {
  requests = memory;
  master_set = λ i. false;
  read_lock = λ k. pos 0;
  write_lock = λ k. false;
  file = empty_file;
  held = λ k. unlocked;
  effects = [];
}

abbrev at_start : Server
at_start = server_or nothing (start_main calls memory empty_file)

at_start_run : start_main calls memory empty_file ≡ some (4, at_start)
unfolding start_main init_server
at_start_run = refl

-- A client connects with the descriptor 5, and nothing else is to be read.
abbrev first_client : Report
first_client = record { accepting = some (connects 5); working = λ i. none; busy = λ k. false }

first_pass : read_main 6 4 3 first_client at_start ≡ some (accept_on 5 at_start)
unfolding read_main readable_from read_pass
first_pass = refl

-- The memory of the table is not zeroed, but init_request is called on each slot: nothing is left open.
Reached-IsCountedBut_example : IsCountedBut (λ k. 0) 6 (accept_on 5 at_start)
unfolding start_main init_server
Reached-IsCountedBut_example =
    Reached-IsCountedBut 6 3 calls memory empty_file 4 (λ k. 0) (accept_on 5 at_start)
      (λ k. omega arith)
      (passes 4 first_client (λ k. 0) at_start (accept_on 5 at_start)
        (begins 4 at_start at_start_run) (λ fd e. ground arith) first_pass)
