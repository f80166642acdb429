-- ===== src/Lib.antt =====
-- Verification of four small systems programs in C: a booking server (hw1), a tournament of
-- processes (hw2), a user-level thread scheduler (hw3), and a server that sorts movies (hw4).
--
-- The parts and where they are modelled:
--   Common      numbers, strings and lists: the 32-bit `int` (Common.Int), strtol and atoi
--               (Common.Text, with bounds in Common.TextBounds).
--   Scheduler   hw3/scheduler.c with the globals of hw3/main.c. `Sched` is the two arrays of pointers,
--               their sizes and `rq_current`; `enter` is the body of `scheduler` behind `setjmp`, by the
--               value of `jmpval`; `wake`, `shift`, `park`, `drop_running` and `advance` are its loops
--               and branches. Scheduler.View states on lists what one pass promises, and
--               Scheduler.Refine connects the two.
--   Threads     hw3/threadtools.h, hw3/threads.c and hw3/main.c: `thread_setup`, `init_threads`, and
--               one function per thread for what it does between two switches. It ends in an event
--               (yield, block or exit), which is the `jmpval` of the next entry into the scheduler.
--               Threads.Machine composes the threads and the scheduler: `step` is what happens from one
--               call of thread_yield, thread_exit or async_read to the next, with the signal handler,
--               and `boot` and `main` are the start of hw3/main.c.
--   Tournament  hw2/status.h, hw2/battle.c and hw2/player.c: the tables, `blows` and `play_round` for a
--               pass of the battle loop, `relay_stops` for the passing mode, `player_step` and
--               `agent_step` for what a player does with a status.
--               Tournament.Bracket composes the processes: `tree_of` is the forks, `contend` who comes
--               out of a battle, with the fifos from the losers to the agents, and `tournament` the run
--               of `./battle A 0`; Tournament.Passing is the loop of the passing mode, and
--               Tournament.StatusFile reads the players.
--   Booking     hw1/server.c: requests, locks, reading and parsing; Booking.ReadServer and
--               Booking.WriteServer are the loop bodies under READ_SERVER and WRITE_SERVER;
--               Booking.WriteServer.Reachable has the steps of a write server in any order. Booking.Start
--               is init_server and what `main` does around the connections, and Booking.ReadServer.Loop
--               and Booking.WriteServer.Loop are the passes of `main` as the program makes them.
--   Sorting     hw4/server.c and hw4/lib.c: `sort` with `argmax`, `swap` and `add_secret` of lib.c,
--               `merge_sort` for the threads and `process_merge_sort` for the processes, the filters
--               `filtered` of pserver and `filtered_copies` of tserver, and a whole request as `deal_request` and `process_request` of
--               Sorting.Requests. The parallel arrays of titles and scores are one list, and a part
--               of an array is a list of its own.
--               Sorting.Data is `initialize` with `read_request`, on the bytes of the file and of the
--               standard input; Sorting.Servers is `main` of the two servers.
--   Tests       runs at concrete inputs, and the theorems at concrete inputs.
--
-- Choices of the model:
--   * An `int` is an integer whose sums, differences and products wrap modulo 2^32, as gcc computes
--     them without optimisation. C leaves an overflow undefined.
--   * A fault (a NULL pointer that is followed, a write past an array, the end of the process) is
--     `none`. A pointer to a thread block is the block's number.
--   * What the system gives is an input: which descriptors `select` reports, the bytes of a `read`,
--     the descriptor of `open`, and whether `fcntl` meets a lock of another process. A `read` of the
--     booking servers delivers less than its buffer of 512 bytes, so that the buffer ends in a NUL.
--   * The wake loop and the battle loop run on fuel. The wake loop gets one more than the waiting
--     threads, and its theorem shows that this is enough; the battle needs more than the HP of the
--     left player, and gets one more. An error of the blocking `select` is not modelled: where it wakes nobody, nothing
--     is said.
--   * A `double` is compared by its rank among the doubles that are not NaN; its sum and product are
--     parameters. The halves of a merge sort are disjoint, so that the threads and processes that
--     sort them are composed one after the other.
--   * `deal_request` copies the bytes of a title without the NUL behind them: what malloc leaves there
--     is a parameter (`stale`, `heap`), and the string of the copy goes on with it up to a NUL. pserver
--     copies the NUL, into memory of its own.
--   * The processes of hw2 wait for each other, so that their order is that of the recursion: a battle
--     after its children, the right half of the tree, of agents, after the left one. A pipe or a fifo
--     delivers each status whole, and a wait that nobody ends is `none`. `contend` leaves out the
--     battles that stand in the passing mode between a player and the battle that it fights in; they are
--     modelled in Tournament.Passing.
--   * FD_CLR at the descriptor -1, undefined in C, changes nothing. `strtok` leaves the buffer whole.
--   * fgets, strtok, scanf and strtod of hw4 work on lists of bytes, strtod and sqrt as parameters.
--     What `scanf` leaves undefined where nothing matches is a fault. The loop over the rows of the
--     file runs on fuel, one more than the bytes, of which each row takes one at least; what it comes to
--     without fuel is an argument of its own, so that it is told from an end of the process. The standard
--     input ends behind the requests, so that the second `scanf` of `main` stores nothing.
--
-- Not modelled: signal masks, alarms and sleeps (that a signal is pending is an input), the addresses
-- and names of sockets, fork, pipes and fifos as system calls, the log lines of the players, and in hw4
-- fork, mmap, the output files and the checks for NULL.
pub mod Common
pub mod Scheduler
pub mod Threads
pub mod Tournament
pub mod Booking
pub mod Sorting
pub mod Tests
