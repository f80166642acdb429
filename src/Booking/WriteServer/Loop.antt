-- ===== src/Booking/WriteServer/Loop.antt =====
-- The whole write server of hw1/server.c: init_server, and the loop of `main` around accept and the
-- readable connections.
use mathlib.Core.Path.{subst}
use mathlib.Core.Option.{some-injective}
use sp_homework.Common.{
  ℕ, zero, suc, ◌-◌, ◌≡◌, ◌⊎◌, ◌≤◌, inl, inr, refl, sym, ap, ◌∙◌, Bool, true, false, ◌||◌, Option,
  some, List, [], ◌∷◌, arith, ◌==◌, ==_iff, Bool-cases, Option-cases,
}
use sp_homework.Common.Int.{pos, negsuc}
use sp_homework.Booking.{unlocked, Record, Request, Server, Input, accept_on}
use sp_homework.Booking.Start.{
  Calls, init_table, init_server, start_main, Accepted, connects, interrupted, again, table_full,
  fails, Report, readable_from, main_pass, init_server_lem, init_table-own,
}
use sp_homework.Booking.WriteServer.{write_turn, breaks, write_pass}
use sp_homework.Booking.WriteServer.Exclusive.{IsExclusive}
use sp_homework.Booking.WriteServer.Others.{write_turn-SameAt}
use sp_homework.Booking.WriteServer.Reachable.{
  IsFresh, Reachable, start, next, accepts, serves, kept, Reachable-IsExclusive,
}

-- A pass of the loop of `main` under WRITE_SERVER.
unfoldable pub write_main : (maxfd listen_fd file_fd : ℕ) → Report → Server → Option Server
write_main maxfd listen_fd file_fd report s =
    main_pass
      (write_pass report.busy (readable_from (maxfd - 3) 3 listen_fd file_fd report.working))
      report.accepting s

-- `accept` gives a descriptor that is not open, and `select` reports only what is watched.
pub record IsReport (report : Report) (s : Server) : Type 0 where
  pub fresh_fd : (fd : ℕ) → report.accepting ≡ some (connects fd) → s.master_set fd ≡ false
  pub watched : (i : ℕ) (input : Input) → report.working i ≡ some input → s.master_set i ≡ true

-- What `main` comes to.
module _ (maxfd file_fd : ℕ) (calls : Calls) (memory : ℕ → Request) (file : ℕ → Record) where
  pub data Reached : ℕ → Server → Type 0 where
    begins :
        (listen_fd : ℕ) (s : Server)
        → start_main calls memory file ≡ some (listen_fd, s)
        → Reached listen_fd s
    passes :
        (listen_fd : ℕ) (report : Report) (s s' : Server)
        → Reached listen_fd s
        → IsReport report s
        → write_main maxfd listen_fd file_fd report s ≡ some s'
        → Reached listen_fd s'

-- All descriptors of the list are at least `lo`, in increasing order, and watched.
abbrev AreWatched : ℕ → (ℕ → Bool) → List (ℕ × Input) → Type 0
AreWatched lo watched [] = Unit {0}
AreWatched lo watched ((i, input) ∷ rest) =
    (lo ≤ i) × (watched i ≡ true) × AreWatched (suc i) watched rest

AreWatched-lower :
    (lo lo' : ℕ) (watched : ℕ → Bool) (xs : List (ℕ × Input))
    → lo ≤ lo'
    → AreWatched lo' watched xs
    → AreWatched lo watched xs
AreWatched-lower lo lo' watched [] h all = tt
AreWatched-lower lo lo' watched ((i, input) ∷ xs) h (above, on, rest) = (omega arith, on, rest)

AreWatched-same :
    (lo : ℕ) (watched watched' : ℕ → Bool) (xs : List (ℕ × Input))
    → ((j : ℕ) → lo ≤ j → watched' j ≡ watched j)
    → AreWatched lo watched xs
    → AreWatched lo watched' xs
AreWatched-same lo watched watched' [] same all = tt
AreWatched-same lo watched watched' ((i, input) ∷ xs) same (above, on, rest) = (
  above,
  same i above ∙ on,
  AreWatched-same (suc i) watched watched' xs (λ j h. same j (omega (arith, above, h))) rest,
)

readable_from-AreWatched :
    (n i listen_fd file_fd : ℕ) (working : ℕ → Option Input) (watched : ℕ → Bool)
    → ((j : ℕ) (input : Input) → working j ≡ some input → watched j ≡ true)
    → AreWatched i watched (readable_from n i listen_fd file_fd working)
unfolding readable_from
readable_from-AreWatched zero i listen_fd file_fd working watched on = tt
readable_from-AreWatched (suc n) i listen_fd file_fd working watched on =
    let rest = readable_from-AreWatched n (suc i) listen_fd file_fd working watched on in
    let lower = AreWatched-lower i (suc i) watched _ (omega arith) rest in
    elim (Bool-cases ((i == listen_fd) || (i == file_fd))) [
      | inl skipped ↦ rw skipped lower
      | inr taken ↦ elim (Option-cases (working i)) [
        | inl idle ↦ rw (taken, idle, readable_from) lower
        | inr (input, ready) ↦
            rw (taken, ready, readable_from) (omega arith, on i input ready, rest)
      ]
    ]

write_pass-Reachable :
    (busy : ℕ → Bool) (lo : ℕ) (xs : List (ℕ × Input)) (s s' : Server)
    → Reachable s
    → AreWatched lo s.master_set xs
    → write_pass busy xs s ≡ some s'
    → Reachable s'
unfolding write_pass
write_pass-Reachable busy lo [] s s' reached all e = subst Reachable (some-injective s s' e) reached
write_pass-Reachable busy lo ((i, input) ∷ xs) s s' reached (above, on, rest) e =
    elim (Option-cases (write_turn busy input i s)) [
      | inl dies ↦ let clash = rw (dies, write_pass) at e in cc
      | inr (t, turn) ↦
          let after = next reached (serves busy input i on turn) in
          elim (Bool-cases (breaks input i s)) [
            | inl leaves ↦
                subst Reachable (some-injective _ _ (rw (turn, leaves, write_pass) at e)) after
            | inr stays ↦
                let same = λ (j : ℕ) (h : suc i ≤ j).
                  write_turn-SameAt i j (ground (arith, h, ==_iff i j)) busy input s
                    ((kept s reached).1.own i) turn in
                write_pass-Reachable busy (suc i) xs t s' after
                  (AreWatched-same (suc i) s.master_set t.master_set xs same rest)
                  (rw (turn, stays, write_pass) at e)
          ]
    ]

table_of-IsFresh :
    (s : Server) (fd : ℕ) (memory : ℕ → Request)
    → s.requests ≡ init_table fd memory
    → ((k : ℕ) → s.write_lock k ≡ false)
    → ((k : ℕ) → s.held k ≡ unlocked)
    → IsFresh s
table_of-IsFresh s fd memory same free unheld = record {
  idle = λ i. ap (λ (t : ℕ → Request). (t i).stage) same ∙ (init_table-own fd memory i).0;
  own = λ i.
      subst (λ (t : ℕ → Request). ((t i).conn_fd ≡ pos i) ⊎ ((t i).conn_fd ≡ negsuc 0)) (sym same)
        (init_table-own fd memory i).1;
  free = free;
  unheld = unheld;
}

start_main-IsFresh :
    (calls : Calls) (memory : ℕ → Request) (file : ℕ → Record) (listen_fd : ℕ) (s : Server)
    → start_main calls memory file ≡ some (listen_fd, s)
    → IsFresh s
unfolding start_main
start_main-IsFresh calls memory file listen_fd s e =
    elim (Option-cases (init_server calls memory)) [
      | inl failed ↦ let clash = rw failed at e in cc
      | inr (made, works) ↦
          let same : (made.0, _) ≡ (listen_fd, s) = some-injective _ _ (rw works at e) in
          let server = ap (λ (m : ℕ × Server). m.1) same in
          subst IsFresh server (
            table_of-IsFresh _ made.0 memory (init_server_lem calls memory made works) (λ k. refl)
              (λ k. refl))
    ]

main-Reachable :
    (maxfd listen_fd file_fd : ℕ) (report : Report) (s s' : Server)
    → Reachable s
    → IsReport report s
    → write_main maxfd listen_fd file_fd report s ≡ some s'
    → Reachable s'
unfolding write_main accept_on
main-Reachable maxfd listen_fd file_fd report s s' reached is e =
    elim (Option-cases report.accepting) [
      | inl none_waits ↦
          write_pass-Reachable report.busy 3 _ s s' reached (ready s.master_set is.watched)
            (rw (none_waits, main_pass) at e)
      | inr (accepted, waits) ↦ go accepted waits (rw (waits, main_pass) at e)
    ]
  where
    ready :
        (watched : ℕ → Bool)
        → ((j : ℕ) (input : Input) → report.working j ≡ some input → watched j ≡ true)
        → AreWatched 3 watched (readable_from (maxfd - 3) 3 listen_fd file_fd report.working)
    ready watched on =
        readable_from-AreWatched (maxfd - 3) 3 listen_fd file_fd report.working watched on

    go :
        (accepted : Accepted)
        → report.accepting ≡ some accepted
        → main_pass
            (write_pass report.busy (readable_from (maxfd - 3) 3 listen_fd file_fd report.working))
            (some accepted)
            s
          ≡ some s'
        → Reachable s'
    go (connects fd) waits e' =
        write_pass-Reachable report.busy 3 _ (accept_on fd s) s'
          (next reached (accepts fd (is.fresh_fd fd waits)))
          (ready (accept_on fd s).master_set (λ j input h. ground (arith, is.watched j input h))) e'
    go interrupted waits e' = subst Reachable (some-injective _ _ e') reached
    go again waits e' = subst Reachable (some-injective _ _ e') reached
    go table_full waits e' = subst Reachable (some-injective _ _ e') reached
    go fails waits e' = cc

Reached-Reachable :
    (maxfd file_fd : ℕ) (calls : Calls) (memory : ℕ → Request) (file : ℕ → Record) (listen_fd : ℕ)
    (s : Server)
    → Reached maxfd file_fd calls memory file listen_fd s
    → Reachable s
Reached-Reachable maxfd file_fd calls memory file _ _ (begins listen_fd s e) =
    start (start_main-IsFresh calls memory file listen_fd s e)
Reached-Reachable maxfd file_fd calls memory file _ _ (passes listen_fd report s s' before is e) =
    main-Reachable maxfd listen_fd file_fd report s s'
      (Reached-Reachable maxfd file_fd calls memory file listen_fd s before) is e

-- From the start of `main` on, whatever is in the memory, whoever connects and sends, and whatever
-- other processes lock, behind each pass of the loop of the write server a record is marked in
-- `writeLock` exactly if one connection books on it, no two connections book on one record, and the
-- process holds the write lock on each record that is booked on and no lock on any other. What is
-- assumed is that `accept` gives a descriptor that is not watched and that `select` reports only watched ones.
pub Reached-IsExclusive :
    (maxfd file_fd : ℕ) (calls : Calls) (memory : ℕ → Request) (file : ℕ → Record) (listen_fd : ℕ)
    (s : Server)
    → Reached maxfd file_fd calls memory file listen_fd s
    → IsExclusive s
Reached-IsExclusive maxfd file_fd calls memory file listen_fd s reached =
    (Reachable-IsExclusive s
      (Reached-Reachable maxfd file_fd calls memory file listen_fd s reached)).0
