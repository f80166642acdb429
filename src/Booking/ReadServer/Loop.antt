-- ===== src/Booking/ReadServer/Loop.antt =====
-- The whole read server of hw1/server.c: init_server, and the loop of `main` around accept and the
-- readable connections.
use mathlib.Core.Path.{subst}
use mathlib.Core.Option.{some-injective}
use sp_homework.Common.{
  ◌>>=◌, ℕ, zero, suc, ◌+◌, ◌-◌, ◌≡◌, ◌≤◌, ◌<◌, inl, inr, refl, ap, ◌∙◌, Bool, ◌||◌, Option, none,
  some, ==_iff, List, [], ◌∷◌, arith, ◌==◌, Bool-cases, Option-cases,
}
use sp_homework.Common.Int.{pos}
use sp_homework.Booking.{Record, Request, Server, put, Input, accept_on}
use sp_homework.Booking.Start.{
  Calls, init_table, init_server, start_main, Accepted, connects, interrupted, again, table_full,
  fails, Report, readable_from, main_pass, init_server_lem, init_table-own,
}
use sp_homework.Booking.ReadServer.{read_turn}
use sp_homework.Booking.ReadServer.Counting.{
  reads, one_if, readers, Counted, IsCountedBut, HasRoom, keep_open, abandon,
}
use sp_homework.Booking.ReadServer.Turns.{read_turn-IsCountedBut}

-- The loop over the readable connections, in order.
unfoldable pub read_pass : (ℕ → Bool) → List (ℕ × Input) → Server → Option Server
read_pass busy [] s = some s
read_pass busy ((i, input) ∷ rest) s = read_turn busy input i s >>= λ s'. read_pass busy rest s'

-- A pass of the loop of `main` under READ_SERVER.
unfoldable pub read_main : (maxfd listen_fd file_fd : ℕ) → Report → Server → Option Server
read_main maxfd listen_fd file_fd report s =
    main_pass (read_pass report.busy (readable_from (maxfd - 3) 3 listen_fd file_fd report.working))
      report.accepting s

-- `accept` gives a descriptor below `maxfd`, the size of the descriptor table.
abbrev pub IsInTable : ℕ → Report → Type 0
IsInTable maxfd report = (fd : ℕ) → report.accepting ≡ some (connects fd) → fd < maxfd

-- The connections that were accepted into a slot that was still open on the record `k`: `main` resets
-- the stage of the slot, but does not count `readLock` down.
abbrev pub with_reset : Option Accepted → Server → (ℕ → ℕ) → ℕ → ℕ
with_reset (some (connects fd)) s excess k = excess k + one_if (reads (s.requests fd) k)
with_reset accepting s excess k = excess k

module _ (maxfd file_fd : ℕ) (calls : Calls) (memory : ℕ → Request) (file : ℕ → Record) where
  -- What `main` comes to, with the number of slots of each record that were reset while open.
  pub data Reached : ℕ → (ℕ → ℕ) → Server → Type 0 where
    begins :
        (listen_fd : ℕ) (s : Server)
        → start_main calls memory file ≡ some (listen_fd, s)
        → Reached listen_fd (λ k. 0) s
    passes :
        (listen_fd : ℕ) (report : Report) (excess : ℕ → ℕ) (s s' : Server)
        → Reached listen_fd excess s
        → IsInTable maxfd report
        → read_main maxfd listen_fd file_fd report s ≡ some s'
        → Reached listen_fd (with_reset report.accepting s excess) s'

abbrev AreBelow : ℕ → List (ℕ × Input) → Type 0
AreBelow n [] = Unit {0}
AreBelow n ((i, input) ∷ rest) = (i < n) × AreBelow n rest

readable_from-AreBelow :
    (m n i listen_fd file_fd : ℕ) (working : ℕ → Option Input)
    → n ≤ m - i
    → AreBelow m (readable_from n i listen_fd file_fd working)
unfolding readable_from
readable_from-AreBelow m zero i listen_fd file_fd working h = tt
readable_from-AreBelow m (suc n) i listen_fd file_fd working h =
    let rest = readable_from-AreBelow m n (suc i) listen_fd file_fd working (omega arith) in
    elim (Bool-cases ((i == listen_fd) || (i == file_fd))) [
      | inl skipped ↦ rw skipped rest
      | inr taken ↦ elim (Option-cases (working i)) [
        | inl idle ↦ rw (taken, idle, readable_from) rest
        | inr (input, ready) ↦ rw (taken, ready, readable_from) (omega arith, rest)
      ]
    ]

module _ (maxfd : ℕ) where
  read_pass-IsCountedBut :
      (excess : ℕ → ℕ) (small : HasRoom excess maxfd) (busy : ℕ → Bool) (xs : List (ℕ × Input))
      (s s' : Server)
      → AreBelow maxfd xs
      → IsCountedBut excess maxfd s
      → read_pass busy xs s ≡ some s'
      → IsCountedBut excess maxfd s'
  unfolding read_pass
  read_pass-IsCountedBut excess small busy [] s s' below inv e =
      subst (IsCountedBut excess maxfd) (some-injective _ _ e) inv
  read_pass-IsCountedBut excess small busy ((i, input) ∷ xs) s s' (inside, below) inv e =
      elim (Option-cases (read_turn busy input i s)) [
        | inl dies ↦ let clash = rw dies at e in cc
        | inr (t, turn) ↦
            read_pass-IsCountedBut excess small busy xs t s' below
              (read_turn-IsCountedBut excess maxfd small i inside busy input s inv turn)
              (rw turn at e)
      ]

  accept_on-IsCountedBut :
      (excess : ℕ → ℕ) (small : HasRoom excess maxfd) (fd : ℕ) (s : Server)
      → fd < maxfd
      → IsCountedBut excess maxfd s
      → IsCountedBut (with_reset (some (connects fd)) s excess) maxfd (accept_on fd s)
  unfolding accept_on
  accept_on-IsCountedBut excess small fd s inside inv =
      let r : Request = record (s.requests fd) { conn_fd = pos fd } in
      let named = put s.requests fd r in
      let own : named fd ≡ r = rw ((==_iff fd fd).1 refl) refl in
      let first = keep_open inv fd inside small r (λ k. refl) in
      let fresh : Request = record (named fd) { stage = 0 } in
      subst
        (λ (q : Request).
          Counted (λ k. excess k + one_if (reads q k)) maxfd (put named fd fresh) s.read_lock
            s.held)
        own (abandon first fd inside small fresh (λ e. absurd (omega arith)))

  no_readers : (fd : ℕ) (memory : ℕ → Request) (k n : ℕ) → readers (init_table fd memory) k n ≡ 0
  no_readers fd memory k zero = refl
  no_readers fd memory k (suc n) =
      ground (arith, no_readers fd memory k n, (init_table-own fd memory n).0)

  begins-IsCountedBut :
      (calls : Calls) (memory : ℕ → Request) (file : ℕ → Record) (listen_fd : ℕ) (s : Server)
      → start_main calls memory file ≡ some (listen_fd, s)
      → IsCountedBut (λ k. 0) maxfd s
  unfolding start_main
  begins-IsCountedBut calls memory file listen_fd s e =
      elim (Option-cases (init_server calls memory)) [
        | inl failed ↦ let clash = rw failed at e in cc
        | inr (made, works) ↦
            let same : (made.0, _) ≡ (listen_fd, s) = some-injective _ _ (rw works at e) in
            let server = ap (λ (m : ℕ × Server). m.1) same in
            let none_open : (k : ℕ) → readers made.1 k maxfd ≡ 0 = λ k.
              ap (λ (t : ℕ → Request). readers t k maxfd) (init_server_lem calls memory made works)
              ∙ no_readers made.0 memory k maxfd in
            subst (IsCountedBut (λ k. 0) maxfd) server
              (record { counted = λ k. rw (none_open k) refl; lock = λ k. rw (none_open k) refl })
      ]

  main-IsCountedBut :
      (listen_fd file_fd : ℕ) (report : Report) (excess : ℕ → ℕ) (s s' : Server)
      → HasRoom (with_reset report.accepting s excess) maxfd
      → IsCountedBut excess maxfd s
      → IsInTable maxfd report
      → read_main maxfd listen_fd file_fd report s ≡ some s'
      → IsCountedBut (with_reset report.accepting s excess) maxfd s'
  unfolding read_main
  main-IsCountedBut listen_fd file_fd report excess s s' small inv inside e =
      go report.accepting inside small e
    where
      below : AreBelow maxfd (readable_from (maxfd - 3) 3 listen_fd file_fd report.working)
      below =
          readable_from-AreBelow maxfd (maxfd - 3) 3 listen_fd file_fd report.working (omega arith)

      go :
          (accepting : Option Accepted)
          → ((fd : ℕ) → accepting ≡ some (connects fd) → fd < maxfd)
          → HasRoom (with_reset accepting s excess) maxfd
          → main_pass
              (read_pass report.busy (readable_from (maxfd - 3) 3 listen_fd file_fd report.working))
              accepting
              s
            ≡ some s'
          → IsCountedBut (with_reset accepting s excess) maxfd s'
      go none inside' small' e' =
          read_pass-IsCountedBut excess small' report.busy _ s s' below inv e'
      go (some (connects fd)) inside' small' e' =
          let before : HasRoom excess maxfd = λ k. omega (arith, small' k) in
          read_pass-IsCountedBut (with_reset (some (connects fd)) s excess) small' report.busy _
            (accept_on fd s) s' below
            (accept_on-IsCountedBut excess before fd s (inside' fd refl) inv) e'
      go (some interrupted) inside' small' e' =
          subst (IsCountedBut excess maxfd) (some-injective _ _ e') inv
      go (some again) inside' small' e' =
          subst (IsCountedBut excess maxfd) (some-injective _ _ e') inv
      go (some table_full) inside' small' e' =
          subst (IsCountedBut excess maxfd) (some-injective _ _ e') inv
      go (some fails) inside' small' e' = cc

with_reset-le :
    (accepting : Option Accepted) (s : Server) (excess : ℕ → ℕ) (k : ℕ)
    → excess k ≤ with_reset accepting s excess k
with_reset-le none s excess k = omega arith
with_reset-le (some (connects fd)) s excess k = omega arith
with_reset-le (some interrupted) s excess k = omega arith
with_reset-le (some again) s excess k = omega arith
with_reset-le (some table_full) s excess k = omega arith
with_reset-le (some fails) s excess k = omega arith

-- From the start of `main` on, whoever connects and sends and whatever other processes lock, behind each
-- pass of the loop of the read server `readLock` is, for each record, the number of slots that are open
-- on it and, beside that, of the connections that were accepted into a slot that was still open on it,
-- and the process holds the read lock on the record exactly while that sum is not 0. The condition is
-- that `accept` gives a descriptor below the size of the table, and that the sum of this size and the
-- number of such connections is below 2^31.
pub Reached-IsCountedBut :
    (maxfd file_fd : ℕ) (calls : Calls) (memory : ℕ → Request) (file : ℕ → Record) (listen_fd : ℕ)
    (excess : ℕ → ℕ) (s : Server)
    → HasRoom excess maxfd
    → Reached maxfd file_fd calls memory file listen_fd excess s
    → IsCountedBut excess maxfd s
Reached-IsCountedBut maxfd file_fd calls memory file _ _ _ small (begins listen_fd s e) =
    begins-IsCountedBut maxfd calls memory file listen_fd s e
Reached-IsCountedBut maxfd file_fd calls memory file _ _ _ small
      (passes listen_fd report excess s s' before inside e) =
    let room : HasRoom excess maxfd =
      λ k. omega (arith, small k, with_reset-le report.accepting s excess k) in
    main-IsCountedBut maxfd listen_fd file_fd report excess s s' small
      (Reached-IsCountedBut maxfd file_fd calls memory file listen_fd excess s room before) inside e
