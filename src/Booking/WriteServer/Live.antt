-- ===== src/Booking/WriteServer/Live.antt =====
-- The descriptors of the write server of hw1/server.c: each slot has its own number or none, and a
-- connection that books is watched.
use mathlib.Core.Path.{subst}
use mathlib.Core.Option.{some-injective}
use sp_homework.Common.{
  ℕ, ◌≡◌, ◌≢◌, ◌⊎◌, inl, inr, refl, ap, ◌∙◌, Bool, true, false, some, arith, ◌==◌, ==_iff,
  Bool-cases, Option-cases, ◌||◌, not,
}
use sp_homework.Common.Int.{eqb_ℤ, pos, negsuc}
use sp_homework.Booking.{
  Request, Server, put, Input, ReadResult, minus_one, nothing, line, exits, handle_read, valid_id,
  fd_clr, hang_up,
}
use sp_homework.Booking.ReadServer.{receive}
use sp_homework.Booking.WriteServer.{
  lock_record, check_line, write_stage0, Verdict, crash, refuse, accept, finish, conclude,
  write_stage1, write_turn,
}

pub record Live (rs : ℕ → Request) (watched : ℕ → Bool) : Type 0 where
  -- the descriptor of a slot is its number, or the slot has none
  pub own : (i : ℕ) → ((rs i).conn_fd ≡ pos i) ⊎ ((rs i).conn_fd ≡ negsuc 0)
  -- a connection that books is in `master_set`
  pub books : (i : ℕ) → (rs i).stage ≡ 1 → watched i ≡ true

abbrev pub IsLive : Server → Type 0
IsLive s = Live s.requests s.master_set

module _ {rs : ℕ → Request} {watched : ℕ → Bool} (inv : Live rs watched) (i : ℕ) (r : Request) where
  keep_fd :
      r.conn_fd ≡ (rs i).conn_fd → (r.stage ≡ 1 → watched i ≡ true) → Live (put rs i r) watched
  keep_fd same starts = record {
    own = λ j. elim (Bool-cases (i == j)) [
      | inl here ↦ rw here (elim (inv.own i) [
        | inl mine ↦ inl (same ∙ mine ∙ ap pos ((==_iff i j).0 here))
        | inr closed ↦ inr (same ∙ closed)
      ])
      | inr other ↦ rw other (inv.own j)
    ];
    books = λ j h. ground (arith, inv.books j, starts, ==_iff i j);
  }

  lose_fd : r.conn_fd ≡ negsuc 0 → r.stage ≢ 1 → Live (put rs i r) (fd_clr (rs i).conn_fd watched)
  unfolding fd_clr
  lose_fd gone idle = record {
    own = λ j. elim (Bool-cases (i == j)) [
      | inl here ↦ rw here (inr gone)
      | inr other ↦ rw other (inv.own j)
    ];
    books = λ j h. elim (inv.own i) [
      | inl mine ↦ rw mine (ground (arith, inv.books j, idle))
      | inr closed ↦ rw closed (ground (arith, inv.books j, idle))
    ];
  }

moved : {s s' : Server} → some s ≡ some s' → IsLive s → IsLive s'
moved {s} {s'} e inv = subst IsLive (some-injective s s' e) inv

module _ (i : ℕ) (s : Server) (inv : IsLive s) where
  hang_up-IsLive : IsLive (hang_up i s)
  unfolding hang_up
  hang_up-IsLive = lose_fd inv i _ refl (λ e. absurd (omega arith))

  receive-IsLive : (result : ReadResult) → IsLive (receive result i s)
  unfolding receive
  receive-IsLive (line text) = keep_fd inv i _ refl (inv.books i)
  receive-IsLive minus_one = keep_fd inv i _ refl (inv.books i)
  receive-IsLive nothing = keep_fd inv i _ refl (inv.books i)
  receive-IsLive exits = keep_fd inv i _ refl (inv.books i)

  lock_record-IsLive :
      (busy : Bool) (k : ℕ) → s.master_set i ≡ true → IsLive (lock_record busy i k s)
  unfolding lock_record
  lock_record-IsLive true k on =
      elim (Bool-cases (s.write_lock k || not (eqb_ℤ (s.read_lock k) (pos 0)))) [
        | inl taken ↦ rw taken hang_up-IsLive
        | inr free ↦ rw free hang_up-IsLive
      ]
  lock_record-IsLive false k on =
      elim (Bool-cases (s.write_lock k || not (eqb_ℤ (s.read_lock k) (pos 0)))) [
        | inl taken ↦ rw taken hang_up-IsLive
        | inr free ↦ rw free (keep_fd inv i _ refl (λ e. on))
      ]

  check_line-IsLive : (busy : ℕ → Bool) → s.master_set i ≡ true → IsLive (check_line busy i s)
  unfolding check_line
  check_line-IsLive busy on = elim (Option-cases (valid_id (s.requests i).buf)) [
    | inl bad ↦ rw (bad, check_line) hang_up-IsLive
    | inr (k, good) ↦ rw (good, check_line) (lock_record-IsLive (busy k) k on)
  ]

  finish-IsLive : IsLive (finish i s)
  unfolding finish
  finish-IsLive = hang_up-IsLive

  conclude-IsLive : (v : Verdict) {s' : Server} → conclude v i s ≡ some s' → IsLive s'
  unfolding conclude
  conclude-IsLive crash e = cc
  conclude-IsLive (refuse m) e = moved e finish-IsLive
  conclude-IsLive (accept r) e = moved e finish-IsLive

module _ (busy : ℕ → Bool) (i : ℕ) (s : Server) (inv : IsLive s) where
  write_stage0-IsLive :
      (result : ReadResult) {s' : Server}
      → s.master_set i ≡ true
      → write_stage0 busy result i s ≡ some s'
      → IsLive s'
  unfolding write_stage0 receive
  write_stage0-IsLive exits on e = cc
  write_stage0-IsLive minus_one on e = moved e (hang_up-IsLive i s inv)
  write_stage0-IsLive nothing on e = moved e (hang_up-IsLive i s inv)
  write_stage0-IsLive (line text) on e =
      moved e
        (check_line-IsLive i (receive (line text) i s) (receive-IsLive i s inv (line text)) busy on)

  write_stage1-IsLive :
      (result : ReadResult) {s' : Server} → write_stage1 result i s ≡ some s' → IsLive s'
  unfolding write_stage1
  write_stage1-IsLive exits e = cc
  write_stage1-IsLive minus_one e = moved e (finish-IsLive i s inv)
  write_stage1-IsLive nothing e = moved e (finish-IsLive i s inv)
  write_stage1-IsLive (line text) e =
      conclude-IsLive i (receive (line text) i s) (receive-IsLive i s inv (line text)) _ e

  pub write_turn-IsLive :
      (input : Input) {s' : Server}
      → s.master_set i ≡ true
      → write_turn busy input i s ≡ some s'
      → IsLive s'
  unfolding write_turn
  write_turn-IsLive input on e = elim (Bool-cases ((s.requests i).stage == 0)) [
    | inl asks ↦ write_stage0-IsLive (handle_read input) on (rw asks at e)
    | inr other ↦ elim (Bool-cases ((s.requests i).stage == 1)) [
      | inl one ↦ write_stage1-IsLive (handle_read input) (rw (other, one) at e)
      | inr more ↦ moved (rw (other, more) at e) inv
    ]
  ]
