-- ===== src/Booking/WriteServer/Others.antt =====
-- A turn of the write server of hw1/server.c leaves the descriptors of the other connections watched.
use mathlib.Core.Path.{subst}
use mathlib.Core.Option.{some-injective}
use sp_homework.Common.{
  ℕ, ◌≡◌, ◌⊎◌, inl, inr, refl, Bool, true, false, some, List, arith, ◌==◌, Bool-cases, Option-cases,
  ◌||◌, not,
}
use sp_homework.Common.Int.{eqb_ℤ, pos, negsuc}
use sp_homework.Booking.{
  Server, Input, ReadResult, minus_one, nothing, line, exits, handle_read, valid_id, fd_clr,
  hang_up,
}
use sp_homework.Booking.ReadServer.{receive}
use sp_homework.Booking.WriteServer.{
  lock_record, check_line, write_stage0, Verdict, crash, refuse, accept, finish, conclude,
  write_stage1, write_turn,
}

module _ (i j : ℕ) (other : (i == j) ≡ false) where
  -- The slot `i` has the descriptor `i`, or none.
  abbrev Owns : Server → Type 0
  Owns s = ((s.requests i).conn_fd ≡ pos i) ⊎ ((s.requests i).conn_fd ≡ negsuc 0)

  abbrev SameAt : Server → Server → Type 0
  SameAt s s' = s'.master_set j ≡ s.master_set j

  moved : (s : Server) {t s' : Server} → some t ≡ some s' → SameAt s t → SameAt s s'
  moved s {t} {s'} e same = subst (SameAt s) (some-injective t s' e) same

  hang_up-SameAt : (s : Server) → Owns s → SameAt s (hang_up i s)
  unfolding hang_up fd_clr
  hang_up-SameAt s (inl mine) = rw (mine, other) refl
  hang_up-SameAt s (inr closed) = rw closed refl

  lock_record-SameAt :
      (busy : Bool) (k : ℕ) (s : Server) → Owns s → SameAt s (lock_record busy i k s)
  unfolding lock_record
  lock_record-SameAt true k s own =
      elim (Bool-cases (s.write_lock k || not (eqb_ℤ (s.read_lock k) (pos 0)))) [
        | inl taken ↦ rw taken (hang_up-SameAt s own)
        | inr free ↦ rw free (hang_up-SameAt s own)
      ]
  lock_record-SameAt false k s own =
      elim (Bool-cases (s.write_lock k || not (eqb_ℤ (s.read_lock k) (pos 0)))) [
        | inl taken ↦ rw taken (hang_up-SameAt s own)
        | inr free ↦ rw free refl
      ]

  check_line-SameAt : (busy : ℕ → Bool) (s : Server) → Owns s → SameAt s (check_line busy i s)
  unfolding check_line
  check_line-SameAt busy s own = elim (Option-cases (valid_id (s.requests i).buf)) [
    | inl bad ↦ rw (bad, check_line) (hang_up-SameAt s own)
    | inr (k, good) ↦ rw (good, check_line) (lock_record-SameAt (busy k) k s own)
  ]

  conclude-SameAt :
      (v : Verdict) (s : Server) {s' : Server} → Owns s → conclude v i s ≡ some s' → SameAt s s'
  unfolding conclude finish
  conclude-SameAt crash s own e = cc
  conclude-SameAt (refuse m) s own e = moved s e (hang_up-SameAt s own)
  conclude-SameAt (accept r) s own e = moved s e (hang_up-SameAt s own)

  receive-Owns : (text : List ℕ) (s : Server) → Owns s → Owns (receive (line text) i s)
  unfolding receive
  receive-Owns text s own = let here : (i == i) ≡ true = ground arith in rw here own

  stage0-SameAt :
      (busy : ℕ → Bool) (result : ReadResult) (s : Server) {s' : Server}
      → Owns s
      → write_stage0 busy result i s ≡ some s'
      → SameAt s s'
  unfolding write_stage0 receive
  stage0-SameAt busy exits s own e = cc
  stage0-SameAt busy minus_one s own e = moved s e (hang_up-SameAt s own)
  stage0-SameAt busy nothing s own e = moved s e (hang_up-SameAt s own)
  stage0-SameAt busy (line text) s own e =
      moved s e (check_line-SameAt busy (receive (line text) i s) (receive-Owns text s own))

  stage1-SameAt :
      (result : ReadResult) (s : Server) {s' : Server}
      → Owns s
      → write_stage1 result i s ≡ some s'
      → SameAt s s'
  unfolding write_stage1 receive finish
  stage1-SameAt exits s own e = cc
  stage1-SameAt minus_one s own e = moved s e (hang_up-SameAt s own)
  stage1-SameAt nothing s own e = moved s e (hang_up-SameAt s own)
  stage1-SameAt (line text) s own e =
      conclude-SameAt _ (receive (line text) i s) (receive-Owns text s own) e

  pub write_turn-SameAt :
      (busy : ℕ → Bool) (input : Input) (s : Server) {s' : Server}
      → Owns s
      → write_turn busy input i s ≡ some s'
      → SameAt s s'
  unfolding write_turn
  write_turn-SameAt busy input s own e = elim (Bool-cases ((s.requests i).stage == 0)) [
    | inl asks ↦ stage0-SameAt busy (handle_read input) s own (rw asks at e)
    | inr later ↦ elim (Bool-cases ((s.requests i).stage == 1)) [
      | inl one ↦ stage1-SameAt (handle_read input) s own (rw (later, one) at e)
      | inr more ↦ moved s (rw (later, more) at e) refl
    ]
  ]
