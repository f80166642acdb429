-- ===== src/Booking/ReadServer/Turns.antt =====
-- A turn of the read server of hw1/server.c keeps the counts of readers.
use mathlib.Core.Path.{subst}
use mathlib.Core.Option.{some-injective}
use sp_homework.Common.{
  ℕ, ◌+◌, ◌^◌, ◌≡◌, ◌≢◌, ◌<◌, inl, inr, refl, Bool, true, false, some, arith, ◌==◌, ==_iff,
  Bool-cases, Option-cases,
}
use sp_homework.Common.Int.{pos, int_sub, eqb_ℤ}
use sp_homework.Booking.{
  Server, put, Input, ReadResult, minus_one, nothing, line, exits, handle_read, stored, valid_id,
  free_request, hang_up,
}
use sp_homework.Booking.ReadServer.{
  open_record, receive, check_id, read_stage0, is_exit, release, read_stage1, read_turn,
}
use sp_homework.Booking.ReadServer.Counting.{
  readers, IsCounted, IsCountedBut, HasRoom, without_excess, no_excess, keep_open, open_one,
  close_one, one_counted_down,
}

module _ (excess : ℕ → ℕ) (n : ℕ) (small : HasRoom excess n) (i : ℕ) (inside : i < n) where
  moved : {s s' : Server} → some s ≡ some s' → IsCountedBut excess n s → IsCountedBut excess n s'
  moved {s} {s'} e inv = subst (IsCountedBut excess n) (some-injective s s' e) inv

  hang_up-IsCountedBut :
      (s : Server)
      → IsCountedBut excess n s
      → (s.requests i).stage ≢ 1
      → IsCountedBut excess n (hang_up i s)
  unfolding hang_up
  hang_up-IsCountedBut s inv idle = keep_open inv i inside small _ (λ k. ground (arith, idle))

  receive-IsCountedBut :
      (result : ReadResult) (s : Server)
      → IsCountedBut excess n s
      → IsCountedBut excess n (receive result i s)
  unfolding receive
  receive-IsCountedBut (line text) s inv = keep_open inv i inside small _ (λ k. refl)
  receive-IsCountedBut minus_one s inv = keep_open inv i inside small _ (λ k. refl)
  receive-IsCountedBut nothing s inv = keep_open inv i inside small _ (λ k. refl)
  receive-IsCountedBut exits s inv = keep_open inv i inside small _ (λ k. refl)

  open_record-IsCountedBut :
      (busy : Bool) (k : ℕ) (s : Server)
      → IsCountedBut excess n s
      → (s.requests i).stage ≢ 1
      → IsCountedBut excess n (open_record busy i k s)
  unfolding open_record
  open_record-IsCountedBut true k s inv idle = elim (Bool-cases (s.write_lock k)) [
    | inl taken ↦ rw taken (hang_up-IsCountedBut s inv idle)
    | inr free ↦ rw free (hang_up-IsCountedBut s inv idle)
  ]
  open_record-IsCountedBut false k s inv idle = elim (Bool-cases (s.write_lock k)) [
    | inl taken ↦ rw taken (hang_up-IsCountedBut s inv idle)
    | inr free ↦ rw free (open_one inv i inside small _ k idle refl refl)
  ]

  check_id-IsCountedBut :
      (busy : ℕ → Bool) (s : Server)
      → IsCountedBut excess n s
      → (s.requests i).stage ≢ 1
      → IsCountedBut excess n (check_id busy i s)
  unfolding check_id
  check_id-IsCountedBut busy s inv idle = elim (Option-cases (valid_id (s.requests i).buf)) [
    | inl bad ↦ elim (Bool-cases ((s.requests i).stage == 0)) [
      | inl asks ↦ rw (bad, asks, check_id) (hang_up-IsCountedBut s inv idle)
      | inr other ↦ rw (bad, other, check_id) inv
    ]
    | inr (k, good) ↦ rw (good, check_id) (open_record-IsCountedBut (busy k) k s inv idle)
  ]

  -- The test of the count that `release` makes, behind the decrement.
  abbrev last_one : Server → Bool
  last_one s =
      let k = (s.requests i).id in
      eqb_ℤ (put s.read_lock k (int_sub (s.read_lock k) (pos 1)) k) (pos 0)

  last_one_lem :
      (s : Server)
      → IsCountedBut excess n s
      → (s.requests i).stage ≡ 1
      → last_one s
        ≡ (excess (s.requests i).id + readers (hang_up i s).requests (s.requests i).id n == 0)
  unfolding hang_up
  last_one_lem s inv opened =
      let k = (s.requests i).id in
      let down =
        one_counted_down inv i inside small (free_request (s.requests i)) k opened refl
          (λ e. absurd (omega arith)) in
      rw ((==_iff k k).1 refl, down) (ground arith)

  release-IsCountedBut :
      (s : Server)
      → IsCountedBut excess n s
      → (s.requests i).stage ≡ 1
      → IsCountedBut excess n (release i s)
  unfolding release
  release-IsCountedBut s inv opened =
      let k = (s.requests i).id in
      let ends = last_one_lem s inv opened in
      elim (Bool-cases (last_one s)) [
        | inl gone ↦
            rw (gone, release)
              (close_one inv i inside small _ k true opened refl (λ e. absurd (omega arith))
                (rw gone at ends))
        | inr others ↦
            rw (others, release)
              (close_one inv i inside small _ k false opened refl (λ e. absurd (omega arith))
                (rw others at ends))
      ]

  read_stage0-IsCountedBut :
      (busy : ℕ → Bool) (result : ReadResult) (s : Server) {s' : Server}
      → IsCountedBut excess n s
      → (s.requests i).stage ≡ 0
      → read_stage0 busy result i s ≡ some s'
      → IsCountedBut excess n s'
  unfolding read_stage0 receive stored hang_up
  read_stage0-IsCountedBut busy exits s inv asks e = cc
  read_stage0-IsCountedBut busy (line text) s inv asks e =
      let next = receive (line text) i s in
      moved e
        (check_id-IsCountedBut busy next (receive-IsCountedBut (line text) s inv) (ground arith))
  read_stage0-IsCountedBut busy minus_one s inv asks e =
      let freed = hang_up-IsCountedBut s inv (ground arith) in
      moved e (check_id-IsCountedBut busy (hang_up i s) freed (ground arith))
  read_stage0-IsCountedBut busy nothing s inv asks e =
      let freed = hang_up-IsCountedBut s inv (ground arith) in
      moved e (check_id-IsCountedBut busy (hang_up i s) freed (ground arith))

  read_stage1-IsCountedBut :
      (result : ReadResult) (s : Server) {s' : Server}
      → IsCountedBut excess n s
      → (s.requests i).stage ≡ 1
      → read_stage1 result i s ≡ some s'
      → IsCountedBut excess n s'
  unfolding read_stage1 receive stored
  read_stage1-IsCountedBut exits s inv opened e = cc
  read_stage1-IsCountedBut minus_one s inv opened e = moved e (release-IsCountedBut s inv opened)
  read_stage1-IsCountedBut nothing s inv opened e = moved e (release-IsCountedBut s inv opened)
  read_stage1-IsCountedBut (line text) s inv opened e =
      let next = receive (line text) i s in
      let kept = receive-IsCountedBut (line text) s inv in
      elim (Bool-cases (is_exit text)) [
        | inl leaves ↦
            moved (rw (leaves, read_stage1) at e) (release-IsCountedBut next kept (ground arith))
        | inr stays ↦ moved (rw (stays, read_stage1) at e) kept
      ]

  -- A turn of the connection in a slot below `n` keeps `readLock` at the number of slots below `n` that
  -- are open on each record and an excess, whatever the excess is.
  pub read_turn-IsCountedBut :
      (busy : ℕ → Bool) (input : Input) (s : Server) {s' : Server}
      → IsCountedBut excess n s
      → read_turn busy input i s ≡ some s'
      → IsCountedBut excess n s'
  unfolding read_turn
  read_turn-IsCountedBut busy input s inv e = elim (Bool-cases ((s.requests i).stage == 0)) [
    | inl asks ↦
        read_stage0-IsCountedBut busy (handle_read input) s inv (ground arith) (rw asks at e)
    | inr other ↦ elim (Bool-cases ((s.requests i).stage == 1)) [
      | inl opened ↦
          read_stage1-IsCountedBut (handle_read input) s inv (ground arith)
            (rw (other, opened) at e)
      | inr more ↦ moved (rw (other, more) at e) inv
    ]
  ]

-- A turn of the connection in a slot below `n`, whatever is read and whatever other processes lock,
-- keeps it so that `readLock` is, for each record, the number of slots below `n` that are open on
-- it, and that this process holds the read lock on a record exactly while that number is not 0. The
-- condition is that `n` is below 2^31.
pub read_turn-IsCounted :
    (n : ℕ) (small : n < 2 ^ 31) (i : ℕ) (inside : i < n) (busy : ℕ → Bool) (input : Input)
    (s : Server) {s' : Server}
    → IsCounted n s
    → read_turn busy input i s ≡ some s'
    → IsCounted n s'
read_turn-IsCounted n small i inside busy input s inv e = no_excess n _ (
    read_turn-IsCountedBut (λ k. 0) n (λ k. omega (arith, small)) i inside busy input s
      (without_excess n s inv) e)
