-- ===== src/Booking/ReadServer/Ghost.antt =====
-- The read server of hw1/server.c at stage 0, where the client closes before it sends a line: the turn
-- goes on with what an earlier connection left in the buffer.
use sp_homework.Common.{ℕ, ◌≡◌, refl, Bool, false, some, arith}
use sp_homework.Common.Int.{pos, negsuc}
use sp_homework.Booking.{read_locked, Server, end_of_file, handle_read, valid_id, hang_up, fd_clr}
use sp_homework.Booking.ReadServer.{open_record, check_id, read_stage0, read_turn}

-- The slot is open on a record, but has no descriptor, and its old one is not watched: no turn will
-- ever end it, and the lock stays.
pub record IsGhost (i k d : ℕ) (s : Server) : Type 0 where
  pub opened : (s.requests i).stage ≡ 1
  pub on : (s.requests i).id ≡ k
  pub gone : (s.requests i).conn_fd ≡ negsuc 0
  pub unwatched : s.master_set d ≡ false
  pub locked : s.held k ≡ read_locked

module _ (i k d : ℕ) where
  opens-IsGhost :
      (t : Server)
      → t.write_lock k ≡ false
      → (t.requests i).conn_fd ≡ negsuc 0
      → t.master_set d ≡ false
      → IsGhost i k d (open_record false i k t)
  unfolding open_record
  opens-IsGhost t free freed cleared = rw free (record {
    opened = ground arith;
    on = ground arith;
    gone = ground (arith, freed);
    unwatched = cleared;
    locked = ground arith;
  })

  checks-IsGhost :
      (busy : ℕ → Bool) (t : Server)
      → valid_id (t.requests i).buf ≡ some k
      → t.write_lock k ≡ false
      → busy k ≡ false
      → (t.requests i).conn_fd ≡ negsuc 0
      → t.master_set d ≡ false
      → IsGhost i k d (check_id busy i t)
  unfolding check_id
  checks-IsGhost busy t stale free idle freed cleared =
      rw (stale, idle, check_id) (opens-IsGhost t free freed cleared)

  -- Where the client closes at stage 0 while the buffer still holds the id of a record that is free for
  -- reading, as an earlier connection in that slot left it, the turn leaves a ghost behind: the slot is
  -- open on that record, with the read lock, but its descriptor is closed and no longer watched.
  pub read_turn-IsGhost :
      (busy : ℕ → Bool) (s : Server)
      → (s.requests i).stage ≡ 0
      → (s.requests i).conn_fd ≡ pos d
      → valid_id (s.requests i).buf ≡ some k
      → s.write_lock k ≡ false
      → busy k ≡ false
      → (s' : Server) × (read_turn busy end_of_file i s ≡ some s') × IsGhost i k d s'
  unfolding read_turn read_stage0 handle_read hang_up fd_clr
  read_turn-IsGhost busy s asks on_d stale free idle =
      let same : ((hang_up i s).requests i).buf ≡ (s.requests i).buf = ground arith in
      (
        check_id busy i (hang_up i s),
        rw asks refl,
        checks-IsGhost busy (hang_up i s) (rw same stale) free idle (ground arith)
            (rw on_d (ground arith)),
      )
