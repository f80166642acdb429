-- ===== src/Booking/WriteServer/Exclusive.antt =====
-- Mutual exclusion in the write server of hw1/server.c: a record is locked exactly while one
-- connection is booking on it.
use mathlib.Core.Path.{subst}
use mathlib.Core.Option.{some-injective}
use sp_homework.Common.{
  ℕ, ◌≡◌, ◌≢◌, inl, inr, refl, Bool, true, false, some, List, [], ◌∷◌, arith, ◌==◌, ==_iff,
  Bool-cases, Option-cases, ◌||◌, not,
}
use sp_homework.Common.Int.{eqb_ℤ, pos}
use sp_homework.Booking.{
  Request, Lock, unlocked, write_locked, Server, put, Input, ReadResult, minus_one, nothing, line,
  exits, handle_read, stored, valid_id, hang_up,
}
use sp_homework.Booking.ReadServer.{receive}
use sp_homework.Booking.WriteServer.{
  lock_record, check_line, write_stage0, Verdict, crash, refuse, accept, finish, conclude,
  write_stage1, write_turn, breaks, write_pass,
}

-- The connection books on the record `k`.
abbrev pub Books : (ℕ → Request) → ℕ → ℕ → Type 0
Books rs i k = (rs i).stage ≡ 1 × ((rs i).id ≡ k)

pub record Exclusive (rs : ℕ → Request) (wl : ℕ → Bool) (held : ℕ → Lock) : Type 0 where
  -- two connections never book on one record
  pub unique : (i j k : ℕ) → Books rs i k → Books rs j k → i ≡ j
  -- a record that is booked on is locked, for the other connections and for other processes
  pub locks : (i k : ℕ) → Books rs i k → (wl k ≡ true) × (held k ≡ write_locked)
  -- a record that is marked is booked on: no mark is left behind
  pub owned : (k : ℕ) → wl k ≡ true → (i : ℕ) × Books rs i k
  -- this process holds no lock on a record that is not marked: no lock is left behind
  pub freed : (k : ℕ) → wl k ≡ false → held k ≡ unlocked

abbrev pub IsExclusive : Server → Type 0
IsExclusive s = Exclusive s.requests s.write_lock s.held

module _ {rs : ℕ → Request} {wl : ℕ → Bool} {held : ℕ → Lock} (inv : Exclusive rs wl held)
    (i : ℕ) where
  -- A request that does not book is changed, and does not book afterwards.
  pub keep_idle : (r : Request) → (rs i).stage ≢ 1 → r.stage ≢ 1 → Exclusive (put rs i r) wl held
  keep_idle r before after = record {
    unique = λ a b k ha hb. ground (arith, inv.unique a b k);
    locks = λ a k h. ground (arith, inv.locks a k);
    owned = λ k h. let (a, books) = inv.owned k h in (a, ground arith);
    freed = inv.freed;
  }

  -- A request is changed, but not its stage and id.
  keep_stage :
      (r : Request) → r.stage ≡ (rs i).stage → r.id ≡ (rs i).id → Exclusive (put rs i r) wl held
  keep_stage r stage id = record {
    unique = λ a b k ha hb. ground (arith, inv.unique a b k);
    locks = λ a k h. ground (arith, inv.locks a k);
    owned = λ k h. let (a, books) = inv.owned k h in (a, ground arith);
    freed = inv.freed;
  }

  -- A connection takes a free record.
  take_lock :
      (r : Request) (k : ℕ)
      → (rs i).stage ≢ 1
      → wl k ≡ false
      → r.stage ≡ 1
      → r.id ≡ k
      → Exclusive (put rs i r) (put wl k true) (put held k write_locked)
  take_lock r k before free stage id = record {
    unique = λ a b l ha hb. ground (arith, inv.unique a b l, inv.locks a l, inv.locks b l);
    locks = λ a l h. ground (arith, inv.locks a l);
    owned = λ l h. elim (Bool-cases (k == l)) [
      | inl here ↦ (i, ground (arith, ==_iff k l))
      | inr other ↦ let (a, books) = inv.owned l (ground arith) in (a, ground arith)
    ];
    freed = λ l h. ground (arith, inv.freed l);
  }

  -- A connection ends and gives its record free.
  drop_lock :
      (r : Request) (k : ℕ)
      → Books rs i k
      → r.stage ≢ 1
      → Exclusive (put rs i r) (put wl k false) (put held k unlocked)
  drop_lock r k books after = record {
    unique = λ a b l ha hb. ground (arith, inv.unique a b l);
    locks = λ a l h. ground (arith, inv.locks a l, inv.unique a i k);
    owned = λ l h. let (a, other) = inv.owned l (ground arith) in (a, ground arith);
    freed = λ l h. ground (arith, inv.freed l);
  }

moved : {s s' : Server} → some s ≡ some s' → IsExclusive s → IsExclusive s'
moved {s} {s'} e inv = subst IsExclusive (some-injective s s' e) inv

-- The steps of the server keep the exclusion.
module _ (i : ℕ) (s : Server) (inv : IsExclusive s) where
  hang_up-IsExclusive : (s.requests i).stage ≢ 1 → IsExclusive (hang_up i s)
  unfolding hang_up
  hang_up-IsExclusive idle = keep_idle inv i _ idle (λ e. absurd (omega arith))

  receive-IsExclusive : (result : ReadResult) → IsExclusive (receive result i s)
  unfolding receive
  receive-IsExclusive (line text) = keep_stage inv i _ refl refl
  receive-IsExclusive minus_one = keep_stage inv i _ refl refl
  receive-IsExclusive nothing = keep_stage inv i _ refl refl
  receive-IsExclusive exits = keep_stage inv i _ refl refl

  finish-IsExclusive : (s.requests i).stage ≡ 1 → IsExclusive (finish i s)
  unfolding finish
  finish-IsExclusive books =
      drop_lock inv i _ (s.requests i).id (books, refl) (λ e. absurd (omega arith))

  -- A record is taken only where it is free.
  lock_record-IsExclusive :
      (busy : Bool) (k : ℕ) → (s.requests i).stage ≢ 1 → IsExclusive (lock_record busy i k s)
  unfolding lock_record
  lock_record-IsExclusive true k idle =
      elim (Bool-cases (s.write_lock k || not (eqb_ℤ (s.read_lock k) (pos 0)))) [
        | inl taken ↦ rw taken (hang_up-IsExclusive idle)
        | inr free ↦ rw free (hang_up-IsExclusive idle)
      ]
  lock_record-IsExclusive false k idle =
      elim (Bool-cases (s.write_lock k || not (eqb_ℤ (s.read_lock k) (pos 0)))) [
        | inl taken ↦ rw taken (hang_up-IsExclusive idle)
        | inr free ↦ rw free (take_lock inv i _ k idle (ground arith) refl refl)
      ]

  check_line-IsExclusive :
      (busy : ℕ → Bool) → (s.requests i).stage ≢ 1 → IsExclusive (check_line busy i s)
  unfolding check_line
  check_line-IsExclusive busy idle = elim (Option-cases (valid_id (s.requests i).buf)) [
    | inl bad ↦ rw (bad, check_line) (hang_up-IsExclusive idle)
    | inr (k, good) ↦ rw (good, check_line) (lock_record-IsExclusive (busy k) k idle)
  ]

  conclude-IsExclusive :
      (v : Verdict) {s' : Server}
      → (s.requests i).stage ≡ 1
      → conclude v i s ≡ some s'
      → IsExclusive s'
  unfolding conclude
  conclude-IsExclusive crash books e = cc
  conclude-IsExclusive (refuse m) books e = moved e (finish-IsExclusive books)
  conclude-IsExclusive (accept r) books e = moved e (finish-IsExclusive books)

module _ (busy : ℕ → Bool) (i : ℕ) (s : Server) (inv : IsExclusive s) where
  write_stage0-IsExclusive :
      (result : ReadResult) {s' : Server}
      → (s.requests i).stage ≢ 1
      → write_stage0 busy result i s ≡ some s'
      → IsExclusive s'
  unfolding write_stage0 receive stored
  write_stage0-IsExclusive exits idle e = cc
  write_stage0-IsExclusive minus_one idle e = moved e (hang_up-IsExclusive i s inv idle)
  write_stage0-IsExclusive nothing idle e = moved e (hang_up-IsExclusive i s inv idle)
  write_stage0-IsExclusive (line text) idle e = moved e (
      check_line-IsExclusive i (receive (line text) i s) (receive-IsExclusive i s inv (line text))
        busy (ground arith))

  write_stage1-IsExclusive :
      (result : ReadResult) {s' : Server}
      → (s.requests i).stage ≡ 1
      → write_stage1 result i s ≡ some s'
      → IsExclusive s'
  unfolding write_stage1 receive stored
  write_stage1-IsExclusive exits books e = cc
  write_stage1-IsExclusive minus_one books e = moved e (finish-IsExclusive i s inv books)
  write_stage1-IsExclusive nothing books e = moved e (finish-IsExclusive i s inv books)
  write_stage1-IsExclusive (line text) books e =
      conclude-IsExclusive i (receive (line text) i s) (receive-IsExclusive i s inv (line text)) _
        (ground arith) e

  -- A turn of any connection, whatever is read and whatever other processes lock, keeps it so that
  -- no two connections book on one record, that exactly the records that are booked on are marked in
  -- `writeLock`, and that this process holds the write lock on each of them and no lock on any other.
  pub write_turn-IsExclusive :
      (input : Input) {s' : Server} → write_turn busy input i s ≡ some s' → IsExclusive s'
  unfolding write_turn
  write_turn-IsExclusive input e = elim (Bool-cases ((s.requests i).stage == 0)) [
    | inl zero_stage ↦
        write_stage0-IsExclusive (handle_read input) (ground arith) (rw zero_stage at e)
    | inr other ↦ elim (Bool-cases ((s.requests i).stage == 1)) [
      | inl one ↦ write_stage1-IsExclusive (handle_read input) (ground arith) (rw (other, one) at e)
      | inr more ↦ moved (rw (other, more) at e) inv
    ]
  ]

-- A pass over the readable connections, with its early `break`, keeps the exclusion as well: no two
-- connections book on one record, exactly the records that are booked on are marked in `writeLock`,
-- and this process holds the write lock on each of them and no lock on any other record.
pub write_pass-IsExclusive :
    (busy : ℕ → Bool) (readable : List (ℕ × Input)) (s : Server) {s' : Server}
    → IsExclusive s
    → write_pass busy readable s ≡ some s'
    → IsExclusive s'
unfolding write_pass
write_pass-IsExclusive busy [] s inv e = moved e inv
write_pass-IsExclusive busy ((i, input) ∷ rest) s inv e =
    elim (Option-cases (write_turn busy input i s)) [
      | inl dies ↦ cc
      | inr (t, turn) ↦
          let kept = write_turn-IsExclusive busy i s inv input turn in
          elim (Bool-cases (breaks input i s)) [
            | inl stop ↦ moved (rw (turn, stop, write_pass) at e) kept
            | inr on ↦ write_pass-IsExclusive busy rest t kept (rw (turn, on, write_pass) at e)
          ]
    ]
