-- ===== src/Booking/WriteServer/Records.antt =====
-- What the write server of hw1/server.c does to the booking file.
use mathlib.Core.Option.{some-injective}
use sp_homework.Common.{
  ℕ, ◌≡◌, ◌⊎◌, inl, inr, refl, sym, ap, ◌∙◌, Bool, true, false, some, List, arith, ◌==◌, ==_iff,
  Bool-cases, Option-cases, ◌||◌, not,
}
use sp_homework.Common.Int.{eqb_ℤ, pos}
use sp_homework.Booking.{
  Record, Request, Server, put, Input, ReadResult, minus_one, nothing, line, exits, handle_read,
  stored, valid_id,
}
use sp_homework.Booking.ReadServer.{receive}
use sp_homework.Booking.WriteServer.{
  lock_record, check_line, write_stage0, Verdict, crash, refuse, accept, tokens, parse_command,
  conclude, book, write_stage1, write_turn,
}

-- The connection `i` books, its client sends the line `text`, and the command in it is accepted: the
-- record that it books on becomes the new one, and all others stay.
pub record Rewrites (input : Input) (i : ℕ) (s s' : Server) : Type 0 where
  pub text : List ℕ
  pub updated_record : Record
  pub sent : handle_read input ≡ line text
  pub booking : (s.requests i).stage ≡ 1
  pub accepted : parse_command (s.file (s.requests i).id) (tokens text) ≡ accept updated_record
  pub stored_there : s'.file ≡ put s.file (s.requests i).id updated_record

lock_record-file : (busy : Bool) (i k : ℕ) (s : Server) → (lock_record busy i k s).file ≡ s.file
unfolding lock_record
lock_record-file true i k s =
    elim (Bool-cases (s.write_lock k || not (eqb_ℤ (s.read_lock k) (pos 0)))) [
      | inl taken ↦ rw taken refl
      | inr free ↦ rw free refl
    ]
lock_record-file false i k s =
    elim (Bool-cases (s.write_lock k || not (eqb_ℤ (s.read_lock k) (pos 0)))) [
      | inl taken ↦ rw taken refl
      | inr free ↦ rw free refl
    ]

check_line-file : (busy : ℕ → Bool) (i : ℕ) (s : Server) → (check_line busy i s).file ≡ s.file
unfolding check_line
check_line-file busy i s = elim (Option-cases (valid_id (s.requests i).buf)) [
  | inl bad ↦ rw (bad, check_line) refl
  | inr (k, good) ↦ rw (good, check_line) (lock_record-file (busy k) i k s)
]

file_of : {s s' : Server} → some s ≡ some s' → s.file ≡ s'.file
file_of {s} {s'} e = ap (λ (t : Server). t.file) (some-injective s s' e)

write_stage0-file :
    (busy : ℕ → Bool) (result : ReadResult) (i : ℕ) (s : Server) {s' : Server}
    → write_stage0 busy result i s ≡ some s'
    → s'.file ≡ s.file
unfolding write_stage0
write_stage0-file busy exits i s e = cc
write_stage0-file busy (line text) i s e =
    sym (file_of e) ∙ check_line-file busy i (receive (line text) i s)
write_stage0-file busy minus_one i s e = sym (file_of e)
write_stage0-file busy nothing i s e = sym (file_of e)

-- The verdict on a command, and the file behind it.
conclude-file :
    (v : Verdict) (i : ℕ) (s : Server) {s' : Server}
    → conclude v i s ≡ some s'
    → (s'.file ≡ s.file)
      ⊎ ((r : Record) × (v ≡ accept r) × (s'.file ≡ put s.file (s.requests i).id r))
unfolding conclude
conclude-file crash i s e = cc
conclude-file (refuse m) i s e = inl (sym (file_of e))
conclude-file (accept r) i s e = inr (r, refl, sym (file_of e))

write_stage1-file :
    (input : Input) (result : ReadResult) (i : ℕ) (s : Server) {s' : Server}
    → handle_read input ≡ result
    → (s.requests i).stage ≡ 1
    → write_stage1 result i s ≡ some s'
    → (s'.file ≡ s.file) ⊎ Rewrites input i s s'
unfolding write_stage1 book receive stored
write_stage1-file input exits i s read books e = cc
write_stage1-file input minus_one i s read books e = inl (sym (file_of e))
write_stage1-file input nothing i s read books e = inl (sym (file_of e))
write_stage1-file input (line text) i s read books e =
    let q = stored (line text) (s.requests i) in
    let same : put s.requests i q i ≡ q = rw ((==_iff i i).1 refl) refl in
    elim (conclude-file _ i (receive (line text) i s) e) [
      | inl kept ↦ inl kept
      | inr (r, judged, written) ↦ inr (record {
        text = text;
        updated_record = r;
        sent = read;
        booking = books;
        accepted =
            sym (ap (λ (t : Request). parse_command (s.file t.id) (tokens t.buf)) same) ∙ judged;
        stored_there = written ∙ ap (λ (t : Request). put s.file t.id r) same;
      })
    ]

-- A turn of any connection leaves the file as it is, except where that connection books and its client
-- sends a line with a command that is accepted: then the record that it books on becomes the accepted
-- one, and no other record changes.
pub write_turn-file :
    (busy : ℕ → Bool) (input : Input) (i : ℕ) (s : Server) {s' : Server}
    → write_turn busy input i s ≡ some s'
    → (s'.file ≡ s.file) ⊎ Rewrites input i s s'
unfolding write_turn
write_turn-file busy input i s e = elim (Bool-cases ((s.requests i).stage == 0)) [
  | inl asks ↦ inl (write_stage0-file busy (handle_read input) i s (rw asks at e))
  | inr other ↦ elim (Bool-cases ((s.requests i).stage == 1)) [
    | inl one ↦
        write_stage1-file input (handle_read input) i s refl (ground arith) (rw (other, one) at e)
    | inr more ↦ inl (sym (file_of (rw (other, more) at e)))
  ]
]
