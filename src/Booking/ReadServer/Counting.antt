-- ===== src/Booking/ReadServer/Counting.antt =====
-- The counts of readers in the read server of hw1/server.c: `readLock` and the lock of the process
-- follow the connections that are open on a record.
use sp_homework.Common.{
  ℕ, zero, suc, ◌+◌, ◌^◌, ◌≡◌, ◌≢◌, ◌≤◌, ◌<◌, inl, inr, refl, ap, ◌∙◌, Bool, true, false, arith,
  ◌==◌, ==_iff, Bool-cases, if◌then◌else◌, ◌&&◌,
}
use sp_homework.Common.Int.{ℤ, pos, int_add, int_add-one, int_sub, to_int, ◌-ℤ◌}
use sp_homework.Booking.{Request, Lock, unlocked, read_locked, Server, put}

-- The connection is open on the record `k`.
abbrev pub reads : Request → ℕ → Bool
reads r k = (r.stage == 1) && (r.id == k)

abbrev pub one_if : Bool → ℕ
one_if true = 1
one_if false = 0

-- How many of the first `n` slots are.
abbrev pub readers : (ℕ → Request) → ℕ → ℕ → ℕ
readers rs k zero = 0
readers rs k (suc n) = one_if (reads (rs n) k) + readers rs k n

readers-put_above :
    (rs : ℕ → Request) (i : ℕ) (r : Request) (k n : ℕ)
    → n ≤ i
    → readers (put rs i r) k n ≡ readers rs k n
readers-put_above rs i r k zero h = refl
readers-put_above rs i r k (suc n) h = ground (arith, readers-put_above rs i r k n)

readers-put :
    (rs : ℕ → Request) (i : ℕ) (r : Request) (k n : ℕ)
    → i < n
    → readers (put rs i r) k n + one_if (reads (rs i) k) ≡ readers rs k n + one_if (reads r k)
readers-put rs i r k zero h = absurd (omega arith)
readers-put rs i r k (suc n) h = elim (Bool-cases (i == n)) [
  | inl here ↦
      let same : i ≡ n = (==_iff i n).0 here in
      let old = ap (λ j. one_if (reads (rs j) k)) same in
      rw here (omega (arith, old, readers-put_above rs i r k n (omega arith)))
  | inr below ↦ rw below (omega (arith, readers-put rs i r k n (ground arith)))
]

readers_bound : (rs : ℕ → Request) (k n : ℕ) → readers rs k n ≤ n
readers_bound rs k zero = omega arith
readers_bound rs k (suc n) = ground (arith, readers_bound rs k n)

decreased : (m : ℕ) → suc m < 2 ^ 31 → int_sub (pos (suc m)) (pos 1) ≡ pos m
unfolding to_int ◌-ℤ◌
decreased m h = ground arith

-- `readLock` is, for each record, the number of connections below `n` that are open on it and an excess,
-- and the process holds the read lock on a record exactly while that is not 0.
pub record Counted (excess : ℕ → ℕ) (n : ℕ) (rs : ℕ → Request) (counts : ℕ → ℤ) (held : ℕ → Lock)
    : Type 0 where
  pub counted : (k : ℕ) → counts k ≡ pos (excess k + readers rs k n)
  pub lock : (k : ℕ) → held k ≡ (if excess k + readers rs k n == 0 then unlocked else read_locked)

abbrev pub IsCountedBut : (ℕ → ℕ) → ℕ → Server → Type 0
IsCountedBut excess n s = Counted excess n s.requests s.read_lock s.held

-- The counts and the excess fit an `int`.
abbrev pub HasRoom : (ℕ → ℕ) → ℕ → Type 0
HasRoom excess n = (k : ℕ) → excess k + n < 2 ^ 31

-- `readLock` counts the connections below `n` that are open on each record, and the process holds the
-- read lock on a record exactly while there is one.
pub record IsCounted (n : ℕ) (s : Server) : Type 0 where
  pub counted : (k : ℕ) → s.read_lock k ≡ pos (readers s.requests k n)
  pub lock : (k : ℕ) → s.held k ≡ (if readers s.requests k n == 0 then unlocked else read_locked)

pub without_excess : (n : ℕ) (s : Server) → IsCounted n s → IsCountedBut (λ k. 0) n s
without_excess n s inv = record {
  counted = λ k.
      let same : readers s.requests k n ≡ 0 + readers s.requests k n = omega arith in
      inv.counted k ∙ ap pos same;
  lock = λ k.
      let same : 0 + readers s.requests k n ≡ readers s.requests k n = omega arith in
      rw same (inv.lock k);
}

pub no_excess : (n : ℕ) (s : Server) → IsCountedBut (λ k. 0) n s → IsCounted n s
no_excess n s inv = record {
  counted = λ k.
      let same : 0 + readers s.requests k n ≡ readers s.requests k n = omega arith in
      inv.counted k ∙ ap pos same;
  lock = λ k.
      let same : 0 + readers s.requests k n ≡ readers s.requests k n = omega arith in
      rw same at (inv.lock k);
}

module _ {excess : ℕ → ℕ} {n : ℕ} {rs : ℕ → Request} {counts : ℕ → ℤ} {held : ℕ → Lock}
    (inv : Counted excess n rs counts held) (i : ℕ) (inside : i < n) (small : HasRoom excess n)
    (r : Request) where
  -- A request changes, but not what it is open on.
  pub keep_open : ((k : ℕ) → reads r k ≡ reads (rs i) k) → Counted excess n (put rs i r) counts held
  keep_open same =
      let unchanged : (k : ℕ) → readers (put rs i r) k n ≡ readers rs k n =
        λ k. let e = ap one_if (same k) in omega (arith, readers-put rs i r k n inside) in
      record {
        counted = λ k. rw (unchanged k) (inv.counted k);
        lock = λ k. rw (unchanged k) (inv.lock k);
      }

  -- A request that may be open is started afresh, and its record is not counted down.
  pub abandon :
      r.stage ≢ 1 → Counted (λ k. excess k + one_if (reads (rs i) k)) n (put rs i r) counts held
  abandon idle =
      let moved : (k : ℕ)
          → (excess k + one_if (reads (rs i) k)) + readers (put rs i r) k n
            ≡ excess k + readers rs k n =
        λ k. ground (arith, readers-put rs i r k n inside) in
      record { counted = λ k. rw (moved k) (inv.counted k); lock = λ k. rw (moved k) (inv.lock k) }

  one_more :
      (k : ℕ)
      → (rs i).stage ≢ 1
      → r.stage ≡ 1
      → r.id ≡ k
      → (j : ℕ) → readers (put rs i r) j n ≡ one_if (k == j) + readers rs j n
  one_more k idle opened on j = ground (arith, readers-put rs i r j n inside)

  one_less :
      (k : ℕ)
      → (rs i).stage ≡ 1
      → (rs i).id ≡ k
      → r.stage ≢ 1
      → (j : ℕ) → readers rs j n ≡ one_if (k == j) + readers (put rs i r) j n
  one_less k opened on idle j = ground (arith, readers-put rs i r j n inside)

  pub open_one :
      (k : ℕ)
      → (rs i).stage ≢ 1
      → r.stage ≡ 1
      → r.id ≡ k
      → Counted excess n
          (put rs i r)
          (put counts k (int_add (counts k) (pos 1)))
          (put held k read_locked)
  open_one k idle opened on = record {
    counted = λ j. elim (Bool-cases (k == j)) [
      | inl here ↦
          let same = (==_iff k j).0 here in
          let same_readers = ap (λ l. readers rs l n) same in
          let same_excess = ap excess same in
          let more : excess j + readers (put rs i r) j n ≡ suc (excess k + readers rs k n) =
            ground (arith, one_more k idle opened on j, same_readers, same_excess) in
          let room = readers_bound (put rs i r) j n in
          rw (here, more)
            (ap (λ z. int_add z (pos 1)) (inv.counted k)
              ∙ int_add-one (excess k + readers rs k n) (omega (arith, small j)))
      | inr other ↦
          let kept : readers (put rs i r) j n ≡ readers rs j n =
            ground (arith, one_more k idle opened on j) in
          rw (other, kept) (inv.counted j)
    ];
    lock = λ j. elim (Bool-cases (k == j)) [
      | inl here ↦
          let more : excess j + readers (put rs i r) j n ≡ suc (excess j + readers rs j n) =
            ground (arith, one_more k idle opened on j) in
          rw (here, more) (ground arith)
      | inr other ↦
          let kept : readers (put rs i r) j n ≡ readers rs j n =
            ground (arith, one_more k idle opened on j) in
          rw (other, kept) (inv.lock j)
    ];
  }

  pub one_counted_down :
      (k : ℕ)
      → (rs i).stage ≡ 1
      → (rs i).id ≡ k
      → r.stage ≢ 1
      → int_sub (counts k) (pos 1) ≡ pos (excess k + readers (put rs i r) k n)
  one_counted_down k opened on idle =
      let less : excess k + readers rs k n ≡ suc (excess k + readers (put rs i r) k n) =
        ground (arith, one_less k opened on idle k) in
      let room = readers_bound rs k n in
      ap (λ z. int_sub z (pos 1)) (inv.counted k ∙ ap pos less)
      ∙ decreased (excess k + readers (put rs i r) k n) (omega (arith, small k))

  pub close_one :
      (k : ℕ) (last : Bool)
      → (rs i).stage ≡ 1
      → (rs i).id ≡ k
      → r.stage ≢ 1
      → last ≡ (excess k + readers (put rs i r) k n == 0)
      → Counted excess n
          (put rs i r)
          (put counts k (int_sub (counts k) (pos 1)))
          (if last then put held k unlocked else held)
  close_one k last opened on idle ends = record {
    counted = λ j. elim (Bool-cases (k == j)) [
      | inl here ↦
          let same = ap (λ l. excess l + readers (put rs i r) l n) ((==_iff k j).0 here) in
          rw here (one_counted_down k opened on idle ∙ ap pos same)
      | inr other ↦
          let kept : readers rs j n ≡ readers (put rs i r) j n =
            ground (arith, one_less k opened on idle j) in
          rw other (inv.counted j ∙ ap (λ m. pos (excess j + m)) kept)
    ];
    lock = λ j.
        let less = one_less k opened on idle j in
        let before = inv.lock j in ground (arith, less, before, ==_iff k j);
  }
