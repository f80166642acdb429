-- ===== src/Booking/WriteServer/Limits.antt =====
-- The limits of a booking in hw1/server.c: what `judge` accepts, and what slips through by overflow.
use sp_homework.Common.{ℕ, ◌+◌, ◌≤◌, ◌<◌, ◌^◌, ◌≡◌, ◌↔◌, arith, if◌then◌else◌}
use sp_homework.Common.Int.{
  ℤ, pos, int_add, to_int, ltb_ℤ, IsWithin, ◌+ℤ◌, ◌≤ℤ◌, +ℤ_parts, +ℤ_comm, int_laws, +ℤ-IsWithin,
  int_add_within, neg_part_nonneg,
}
use sp_homework.Booking.{Record, too_many, too_few}
use sp_homework.Booking.WriteServer.{Verdict, refuse, accept, judge}

-- No count is negative, and all together are at most 15.
pub record IsLegal (r : Record) : Type 0 where
  pub some_food : pos 0 ≤ℤ r.food
  pub some_concert : pos 0 ≤ℤ r.concert
  pub some_electronics : pos 0 ≤ℤ r.electronics
  pub few : r.food +ℤ r.concert +ℤ r.electronics ≤ℤ pos 15

abbrev pub moderate : ℕ
moderate = 2 ^ 29

-- The record with the three numbers added.
abbrev pub added : Record → ℤ → ℤ → ℤ → Record
added r f c e = record r {
  food = r.food +ℤ f;
  concert = r.concert +ℤ c;
  electronics = r.electronics +ℤ e;
}

legal_small :
    (r : Record)
    → IsLegal r
    → IsWithin 15 r.food × IsWithin 15 r.concert × IsWithin 15 r.electronics
legal_small r l = omega (
  arith,
  l.few,
  neg_part_nonneg r.food l.some_food,
  neg_part_nonneg r.concert l.some_concert,
  neg_part_nonneg r.electronics l.some_electronics,
  +ℤ_parts r.food r.concert,
  +ℤ_parts (r.food +ℤ r.concert) r.electronics,
)

-- The tests of `judge` on the record that they lead to.
ladder : Record → Verdict
ladder a =
    if ltb_ℤ (pos 15) (a.food +ℤ a.concert +ℤ a.electronics)
    then refuse too_many
    else if ltb_ℤ a.food (pos 0)
    then refuse too_few
    else if ltb_ℤ a.concert (pos 0)
    then refuse too_few
    else if ltb_ℤ a.electronics (pos 0)
    then refuse too_few
    else accept a

ladder_accepts : (a r' : Record) → ladder a ≡ accept r' → (r' ≡ a) × IsLegal a
unfolding ladder
ladder_accepts a r' h = ground arith

accepts_legal : (a : Record) → IsLegal a → ladder a ≡ accept a
unfolding ladder
accepts_legal a l = ground arith

ladder-IsLegal : (a r' : Record) → ladder a ≡ accept r' ↔ ((r' ≡ a) × IsLegal a)
ladder-IsLegal a r' = (ladder_accepts a r', λ (e, l). rw e (accepts_legal a l))

-- What the tests compute, where nothing wraps.
module _ (r : Record) (f c e : ℤ) (l : IsLegal r) (hf : IsWithin moderate f)
    (hc : IsWithin moderate c) (he : IsWithin moderate e) where
  exact_sums :
      (int_add r.food f ≡ r.food +ℤ f)
      × (int_add f r.food ≡ f +ℤ r.food)
      × (int_add r.concert c ≡ r.concert +ℤ c)
      × (int_add c r.concert ≡ c +ℤ r.concert)
      × (int_add r.electronics e ≡ r.electronics +ℤ e)
      × (int_add e r.electronics ≡ e +ℤ r.electronics)
  exact_sums =
      let (sf, sc, se) = legal_small r l in
      (
        int_add_within 15 moderate r.food f sf hf (omega arith),
        int_add_within moderate 15 f r.food hf sf (omega arith),
        int_add_within 15 moderate r.concert c sc hc (omega arith),
        int_add_within moderate 15 c r.concert hc sc (omega arith),
        int_add_within 15 moderate r.electronics e se he (omega arith),
        int_add_within moderate 15 e r.electronics he se (omega arith),
      )

  exact_total :
      int_add (int_add (int_add (int_add (int_add r.food r.concert) r.electronics) f) c) e
      ≡ r.food +ℤ r.concert +ℤ r.electronics +ℤ f +ℤ c +ℤ e
  exact_total =
      let (sf, sc, se) = legal_small r l in
      let one = +ℤ-IsWithin 15 15 r.food r.concert sf sc in
      let two = +ℤ-IsWithin 30 15 (r.food +ℤ r.concert) r.electronics one se in
      let three = +ℤ-IsWithin 45 moderate (r.food +ℤ r.concert +ℤ r.electronics) f two hf in
      let four =
        +ℤ-IsWithin (45 + moderate) moderate (r.food +ℤ r.concert +ℤ r.electronics +ℤ f) c three
          hc in
      rw
        (
          int_add_within 15 15 r.food r.concert sf sc (omega arith),
          int_add_within 30 15 (r.food +ℤ r.concert) r.electronics one se (omega arith),
          int_add_within 45 moderate (r.food +ℤ r.concert +ℤ r.electronics) f two hf (omega arith),
          int_add_within (45 + moderate) moderate (r.food +ℤ r.concert +ℤ r.electronics +ℤ f) c
              three hc (omega arith),
        )
        (int_add_within (45 + moderate + moderate) moderate
          (r.food +ℤ r.concert +ℤ r.electronics +ℤ f +ℤ c) e four he (omega arith))

  same_total :
      r.food +ℤ r.concert +ℤ r.electronics +ℤ f +ℤ c +ℤ e
      ≡ r.food +ℤ f +ℤ (r.concert +ℤ c) +ℤ (r.electronics +ℤ e)
  same_total = omega int_laws

  judge-ladder : judge r f c e ≡ ladder (added r f c e)
  unfolding judge ladder
  judge-ladder =
      let (s1, t1, s2, t2, s3, t3) = exact_sums in
      rw (
        exact_total,
        same_total,
        s1,
        t1,
        s2,
        t2,
        s3,
        t3,
        +ℤ_comm f r.food,
        +ℤ_comm c r.concert,
        +ℤ_comm e r.electronics,
      )

  -- From a legal record, with three numbers of moderate size, the command is accepted exactly if
  -- the record with the numbers added is legal, and then that is the new record.
  pub judge-IsLegal :
      (r' : Record) → judge r f c e ≡ accept r' ↔ ((r' ≡ added r f c e) × IsLegal (added r f c e))
  judge-IsLegal r' = rw judge-ladder (ladder-IsLegal (added r f c e) r')

-- The limit of 15 does not hold for large numbers: on an empty record, any order of food and of
-- concerts that fits an `int` is accepted, if the two together do not fit one.
pub judge-overflow :
    (id : ℤ) (food concert : ℕ)
    → food < 2 ^ 31
    → concert < 2 ^ 31
    → 2 ^ 31 ≤ food + concert
    → judge
        (record { id = id; food = pos 0; concert = pos 0; electronics = pos 0 })
        (pos food)
        (pos concert)
        (pos 0)
      ≡ accept (record { id = id; food = pos food; concert = pos concert; electronics = pos 0 })
unfolding judge to_int ◌+ℤ◌
judge-overflow id food concert hf hc large = ground arith
