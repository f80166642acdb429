-- ===== src/Threads/Machine/Rounds.antt =====
-- hw3: the lines of a thread that prints a value in each round and exits in its last one.
use sp_homework.Common.{
  ℕ, zero, suc, ◌≡◌, ◌<◌, ◌≤◌, ◌↔◌, refl, sym, ap, ◌∙◌, true, false, inl, inr, some, List, [], ◌∷◌,
  arith, length, ltb, Bool-cases,
}
use sp_homework.Common.Int.{ℤ}
use sp_homework.Scheduler.View.{Event, begin, yield, block, exit}
use sp_homework.Threads.{Tcb}
use sp_homework.Threads.Machine.Safe.{has_exited}
use sp_homework.Threads.Machine.{Body, exited, Machine, resume, next_point, prints}
use sp_homework.Threads.Machine.Prints.{Alone, alone, lines, InTime, IsAlone}

-- The first `n` values, the latest first.
abbrev pub values_of : (ℕ → ℤ) → ℕ → List ℤ
values_of value zero = []
values_of value (suc n) = value n ∷ values_of value n

pub exited_iff : (event : Event) → (next_point event ≡ exited ↔ event ≡ exit)
exited_iff begin = ((λ h. cc), (λ h. cc))
exited_iff yield = ((λ h. cc), (λ h. cc))
exited_iff block = ((λ h. cc), (λ h. cc))
exited_iff exit = ((λ h. refl), (λ h. refl))

-- What the thread comes to when it is resumed behind the chunks.
abbrev pub round_of : Body → Tcb → List ℕ → List (List ℕ) → Tcb × Event
round_of b t chunk chunks = resume b (alone b t chunks).point chunk (alone b t chunks).tcb

-- Each of the `total` rounds prints its value, and the last one exits, no other.
abbrev pub DoesRounds : Body → Tcb → (ℕ → ℤ) → ℕ → Type 0
DoesRounds b t value total =
    (chunk : List ℕ) (chunks : List (List ℕ))
    → length chunks < total
    → (prints b (round_of b t chunk chunks).1 (round_of b t chunk chunks).0
        ≡ some (value (length chunks)))
      × (next_point (round_of b t chunk chunks).1 ≡ exited ↔ suc (length chunks) ≡ total)

module _ (b : Body) (t : Tcb) (value : ℕ → ℤ) (total : ℕ)
    (rounds : DoesRounds b t value total) where
  alone-values :
      (chunks : List (List ℕ))
      → length chunks ≤ total
      → (alone b t chunks).values ≡ values_of value (length chunks)
  alone-values [] room = refl
  alone-values (chunk ∷ chunks) room =
      rw ((rounds chunk chunks (omega arith)).0, alone-values chunks (omega arith)) refl

  -- The thread is not resumed more often than it has rounds.
  InTime-bound : (chunks : List (List ℕ)) → 0 < total → InTime b t chunks → length chunks ≤ total
  InTime-bound [] some_round timely = omega arith
  InTime-bound (chunk ∷ []) some_round timely = omega arith
  InTime-bound (chunk ∷ c ∷ chunks) some_round (awake, timely) =
      let shorter = InTime-bound (c ∷ chunks) some_round timely in
      elim (Bool-cases (ltb (suc (length chunks)) total)) [
        | inl less ↦ ground (arith, less)
        | inr full ↦
            let same : suc (length chunks) ≡ total = ground (arith, full, shorter) in
            let ends = (rounds c chunks (omega (arith, shorter))).1.1 same in
            let clash : true ≡ false = sym (ap has_exited ends) ∙ awake in cc
      ]

  exited-length :
      (chunks : List (List ℕ))
      → length chunks ≤ total
      → (alone b t chunks).point ≡ exited
      → length chunks ≡ total
  exited-length [] bound h = cc
  exited-length (chunk ∷ chunks) bound h = (rounds chunk chunks (omega arith)).1.0 h

-- The lines of a thread in the output are the first of its values, and once it has exited all.
abbrev pub HasPrinted : ℕ → (ℕ → ℤ) → ℕ → Machine → Type 0
HasPrinted t value total m =
    (k : ℕ) × k ≤ total
    × (lines t m.printed ≡ values_of value k)
    × (m.points t ≡ exited → k ≡ total)

pub rounds-HasPrinted :
    (bodies : ℕ → Body) (tcbs : ℕ → Tcb) (m : Machine) (t : ℕ) (value : ℕ → ℤ) (total : ℕ)
    → IsAlone bodies tcbs m
    → 0 < total
    → DoesRounds (bodies t) (tcbs t) value total
    → HasPrinted t value total m
rounds-HasPrinted bodies tcbs m t value total inv some_round rounds =
    let (chunks, e, timely) = inv.1 t in
    let bound = InTime-bound (bodies t) (tcbs t) value total rounds chunks some_round timely in
    (
      length chunks,
      bound,
      ap (λ (a : Alone). a.values) e
          ∙ alone-values (bodies t) (tcbs t) value total rounds chunks bound,
      λ h.
          exited-length (bodies t) (tcbs t) value total rounds chunks bound
            (sym (ap (λ (a : Alone). a.point) e) ∙ h),
    )
