-- ===== src/Tournament/Blows.antt =====
-- hw2/battle.c: the blows of one round of the battle loop.
use sp_homework.Common.{
  ◌<◌, ◌^◌, ◌≡◌, inl, inr, refl, true, false, Option, none, some, arith, Bool-cases,
}
use sp_homework.Common.Int.{
  pos, pos_part, neg_part, to_int, to_int_lem, IsInt, ◌<ℤ◌, ◌≤ℤ◌, ◌-ℤ◌, ◌*ℤ◌, -ℤ_lowers,
}
use sp_homework.Tournament.{
  Attribute, Status, Side, left_side, right_side, damage, strike, alive, ended, left_first, blows,
}

-- A status that may enter a battle: alive, and with a power that does harm and cannot overflow.
pub record IsFighter (s : Status) : Type 0 where
  pub lives : pos 0 <ℤ s.hp
  pub fits : IsInt s.hp
  pub harms : pos 0 <ℤ s.atk
  pub bounded : pos_part s.atk < 2 ^ 30

-- The damage is the attack power, or twice that.
damage_bounds :
    (field : Attribute) (s : Status)
    → IsFighter s
    → (pos 0 <ℤ damage field s)
      × (pos_part (damage field s) < 2 ^ 31)
      × (neg_part (damage field s) ≡ 0)
unfolding damage ◌*ℤ◌ to_int
damage_bounds field s f = ground arith

-- A blow lowers the HP of the target, with no overflow.
strike_hp :
    (field : Attribute) (a t : Status)
    → IsFighter a
    → IsFighter t
    → ((strike field a t).hp <ℤ t.hp) × IsInt (strike field a t).hp
unfolding strike
strike_hp field a t fa ft =
    let (harm, small, natural) = damage_bounds field a fa in
    let (fits, lower) = -ℤ_lowers t.hp (damage field a) ft.lives ft.fits harm small in
    rw (to_int_lem (t.hp -ℤ damage field a) fits) (lower, fits)

-- Whoever survives a blow can go on.
strike-IsFighter :
    (field : Attribute) (a t : Status)
    → IsFighter a
    → IsFighter t
    → alive (strike field a t) ≡ true
    → IsFighter (strike field a t)
unfolding strike alive
strike-IsFighter field a t fa ft h = record {
  lives = ground arith;
  fits = (strike_hp field a t fa ft).1;
  harms = ft.harms;
  bounded = ft.bounded;
}

-- What a battle leaves alone.
abbrev pub SamePlayer : Status → Status → Type 0
SamePlayer s s' =
    (s'.real_player_id ≡ s.real_player_id)
    × (s'.atk ≡ s.atk)
    × (s'.attr ≡ s.attr)
    × (s'.current_battle_id ≡ s.current_battle_id)

abbrev pub Survives : Status → Status → Type 0
Survives s s' =
    SamePlayer s s' × (pos 0 <ℤ s'.hp) × (s'.hp ≤ℤ s.hp) × (s'.battle_ended_flag ≡ pos 1)

abbrev pub Falls : Status → Status → Type 0
Falls s s' = SamePlayer s s' × (s'.hp ≤ℤ pos 0) × (s'.battle_ended_flag ≡ pos 1)

abbrev pub Weakened : Status → Status → Type 0
Weakened s s' = SamePlayer s s' × IsFighter s' × (s'.hp <ℤ s.hp)

abbrev pub Judged : Status → Status → Status → Status → Option Side → Type 0
Judged l r l' r' none = Weakened l l' × Weakened r r'
Judged l r l' r' (some left_side) = Survives l l' × Falls r r'
Judged l r l' r' (some right_side) = Falls l l' × Survives r r'

struck_alive :
    (field : Attribute) (a t : Status)
    → IsFighter a
    → IsFighter t
    → alive (strike field a t) ≡ true
    → Weakened t (strike field a t)
unfolding strike
struck_alive field a t fa ft h =
    ((refl, refl, refl, refl), strike-IsFighter field a t fa ft h, (strike_hp field a t fa ft).0)

struck_dead :
    (field : Attribute) (a t : Status)
    → alive (strike field a t) ≡ false
    → Falls t (ended (strike field a t))
unfolding strike alive ended
struck_dead field a t h = ((refl, refl, refl, refl), ground arith, refl)

unhurt : (s : Status) → IsFighter s → Survives s (ended s)
unfolding ended
unhurt s f = ((refl, refl, refl, refl), f.lives, omega arith, refl)

hurt : (s s' : Status) → Weakened s s' → Survives s (ended s')
unfolding ended
hurt s s' (same, f, lower) = (same, f.lives, omega arith, refl)

-- Every round is judged fairly: it goes on with both weakened, or one falls and one survives.
pub blows_lem :
    (field : Attribute) (l r : Status)
    → IsFighter l
    → IsFighter r
    → Judged l r (blows field l r).left (blows field l r).right (blows field l r).winner
unfolding blows
blows_lem field l r fl fr =
    let r1 = strike field l r in
    let l1 = strike field r l in
    elim (Bool-cases (left_first l r)) [
      | inl first ↦ elim (Bool-cases (alive r1)) [
        | inl answers ↦
            let weak = struck_alive field l r fl fr answers in
            let l2 = strike field r1 l in
            elim (Bool-cases (alive l2)) [
              | inl both ↦ rw (first, answers, both) (struck_alive field r1 l weak.1 fl both, weak)
              | inr falls ↦
                  rw (first, answers, falls) (struck_dead field r1 l falls, hurt r r1 weak)
            ]
        | inr falls ↦ rw (first, falls) (unhurt l fl, struck_dead field l r falls)
      ]
      | inr second ↦ elim (Bool-cases (alive l1)) [
        | inl answers ↦
            let weak = struck_alive field r l fr fl answers in
            let r2 = strike field l1 r in
            elim (Bool-cases (alive r2)) [
              | inl both ↦ rw (second, answers, both) (weak, struck_alive field l1 r weak.1 fr both)
              | inr falls ↦
                  rw (second, answers, falls) (hurt l l1 weak, struck_dead field l1 r falls)
            ]
        | inr falls ↦ rw (second, falls) (struck_dead field r l falls, unhurt r fr)
      ]
    ]
