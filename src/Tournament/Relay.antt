-- ===== src/Tournament/Relay.antt =====
-- What hw2/player.c answers and what hw2/battle.c relays agree on when a battle is over.
use sp_homework.Common.{ℕ, ◌<◌, ◌^◌, ◌≡◌, ◌≢◌, refl, Bool, true, false, not, arith}
use sp_homework.Common.Int.{ℤ, pos, pos_part, int_add, int_half, to_int, IsInt, ◌<ℤ◌, ◌≤ℤ◌, ◌+ℤ◌}
use sp_homework.Tournament.{
  Status, Action, reply, stop, hand_over, relay_stops, player_step, agent_step, recovered,
}
use sp_homework.Tournament.Blows.{IsFighter}

abbrev pub answers : Action → Bool
answers (reply s) = true
answers stop = false
answers (hand_over agent s) = false

-- A battle that has ended goes on relaying exactly as long as the player below it answers: on every
-- status, the relay stops if and only if a real player, and an agent, sends nothing back.
pub relay_stops-answers :
    (s : Status) (h : ℤ) (hs : ℕ → ℤ)
    → (relay_stops s ≡ not (answers (player_step h s)))
      × (relay_stops s ≡ not (answers (agent_step hs s)))
unfolding relay_stops player_step agent_step
relay_stops-answers s h hs = (ground arith, ground arith)

pub recovers :
    (a b : ℤ)
    → pos 0 <ℤ a
    → a ≤ℤ b
    → pos_part b < 2 ^ 30
    → (a ≤ℤ int_half (int_add a b)) × (int_half (int_add a b) ≤ℤ b)
unfolding int_half to_int ◌+ℤ◌
recovers a b h k m = ground arith

pub between : (z b : ℤ) → pos 0 <ℤ z → z ≤ℤ b → pos_part b < 2 ^ 30 → IsInt z
between z b h k m = ground arith

-- What a real player does after a battle that it has won, on the way up: it answers with a status
-- whose HP has recovered, to no less than before and no more than its HP in the status file, and is
-- ready to fight again.
pub player_step-IsFighter :
    (base_hp : ℤ) (s : Status)
    → s.battle_ended_flag ≡ pos 1
    → s.current_battle_id ≢ b'A'
    → pos 0 <ℤ s.hp
    → s.hp ≤ℤ base_hp
    → pos_part base_hp < 2 ^ 30
    → pos 0 <ℤ s.atk
    → pos_part s.atk < 2 ^ 30
    → (s' : Status) × (player_step base_hp s ≡ reply s')
      × IsFighter s'
      × (s.hp ≤ℤ s'.hp)
      × (s'.hp ≤ℤ base_hp)
      × (s'.battle_ended_flag ≡ pos 0)
unfolding player_step
player_step-IsFighter base_hp s over below_root alive_still less small harms bounded =
    let (up, down) = recovers s.hp base_hp alive_still less small in
    let s' = recovered base_hp s in
    (
      s',
      ground arith,
      record {
        lives = omega arith;
        fits = between (recovered base_hp s).hp base_hp (omega arith) down small;
        harms = harms;
        bounded = bounded;
      },
      up,
      down,
      refl,
    )
