-- ===== src/Tests/Battles.antt =====
-- hw2: battles and players at concrete inputs.
use sp_homework.Common.{ℕ, ◌≤◌, ◌≡◌, refl, not, some, arith}
use sp_homework.Common.Int.{ℤ, pos, ◌≤ℤ◌, ◌-ℤ◌, ◌*ℤ◌, to_int}
use sp_homework.Tournament.{
  Attribute, fire, water, Status, Battle, entry, left_side, Round, play_round, find_battle,
  relay_stops, left_first, alive, strike, ended, agent_of, reply, player_step, agent_step,
}
use sp_homework.Tournament.Fight.{fight, Verdict, fight-Verdict}
use sp_homework.Tournament.Blows.{IsFighter}
use sp_homework.Tournament.Relay.{answers, relay_stops-answers, player_step-IsFighter}
use sp_homework.Tournament.Table.{IsLinked, find_battle-IsLinked, agent_of-injective}

abbrev fighter : ℕ → ℤ → ℤ → Attribute → Status
fighter id hp atk attr = record {
  real_player_id = id;
  hp = hp;
  atk = atk;
  attr = attr;
  current_battle_id = 0;
  battle_ended_flag = pos 0;
}

abbrev battle_g : Battle
battle_g = entry b'D' b'G' 0 1

abbrev strong : Status
strong = fighter 0 (pos 10) (pos 2) fire

abbrev weak : Status
weak = fighter 1 (pos 8) (pos 3) water

strong-IsFighter : IsFighter strong
strong-IsFighter = record {
  lives = omega arith;
  fits = omega arith;
  harms = omega arith;
  bounded = omega arith;
}

weak-IsFighter : IsFighter weak
weak-IsFighter = record {
  lives = omega arith;
  fits = omega arith;
  harms = omega arith;
  bounded = omega arith;
}

-- On a field of fire the power of the fire player counts twice: two rounds, 10 against 8.
fight_run :
    fight 3 battle_g fire strong weak
    ≡ some (record {
      left = record strong { hp = pos 4; current_battle_id = b'G'; battle_ended_flag = pos 1 };
      right = record weak { hp = pos 0; current_battle_id = b'G'; battle_ended_flag = pos 1 };
      winner = some left_side;
    })
unfolding fight play_round left_first alive strike to_int ◌-ℤ◌ ◌*ℤ◌ ended
fight_run = refl

fight-Verdict_example :
    (out : Round) × (fight 11 battle_g fire strong weak ≡ some out)
    × Verdict battle_g strong weak out
fight-Verdict_example =
    fight-Verdict 11 battle_g fire strong weak strong-IsFighter weak-IsFighter (omega arith)

-- A winner of battle G with 4 of 10 HP left.
abbrev winner_g : Status
winner_g = record strong { hp = pos 4; current_battle_id = b'G'; battle_ended_flag = pos 1 }

relay_stops-answers_example :
    (relay_stops winner_g ≡ not (answers (player_step (pos 10) winner_g)))
    × (relay_stops winner_g ≡ not (answers (agent_step (λ id. pos 10) winner_g)))
relay_stops-answers_example = relay_stops-answers winner_g (pos 10) (λ id. pos 10)

player_step-IsFighter_example :
    (s' : Status) × (player_step (pos 10) winner_g ≡ reply s')
    × IsFighter s'
    × (pos 4 ≤ℤ s'.hp)
    × (s'.hp ≤ℤ pos 10)
    × (s'.battle_ended_flag ≡ pos 0)
player_step-IsFighter_example =
    player_step-IsFighter (pos 10) winner_g refl (λ e. absurd (omega arith)) (omega arith)
      (omega arith) (omega arith) (omega arith) (omega arith)

abbrev battle_f : Battle
battle_f = entry b'C' b'F' b'K' b'L'

find_battle-IsLinked_example : (battle_f.battle_id ≡ b'F') × IsLinked b'F' b'K' × IsLinked b'F' b'L'
unfolding find_battle
find_battle-IsLinked_example = find_battle-IsLinked b'F' battle_f fire refl

agent_of-injective_example : (◌≡◌ {A = ℕ} b'D' b'D') × (8 ≤ 10) × (10 ≤ 14)
unfolding agent_of
agent_of-injective_example = agent_of-injective b'D' b'D' 10 refl refl
