-- ===== src/Tests/Players.antt =====
-- hw2: the tournament with the status file of the repository, hw2/player_status.txt.
use sp_homework.Common.{ℕ, true, ◌≡◌, ◌<◌, refl, some, List, [], ◌∷◌}
use sp_homework.Common.Int.{pos, int_half, to_int, ◌+ℤ◌, ◌-ℤ◌, ◌*ℤ◌}
use sp_homework.Tournament.{
  Battle, entry, relay_stops, Attribute, fire, grass, water, Status, find_battle, search_in,
  play_round, blows, left_first, strike, damage, alive, ended, player_step, agent_step, recovered,
  agent_of,
}
use sp_homework.Tournament.Fight.{fight}
use sp_homework.Tournament.Passing.{Pass, passing, passing-transparent}
use sp_homework.Tournament.Bracket.{tournament, tree_of, contend, decide, process_step}
use sp_homework.Tournament.StatusFile.{
  statuses_text, statuses_of, status_at, read_statuses, battle_a, battle_a-champion,
}
use sp_homework.Tests.StatusTable.{sample, sample-AreStatusRows, sample-ArePlayers}

battle_a-champion_example :
    (read_statuses 8 0 (statuses_text sample) ≡ some (statuses_of 0 sample))
    × ((c : ℕ) × (battle_a (statuses_text sample) ≡ some c) × c < 8)
battle_a-champion_example = battle_a-champion sample sample-AreStatusRows refl sample-ArePlayers

abbrev status : ℕ → ℕ → ℕ → Attribute → Status
status id hp atk attr = record {
  real_player_id = id;
  hp = pos hp;
  atk = pos atk;
  attr = attr;
  current_battle_id = b'G';
  battle_ended_flag = pos 0;
}

abbrev eight : List Status
eight =
    status 0 7 2 fire
    ∷ status 1 8 3 grass
    ∷ status 2 4 4 fire
    ∷ status 3 1 4 grass
    ∷ status 4 12 2 water
    ∷ status 5 3 4 grass
    ∷ status 6 7 3 water
    ∷ status 7 10 2 water
    ∷ []

-- The champion of the status file.
eight_run : tournament (status_at eight) ≡ some 0
unfolding tournament tree_of find_battle search_in contend decide fight play_round blows left_first
    strike damage alive ended process_step player_step agent_step recovered agent_of int_half to_int
    ◌+ℤ◌ ◌-ℤ◌ ◌*ℤ◌
eight_run = refl

abbrev battle_g : Battle
battle_g = entry b'D' b'G' 0 1

-- The winner of a battle sends its status up, fights on above, and falls there.
abbrev going_up : Pass
going_up = record { up = status 0 5 2 fire; down = status 0 3 2 fire }

abbrev falling : Pass
falling = record {
  up = status 0 3 2 fire;
  down = record (status 0 0 2 fire) { battle_ended_flag = pos 1 };
}

passing-transparent_example :
    ((passing battle_g 0 10 11 12 (going_up ∷ falling ∷ [])).to_parent
      ≡ status 0 5 2 fire ∷ status 0 3 2 fire ∷ [])
    × ((passing battle_g 0 10 11 12 (going_up ∷ falling ∷ [])).to_winner
        ≡ going_up.down ∷ falling.down ∷ [])
    × ((passing battle_g 0 10 11 12 (going_up ∷ falling ∷ [])).over ≡ true)
unfolding relay_stops
passing-transparent_example =
    passing-transparent battle_g 0 10 11 12 (going_up ∷ []) falling [] (refl, tt) refl
