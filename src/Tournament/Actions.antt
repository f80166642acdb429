-- ===== src/Tournament/Actions.antt =====
-- hw2: the statuses that stand in the status file and go up, and what a process does with the one of an ended battle.
use sp_homework.Common.{ℕ, ◌≡◌, ◌≢◌, ◌<◌, ◌^◌, refl, true, false, some, ◌==◌, arith}
use sp_homework.Common.Int.{ℤ, pos, pos_part, ◌<ℤ◌, ◌≤ℤ◌, eqb_ℤ, ltb_ℤ}
use sp_homework.Tournament.{
  Status, reply, stop, hand_over, agent_of, player_step, agent_step, recovered,
}
use sp_homework.Tournament.Blows.{IsFighter}
use sp_homework.Tournament.Bracket.{Contender, Fifos}

-- The status file holds eight players that may fight, of HP and power below 2^30.
pub record IsPlayer (table : ℕ → Status) (i : ℕ) : Type 0 where
  pub own_id : (table i).real_player_id ≡ i
  pub fighter : IsFighter (table i)
  pub small : pos_part (table i).hp < 2 ^ 30
  pub begins : (table i).battle_ended_flag ≡ pos 0

abbrev pub ArePlayers : (ℕ → Status) → Type 0
ArePlayers table = (i : ℕ) → i < 8 → IsPlayer table i

-- A status with which a battle may be entered: that of a real player, with no more HP than in the file.
pub record IsFit (table : ℕ → Status) (s : Status) : Type 0 where
  pub real : s.real_player_id < 8
  pub fighter : IsFighter s
  pub less : s.hp ≤ℤ (table s.real_player_id).hp
  pub power : s.atk ≡ (table s.real_player_id).atk

-- A real player fights under its own number.
pub record MayFight (table : ℕ → Status) (c : Contender) : Type 0 where
  pub fit : IsFit table c.status
  pub own : c.number < 8 → c.status.real_player_id ≡ c.number

abbrev pub Has : (ℕ → Status) → Fifos → ℕ → Type 0
Has table fifos a = (s : Status) × (fifos a ≡ some s) × IsFit table s

-- What the processes do with the status of a battle that has ended.
pub player_wins :
    (h : ℤ) (s : Status)
    → s.battle_ended_flag ≡ pos 1
    → pos 0 <ℤ s.hp
    → s.current_battle_id ≢ b'A'
    → player_step h s ≡ reply (recovered h s)
unfolding player_step
player_wins h s over lives below = ground arith

pub player_loses :
    (h : ℤ) (s : Status) (a : ℕ)
    → s.battle_ended_flag ≡ pos 1
    → s.hp ≤ℤ pos 0
    → s.current_battle_id ≢ b'A'
    → agent_of s.current_battle_id ≡ some a
    → player_step h s ≡ hand_over (some a) (record s { hp = h; battle_ended_flag = pos 0 })
unfolding player_step
player_loses h s a over dead below agent =
    let ended : eqb_ℤ s.battle_ended_flag (pos 1) ≡ true = ground (arith, over) in
    let fallen : ltb_ℤ (pos 0) s.hp ≡ false = ground (arith, dead) in
    let away : (s.current_battle_id == b'A') ≡ false = ground (arith, below) in
    rw (ended, fallen, away, agent) refl

pub player_stops :
    (h : ℤ) (s : Status)
    → s.battle_ended_flag ≡ pos 1
    → s.current_battle_id ≡ b'A'
    → player_step h s ≡ stop
unfolding player_step
player_stops h s over root = ground arith

pub agent_wins :
    (hs : ℕ → ℤ) (s : Status)
    → s.battle_ended_flag ≡ pos 1
    → pos 0 <ℤ s.hp
    → s.current_battle_id ≢ b'A'
    → agent_step hs s ≡ reply (recovered (hs s.real_player_id) s)
unfolding agent_step
agent_wins hs s over lives below = ground arith

pub agent_stops :
    (hs : ℕ → ℤ) (s : Status)
    → s.battle_ended_flag ≡ pos 1
    → s.current_battle_id ≡ b'A'
    → agent_step hs s ≡ stop
unfolding agent_step
agent_stops hs s over root = ground arith

pub agent_loses :
    (hs : ℕ → ℤ) (s : Status) → s.battle_ended_flag ≡ pos 1 → s.hp ≤ℤ pos 0 → agent_step hs s ≡ stop
unfolding agent_step
agent_loses hs s over dead = ground arith
