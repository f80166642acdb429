-- ===== src/Tournament/Champion.antt =====
-- hw2: the tournament of hw2/battle.c and hw2/player.c ends, and has a champion among the real players.
use sp_homework.Common.{ℕ, ◌≡◌, ◌<◌, refl, some, arith}
use sp_homework.Tournament.{fire, grass, water, entry, Status, agent_of}
use sp_homework.Tournament.Bracket.{Tree, player, battle, tree_of, Fifos, tournament}
use sp_homework.Tournament.Actions.{ArePlayers}
use sp_homework.Tournament.Contends.{IsReal, IsFilled, AreAgents, champion_lem}

-- The two halves below the root.
abbrev real_half : Tree
real_half =
    battle (entry b'A' b'B' b'D' b'E') grass
      (battle (entry b'B' b'D' b'G' b'H') water
        (battle (entry b'D' b'G' 0 1) fire (player 0) (player 1))
        (battle (entry b'D' b'H' 2 3) grass (player 2) (player 3)))
      (battle (entry b'B' b'E' b'I' b'J') fire
        (battle (entry b'E' b'I' 4 5) water (player 4) (player 5))
        (battle (entry b'E' b'J' 6 7) grass (player 6) (player 7)))

abbrev agent_half : Tree
agent_half =
    battle (entry b'A' b'C' b'F' 14) water
      (battle (entry b'C' b'F' b'K' b'L') fire
        (battle (entry b'F' b'K' b'M' 10) grass
          (battle (entry b'K' b'M' 8 9) fire (player 8) (player 9)) (player 10))
        (battle (entry b'F' b'L' b'N' 13) grass
          (battle (entry b'L' b'N' 11 12) water (player 11) (player 12)) (player 13)))
      (player 14)

tree_of-root : tree_of 6 b'A' ≡ some (battle (entry 0 b'A' b'B' b'C') fire real_half agent_half)
unfolding tree_of
tree_of-root = refl

real_half-IsReal : IsReal real_half
unfolding agent_of
real_half-IsReal = (
  (14, refl),
  (λ e. absurd (omega arith)),
  (
    (10, refl),
    (λ e. absurd (omega arith)),
    ((8, refl), (λ e. absurd (omega arith)), omega arith, omega arith),
    ((11, refl), (λ e. absurd (omega arith)), omega arith, omega arith),
  ),
  (
    (13, refl),
    (λ e. absurd (omega arith)),
    ((9, refl), (λ e. absurd (omega arith)), omega arith, omega arith),
    ((12, refl), (λ e. absurd (omega arith)), omega arith, omega arith),
  ),
)

-- The loser of G goes on as agent 8, that of I as 9, of D as 10, of H as 11, of J as 12, of E as 13 and
-- of B as 14.
agent_half_fed :
    (table : ℕ → Status) (players : ArePlayers table) (fifos : Fifos)
    → IsFilled table players fifos real_half
    → AreAgents table players fifos agent_half
unfolding agent_of
agent_half_fed table players fifos
      (b, (d, (g, g0, g1), (h, h0, h1)), (e', (i, i0, i1), (j, j0, j1))) =
    (
      (λ e. absurd (omega arith)),
      (
        (λ e. absurd (omega arith)),
        (
          (λ e. absurd (omega arith)),
          ((λ e. absurd (omega arith)), (omega arith, g 8 refl), (omega arith, i 9 refl)),
          (omega arith, d 10 refl),
        ),
        (
          (λ e. absurd (omega arith)),
          ((λ e. absurd (omega arith)), (omega arith, h 11 refl), (omega arith, j 12 refl)),
          (omega arith, e' 13 refl),
        ),
      ),
      (omega arith, b 14 refl),
    )

pub tournament-champion :
    (table : ℕ → Status) → ArePlayers table → (c : ℕ) × (tournament table ≡ some c) × c < 8
unfolding tournament
tournament-champion table players =
    let (c, e, real) =
      champion_lem table players (entry 0 b'A' b'B' b'C') fire real_half agent_half refl
        real_half-IsReal (agent_half_fed table players) in
    (c, rw tree_of-root e, real)
