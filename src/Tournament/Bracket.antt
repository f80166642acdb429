-- ===== src/Tournament/Bracket.antt =====
-- hw2: all the processes of hw2/battle.c and hw2/player.c as one tournament, from the table of battles
-- and the statuses of the players to the champion.
use sp_homework.Common.{◌>>=◌, ℕ, zero, suc, Option, none, some, leb, ◌==◌, if◌then◌else◌}
use sp_homework.Common.Int.{pos_part}
use sp_homework.Tournament.{
  Attribute, Status, Battle, Side, left_side, right_side, Round, find_battle, is_player, Action,
  reply, stop, hand_over, player_step, agent_step,
}
use sp_homework.Tournament.Fight.{fight}

-- The processes: a player by its number, 0 to 14, or a battle with its field and its two children.
pub data Tree : Type 0 where
  player : ℕ → Tree
  battle : Battle → Attribute → Tree → Tree → Tree

-- What a battle forks and executes, down to `n` levels: `player` for a number, `battle` for a letter.
unfoldable pub tree_of : ℕ → ℕ → Option Tree
unfolding find_battle
tree_of zero child = none
tree_of (suc n) child =
    if is_player child
    then some (player child)
    else (find_battle child >>= λ found. tree_of n found.0.left >>= λ left.
        tree_of n found.0.right >>= λ right. some (battle found.0 found.1 left right))

-- A player, by its number, with the status that it sends to its battle.
pub record Contender : Type 0 where
  pub number : ℕ
  pub status : Status

-- The fifos of the agents.
abbrev pub Fifos : Type 0
Fifos = ℕ → Option Status

-- The real players have the numbers up to 7. `table` is `playerStatus`, as the status file gives it.
unfoldable pub process_step : (ℕ → Status) → ℕ → Status → Action
process_step table number s =
    if leb number 7 then player_step (table number).hp s else agent_step (λ i. (table i).hp) s

-- What a player does that its battle waits for to end. `none` is a wait without an end, or a fifo without a name.
abbrev pub leave : Action → Fifos → Option Fifos
leave stop fifos = some fifos
leave (hand_over (some agent) s) fifos = some (λ a. if agent == a then some s else fifos a)
leave (hand_over none s) fifos = none
leave (reply s) fifos = none

-- Behind the battle loop: the loser leaves, and the winner is known.
abbrev pub decided :
    (ℕ → Status) → Contender → Contender → Fifos → Round → Option Side → Option (Contender × Fifos)
decided table l r fifos out none = none
decided table l r fifos out (some left_side) =
    leave (process_step table r.number out.right) fifos >>= λ fifos'.
    some (record l { status = out.left }, fifos')
decided table l r fifos out (some right_side) =
    leave (process_step table l.number out.left) fifos >>= λ fifos'.
    some (record r { status = out.right }, fifos')

-- The battle loop, with more fuel than the HP of the left player.
unfoldable pub decide :
    (ℕ → Status) → Battle → Attribute → Contender → Contender → Fifos → Option (Contender × Fifos)
decide table b field l r fifos =
    fight (suc (pos_part l.status.hp)) b field l.status r.status >>= λ out.
    decided table l r fifos out out.winner

-- What the winner of a battle sends through it to the battle above, in the passing mode.
abbrev pub answer : ℕ → Action → Option Contender
answer number (reply s) = some (record { number = number; status = s })
answer number stop = none
answer number (hand_over agent s) = none

-- Who comes out of a process for the battle above it. The agents of a battle are filled from battles on
-- its left, so that the left child is run to its end first; an agent whose fifo stays empty waits without an end.
unfoldable pub contend : (ℕ → Status) → Tree → Fifos → Option (Contender × Fifos)
contend table (player n) fifos =
    if leb n 7
    then some (record { number = n; status = table n }, fifos)
    else (fifos n >>= λ s. some (record { number = n; status = s }, fifos))
contend table (battle b field l r) fifos = contend table l fifos >>= λ left.
    contend table r left.1 >>= λ right. decide table b field left.0 right.0 right.1 >>= λ won.
    answer won.0.number (process_step table won.0.number won.0.status) >>= λ up. some (up, won.1)

-- The battle without a parent prints its winner, and waits for the child that this one comes from: the
-- run has a champion only if the winner, too, leaves at the status of its last battle.
abbrev pub champion : (ℕ → Status) → Tree → Option ℕ
champion table (player n) = none
champion table (battle b field l r) = contend table l (λ a. none) >>= λ left.
    contend table r left.1 >>= λ right. decide table b field left.0 right.0 right.1 >>= λ won.
    leave (process_step table won.0.number won.0.status) won.1 >>= λ fifos.
    some won.0.status.real_player_id

-- `./battle A 0`
unfoldable pub tournament : (ℕ → Status) → Option ℕ
tournament table = tree_of 6 b'A' >>= λ tree. champion table tree
