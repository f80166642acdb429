-- ===== src/Tournament/Passing.antt =====
-- hw2/battle.c: the passing mode of a battle that is over, between its winner and the battle above.
use mathlib.Core.List.{map}
use sp_homework.Common.{ℕ, ◌≡◌, refl, ap, Bool, true, false, List, [], ◌∷◌, ◌++◌, if◌then◌else◌}
use sp_homework.Tournament.{Status, Battle, Line, line, relay_stops}

-- A pass of the loop: what the winner sends, and what the battle above sends back for it.
pub record Pass : Type 0 where
  pub up : Status
  pub down : Status

-- The four lines of a pass, with the numbers of the processes.
pub pass_log : Battle → (winner self winner_pid parent_pid : ℕ) → Pass → List Line
pass_log b winner self winner_pid parent_pid p =
    line b.battle_id self false winner winner_pid p.up
    ∷ line b.battle_id self true b.parent parent_pid p.up
    ∷ line b.battle_id self false b.parent parent_pid p.down
    ∷ line b.battle_id self true winner winner_pid p.down
    ∷ []

-- What the loop has written to the battle above, to the winner and to the log, and whether it has ended.
pub record Passed : Type 0 where
  pub to_parent : List Status
  pub to_winner : List Status
  pub lines : List Line
  pub over : Bool

abbrev pub waits : Passed
waits = record { to_parent = []; to_winner = []; lines = []; over = false }

abbrev pub and_then : List Line → Pass → Passed → Passed
and_then lines p rest = record {
  to_parent = p.up ∷ rest.to_parent;
  to_winner = p.down ∷ rest.to_winner;
  lines = lines ++ rest.lines;
  over = rest.over;
}

-- The loop over the statuses that come, until one of them stops it.
unfoldable pub passing : Battle → (winner self winner_pid parent_pid : ℕ) → List Pass → Passed
passing b winner self winner_pid parent_pid [] = waits
passing b winner self winner_pid parent_pid (p ∷ ps) =
    let rest = passing b winner self winner_pid parent_pid ps in
    and_then (pass_log b winner self winner_pid parent_pid p) p
      (if relay_stops p.down then record waits { over = true } else rest)

abbrev pub NoneStops : List Pass → Type 0
NoneStops [] = Unit {0}
NoneStops (p ∷ ps) = (relay_stops p.down ≡ false) × NoneStops ps

-- The passing mode is transparent: whatever the winner sends goes up, and whatever the battle above
-- sends goes down, in their order and unchanged, until a status comes down that stops the loop: it too
-- is passed on, and nothing behind it is.
pub passing-transparent :
    (b : Battle) (winner self winner_pid parent_pid : ℕ) (ps : List Pass) (p : Pass)
    (rest : List Pass)
    → NoneStops ps
    → relay_stops p.down ≡ true
    → ((passing b winner self winner_pid parent_pid (ps ++ p ∷ rest)).to_parent
        ≡ map (λ (q : Pass). q.up) (ps ++ p ∷ []))
      × ((passing b winner self winner_pid parent_pid (ps ++ p ∷ rest)).to_winner
          ≡ map (λ (q : Pass). q.down) (ps ++ p ∷ []))
      × ((passing b winner self winner_pid parent_pid (ps ++ p ∷ rest)).over ≡ true)
unfolding passing
passing-transparent b winner self winner_pid parent_pid [] p rest none_before stops =
    rw stops (refl, refl, refl)
passing-transparent b winner self winner_pid parent_pid (q ∷ qs) p rest (goes_on, later) stops =
    let (ups, downs, over) =
      passing-transparent b winner self winner_pid parent_pid qs p rest later stops in
    rw goes_on (ap (◌∷◌ q.up) ups, ap (◌∷◌ q.down) downs, over)
