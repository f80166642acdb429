-- ===== src/Tournament.antt =====
-- hw2/status.h, hw2/battle.c and hw2/player.c: the tree of battles, one round of a battle, the relay
-- to the parent, and what a player does with a status that it receives.

pub mod Blows
pub mod Fight
pub mod Relay
pub mod Table
pub mod Bracket
pub mod StatusFile
pub mod Passing
pub mod Actions
pub mod Decisions
pub mod Contends
pub mod Champion
use sp_homework.Common.{
  ℕ, zero, suc, ◌+◌, ◌≡◌, Bool, true, false, ◌&&◌, ◌||◌, not, Option, none, some, List, [], ◌∷◌,
  ◌++◌, ◌==◌, ltb, leb, if◌then◌else◌,
}
use sp_homework.Common.Int.{ℤ, pos, ltb_ℤ, eqb_ℤ, int_add, int_sub, int_mul, int_half}

pub data Attribute : Type 0 where
  fire grass water : Attribute

abbrev pub same_attr : Attribute → Attribute → Bool
same_attr fire fire = true
same_attr grass grass = true
same_attr water water = true
same_attr _ _ = false

pub record Status : Type 0 where
  pub real_player_id : ℕ
  pub hp : ℤ
  pub atk : ℤ
  pub attr : Attribute
  pub current_battle_id : ℕ
  pub battle_ended_flag : ℤ

-- `left` and `right` hold a player's number, 0 to 14, or a battle's letter.
pub record Battle : Type 0 where
  pub parent : ℕ
  pub battle_id : ℕ
  pub left : ℕ
  pub right : ℕ

abbrev pub entry : ℕ → ℕ → ℕ → ℕ → Battle
entry p b l r = record { parent = p; battle_id = b; left = l; right = r }

abbrev pub btl : List (Battle × Attribute)
btl =
    (entry 0 b'A' b'B' b'C', fire)
    ∷ (entry b'A' b'B' b'D' b'E', grass)
    ∷ (entry b'A' b'C' b'F' 14, water)
    ∷ (entry b'B' b'D' b'G' b'H', water)
    ∷ (entry b'B' b'E' b'I' b'J', fire)
    ∷ (entry b'C' b'F' b'K' b'L', fire)
    ∷ (entry b'D' b'G' 0 1, fire)
    ∷ (entry b'D' b'H' 2 3, grass)
    ∷ (entry b'E' b'I' 4 5, water)
    ∷ (entry b'E' b'J' 6 7, grass)
    ∷ (entry b'F' b'K' b'M' 10, grass)
    ∷ (entry b'F' b'L' b'N' 13, grass)
    ∷ (entry b'K' b'M' 8 9, fire)
    ∷ (entry b'L' b'N' 11 12, water)
    ∷ []

-- The loop that looks for `argv[1][0]`. `none` is the battle that is never initialised.
unfoldable pub search_in : List (Battle × Attribute) → ℕ → Option (Battle × Attribute)
search_in [] id = none
search_in ((b, f) ∷ bs) id = if id == b.battle_id then some (b, f) else search_in bs id

unfoldable pub find_battle : ℕ → Option (Battle × Attribute)
unfolding search_in
find_battle id = search_in btl id

-- `child >= 0 && child <= 14`: the child is a player.
abbrev pub is_player : ℕ → Bool
is_player child = leb child 14

-- One line of a log: who writes, whether to or from whom, and the status that is passed.
pub record Line : Type 0 where
  pub self_id : ℕ
  pub self_pid : ℕ
  pub to : Bool
  pub peer : ℕ
  pub peer_pid : ℕ
  pub player : ℕ
  pub hp : ℤ
  pub battle : ℕ
  pub flag : ℤ

abbrev pub line : ℕ → ℕ → Bool → ℕ → ℕ → Status → Line
line self self_pid to peer peer_pid s = record {
  self_id = self;
  self_pid = self_pid;
  to = to;
  peer = peer;
  peer_pid = peer_pid;
  player = s.real_player_id;
  hp = s.hp;
  battle = s.current_battle_id;
  flag = s.battle_ended_flag;
}

-- `damage`, twice the attack power on the attacker's own field.
unfoldable pub damage : Attribute → Status → ℤ
damage field s = if same_attr s.attr field then int_mul s.atk (pos 2) else s.atk

unfoldable pub strike : Attribute → Status → Status → Status
unfolding damage
strike field attacker target = record target { hp = int_sub target.hp (damage field attacker) }

unfoldable pub alive : Status → Bool
alive s = ltb_ℤ (pos 0) s.hp

unfoldable pub ended : Status → Status
ended s = record s { battle_ended_flag = pos 1 }

pub data Side : Type 0 where
  left_side right_side : Side

-- What a round sends to the two children, and the winner if the battle has ended.
pub record Round : Type 0 where
  pub left : Status
  pub right : Status
  pub winner : Option Side

abbrev pub goes_on : Status → Status → Round
goes_on l r = record { left = l; right = r; winner = none }

abbrev pub won_by : Side → Status → Status → Round
won_by side l r = record { left = ended l; right = ended r; winner = some side }

-- The left player strikes first if it has less HP, or as much and the smaller id.
unfoldable pub left_first : Status → Status → Bool
left_first l r = ltb_ℤ l.hp r.hp || (eqb_ℤ l.hp r.hp && ltb l.real_player_id r.real_player_id)

unfoldable pub blows : Attribute → Status → Status → Round
blows field l r =
    if left_first l r
    then (let r' = strike field l r in
        if alive r'
        then (let l' = strike field r' l in
            if alive l' then goes_on l' r' else won_by right_side l' r')
        else won_by left_side l r')
    else (let l' = strike field r l in
        if alive l'
        then (let r' = strike field l' r in
            if alive r' then goes_on l' r' else won_by left_side l' r')
        else won_by right_side l' r)

-- One pass of the battle loop: the statuses are marked with the battle, and the blows are struck.
unfoldable pub play_round : Battle → Attribute → Status → Status → Round
unfolding blows
play_round b field l r =
    blows field (record l { current_battle_id = b.battle_id })
      (record r { current_battle_id = b.battle_id })

-- The four lines that a pass writes.
unfoldable pub round_log :
    Battle → Attribute → (self left_pid right_pid : ℕ) → Status → Status → List Line
unfolding play_round
round_log b field self left_pid right_pid l r =
    let out = play_round b field l r in
    line b.battle_id self false b.left left_pid l
    ∷ line b.battle_id self false b.right right_pid r
    ∷ line b.battle_id self true b.left left_pid out.left
    ∷ line b.battle_id self true b.right right_pid out.right
    ∷ []

-- The passing mode: what comes from the parent goes to the winner; does the battle stop then?
unfoldable pub relay_stops : Status → Bool
relay_stops s =
    (eqb_ℤ s.battle_ended_flag (pos 1) && not (ltb_ℤ (pos 0) s.hp))
    || (eqb_ℤ s.battle_ended_flag (pos 1) && (s.current_battle_id == b'A'))

-- The agent that takes over from the loser of a battle. `none` is a variable never initialised.
unfoldable pub agent_of : ℕ → Option ℕ
agent_of id =
    if id == b'G'
    then some 8
    else if id == b'I'
    then some 9
    else if id == b'D'
    then some 10
    else if id == b'H'
    then some 11
    else if id == b'J'
    then some 12
    else if id == b'E'
    then some 13
    else if id == b'B'
    then some 14
    else none

-- `parent` of hw2/player.c: the battle of each player.
abbrev pub parent_of : List ℕ
parent_of =
    b'G' ∷ b'G' ∷ b'H' ∷ b'H' ∷ b'I' ∷ b'I' ∷ b'J' ∷ b'J' ∷ b'M' ∷ b'M' ∷ b'K' ∷ b'N' ∷ b'N' ∷ b'L'
    ∷ b'C' ∷ []

-- What a player does with a status: answer, leave, or hand over to an agent and leave.
pub data Action : Type 0 where
  reply : Status → Action
  stop : Action
  hand_over : Option ℕ → Status → Action

unfoldable pub recovered : ℤ → Status → Status
recovered base_hp s = record s { hp = int_half (int_add s.hp base_hp); battle_ended_flag = pos 0 }

-- A real player; `base_hp` is its HP in the status file.
unfoldable pub player_step : ℤ → Status → Action
unfolding recovered agent_of
player_step base_hp s =
    if eqb_ℤ s.battle_ended_flag (pos 1)
    then if ltb_ℤ (pos 0) s.hp
      then if not (s.current_battle_id == b'A') then reply (recovered base_hp s) else stop
      else if s.current_battle_id == b'A'
      then stop
      else hand_over (agent_of s.current_battle_id)
          (record s { hp = base_hp; battle_ended_flag = pos 0 })
    else reply s

-- An agent; `base_hp` gives the HP of each real player in the status file.
unfoldable pub agent_step : (ℕ → ℤ) → Status → Action
unfolding recovered
agent_step base_hp s =
    if eqb_ℤ s.battle_ended_flag (pos 1)
    then if not (ltb_ℤ (pos 0) s.hp) || (s.current_battle_id == b'A')
      then stop
      else reply (recovered (base_hp s.real_player_id) s)
    else reply s
