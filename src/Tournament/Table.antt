-- ===== src/Tournament/Table.antt =====
-- The tables of hw2/battle.c and hw2/player.c agree: each child of a battle, battle or player, names
-- that battle as its parent, and each player has one place.
use mathlib.Core.Path.{subst}
use sp_homework.Common.{
  ℕ, ◌+◌, ◌≤◌, ◌≡◌, refl, Bool, true, false, Option, none, some, List, [], ◌∷◌, arith, ◌==◌, ==_iff,
  all_from, all_from_lem, get_elem?, if◌then◌else◌, Bool-cases, ◌⊎◌, inl, inr, ◌&&◌, ap, sym,
}
use sp_homework.Tournament.{
  Attribute, Battle, btl, search_in, find_battle, is_player, parent_of, agent_of,
}

-- The child names the battle as its parent.
abbrev pub IsLinked : ℕ → ℕ → Type 0
IsLinked id child =
    ((is_player child ≡ true) × (get_elem? parent_of child ≡ some id))
    ⊎ ((is_player child ≡ false)
        × (b : Battle) × (f : Attribute) × (find_battle child ≡ some (b, f))
        × (b.parent ≡ id))

abbrev is_some_id : ℕ → Option ℕ → Bool
is_some_id id none = false
is_some_id id (some x) = x == id

abbrev is_child_of : ℕ → Option (Battle × Attribute) → Bool
is_child_of id none = false
is_child_of id (some (b, f)) = b.parent == id

-- The same as a test.
linked : ℕ → ℕ → Bool
linked id child =
    if is_player child
    then is_some_id id (get_elem? parent_of child)
    else is_child_of id (find_battle child)

some_id : (id : ℕ) (o : Option ℕ) → is_some_id id o ≡ true → o ≡ some id
some_id id none h = cc
some_id id (some x) h = ap some ((==_iff x id).0 h)

child_of :
    (id : ℕ) (o : Option (Battle × Attribute))
    → is_child_of id o ≡ true
    → (b : Battle) × (f : Attribute) × (o ≡ some (b, f)) × (b.parent ≡ id)
child_of id none h = cc
child_of id (some (b, f)) h = (b, f, refl, (==_iff b.parent id).0 h)

linked_sound : (id child : ℕ) → linked id child ≡ true → IsLinked id child
unfolding linked
linked_sound id child h = elim (Bool-cases (is_player child)) [
  | inl player ↦ inl (player, some_id id (get_elem? parent_of child) (rw player at h))
  | inr battle ↦
      let (b, f, found, named) = child_of id (find_battle child) (rw battle at h) in
      inr (battle, b, f, found, named)
]

both_linked : List (Battle × Attribute) → Bool
both_linked [] = true
both_linked ((b, f) ∷ bs) =
    (linked b.battle_id b.left && linked b.battle_id b.right) && both_linked bs

table_linked : both_linked btl ≡ true
unfolding both_linked linked find_battle
table_linked = refl

first_or : Battle → Option (Battle × Attribute) → Battle
first_or c none = c
first_or c (some (b, f)) = b

found-IsLinked :
    (bs : List (Battle × Attribute)) (id : ℕ) (b : Battle) (f : Attribute)
    → both_linked bs ≡ true
    → search_in bs id ≡ some (b, f)
    → (b.battle_id ≡ id) × IsLinked id b.left × IsLinked id b.right
unfolding both_linked search_in first_or
found-IsLinked [] id b f ok h = cc
found-IsLinked ((c, g) ∷ bs) id b f ok h = elim (Bool-cases (id == c.battle_id)) [
  | inl here ↦
      let found : ◌≡◌ {A = Option (Battle × Attribute)} (some (c, g)) (some (b, f)) =
        rw here at h in
      let same : c ≡ b = ap (λ (o : Option (Battle × Attribute)). first_or c o) found in
      let named : c.battle_id ≡ id = sym ((==_iff id c.battle_id).0 here) in
      let here_ok : (linked c.battle_id c.left ≡ true) × (linked c.battle_id c.right ≡ true) =
        ground arith in
      let links : IsLinked id c.left × IsLinked id c.right =
        rw (← named)
          (linked_sound c.battle_id c.left here_ok.0, linked_sound c.battle_id c.right here_ok.1) in
      subst (λ (d : Battle). (d.battle_id ≡ id) × IsLinked id d.left × IsLinked id d.right) same
        (named, links.0, links.1)
  | inr elsewhere ↦ found-IsLinked bs id b f (ground arith) (rw elsewhere at h)
]

-- Both children of every battle that `argv[1]` can name are linked to it, and the battle found has
-- the name that was looked for.
pub find_battle-IsLinked :
    (id : ℕ) (b : Battle) (f : Attribute)
    → find_battle id ≡ some (b, f)
    → (b.battle_id ≡ id) × IsLinked id b.left × IsLinked id b.right
unfolding find_battle
find_battle-IsLinked id b f h = found-IsLinked btl id b f table_linked h

-- The numbers and letters that stand as children in the table.
unfoldable pub children : List (Battle × Attribute) → List ℕ
children [] = []
children ((b, f) ∷ bs) = b.left ∷ b.right ∷ children bs

unfoldable pub occurrences : ℕ → List ℕ → ℕ
occurrences c [] = 0
occurrences c (x ∷ xs) = (if x == c then 1 else 0) + occurrences c xs

once_table : all_from (λ p. occurrences p (children btl) == 1) 0 15 ≡ true
unfolding all_from occurrences children
once_table = refl

-- Every player, real or agent, stands in exactly one place of the table.
pub children_once : (p : ℕ) → is_player p ≡ true → occurrences p (children btl) ≡ 1
children_once p h = (==_iff _ 1).0 (all_from_lem _ 0 15 p (omega arith) (ground arith) once_table)

-- An agent takes over from the loser of exactly one battle, and has one of the numbers 8 to 14.
pub agent_of-injective :
    (id id' a : ℕ) → agent_of id ≡ some a → agent_of id' ≡ some a → (id ≡ id') × (8 ≤ a) × (a ≤ 14)
unfolding agent_of
agent_of-injective id id' a h h' = ground arith
