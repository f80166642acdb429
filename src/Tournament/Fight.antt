-- ===== src/Tournament/Fight.antt =====
-- The battle loop of hw2/battle.c between two players: it ends, and with one survivor.
use sp_homework.Common.{
  ℕ, zero, suc, ◌<◌, ◌≡◌, inl, inr, Option, none, some, arith, Option-cases, ◌∙◌,
}
use sp_homework.Common.Int.{ℤ, pos, pos_part, ◌<ℤ◌}
use sp_homework.Tournament.{
  Attribute, Status, Battle, Side, left_side, right_side, Round, play_round,
}
use sp_homework.Tournament.Blows.{IsFighter, Weakened, Judged, blows_lem}

-- The battle loop on fuel: what a player receives while the battle goes on, it sends back unchanged.
unfoldable pub fight : ℕ → Battle → Attribute → Status → Status → Option Round
fight zero b field l r = none
fight (suc n) b field l r =
    let out = play_round b field l r in
    elim out.winner [ some side ↦ some out | none ↦ fight n b field out.left out.right ]

abbrev pub marked : Battle → Status → Status
marked b s = record s { current_battle_id = b.battle_id }

-- How a battle ends: one side falls and the other survives, both told that it has ended.
abbrev pub Verdict : Battle → Status → Status → Round → Type 0
Verdict b l r out =
    (side : Side) × (out.winner ≡ some side)
    × Judged (marked b l) (marked b r) out.left out.right (some side)

marked-IsFighter : (b : Battle) (s : Status) → IsFighter s → IsFighter (marked b s)
marked-IsFighter b s f = record {
  lives = f.lives;
  fits = f.fits;
  harms = f.harms;
  bounded = f.bounded;
}

-- What is said of a weakened status holds of the status before.
later :
    (b : Battle) (l r l' r' l'' r'' : Status) (side : Side)
    → Weakened (marked b l) l'
    → Weakened (marked b r) r'
    → Judged (marked b l') (marked b r') l'' r'' (some side)
    → Judged (marked b l) (marked b r) l'' r'' (some side)
later b l r l' r' l'' r'' left_side wl wr j = ground arith
later b l r l' r' l'' r'' right_side wl wr j = ground arith

fewer : (a b : ℤ) → a <ℤ b → pos 0 <ℤ a → pos_part a < pos_part b
fewer a b h k = ground arith

fight_won :
    (n : ℕ) (b : Battle) (field : Attribute) (l r : Status) (side : Side)
    → (play_round b field l r).winner ≡ some side
    → fight (suc n) b field l r ≡ some (play_round b field l r)
unfolding fight
fight_won n b field l r side e = simp (e, fight)

fight_on :
    (n : ℕ) (b : Battle) (field : Attribute) (l r : Status)
    → (play_round b field l r).winner ≡ none
    → fight (suc n) b field l r
      ≡ fight n b field (play_round b field l r).left (play_round b field l r).right
unfolding fight
fight_on n b field l r e = rw (e, fight)

play_round-Judged :
    (b : Battle) (field : Attribute) (l r : Status)
    → IsFighter l
    → IsFighter r
    → Judged
        (marked b l)
        (marked b r)
        (play_round b field l r).left
        (play_round b field l r).right
        (play_round b field l r).winner
unfolding play_round
play_round-Judged b field l r fl fr =
    blows_lem field (marked b l) (marked b r) (marked-IsFighter b l fl) (marked-IsFighter b r fr)

-- A battle between two fighters ends within as many rounds as the left one has HP, and then exactly
-- one of the two survives: its HP is positive and no larger than before, that of the other is at most
-- 0, both have the flag set and the mark of the battle, and id, attack power and attribute of both
-- are as before.
pub fight-Verdict :
    (n : ℕ) (b : Battle) (field : Attribute) (l r : Status)
    → IsFighter l
    → IsFighter r
    → pos_part l.hp < n
    → (out : Round) × (fight n b field l r ≡ some out) × Verdict b l r out
fight-Verdict zero b field l r fl fr enough = absurd (omega arith)
fight-Verdict (suc n) b field l r fl fr enough =
    let out = play_round b field l r in
    let judged = play_round-Judged b field l r fl fr in
    elim (Option-cases out.winner) [
      | inl on ↦
          let (wl, wr) = rw on at judged in
          let (final, ends, verdict) =
            fight-Verdict n b field out.left out.right wl.1 wr.1
              (omega (arith, fewer out.left.hp l.hp wl.2 wl.1.lives)) in
          let (side, won, j) = verdict in
          (
            final,
            fight_on n b field l r on ∙ ends,
            (side, won, later b l r out.left out.right final.left final.right side wl wr j),
          )
      | inr (side, won) ↦ (out, fight_won n b field l r side won, (side, won, rw won at judged))
    ]
