-- ===== src/Tournament/Contends.antt =====
-- hw2: who comes out of a process of the tournament for the battle above it.
use mathlib.Core.Path.{subst}
use mathlib.Core.Option.{some-injective}
use sp_homework.Common.{
  ℕ, ◌≡◌, ◌≢◌, ◌<◌, refl, sym, ap, ◌∙◌, true, false, inl, inr, none, some, leb, ◌==◌, ==_iff,
  if◌then◌else◌, arith, Bool-cases,
}
use sp_homework.Tournament.{Attribute, Status, Battle, agent_of}
use sp_homework.Tournament.Fight.{marked}
use sp_homework.Tournament.Blows.{Survives}
use sp_homework.Tournament.Bracket.{
  Tree, player, battle, Contender, Fifos, process_step, leave, answer, contend, champion,
}
use sp_homework.Tournament.Decisions.{winner_lem, loser_lem, agent_lem, root_lem, decide_lem}
use sp_homework.Tournament.Actions.{ArePlayers, IsFit, MayFight, Has}

-- Every player of the tree is a real one, and every battle has an agent for its loser.
abbrev pub IsReal : Tree → Type 0
IsReal (player n) = n < 8
IsReal (battle b field l r) =
    ((a : ℕ) × (agent_of b.battle_id ≡ some a)) × (b.battle_id ≢ b'A') × IsReal l × IsReal r

module _ (table : ℕ → Status) (players : ArePlayers table) where
  -- The agents for the losers of the tree have a status to go on with.
  abbrev pub IsFilled : Fifos → Tree → Type 0
  IsFilled fifos (player n) = Unit {0}
  IsFilled fifos (battle b field l r) =
      ((a : ℕ) → agent_of b.battle_id ≡ some a → Has table fifos a)
      × IsFilled fifos l
      × IsFilled fifos r

  -- Every player of the tree is an agent that has a status to go on with.
  abbrev pub AreAgents : Fifos → Tree → Type 0
  AreAgents fifos (player n) = (7 < n) × Has table fifos n
  AreAgents fifos (battle b field l r) =
      (b.battle_id ≢ b'A') × AreAgents fifos l × AreAgents fifos r

  abbrev Keeps : Fifos → Fifos → Type 0
  Keeps fifos fifos' = (a : ℕ) → Has table fifos a → Has table fifos' a

  IsFilled-Keeps :
      (fifos fifos' : Fifos) (t : Tree) → Keeps fifos fifos' → IsFilled fifos t → IsFilled fifos' t
  IsFilled-Keeps fifos fifos' (player n) keeps filled = tt
  IsFilled-Keeps fifos fifos' (battle b field l r) keeps (here, left, right) = (
    λ a e. keeps a (here a e),
    IsFilled-Keeps fifos fifos' l keeps left,
    IsFilled-Keeps fifos fifos' r keeps right,
  )

  given_lem :
      (fifos : Fifos) (a : ℕ) (given : Status)
      → IsFit table given
      → Keeps fifos (λ x. if a == x then some given else fifos x)
        × Has table (λ x. if a == x then some given else fifos x) a
  given_lem fifos a given fit = (
    λ y has. elim (Bool-cases (a == y)) [
      | inl here ↦ (given, rw here refl, fit)
      | inr other ↦ let (s, e, fits) = has in (s, rw other e, fits)
    ],
    let own : (a == a) ≡ true = ground (arith, ==_iff a a) in (given, rw own refl, fit),
  )

  -- Who wins below the root goes up with a status to fight on with.
  abbrev GoesUp : (ℕ → Type 0) → Contender → Type 0
  GoesUp P won =
      (up : Contender) × (answer won.number (process_step table won.number won.status) ≡ some up)
      × MayFight table up
      × P up.number

  goes_up :
      (b : Battle) (c : Contender) (s' : Status) (P : ℕ → Type 0)
      → MayFight table c
      → P c.number
      → b.battle_id ≢ b'A'
      → Survives (marked b c.status) s'
      → GoesUp P (record c { status = s' })
  goes_up b c s' P may p below survives =
      let (up, e, fit, same) = winner_lem table players b c s' may below survives in
      (up, e, fit, subst P (sym same) p)

  real_lem :
      (t : Tree) (fifos : Fifos)
      → IsReal t
      → (c : Contender) × (fifos' : Fifos) × (contend table t fifos ≡ some (c, fifos'))
        × MayFight table c
        × c.number < 8
        × Keeps fifos fifos'
        × IsFilled fifos' t
  unfolding contend
  real_lem (player n) fifos real =
      let p = players n real in
      let low : leb n 7 ≡ true = ground (arith, real) in
      (
        record { number = n; status = table n },
        fifos,
        rw low refl,
        record {
          fit = record {
            real = omega (arith, p.own_id, real);
            fighter = p.fighter;
            less = rw p.own_id (omega arith);
            power = ap (λ i. (table i).atk) (sym p.own_id);
          };
          own = λ h. p.own_id;
        },
        real,
        λ y has. has,
        tt,
      )
  real_lem (battle b field l r) fifos ((a, agent), below, left, right) =
      let (cl, f1, e1, may1, low1, keeps1, filled1) = real_lem l fifos left in
      let (cr, f2, e2, may2, low2, keeps2, filled2) = real_lem r f1 right in
      let P : Fifos → Type 0 = λ f. Keeps f2 f × Has table f a in
      let Q : Contender → Type 0 = λ won. GoesUp (λ n. n < 8) won in
      let (won, f3, e3, (up, e4, may4, low4), (keeps3, has3)) =
        decide_lem table players b field cl cr f2 P Q may1 may2
          (λ s' falls.
            let (given, gone, fit) =
              loser_lem table players b cl s' a f2 may1 low1 agent below falls in
            (_, gone, given_lem f2 a given fit))
          (λ s' falls.
            let (given, gone, fit) =
              loser_lem table players b cr s' a f2 may2 low2 agent below falls in
            (_, gone, given_lem f2 a given fit))
          (λ s' wins. goes_up b cl s' (λ n. n < 8) may1 low1 below wins)
          (λ s' wins. goes_up b cr s' (λ n. n < 8) may2 low2 below wins) in
      (
        up,
        f3,
        rw (e1, e2, e3, e4) refl,
        may4,
        low4,
        λ y has. keeps3 y (keeps2 y (keeps1 y has)),
        (
          λ a' agent'. subst (Has table f3) (some-injective _ _ (sym agent ∙ agent')) has3,
          IsFilled-Keeps f1 f3 l (λ y has. keeps3 y (keeps2 y has)) filled1,
          IsFilled-Keeps f2 f3 r keeps3 filled2,
        ),
      )

  agents_lem :
      (t : Tree) (fifos : Fifos)
      → AreAgents fifos t
      → (c : Contender) × (contend table t fifos ≡ some (c, fifos))
        × MayFight table c
        × 7 < c.number
  unfolding contend
  agents_lem (player n) fifos (high, (s, e, fit)) =
      let up : leb n 7 ≡ false = ground (arith, high) in
      (
        record { number = n; status = s },
        rw (up, e) refl,
        record { fit = fit; own = λ h. absurd (omega (arith, high, h)) },
        high,
      )
  agents_lem (battle b field l r) fifos (below, left, right) =
      let (cl, e1, may1, high1) = agents_lem l fifos left in
      let (cr, e2, may2, high2) = agents_lem r fifos right in
      let P : Fifos → Type 0 = λ f. f ≡ fifos in
      let Q : Contender → Type 0 = λ won. GoesUp (λ n. 7 < n) won in
      let (won, f3, e3, (up, e4, may4, high4), same) =
        decide_lem table players b field cl cr fifos P Q may1 may2
          (λ s' falls. (fifos, agent_lem table players b cl s' fifos high1 falls, refl))
          (λ s' falls. (fifos, agent_lem table players b cr s' fifos high2 falls, refl))
          (λ s' wins. goes_up b cl s' (λ n. 7 < n) may1 high1 below wins)
          (λ s' wins. goes_up b cr s' (λ n. 7 < n) may2 high2 below wins) in
      (up, rw (e1, e2, e3, e4) (ap (λ f. some (up, f)) same), may4, high4)

  pub champion_lem :
      (b : Battle) (field : Attribute) (l r : Tree)
      → b.battle_id ≡ b'A'
      → IsReal l
      → ((fifos : Fifos) → IsFilled fifos l → AreAgents fifos r)
      → (c : ℕ) × (champion table (battle b field l r) ≡ some c) × c < 8
  champion_lem b field l r root real fed =
      let (cl, f1, e1, may1, low1, keeps1, filled1) = real_lem l (λ a. none) real in
      let (cr, e2, may2, high2) = agents_lem r f1 (fed f1 filled1) in
      let P : Fifos → Type 0 = λ f. f ≡ f1 in
      let Q : Contender → Type 0 = λ won.
        (won.status.real_player_id < 8)
        × ((f : Fifos) → leave (process_step table won.number won.status) f ≡ some f) in
      let (won, f3, e3, (real_winner, leaves), same) =
        decide_lem table players b field cl cr f1 P Q may1 may2
          (λ s' falls.
            (f1, root_lem table players cl.number s' f1 falls.2 (falls.0.3 ∙ root), refl))
          (λ s' falls. (f1, agent_lem table players b cr s' f1 high2 falls, refl))
          (λ s' wins. (
            omega (arith, wins.0.0, may1.fit.real),
            λ f. root_lem table players cl.number s' f wins.3 (wins.0.3 ∙ root),
          ))
          (λ s' wins. (
            omega (arith, wins.0.0, may2.fit.real),
            λ f. root_lem table players cr.number s' f wins.3 (wins.0.3 ∙ root),
          )) in
      (won.status.real_player_id, rw (e1, e2, e3, leaves f3) refl, real_winner)
