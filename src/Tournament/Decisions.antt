-- ===== src/Tournament/Decisions.antt =====
-- hw2: a battle between two players is decided, the loser leaves, and the winner goes up.
use sp_homework.Common.{
  ℕ, suc, ◌≡◌, ◌≢◌, ◌<◌, refl, sym, ap, ◌∙◌, true, false, inl, inr, some, leb, ◌==◌, if◌then◌else◌,
  arith, Bool-cases,
}
use sp_homework.Common.Int.{pos, pos_part, int_add, int_half}
use sp_homework.Tournament.{
  Attribute, Status, Battle, Side, left_side, right_side, Round, agent_of, recovered,
}
use sp_homework.Tournament.Fight.{fight-Verdict, marked}
use sp_homework.Tournament.Blows.{Survives, Falls, Judged}
use sp_homework.Tournament.Relay.{recovers, between}
use sp_homework.Tournament.Bracket.{Contender, Fifos, process_step, leave, decided, decide, answer}
use sp_homework.Tournament.Actions.{
  ArePlayers, IsFit, MayFight, player_wins, player_loses, player_stops, agent_wins, agent_stops,
  agent_loses,
}

module _ (table : ℕ → Status) (players : ArePlayers table) where
  recovered-IsFit :
      (b : Battle) (s s' : Status)
      → IsFit table s
      → Survives (marked b s) s'
      → IsFit table (recovered (table s.real_player_id).hp s')
  unfolding recovered
  recovered-IsFit b s s' fit (same, lives, lower, over) =
      let base = (table s.real_player_id).hp in
      let small = (players s.real_player_id fit.real).small in
      let (up, down) = recovers s'.hp base lives (omega (arith, lower, fit.less)) small in
      record {
        real = omega (arith, same.0, fit.real);
        fighter = record {
          lives = omega (arith, up, lives);
          fits = between (int_half (int_add s'.hp base)) base (omega (arith, up, lives)) down small;
          harms = rw (same.1) fit.fighter.harms;
          bounded = rw (same.1) fit.fighter.bounded;
        };
        less = rw (same.0) down;
        power = same.1 ∙ fit.power ∙ ap (λ i. (table i).atk) (sym same.0);
      }

  -- The winner of a battle below the root answers, ready to fight again.
  pub winner_lem :
      (b : Battle) (c : Contender) (s' : Status)
      → MayFight table c
      → b.battle_id ≢ b'A'
      → Survives (marked b c.status) s'
      → (up : Contender) × (answer c.number (process_step table c.number s') ≡ some up)
        × MayFight table up
        × (up.number ≡ c.number)
  unfolding process_step recovered
  winner_lem b c s' may below survives =
      let (same, lives, lower, over) = survives in
      let away : s'.current_battle_id ≡ b.battle_id → s'.current_battle_id ≢ b'A' =
        λ e h. below (sym e ∙ h) in
      let up = recovered (table c.status.real_player_id).hp s' in
      let fit = recovered-IsFit b c.status s' may.fit survives in
      elim (Bool-cases (leb c.number 7)) [
        | inl real ↦
            let own = may.own (ground (arith, real)) in
            (
              record { number = c.number; status = up },
              rw (real, player_wins (table c.number).hp s' over lives (away (same.3)))
                  (ap (λ i. some (record { number = c.number; status = recovered (table i).hp s' }))
                    (sym own)),
              record { fit = fit; own = λ h. same.0 ∙ own },
              refl,
            )
        | inr agent ↦ (
          record { number = c.number; status = up },
          rw (agent, agent_wins (λ i. (table i).hp) s' over lives (away (same.3)))
              (ap (λ i. some (record { number = c.number; status = recovered (table i).hp s' }))
                same.0),
          record { fit = fit; own = λ h. same.0 ∙ may.own h },
          refl,
        )
      ]

  -- A real player that has lost gives its agent its status as the file has it.
  pub loser_lem :
      (b : Battle) (c : Contender) (s' : Status) (a : ℕ) (fifos : Fifos)
      → MayFight table c
      → c.number < 8
      → agent_of b.battle_id ≡ some a
      → b.battle_id ≢ b'A'
      → Falls (marked b c.status) s'
      → (given : Status) × (leave (process_step table c.number s') fifos
          ≡ some (λ x. if a == x then some given else fifos x))
        × IsFit table given
  unfolding process_step
  loser_lem b c s' a fifos may real agent below falls =
      let (same, dead, over) = falls in
      let given = record s' { hp = (table c.number).hp; battle_ended_flag = pos 0 } in
      let id : s'.real_player_id ≡ c.number = same.0 ∙ may.own real in
      let p = players c.number real in
      let low : leb c.number 7 ≡ true = ground (arith, real) in
      (
        given,
        rw
            (
              low,
              player_loses (table c.number).hp s' a over dead (λ h. below (sym same.3 ∙ h))
                  (ap agent_of same.3 ∙ agent),
            )
            refl,
        record {
          real = omega (arith, id);
          fighter = record {
            lives = p.fighter.lives;
            fits = p.fighter.fits;
            harms = rw (same.1) may.fit.fighter.harms;
            bounded = rw (same.1) may.fit.fighter.bounded;
          };
          less = rw id (omega arith);
          power = same.1 ∙ may.fit.power ∙ ap (λ i. (table i).atk) (sym same.0);
        },
      )

  -- An agent that has lost leaves, and so does any player at the root.
  pub agent_lem :
      (b : Battle) (c : Contender) (s' : Status) (fifos : Fifos)
      → 7 < c.number
      → Falls (marked b c.status) s'
      → leave (process_step table c.number s') fifos ≡ some fifos
  unfolding process_step
  agent_lem b c s' fifos high falls =
      let (same, dead, over) = falls in
      let up : leb c.number 7 ≡ false = ground (arith, high) in
      rw (up, agent_loses (λ i. (table i).hp) s' over dead) refl

  -- Whoever gets the status of a battle that has ended at the root leaves.
  pub root_lem :
      (n : ℕ) (s' : Status) (fifos : Fifos)
      → s'.battle_ended_flag ≡ pos 1
      → s'.current_battle_id ≡ b'A'
      → leave (process_step table n s') fifos ≡ some fifos
  unfolding process_step
  root_lem n s' fifos over root = elim (Bool-cases (leb n 7)) [
    | inl real ↦ rw (real, player_stops (table n).hp s' over root) refl
    | inr agent ↦ rw (agent, agent_stops (λ i. (table i).hp) s' over root) refl
  ]

  -- A battle between two that may fight is decided, once the loser leaves and the winner is known.
  pub decide_lem :
      (b : Battle) (field : Attribute) (l r : Contender) (fifos : Fifos) (P : Fifos → Type 0)
      (Q : Contender → Type 0)
      → MayFight table l
      → MayFight table r
      → ((s' : Status)
          → Falls (marked b l.status) s'
          → (fifos' : Fifos) × (leave (process_step table l.number s') fifos ≡ some fifos')
            × P fifos')
      → ((s' : Status)
          → Falls (marked b r.status) s'
          → (fifos' : Fifos) × (leave (process_step table r.number s') fifos ≡ some fifos')
            × P fifos')
      → ((s' : Status) → Survives (marked b l.status) s' → Q (record l { status = s' }))
      → ((s' : Status) → Survives (marked b r.status) s' → Q (record r { status = s' }))
      → (won : Contender) × (fifos' : Fifos) × (decide table b field l r fifos ≡ some (won, fifos'))
        × Q won
        × P fifos'
  unfolding decide
  decide_lem b field l r fifos P Q ml mr left_loses right_loses left_wins right_wins =
      let (out, fought, (side, won, judged)) =
        fight-Verdict (suc (pos_part l.status.hp)) b field l.status r.status ml.fit.fighter
          mr.fit.fighter (omega arith) in
      rw fought (go out side won judged)
    where
      go :
          (out : Round) (side : Side)
          → out.winner ≡ some side
          → Judged (marked b l.status) (marked b r.status) out.left out.right (some side)
          → (won : Contender) × (fifos' : Fifos) × (decided table l r fifos out out.winner
              ≡ some (won, fifos'))
            × Q won
            × P fifos'
      go out left_side won (wins, loses) =
          let (fifos', e, p) = right_loses out.right loses in
          (record l { status = out.left }, fifos', rw (won, e) refl, left_wins out.left wins, p)
      go out right_side won (loses, wins) =
          let (fifos', e, p) = left_loses out.left loses in
          (record r { status = out.right }, fifos', rw (won, e) refl, right_wins out.right wins, p)
