-- ===== src/Sorting/Argmax.antt =====
-- `argmax` of hw4/lib.c chooses a movie that no other one precedes.
use sp_homework.Common.{
  ℕ, suc, ◌+◌, ◌≡◌, ◌⊎◌, inl, inr, refl, sym, ap, ◌∙◌, true, false, ◌&&◌, Option, none, some, List,
  [], ◌∷◌, ◌++◌, arith, ◌==◌, ltb, leb, if◌then◌else◌, length, Bool-cases,
}
use sp_homework.Sorting.{
  Scored, Best, better, argmax_loop, argmax, precedes, strcmp, is_above, zero_rank, minus_one_rank,
}
use sp_homework.Sorting.Order.{strcmp_flip, precedes_asym, precedes_trans}
use sp_homework.Sorting.Lists.{count_if, is_fine}

-- The movie that the loop has chosen.
abbrev pub chosen : Best → Scored
chosen b = record { title = b.best_title; score = b.max }

-- A round keeps the choice, or takes the new movie if that precedes it.
better_lem :
    (i : ℕ) (x : Scored) (b : Best)
    → ((better i x b ≡ b) × (precedes x (chosen b) ≡ false))
      ⊎ (((better i x b).ret ≡ i) × (chosen (better i x b) ≡ x) × (precedes x (chosen b) ≡ true))
unfolding better
better_lem i x b = elim (Bool-cases (ltb b.max x.score)) [
  | inl more ↦ inr (rw more refl, rw more refl, ground arith)
  | inr less ↦ elim (Bool-cases ((x.score == b.max) && is_above (strcmp b.best_title x.title))) [
    | inl first ↦
        let equal : b.max ≡ x.score = ground arith in
        inr (
          rw (less, first) refl,
          rw (less, first) (λ i. record { title = x.title; score = equal i }),
          ground (arith, strcmp_flip b.best_title x.title),
        )
    | inr later ↦ inl (rw (less, later) refl, ground (arith, strcmp_flip b.best_title x.title))
  ]
]

-- What the loop chooses: what it starts from, or a movie of the list, with its index; and nothing
-- precedes the choice.
pub record Chosen (xs : List Scored) (i : ℕ) (b b' : Best) : Type 0 where
  pub place :
      (b' ≡ b)
      ⊎ ((front : List Scored) × (x : Scored) × (back : List Scored) × (xs ≡ front ++ x ∷ back)
          × (b'.ret ≡ i + length front)
          × (chosen b' ≡ x))
  pub first : precedes (chosen b) (chosen b') ≡ false
  pub others : count_if (λ y. precedes y (chosen b')) xs ≡ 0

irreflexive : (x : Scored) → precedes x x ≡ false
irreflexive x = ground (arith, precedes_asym x x)

-- One movie more in front, which is not chosen.
later_place :
    (x : Scored) (xs : List Scored) (i : ℕ) (b b' : Best)
    → (front : List Scored) × (y : Scored) × (back : List Scored) × (xs ≡ front ++ y ∷ back)
      × (b'.ret ≡ suc i + length front)
      × (chosen b' ≡ y)
    → (front : List Scored) × (y : Scored) × (back : List Scored) × (x ∷ xs ≡ front ++ y ∷ back)
      × (b'.ret ≡ i + length front)
      × (chosen b' ≡ y)
later_place x xs i b b' (front, y, back, e, index, here) =
    (x ∷ front, y, back, ap (◌∷◌ x) e, omega (arith, index), here)

pub loop_lem : (xs : List Scored) (i : ℕ) (b : Best) → Chosen xs i b (argmax_loop xs i b)
unfolding argmax_loop
loop_lem [] i b = record { place = inl refl; first = irreflexive (chosen b); others = refl }
loop_lem (x ∷ xs) i b =
    let b1 = better i x b in
    let b' = argmax_loop xs (suc i) b1 in
    let r = loop_lem xs (suc i) b1 in
    elim (better_lem i x b) [
      | inl (kept, not_first) ↦
          let first : precedes (chosen b) (chosen b') ≡ false =
            sym (ap (λ c. precedes (chosen c) (chosen b')) kept) ∙ r.first in
          record {
            place = elim r.place [
              | inl e ↦ inl (e ∙ kept)
              | inr p ↦ inr (later_place x xs i b b' p)
            ];
            first = first;
            others =
                ground (arith, r.others, precedes_trans (chosen b') (chosen b) x first not_first);
          }
      | inr (index, taken, is_first) ↦
          let first : precedes x (chosen b') ≡ false =
            sym (ap (λ c. precedes c (chosen b')) taken) ∙ r.first in
          record {
            place = elim r.place [
              | inl e ↦ inr (
                [],
                x,
                xs,
                refl,
                omega (arith, ap (λ (c : Best). c.ret) e, index),
                ap chosen e ∙ taken,
              )
              | inr p ↦ inr (later_place x xs i b b' p)
            ];
            first =
                precedes_trans (chosen b') x (chosen b) first (precedes_asym x (chosen b) is_first);
            others = ground (arith, r.others, first);
          }
    ]

-- The state behind the first round of the loop: max is below each score that is not negative.
abbrev pub start : Scored → Best
start x = record { ret = 0; max = x.score; best_title = x.title }

abbrev verdict : Best → Option ℕ
verdict b = if leb zero_rank b.max then some b.ret else none

pub argmax_lem :
    (x : Scored) (xs : List Scored)
    → is_fine x ≡ true
    → argmax x xs ≡ some (argmax_loop xs 1 (start x)).ret
unfolding argmax argmax_loop better
argmax_lem x xs fine =
    let more : ltb minus_one_rank x.score ≡ true = ground arith in
    let begun : better 0 x (record { ret = 0; max = minus_one_rank; best_title = x.title })
        ≡ start x =
      rw more refl in
    let r = loop_lem xs 1 (start x) in
    let enough : leb zero_rank (argmax_loop xs 1 (start x)).max ≡ true = ground (arith, r.first) in
    ap (λ b. verdict (argmax_loop xs 1 b)) begun ∙ rw enough refl
