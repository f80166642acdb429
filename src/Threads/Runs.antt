-- ===== src/Threads/Runs.antt =====
-- The two running maxima of `max_subarray` in hw3/threads.c, over the integers: the second one is the
-- largest sum of a run of neighbours.
use sp_homework.Common.{
  ℕ, ◌≡◌, ◌⊎◌, inl, inr, refl, sym, ap, ◌∙◌, arith, if◌then◌else◌, List, [], ◌∷◌, ◌++◌,
}
use sp_homework.Common.Int.{ℤ, pos, ltb_ℤ, ◌+ℤ◌, ◌≤ℤ◌, +ℤ_parts, +ℤ_zero, +ℤ_comm, IsWithin}

abbrev pub sum : List ℤ → ℤ
sum [] = pos 0
sum (n ∷ ns) = n +ℤ sum ns

-- `if (a > b) a else b`
unfoldable pub max_ℤ : ℤ → ℤ → ℤ
max_ℤ a b = if ltb_ℤ b a then a else b

le-max_ℤ : (a b : ℤ) → (a ≤ℤ max_ℤ a b) × (b ≤ℤ max_ℤ a b)
unfolding max_ℤ
le-max_ℤ a b = ground arith

max_ℤ-cases : (a b : ℤ) → (max_ℤ a b ≡ a) ⊎ (max_ℤ a b ≡ b)
unfolding max_ℤ
max_ℤ-cases a b = ground arith

pub max_ℤ-IsWithin : (m : ℕ) (a b : ℤ) → IsWithin m a → IsWithin m b → IsWithin m (max_ℤ a b)
unfolding max_ℤ
max_ℤ-IsWithin m a b h k = ground arith

-- The two numbers that the loop keeps, over the integers: the best sum of a run that ends at the
-- latest number, and the best so far. The latest number stands first.
abbrev pub best_end : List ℤ → ℤ
best_end [] = pos 0
best_end (n ∷ ns) = max_ℤ (best_end ns +ℤ n) n

abbrev pub best : List ℤ → ℤ
best [] = pos 0
best (n ∷ ns) = max_ℤ (best_end (n ∷ ns)) (best ns)

-- A run at the head of the list has at most the sum `best_end`.
end_bounds : (n : ℤ) (run rest : List ℤ) → sum (n ∷ run) ≤ℤ best_end (n ∷ (run ++ rest))
end_bounds n [] rest = omega (arith, le-max_ℤ (best_end rest +ℤ n) n, +ℤ_parts n (pos 0))
end_bounds n (m ∷ run) rest =
    let all = best_end (m ∷ (run ++ rest)) in
    omega (
      arith,
      end_bounds m run rest,
      le-max_ℤ (all +ℤ n) n,
      +ℤ_parts n (sum (m ∷ run)),
      +ℤ_parts all n,
    )

-- Every run of neighbours has at most the sum `best`.
pub best_bounds : (front run rest : List ℤ) → sum run ≤ℤ best (front ++ (run ++ rest))
best_bounds [] [] [] = omega arith
best_bounds [] [] (m ∷ rest) =
    omega (arith, best_bounds [] [] rest, le-max_ℤ (best_end (m ∷ rest)) (best rest))
best_bounds [] (n ∷ run) rest =
    omega
      (arith, end_bounds n run rest, le-max_ℤ (best_end (n ∷ (run ++ rest))) (best (run ++ rest)))
best_bounds (m ∷ front) run rest =
    let more = front ++ (run ++ rest) in
    omega (arith, best_bounds front run rest, le-max_ℤ (best_end (m ∷ more)) (best more))

-- A run of neighbours with a given sum.
abbrev pub HasRun : List ℤ → ℤ → Type 0
HasRun ns total =
    (front : List ℤ) × (run : List ℤ) × (rest : List ℤ) × (ns ≡ front ++ (run ++ rest))
    × (sum run ≡ total)

end_attained :
    (n : ℤ) (ns : List ℤ)
    → (run : List ℤ) × (rest : List ℤ) × (n ∷ ns ≡ run ++ rest) × (sum run ≡ best_end (n ∷ ns))
end_attained n [] = elim (max_ℤ-cases (pos 0 +ℤ n) n) [
  | inl e ↦ (n ∷ [], [], refl, +ℤ_comm n (pos 0) ∙ sym e)
  | inr e ↦ (n ∷ [], [], refl, +ℤ_zero n ∙ sym e)
]
end_attained n (m ∷ ns) = elim (max_ℤ-cases (best_end (m ∷ ns) +ℤ n) n) [
  | inl e ↦
      let (run, rest, split, total) = end_attained m ns in
      (n ∷ run, rest, ap (◌∷◌ n) split, ap (◌+ℤ◌ n) total ∙ +ℤ_comm n (best_end (m ∷ ns)) ∙ sym e)
  | inr e ↦ (n ∷ [], m ∷ ns, refl, +ℤ_zero n ∙ sym e)
]

pub best_attained : (ns : List ℤ) → HasRun ns (best ns)
best_attained [] = ([], [], [], refl, refl)
best_attained (n ∷ ns) = elim (max_ℤ-cases (best_end (n ∷ ns)) (best ns)) [
  | inl e ↦
      let (run, rest, split, total) = end_attained n ns in ([], run, rest, split, total ∙ sym e)
  | inr e ↦
      let (front, run, rest, split, total) = best_attained ns in
      (n ∷ front, run, rest, ap (◌∷◌ n) split, total ∙ sym e)
]
