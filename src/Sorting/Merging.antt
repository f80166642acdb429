-- ===== src/Sorting/Merging.antt =====
-- The merge sort of hw4/server.c over the selection sort of hw4/lib.c.
use sp_homework.Common.{
  ℕ, zero, suc, ◌+◌, ◌*◌, ◌/◌, ◌^◌, ◌≡◌, ◌≤◌, ◌<◌, refl, ◌∙◌, Bool, not, Option, some, List, [],
  ◌∷◌, arith, ◌==◌, length, take, drop, Bool-cases, inl, inr,
}
use sp_homework.Sorting.{
  Scored, precedes, add_secret, merge_loop, merge, merge_sort, layers, sorted_movies,
}
use sp_homework.Sorting.Order.{precedes_asym}
use sp_homework.Sorting.Lists.{
  count_if, IsSorted, HasSecrets, is_fine, AreFine, count_if-halves, count_if_trans,
}
use sp_homework.Sorting.Selection.{sort_lem}

merge_count :
    (p : Scored → Bool) (n : ℕ) (xs ys : List Scored)
    → n ≡ length xs + length ys
    → count_if p (merge_loop n xs ys) ≡ count_if p xs + count_if p ys
unfolding merge_loop
merge_count p zero [] [] e = omega arith
merge_count p zero (x ∷ xs) ys e = absurd (omega arith)
merge_count p zero [] (y ∷ ys) e = absurd (omega arith)
merge_count p (suc n) [] [] e = omega arith
merge_count p (suc n) (x ∷ xs) [] e = omega (arith, merge_count p n xs [] (omega arith))
merge_count p (suc n) [] (y ∷ ys) e = omega (arith, merge_count p n [] ys (omega arith))
merge_count p (suc n) (x ∷ xs) (y ∷ ys) e =
    let left = merge_count p n xs (y ∷ ys) (omega arith) in
    let right = merge_count p n (x ∷ xs) ys (omega arith) in
    elim (Bool-cases (precedes x y)) [
      | inl first ↦ rw first (omega (arith, left))
      | inr later ↦ rw later (omega (arith, right))
    ]

length-merge :
    (n : ℕ) (xs ys : List Scored) → n ≡ length xs + length ys → length (merge_loop n xs ys) ≡ n
unfolding merge_loop
length-merge zero xs ys e = refl
length-merge (suc n) [] [] e = absurd (omega arith)
length-merge (suc n) (x ∷ xs) [] e = omega (arith, length-merge n xs [] (omega arith))
length-merge (suc n) [] (y ∷ ys) e = omega (arith, length-merge n [] ys (omega arith))
length-merge (suc n) (x ∷ xs) (y ∷ ys) e =
    let left = length-merge n xs (y ∷ ys) (omega arith) in
    let right = length-merge n (x ∷ xs) ys (omega arith) in
    elim (Bool-cases (precedes x y)) [
      | inl first ↦ rw first (omega (arith, left))
      | inr later ↦ rw later (omega (arith, right))
    ]

merge-IsSorted :
    (n : ℕ) (xs ys : List Scored)
    → n ≡ length xs + length ys
    → IsSorted xs
    → IsSorted ys
    → IsSorted (merge_loop n xs ys)
unfolding merge_loop
merge-IsSorted zero xs ys e sx sy = tt
merge-IsSorted (suc n) [] [] e sx sy = tt
merge-IsSorted (suc n) (x ∷ xs) [] e sx sy =
    let size : n ≡ length xs + 0 = omega arith in
    (
      omega (arith, merge_count (λ z. precedes z x) n xs [] size, sx.0),
      merge-IsSorted n xs [] size sx.1 tt,
    )
merge-IsSorted (suc n) [] (y ∷ ys) e sx sy =
    let size : n ≡ 0 + length ys = omega arith in
    (
      omega (arith, merge_count (λ z. precedes z y) n [] ys size, sy.0),
      merge-IsSorted n [] ys size tt sy.1,
    )
merge-IsSorted (suc n) (x ∷ xs) (y ∷ ys) e sx sy =
    let size_left : n ≡ length xs + suc (length ys) = omega arith in
    let size_right : n ≡ suc (length xs) + length ys = omega arith in
    let left = merge-IsSorted n xs (y ∷ ys) size_left sx.1 sy in
    let right = merge-IsSorted n (x ∷ xs) ys size_right sx sy.1 in
    elim (Bool-cases (precedes x y)) [
      | inl first ↦
          let not_y = precedes_asym x y first in
          let none = count_if_trans x y ys not_y sy.0 in
          rw first (
            ground
                (arith, merge_count (λ z. precedes z x) n xs (y ∷ ys) size_left, sx.0, none, not_y),
            left,
          )
      | inr later ↦
          let none = count_if_trans y x xs later sx.0 in
          rw later (
            ground (
              arith,
              merge_count (λ z. precedes z y) n (x ∷ xs) ys size_right,
              sy.0,
              none,
              later,
            ),
            right,
          )
    ]

-- A run that ends in the movies of `xs` with their secrets, in order.
abbrev pub Sorts : Option (List Scored) → List Scored → Type 0
Sorts o xs =
    (ys : List Scored) × (o ≡ some ys) × HasSecrets ys xs × IsSorted ys × (length ys ≡ length xs)

pub length-halves :
    (n : ℕ) (xs : List Scored)
    → n ≤ length xs
    → (length (take n xs) ≡ n) × (length (drop n xs) + n ≡ length xs)
length-halves zero xs h = (refl, omega arith)
length-halves (suc n) [] h = absurd (omega arith)
length-halves (suc n) (x ∷ xs) h =
    let (front, back) = length-halves n xs (omega arith) in (omega arith, omega arith)

pub fine_halves :
    (n : ℕ) (xs : List Scored) → AreFine xs → AreFine (take n xs) × AreFine (drop n xs)
fine_halves n xs fine =
    let both = count_if-halves (λ x. not (is_fine x)) n xs in
    (omega (arith, both, fine), omega (arith, both, fine))

-- The two sorted halves, merged.
pub merged :
    (n : ℕ) (xs ls rs : List Scored)
    → n ≤ length xs
    → HasSecrets ls (take n xs)
    → HasSecrets rs (drop n xs)
    → IsSorted ls
    → IsSorted rs
    → length ls ≡ length (take n xs)
    → length rs ≡ length (drop n xs)
    → HasSecrets (merge ls rs) xs × IsSorted (merge ls rs) × (length (merge ls rs) ≡ length xs)
merged n xs ls rs inside hl hr sl sr el er =
    let (front, back) = length-halves n xs inside in
    (
      λ p.
          merge_count p _ ls rs refl
          ∙ omega (arith, hl p, hr p, count_if-halves (λ x. p (add_secret x)) n xs),
      merge-IsSorted _ ls rs refl sl sr,
      omega (arith, length-merge _ ls rs refl, el, er),
    )

merge_sort_lem :
    (k : ℕ) (xs : List Scored) → 2 * 2 ^ k ≤ length xs → AreFine xs → Sorts (merge_sort k xs) xs
unfolding merge_sort
merge_sort_lem zero xs room fine =
    let mid = length xs / 2 in
    let sizes = length-halves mid xs (omega arith) in
    let halves = fine_halves mid xs fine in
    let (rs, right, hr, sr, er) = sort_lem (drop mid xs) (omega (arith, sizes.1)) halves.1 in
    let (ls, left, hl, sl, el) = sort_lem (take mid xs) (omega (arith, sizes.0)) halves.0 in
    let (same, order, long) = merged mid xs ls rs (omega arith) hl hr sl sr el er in
    (merge ls rs, rw (right, left) refl, same, order, long)
merge_sort_lem (suc k) xs room fine =
    let mid = length xs / 2 in
    let sizes = length-halves mid xs (omega arith) in
    let halves = fine_halves mid xs fine in
    let (rs, right, hr, sr, er) =
      merge_sort_lem k (drop mid xs) (omega (arith, sizes.1)) halves.1 in
    let (ls, left, hl, sl, el) = merge_sort_lem k (take mid xs) (omega (arith, sizes.0)) halves.0 in
    let (same, order, long) = merged mid xs ls rs (omega arith) hl hr sl sr el er in
    (merge ls rs, rw (left, right) refl, same, order, long)

-- What a request writes, where at least one movie is selected, no score is negative and no title has a
-- byte up to the tab: the assertions hold, and the output has exactly the selected movies, each with
-- the secret behind its title, so that no movie stands behind one with a lower score, or with the same
-- score and a greater title.
pub sorted_movies-IsSorted :
    (xs : List Scored)
    → 0 < length xs
    → AreFine xs
    → (ys : List Scored) × (sorted_movies xs ≡ some ys)
      × HasSecrets ys xs
      × IsSorted ys
      × (length ys ≡ length xs)
unfolding sorted_movies layers
sorted_movies-IsSorted xs some_movie fine = elim (Bool-cases (length xs == 1)) [
  | inl one ↦ rw one (sort_lem xs some_movie fine)
  | inr more ↦ rw more (merge_sort_lem (layers (length xs)) xs (ground arith) fine)
]
