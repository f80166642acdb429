-- ===== src/Sorting/Lists.antt =====
-- Lists of movies of hw4/server.c and hw4/lib.c: what it means that they are sorted, and that a list
-- holds the movies of another one.
use sp_homework.Common.{
  ℕ, zero, suc, ◌+◌, ◌≡◌, refl, Bool, true, false, ◌&&◌, not, List, [], ◌∷◌, ◌++◌, arith, leb,
  if◌then◌else◌, take, drop,
}
use sp_homework.Sorting.{Scored, precedes, add_secret, zero_rank}
use sp_homework.Sorting.Order.{precedes_trans, is_plain, precedes-add_secret}

-- How many of the movies pass the test.
abbrev pub count_if : (Scored → Bool) → List Scored → ℕ
count_if p [] = 0
count_if p (x ∷ xs) = (if p x then 1 else 0) + count_if p xs

-- No movie stands behind one that it precedes.
abbrev pub IsSorted : List Scored → Type 0
IsSorted [] = Unit {0}
IsSorted (x ∷ xs) = (count_if (λ y. precedes y x) xs ≡ 0) × IsSorted xs

-- Each list has the movies of the other: for every test of movies, as many pass.
abbrev pub HasSame : List Scored → List Scored → Type 0
HasSame xs ys = (p : Scored → Bool) → count_if p xs ≡ count_if p ys

-- The same with the secret added on the left.
abbrev pub HasSecrets : List Scored → List Scored → Type 0
HasSecrets ys xs = (p : Scored → Bool) → count_if p ys ≡ count_if (λ x. p (add_secret x)) xs

-- A score that is not negative, and a title without bytes up to the tab.
abbrev pub is_fine : Scored → Bool
is_fine x = leb zero_rank x.score && is_plain x.title

abbrev pub AreFine : List Scored → Type 0
AreFine xs = count_if (λ x. not (is_fine x)) xs ≡ 0

pub count_if-append :
    (p : Scored → Bool) (xs ys : List Scored)
    → count_if p (xs ++ ys) ≡ count_if p xs + count_if p ys
count_if-append p [] ys = omega arith
count_if-append p (x ∷ xs) ys = omega (arith, count_if-append p xs ys)

pub count_if-halves :
    (p : Scored → Bool) (n : ℕ) (xs : List Scored)
    → count_if p (take n xs) + count_if p (drop n xs) ≡ count_if p xs
count_if-halves p zero xs = omega arith
count_if-halves p (suc n) [] = refl
count_if-halves p (suc n) (x ∷ xs) = omega (arith, count_if-halves p n xs)

-- What `x` is not preceded by, `y` is not either if `x` does not precede it ... on whole lists.
pub count_if_trans :
    (x y : Scored) (zs : List Scored)
    → precedes y x ≡ false
    → count_if (λ z. precedes z y) zs ≡ 0
    → count_if (λ z. precedes z x) zs ≡ 0
count_if_trans x y [] h k = refl
count_if_trans x y (z ∷ zs) h k = ground (arith, count_if_trans x y zs, precedes_trans x y z)

-- Among fine movies the secrets do not matter.
pub count_if-secrets :
    (m : Scored) (xs : List Scored)
    → is_plain m.title ≡ true
    → AreFine xs
    → count_if (λ x. precedes (add_secret x) (add_secret m)) xs ≡ count_if (λ x. precedes x m) xs
count_if-secrets m [] plain fine = refl
count_if-secrets m (x ∷ xs) plain fine =
    let rest = count_if-secrets m xs plain (ground (arith, fine)) in
    let here = precedes-add_secret x m (ground (arith, fine)) plain in rw (here, rest) refl
