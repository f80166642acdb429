-- ===== src/Sorting/TokenSizes.antt =====
-- hw4/server.c: how much of a line strtok and fgets take.
use mathlib.Core.Path.{subst}
use mathlib.Core.Option.{some-injective}
use sp_homework.Common.{
  ℕ, zero, suc, ◌+◌, ◌≡◌, ◌≤◌, refl, inl, inr, false, some, List, [], ◌∷◌, ◌==◌, length, take,
  arith, Bool-cases,
}
use sp_homework.Sorting.Data.{skip_delimiter, token_of, behind, some_token, strtok, fgets}

-- A token and what is behind its delimiter, with the delimiter if something is.
abbrev pub gap : List ℕ → ℕ
gap [] = 0
gap (c ∷ cs) = 1

length-skip_delimiter : (d : ℕ) (s : List ℕ) → length (skip_delimiter d s) ≤ length s
unfolding skip_delimiter
length-skip_delimiter d [] = omega arith
length-skip_delimiter d (c ∷ cs) = ground (arith, length-skip_delimiter d cs)

gap-le : (cs : List ℕ) → gap cs ≤ 1
gap-le [] = omega arith
gap-le (c ∷ cs) = omega arith

length-token_of :
    (d : ℕ) (s : List ℕ) → length (token_of d s) + length (behind d s) + gap (behind d s) ≤ length s
unfolding token_of behind
length-token_of d [] = omega arith
length-token_of d (c ∷ cs) = elim (Bool-cases (c == d)) [
  | inl here ↦ rw here (omega (arith, gap-le cs))
  | inr other ↦ rw other (omega (arith, length-token_of d cs))
]

abbrev Fits : List ℕ → List ℕ × List ℕ → Type 0
Fits s found =
    (1 + gap found.1 + length found.1 ≤ length s)
    × (length found.0 + length found.1 + gap found.1 ≤ length s)

pub gap-one : (cs : List ℕ) → 1 ≤ length cs → gap cs ≡ 1
gap-one [] h = absurd (omega arith)
gap-one (c ∷ cs) h = refl

skip_delimiter-first :
    (d : ℕ) (s : List ℕ) (c : ℕ) (cs : List ℕ) → skip_delimiter d s ≡ c ∷ cs → (c == d) ≡ false
unfolding skip_delimiter
skip_delimiter-first d [] c cs e = absurd (cc)
skip_delimiter-first d (x ∷ xs) c cs e = elim (Bool-cases (x == d)) [
  | inl here ↦ skip_delimiter-first d xs c cs (rw here at e)
  | inr other ↦
      let same : x ∷ xs ≡ c ∷ cs = rw other at e in
      let first : x ≡ c = cc in subst (λ y. (y == d) ≡ false) first other
]

some_token-Fits :
    (d c : ℕ) (cs : List ℕ)
    → (c == d) ≡ false
    → Fits (c ∷ cs) (token_of d (c ∷ cs), behind d (c ∷ cs))
unfolding token_of behind
some_token-Fits d c cs other =
    rw other (omega (arith, length-token_of d cs), omega (arith, length-token_of d cs))

pub strtok-Fits :
    (d : ℕ) (s : List ℕ) (found : List ℕ × List ℕ) → strtok d s ≡ some found → Fits s found
unfolding strtok
strtok-Fits d s found e = go (skip_delimiter d s) refl e
  where
    go : (t : List ℕ) → skip_delimiter d s ≡ t → some_token d t ≡ some found → Fits s found
    go [] same e' = absurd (cc)
    go (c ∷ cs) same e' =
        let fits = some_token-Fits d c cs (skip_delimiter-first d s c cs same) in
        let fits' : Fits (c ∷ cs) found = subst (Fits (c ∷ cs)) (some-injective _ _ e') fits in
        let shorter : length (c ∷ cs) ≤ length s =
          subst (λ t. length t ≤ length s) same (length-skip_delimiter d s) in
        (omega (arith, fits'.0, shorter), omega (arith, fits'.1, shorter))

pub length-fgets : (n : ℕ) (file : List ℕ) → length (fgets n file).0 ≤ n
unfolding fgets
length-fgets zero file = omega arith
length-fgets (suc n) [] = omega arith
length-fgets (suc n) (c ∷ cs) = ground (arith, length-fgets n cs)

pub length-take : (n : ℕ) (xs : List ℕ) → length (take n xs) ≤ n
length-take zero xs = omega arith
length-take (suc n) [] = omega arith
length-take (suc n) (x ∷ xs) = omega (arith, length-take n xs)
