-- ===== src/Sorting/Tokens.antt =====
-- hw4: strtok, fgets and C strings on lists that are put together with their delimiters.
use sp_homework.Common.{
  ℕ, zero, suc, ◌≡◌, ◌≢◌, ◌<◌, refl, true, false, some, List, [], ◌∷◌, ◌++◌, ◌==◌, length, arith,
}
use sp_homework.Common.Text.{c_string}
use sp_homework.Sorting.Data.{skip_delimiter, token_of, behind, strtok, fgets}

-- No byte of the list is `d`.
abbrev pub IsFree : ℕ → List ℕ → Type 0
IsFree d [] = Unit {0}
IsFree d (c ∷ cs) = (c ≢ d) × IsFree d cs

token_of-token : (d : ℕ) (xs rest : List ℕ) → IsFree d xs → token_of d (xs ++ d ∷ rest) ≡ xs
unfolding token_of
token_of-token d [] rest free = let here : (d == d) ≡ true = ground arith in rw here refl
token_of-token d (c ∷ cs) rest free =
    let other : (c == d) ≡ false = ground (arith, free) in
    rw (other, token_of-token d cs rest free.1) refl

behind-token : (d : ℕ) (xs rest : List ℕ) → IsFree d xs → behind d (xs ++ d ∷ rest) ≡ rest
unfolding behind
behind-token d [] rest free = let here : (d == d) ≡ true = ground arith in rw here refl
behind-token d (c ∷ cs) rest free =
    let other : (c == d) ≡ false = ground (arith, free) in
    rw (other, behind-token d cs rest free.1) refl

token_of-last : (d : ℕ) (xs : List ℕ) → IsFree d xs → token_of d xs ≡ xs
unfolding token_of
token_of-last d [] free = refl
token_of-last d (c ∷ cs) free =
    let other : (c == d) ≡ false = ground (arith, free) in
    rw (other, token_of-last d cs free.1) refl

skip-token :
    (d c : ℕ) (cs rest : List ℕ) → c ≢ d → skip_delimiter d ((c ∷ cs) ++ rest) ≡ (c ∷ cs) ++ rest
unfolding skip_delimiter
skip-token d c cs rest ne = let other : (c == d) ≡ false = ground (arith, ne) in rw other refl

pub strtok-token :
    (d : ℕ) (xs rest : List ℕ) → xs ≢ [] → IsFree d xs → strtok d (xs ++ d ∷ rest) ≡ some (xs, rest)
unfolding strtok
strtok-token d [] rest ne free = absurd (ne refl)
strtok-token d (c ∷ cs) rest ne free =
    rw
      (
        skip-token d c cs (d ∷ rest) free.0,
        token_of-token d (c ∷ cs) rest free,
        behind-token d (c ∷ cs) rest free,
      )
      refl

behind-last : (d : ℕ) (xs : List ℕ) → IsFree d xs → behind d xs ≡ []
unfolding behind
behind-last d [] free = refl
behind-last d (c ∷ cs) free =
    let other : (c == d) ≡ false = ground (arith, free) in rw (other, behind-last d cs free.1) refl

pub strtok-last : (d : ℕ) (xs : List ℕ) → xs ≢ [] → IsFree d xs → strtok d xs ≡ some (xs, [])
unfolding strtok skip_delimiter
strtok-last d [] ne free = absurd (ne refl)
strtok-last d (c ∷ cs) ne free =
    let other : (c == d) ≡ false = ground (arith, free.0) in
    rw (other, token_of-last d (c ∷ cs) free, behind-last d (c ∷ cs) free) refl

pub IsFree-append : (d : ℕ) (xs ys : List ℕ) → IsFree d xs → IsFree d ys → IsFree d (xs ++ ys)
IsFree-append d [] ys free free' = free'
IsFree-append d (c ∷ cs) ys free free' = (free.0, IsFree-append d cs ys free.1 free')

pub fgets-line :
    (n : ℕ) (xs rest : List ℕ)
    → IsFree 10 xs
    → length xs < n
    → fgets n (xs ++ 10 ∷ rest) ≡ (xs ++ 10 ∷ [], rest)
unfolding fgets
fgets-line zero xs rest free room = absurd (omega arith)
fgets-line (suc n) [] rest free room = refl
fgets-line (suc n) (c ∷ cs) rest free room =
    let other : (c == 10) ≡ false = ground (arith, free.0) in
    rw (other, fgets-line n cs rest free.1 (omega arith)) refl

pub c_string-IsFree : (xs : List ℕ) → IsFree 0 xs → c_string xs ≡ xs
unfolding c_string
c_string-IsFree [] free = refl
c_string-IsFree (c ∷ cs) free =
    let other : (c == 0) ≡ false = ground (arith, free.0) in
    rw (other, c_string-IsFree cs free.1) refl
