-- ===== src/Booking/WriteServer/Words.antt =====
-- A command to the write server of hw1/server.c: strtok cuts it into words, and isint reads them.
use mathlib.Core.List.{append-nil}
use sp_homework.Common.{
  ℕ, zero, suc, ◌≡◌, ◌≢◌, refl, ◌∙◌, ap, true, false, List, [], ◌∷◌, ◌++◌, arith, ◌==◌, some,
  Bool-cases, inl, inr,
}
use sp_homework.Common.Int.{ℤ}
use sp_homework.Common.Text.{is_digit}
use sp_homework.Booking.{Server, all_digits, is_negative, isint}
use sp_homework.Booking.WriteServer.{
  tokens, add_char, parse_command, second_number, third_number, judge, conclude, book,
}

-- A word is not empty and has no space.
abbrev pub HasNoSpace : List ℕ → Type 0
HasNoSpace [] = Unit {0}
HasNoSpace (c ∷ cs) = (c ≢ 32) × HasNoSpace cs

-- That many spaces.
abbrev pub spaces : ℕ → List ℕ
spaces zero = []
spaces (suc n) = 32 ∷ spaces n

tokens-word :
    (c : ℕ) (cs rest : List ℕ)
    → HasNoSpace (c ∷ cs)
    → tokens ((c ∷ cs) ++ 32 ∷ rest) ≡ (c ∷ cs) ∷ tokens rest
unfolding tokens add_char
tokens-word c [] rest plain = let first : (c == 32) ≡ false = ground (arith, plain) in rw first refl
tokens-word c (d ∷ ds) rest plain =
    let later = tokens-word d ds rest plain.1 in
    let first : (c == 32) ≡ false = ground (arith, plain) in
    let second : (d == 32) ≡ false = ground (arith, plain.1) in
    rw (first, second) (ap (add_char c true) (rw (second, tokens) at later))

tokens-last : (c : ℕ) (cs : List ℕ) → HasNoSpace (c ∷ cs) → tokens (c ∷ cs) ≡ (c ∷ cs) ∷ []
unfolding tokens add_char
tokens-last c [] plain = let first : (c == 32) ≡ false = ground (arith, plain) in rw first refl
tokens-last c (d ∷ ds) plain =
    let later = tokens-last d ds plain.1 in
    let first : (c == 32) ≡ false = ground (arith, plain) in
    let second : (d == 32) ≡ false = ground (arith, plain.1) in
    rw (first, second) (ap (add_char c true) (rw (second, tokens) at later))

tokens-spaces : (n : ℕ) (rest : List ℕ) → tokens (spaces n ++ rest) ≡ tokens rest
unfolding tokens
tokens-spaces zero rest = refl
tokens-spaces (suc n) rest = tokens-spaces n rest

-- A word with spaces behind it, and a last word with or without them.
tokens-next :
    (w : List ℕ) (n : ℕ) (rest : List ℕ)
    → w ≢ []
    → HasNoSpace w
    → tokens (w ++ (spaces (suc n) ++ rest)) ≡ w ∷ tokens rest
tokens-next [] n rest word plain = absurd (word refl)
tokens-next (c ∷ cs) n rest word plain =
    let grouped : (c ∷ cs) ++ (spaces (suc n) ++ rest) ≡ (c ∷ cs) ++ 32 ∷ (spaces n ++ rest) =
      refl in
    tokens-word c cs (spaces n ++ rest) plain ∙ ap (◌∷◌ (c ∷ cs)) (tokens-spaces n rest)

tokens-blank : (n : ℕ) → tokens (spaces n) ≡ []
unfolding tokens
tokens-blank zero = refl
tokens-blank (suc n) = tokens-blank n

tokens-end : (w : List ℕ) (n : ℕ) → w ≢ [] → HasNoSpace w → tokens (w ++ spaces n) ≡ w ∷ []
tokens-end [] n word plain = absurd (word refl)
tokens-end (c ∷ cs) zero word plain = rw (append-nil (c ∷ cs)) (tokens-last c cs plain)
tokens-end (c ∷ cs) (suc n) word plain =
    tokens-word c cs (spaces n) plain ∙ ap (◌∷◌ (c ∷ cs)) (tokens-blank n)

-- A number has no space.
all_digits-HasNoSpace : (cs : List ℕ) → all_digits cs ≡ true → HasNoSpace cs
unfolding all_digits is_digit
all_digits-HasNoSpace [] digits = tt
all_digits-HasNoSpace (c ∷ cs) digits =
    ((λ e. ground (arith, digits)), all_digits-HasNoSpace cs (ground (arith, digits)))

is_negative-HasNoSpace : (cs : List ℕ) → is_negative cs ≡ true → HasNoSpace cs
unfolding is_negative
is_negative-HasNoSpace [] digits = tt
is_negative-HasNoSpace (c ∷ []) digits = cc
is_negative-HasNoSpace (c ∷ d ∷ cs) digits =
    ((λ e. ground (arith, digits)), all_digits-HasNoSpace (d ∷ cs) (ground (arith, digits)))

isint-HasNoSpace : (cs : List ℕ) (z : ℤ) → isint cs ≡ some z → HasNoSpace cs
unfolding isint
isint-HasNoSpace cs z e = elim (Bool-cases (all_digits cs)) [
  | inl digits ↦ all_digits-HasNoSpace cs digits
  | inr other ↦ elim (Bool-cases (is_negative cs)) [
    | inl negative ↦ is_negative-HasNoSpace cs negative
    | inr neither ↦ let clash = rw (other, neither) at e in cc
  ]
]

-- Three words with spaces between, and before and behind them or not.
abbrev pub command_text : (lead a b trail : ℕ) (u v w : List ℕ) → List ℕ
command_text lead a b trail u v w =
    spaces lead ++ (u ++ (spaces (suc a) ++ (v ++ (spaces (suc b) ++ (w ++ spaces trail)))))

tokens-command :
    (lead a b trail : ℕ) (u v w : List ℕ)
    → (u ≢ []) × HasNoSpace u
    → (v ≢ []) × HasNoSpace v
    → (w ≢ []) × HasNoSpace w
    → tokens (command_text lead a b trail u v w) ≡ u ∷ v ∷ w ∷ []
tokens-command lead a b trail u v w first second third =
    tokens-spaces lead _
    ∙ tokens-next u a _ first.0 first.1
    ∙ ap (◌∷◌ u)
        (tokens-next v b _ second.0 second.1 ∙ ap (◌∷◌ v) (tokens-end w trail third.0 third.1))

-- A connection that sends three words with spaces between them, and before and behind them or not, that
-- isint reads as numbers: the bookings of its record and exactly these numbers are judged, in this
-- order, and the connection ends with that verdict.
pub book-command :
    (i : ℕ) (s : Server) (lead a b trail : ℕ) (u v w : List ℕ) (food concert electronics : ℤ)
    → (s.requests i).buf ≡ command_text lead a b trail u v w
    → (u ≢ []) × (isint u ≡ some food)
    → (v ≢ []) × (isint v ≡ some concert)
    → (w ≢ []) × (isint w ≡ some electronics)
    → book i s ≡ conclude (judge (s.file (s.requests i).id) food concert electronics) i s
unfolding book parse_command second_number third_number
book-command i s lead a b trail u v w food concert electronics text first second third =
    let words =
      tokens-command lead a b trail u v w (first.0, isint-HasNoSpace u food first.1)
        (second.0, isint-HasNoSpace v concert second.1)
        (third.0, isint-HasNoSpace w electronics third.1) in
    rw (text, words, first.1, parse_command)
      (rw (second.1, second_number) (rw (third.1, third_number) refl))
