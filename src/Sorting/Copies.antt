-- ===== src/Sorting/Copies.antt =====
-- hw4/server.c: the copies of the titles that deal_request sorts, where malloc leaves a NUL behind them.
use sp_homework.Common.{
  ℕ, suc, ◌≡◌, refl, true, false, inl, inr, List, [], ◌∷◌, ◌++◌, arith, ◌==◌, Bool-cases,
}
use sp_homework.Common.Text.{c_string}
use sp_homework.Sorting.Order.{is_plain}
use sp_homework.Sorting.Lists.{AreFine}
use sp_homework.Sorting.Requests.{selects, filtered, filtered_copies}

-- The byte behind the copy of each title is 0.
abbrev pub AreTerminated : (ℕ → List ℕ) → Type 0
AreTerminated stale = (i : ℕ) → (rest : List ℕ) × (stale i ≡ 0 ∷ rest)

c_string-plain :
    (title rest : List ℕ) → is_plain title ≡ true → c_string (title ++ 0 ∷ rest) ≡ title
unfolding c_string
c_string-plain [] rest plain = refl
c_string-plain (c ∷ cs) rest plain =
    let other : (c == 0) ≡ false = ground (arith, plain) in
    rw (other, c_string-plain cs rest (ground (arith, plain))) refl

-- Then the copies are the titles.
pub filtered_copies-filtered :
    {D : Type 0} (add mul : D → D → D) (zero_double : D) (rank : D → ℕ) (stale : ℕ → List ℕ) (i : ℕ)
    (keywords : List ℕ) (profile : List D) (movies : List (List ℕ × List D))
    → AreTerminated stale
    → AreFine (filtered add mul zero_double rank keywords profile movies)
    → filtered_copies add mul zero_double rank stale i keywords profile movies
      ≡ filtered add mul zero_double rank keywords profile movies
unfolding filtered_copies filtered
filtered_copies-filtered add mul zero_double rank stale i keywords profile [] ends fine = refl
filtered_copies-filtered add mul zero_double rank stale i keywords profile
      ((title, genres) ∷ movies) ends fine =
    let rest : AreFine (filtered add mul zero_double rank keywords profile movies)
        → filtered_copies add mul zero_double rank stale (suc i) keywords profile movies
          ≡ filtered add mul zero_double rank keywords profile movies =
      filtered_copies-filtered add mul zero_double rank stale (suc i) keywords profile movies
        ends in
    elim (Bool-cases (selects keywords title)) [
      | inr other ↦ rw other (rest (rw other at fine))
      | inl chosen ↦
          let (tail, e) = ends i in
          let fine' = rw chosen at fine in
          let copy = c_string-plain title tail (ground (arith, fine')) in
          rw (chosen, e, copy, rest (ground (arith, fine'))) refl
    ]
