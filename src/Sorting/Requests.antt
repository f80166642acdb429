-- ===== src/Sorting/Requests.antt =====
-- Requests of hw4/server.c: the movies that the keywords select, their scores, and the answer of each of
-- the two servers.
use sp_homework.Common.{
  ℕ, suc, ◌++◌, Bool, true, false, ◌&&◌, ◌||◌, Option, List, [], ◌∷◌, ◌==◌, if◌then◌else◌,
}
use sp_homework.Common.Text.{c_string}
use sp_homework.Sorting.{Scored, Sign, below, same, above, strcmp, sorted_movies, process_movies}

-- strstr(title, keywords) != NULL
unfoldable pub has_prefix : List ℕ → List ℕ → Bool
has_prefix [] cs = true
has_prefix (k ∷ ks) [] = false
has_prefix (k ∷ ks) (c ∷ cs) = (k == c) && has_prefix ks cs

unfoldable pub contains : List ℕ → List ℕ → Bool
unfolding has_prefix
contains ks [] = has_prefix ks []
contains ks (c ∷ cs) = has_prefix ks (c ∷ cs) || contains ks cs

abbrev pub is_same : Sign → Bool
is_same same = true
is_same below = false
is_same above = false

-- The test of deal_request: the keywords are "*", or stand in the title.
unfoldable pub selects : List ℕ → List ℕ → Bool
unfolding strcmp contains
selects keywords title = is_same (strcmp keywords (b'*' ∷ [])) || contains keywords title

-- `D` stands for `double`, with its addition and multiplication, and `rank` for its order.
module _ {D : Type 0} (add mul : D → D → D) (zero_double : D) (rank : D → ℕ) where
  -- The loop of `dot`, with the sum so far.
  unfoldable pub dot_loop : D → List D → List D → D
  dot_loop sum [] bs = sum
  dot_loop sum (a ∷ as') [] = sum
  dot_loop sum (a ∷ as') (b ∷ bs) = dot_loop (add sum (mul a b)) as' bs

  unfoldable pub dot : List D → List D → D
  unfolding dot_loop
  dot a b = dot_loop zero_double a b

  -- movie_profile and request, less the ids, which only name the output file
  abbrev pub MovieProfile : Type 0
  MovieProfile = List ℕ × List D

  -- The movies that a request selects, with their scores. pserver copies the titles with their NUL.
  unfoldable pub filtered : List ℕ → List D → List MovieProfile → List Scored
  unfolding selects dot
  filtered keywords profile [] = []
  filtered keywords profile ((title, genres) ∷ movies) =
      let rest = filtered keywords profile movies in
      if selects keywords title
      then record { title = title; score = rank (dot genres profile) } ∷ rest
      else rest

  -- The same in tserver, from the movie `i` on. It copies the bytes of a title without the NUL behind
  -- them: the string that the copy holds goes on with the bytes that malloc left there, `stale i`.
  unfoldable pub filtered_copies :
      (ℕ → List ℕ) → ℕ → List ℕ → List D → List MovieProfile → List Scored
  unfolding selects dot
  filtered_copies stale i keywords profile [] = []
  filtered_copies stale i keywords profile ((title, genres) ∷ movies) =
      let rest = filtered_copies stale (suc i) keywords profile movies in
      if selects keywords title
      then record { title = c_string (title ++ stale i); score = rank (dot genres profile) } ∷ rest
      else rest

  -- deal_request of tserver, and the part of `main` of pserver that does its work.
  unfoldable pub deal_request :
      (ℕ → List ℕ) → List ℕ → List D → List MovieProfile → Option (List Scored)
  unfolding filtered_copies sorted_movies
  deal_request stale keywords profile movies =
      sorted_movies (filtered_copies stale 0 keywords profile movies)

  unfoldable pub process_request : List ℕ → List D → List MovieProfile → Option (List Scored)
  unfolding filtered process_movies
  process_request keywords profile movies = process_movies (filtered keywords profile movies)
