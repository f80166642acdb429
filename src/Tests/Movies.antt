-- ===== src/Tests/Movies.antt =====
-- hw4: requests at concrete inputs.
use mathlib.Core.List.{Memᴰ}
use sp_homework.Common.{ℕ, ◌+◌, ◌*◌, ◌≤◌, ◌≡◌, ◌↔◌, refl, none, some, List, [], ◌∷◌, arith, length}
use sp_homework.Common.Text.{c_string}
use sp_homework.Sorting.{Scored, add_secret, zero_rank, sort, sorted_movies, strcmp}
use sp_homework.Sorting.Requests.{filtered, filtered_copies, deal_request, process_request}
use sp_homework.Sorting.Lists.{IsSorted, HasSecrets, AreFine}
use sp_homework.Sorting.Selection.{sort_lem}
use sp_homework.Sorting.Merging.{Sorts, sorted_movies-IsSorted}
use sp_homework.Sorting.Agreement.{process_request-deal_request}
use sp_homework.Sorting.Keywords.{IsChosen, scored, filtered-IsChosen}

abbrev movie : ℕ → ℕ → Scored
movie letter score = record { title = letter ∷ []; score = zero_rank + score }

abbrev three : List Scored
three = movie b'c' 1 ∷ movie b'b' 2 ∷ movie b'a' 1 ∷ []

-- By score from above, and by title.
sorted_three :
    sorted_movies three
    ≡ some (add_secret (movie b'b' 2) ∷ add_secret (movie b'a' 1) ∷ add_secret (movie b'c' 1) ∷ [])
unfolding sorted_movies strcmp
sorted_three = refl

-- A request that selects nothing writes in front of an empty array.
sorted_nothing : sorted_movies [] ≡ none
unfolding sorted_movies
sorted_nothing = refl

sorted_movies-IsSorted_example :
    (ys : List Scored) × (sorted_movies three ≡ some ys)
    × HasSecrets ys three
    × IsSorted ys
    × (length ys ≡ 3)
sorted_movies-IsSorted_example = sorted_movies-IsSorted three (omega arith) refl

sort_example :
    (ys : List Scored) × (sort three ≡ some ys)
    × HasSecrets ys three
    × IsSorted ys
    × (length ys ≡ 3)
sort_example = sort_lem three (omega arith) refl

-- Ten movies with one genre each, natural numbers for the scores.
abbrev plus : ℕ → ℕ → ℕ
plus a b = a + b

abbrev times : ℕ → ℕ → ℕ
times a b = a * b

abbrev rank_of : ℕ → ℕ
rank_of d = zero_rank + d

abbrev profiles : List (List ℕ × List ℕ)
profiles =
    (b'a' ∷ [], 1 ∷ [])
    ∷ (b'b' ∷ [], 2 ∷ [])
    ∷ (b'c' ∷ [], 3 ∷ [])
    ∷ (b'd' ∷ [], 1 ∷ [])
    ∷ (b'e' ∷ [], 2 ∷ [])
    ∷ (b'f' ∷ [], 3 ∷ [])
    ∷ (b'g' ∷ [], 1 ∷ [])
    ∷ (b'h' ∷ [], 2 ∷ [])
    ∷ (b'i' ∷ [], 3 ∷ [])
    ∷ (b'j' ∷ [], 1 ∷ [])
    ∷ []

abbrev all_ten : List Scored
all_ten = filtered plus times 0 rank_of (b'*' ∷ []) (2 ∷ []) profiles

ten_many : 10 ≤ length all_ten
unfolding filtered
ten_many = omega arith

ten_fine : AreFine all_ten
unfolding filtered
ten_fine = refl

process_request-deal_request_example :
    (process_request plus times 0 rank_of (b'*' ∷ []) (2 ∷ []) profiles
      ≡ deal_request plus times 0 rank_of (λ i. 0 ∷ b'x' ∷ []) (b'*' ∷ []) (2 ∷ []) profiles)
    × Sorts (process_request plus times 0 rank_of (b'*' ∷ []) (2 ∷ []) profiles) all_ten
process_request-deal_request_example =
    process_request-deal_request plus times 0 rank_of (λ i. 0 ∷ b'x' ∷ []) (b'*' ∷ []) (2 ∷ [])
      profiles (λ i. (b'x' ∷ [], refl)) ten_many ten_fine

-- Where malloc leaves an x behind the copy of a title, tserver writes it too, and pserver does not.
stale_title :
    filtered_copies plus times 0 rank_of
      (λ i. b'x' ∷ 0 ∷ [])
      0
      (b'*' ∷ [])
      (2 ∷ [])
      ((b'a' ∷ [], 1 ∷ []) ∷ [])
    ≡ record { title = b'a' ∷ b'x' ∷ []; score = rank_of 2 } ∷ []
unfolding filtered_copies c_string
stale_title = refl

-- Of "cat" and "dog", "at" selects "cat".
abbrev pets : List (List ℕ × List ℕ)
pets = (b'c' ∷ b'a' ∷ b't' ∷ [], 2 ∷ []) ∷ (b'd' ∷ b'o' ∷ b'g' ∷ [], 3 ∷ []) ∷ []

filtered-IsChosen_example :
    Memᴰ
      (record { title = b'c' ∷ b'a' ∷ b't' ∷ []; score = rank_of 4 })
      (filtered plus times 0 rank_of (b'a' ∷ b't' ∷ []) (2 ∷ []) pets)
    ↔ (m : List ℕ × List ℕ) × Memᴰ m pets
      × IsChosen (b'a' ∷ b't' ∷ []) m.0
      × (record { title = b'c' ∷ b'a' ∷ b't' ∷ []; score = rank_of 4 }
          ≡ scored plus times 0 rank_of (b'a' ∷ b't' ∷ []) (2 ∷ []) m)
filtered-IsChosen_example =
    filtered-IsChosen plus times 0 rank_of (b'a' ∷ b't' ∷ []) (2 ∷ []) pets
      (record { title = b'c' ∷ b'a' ∷ b't' ∷ []; score = rank_of 4 })
