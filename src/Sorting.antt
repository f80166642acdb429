-- ===== src/Sorting.antt =====
-- hw4/server.c and hw4/lib.c: the movies that a request selects, sorted by score and title with the
-- selection sort of lib.c on the parts of a merge sort.
pub mod Requests
pub mod Copies
pub mod Order
pub mod Lists
pub mod Argmax
pub mod Selection
pub mod Merging
pub mod Agreement
pub mod Keywords
pub mod Data
pub mod Tokens
pub mod Rows
pub mod Scan
pub mod Fuel
pub mod TokenSizes
pub mod Room
pub mod Servers
pub mod Served
use sp_homework.Common.{
  ◌>>=◌, ℕ, zero, suc, ◌+◌, ◌-◌, ◌*◌, ◌/◌, ◌^◌, ◌≡◌, Bool, true, false, ◌&&◌, ◌||◌, Option, none,
  some, List, [], ◌∷◌, ◌++◌, ◌==◌, ltb, leb, if◌then◌else◌, length, take, drop,
}

-- One place of the parallel arrays `movies` and `pts`. A score is a `double` that is not NaN, given by
-- its rank: how many doubles lie below it.
pub record Scored : Type 0 where
  pub title : List ℕ
  pub score : ℕ

-- The ranks of 0.0, above the infinite and the 0x7fefffffffffffff finite negative numbers, and of -1.0.
abbrev pub zero_rank : ℕ
zero_rank = 0x7ff0000000000000

abbrev pub minus_one_rank : ℕ
minus_one_rank = 0x4000000000000000

-- strcmp: the sign of the difference at the first byte that differs.
pub data Sign : Type 0 where
  below same above : Sign

unfoldable pub strcmp : List ℕ → List ℕ → Sign
strcmp [] [] = same
strcmp [] (d ∷ ds) = below
strcmp (c ∷ cs) [] = above
strcmp (c ∷ cs) (d ∷ ds) =
    let rest = strcmp cs ds in if ltb c d then below else if ltb d c then above else rest

abbrev pub is_below : Sign → Bool
is_below below = true
is_below same = false
is_below above = false

abbrev pub is_above : Sign → Bool
is_above below = false
is_above same = false
is_above above = true

-- The test of the merge: the left one is taken first.
abbrev pub precedes : Scored → Scored → Bool
precedes x y = ltb y.score x.score || ((x.score == y.score) && is_below (strcmp x.title y.title))

-- The state of the loop in `argmax`: `ret`, `max` and movie[ret].
pub record Best : Type 0 where
  pub ret : ℕ
  pub max : ℕ
  pub best_title : List ℕ

unfoldable pub better : ℕ → Scored → Best → Best
better i x b =
    if ltb b.max x.score
    then record { ret = i; max = x.score; best_title = x.title }
    else if (x.score == b.max) && is_above (strcmp b.best_title x.title)
    then record b { ret = i; best_title = x.title }
    else b

unfoldable pub argmax_loop : List Scored → ℕ → Best → Best
unfolding better
argmax_loop [] i b = b
argmax_loop (x ∷ xs) i b = argmax_loop xs (suc i) (better i x b)

-- On the part of the array from `start` on, which begins with `x`; `none` is the failed assertion.
unfoldable pub argmax : Scored → List Scored → Option ℕ
unfolding argmax_loop
argmax x xs =
    let b =
      argmax_loop (x ∷ xs) 0 (record { ret = 0; max = minus_one_rank; best_title = x.title }) in
    if leb zero_rank b.max then some b.ret else none

-- The element at an index, with `x` in its place.
unfoldable pub exchange : Scored → ℕ → List Scored → Option (Scored × List Scored)
exchange x i [] = none
exchange x zero (y ∷ ys) = some (y, x ∷ ys)
exchange x (suc i) (y ∷ ys) = exchange x i ys >>= λ found. some (found.0, y ∷ found.1)

-- swap(&movies[0], &movies[i], ...) on the part that begins with `x`
unfoldable pub swap : Scored → ℕ → List Scored → Option (Scored × List Scored)
unfolding exchange
swap x zero xs = some (x, xs)
swap x (suc i) xs = exchange x i xs

-- "\t[It's top secret.]"
abbrev pub secret : List ℕ
secret =
    9 ∷ b'[' ∷ b'I' ∷ b't' ∷ 39 ∷ b's' ∷ 32 ∷ b't' ∷ b'o' ∷ b'p' ∷ 32 ∷ b's' ∷ b'e' ∷ b'c' ∷ b'r'
    ∷ b'e' ∷ b't' ∷ b'.' ∷ b']' ∷ []

unfoldable pub add_secret : Scored → Scored
add_secret x = record x { title = x.title ++ secret }

-- The rounds of `sort`, and the last element behind them. An empty array has no last element: the
-- write goes to movies[-1].
unfoldable pub sort_rounds : ℕ → List Scored → Option (List Scored)
unfolding argmax swap add_secret
sort_rounds n [] = none
sort_rounds zero (x ∷ xs) = some (add_secret x ∷ xs)
sort_rounds (suc n) (x ∷ xs) = argmax x xs >>= λ i.
    swap x i xs >>= λ found. sort_rounds n found.1 >>= λ rest. some (add_secret found.0 ∷ rest)

unfoldable pub sort : List Scored → Option (List Scored)
unfolding sort_rounds
sort xs = sort_rounds (length xs - 1) xs

-- The merge of two neighbouring parts, on the places left to fill.
unfoldable pub merge_loop : ℕ → List Scored → List Scored → List Scored
merge_loop zero xs ys = []
merge_loop (suc n) [] [] = []
merge_loop (suc n) (x ∷ xs) [] = x ∷ merge_loop n xs []
merge_loop (suc n) [] (y ∷ ys) = y ∷ merge_loop n [] ys
merge_loop (suc n) (x ∷ xs) (y ∷ ys) =
    let left = merge_loop n xs (y ∷ ys) in
    let right = merge_loop n (x ∷ xs) ys in if precedes x y then x ∷ left else y ∷ right

abbrev pub merge : List Scored → List Scored → List Scored
merge xs ys = merge_loop (length xs + length ys) xs ys

-- merge_sort with 3 - `layer` layers of threads left: the two parts of the array are disjoint, so that
-- the threads do not meet.
unfoldable pub merge_sort : ℕ → List Scored → Option (List Scored)
unfolding sort merge_loop
merge_sort zero xs =
    let mid = length xs / 2 in
    sort (drop mid xs) >>= λ right. sort (take mid xs) >>= λ left. some (merge left right)
merge_sort (suc n) xs =
    let mid = length xs / 2 in
    merge_sort n (take mid xs) >>= λ left.
    merge_sort n (drop mid xs) >>= λ right. some (merge left right)

-- 3 - `layer`, by the number of movies
unfoldable pub layers : ℕ → ℕ
layers n = if ltb n 10 then 0 else if ltb n 20 then 1 else if ltb n 40 then 2 else 3

-- What deal_request writes: a single movie is not merged.
unfoldable pub sorted_movies : List Scored → Option (List Scored)
unfolding sort merge_sort layers
sorted_movies xs = if length xs == 1 then sort xs else merge_sort (layers (length xs)) xs

-- process_merge_sort with 3 - `layer` layers of processes left; the movies lie in shared memory.
unfoldable pub process_merge_sort : ℕ → List Scored → Option (List Scored)
unfolding sort merge_loop
process_merge_sort zero xs = sort xs
process_merge_sort (suc n) xs =
    let mid = length xs / 2 in
    process_merge_sort n (take mid xs) >>= λ left.
    process_merge_sort n (drop mid xs) >>= λ right. some (merge left right)

-- What `main` of pserver writes. With layer 3 the process that calls is the one that exits, before it
-- writes anything: `none`.
unfoldable pub process_movies : List Scored → Option (List Scored)
unfolding process_merge_sort layers
process_movies xs = let n = layers (length xs) in if n == 0 then none else process_merge_sort n xs
