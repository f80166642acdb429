-- ===== src/Sorting/Agreement.antt =====
-- The threads and the processes of hw4/server.c write the same movies in the same order.
use sp_homework.Common.{
  ℕ, zero, suc, ◌/◌, ◌^◌, ◌≡◌, ◌≤◌, refl, sym, ap, ◌∙◌, true, false, Option, some, List, [], ◌∷◌,
  arith, ◌==◌, if◌then◌else◌, length, take, drop,
}
use sp_homework.Sorting.{
  Scored, strcmp, is_below, precedes, merge, process_merge_sort, process_movies, layers,
}
use sp_homework.Sorting.Requests.{deal_request, process_request, filtered}
use sp_homework.Sorting.Copies.{AreTerminated, filtered_copies-filtered}
use sp_homework.Sorting.Order.{precedes_asym}
use sp_homework.Sorting.Lists.{IsSorted, HasSame, AreFine}
use sp_homework.Sorting.Selection.{sort_lem}
use sp_homework.Sorting.Merging.{Sorts, length-halves, fine_halves, merged, sorted_movies-IsSorted}

strcmp-same : (s t : List ℕ) → is_below (strcmp s t) ≡ false → is_below (strcmp t s) ≡ false → s ≡ t
unfolding strcmp
strcmp-same [] [] h k = refl
strcmp-same [] (d ∷ ds) h k = cc
strcmp-same (c ∷ cs) [] h k = cc
strcmp-same (c ∷ cs) (d ∷ ds) h k =
    let heads : c ≡ d = ground arith in
    let tails : cs ≡ ds = strcmp-same cs ds (ground (arith, h)) (ground (arith, k)) in
    λ i. heads i ∷ tails i

-- Two movies of which none precedes the other are equal.
tied : (x y : Scored) → precedes x y ≡ false → precedes y x ≡ false → x ≡ y
tied x y h k =
    let scores : x.score ≡ y.score = ground arith in
    let titles : x.title ≡ y.title =
      strcmp-same x.title y.title (ground (arith, h)) (ground (arith, k)) in
    λ i. record { title = titles i; score = scores i }

heads_tied :
    (x y : Scored) (xs ys : List Scored)
    → HasSame (x ∷ xs) (y ∷ ys)
    → IsSorted (x ∷ xs)
    → precedes y x ≡ false
heads_tied x y xs ys same order =
    ground (arith, same (λ z. precedes z x), precedes_asym x x, order.0)

-- A list has one sorted order only.
pub IsSorted-unique : (xs ys : List Scored) → HasSame xs ys → IsSorted xs → IsSorted ys → xs ≡ ys
IsSorted-unique [] [] same sx sy = refl
IsSorted-unique [] (y ∷ ys) same sx sy = absurd (omega (arith, same (λ z. true)))
IsSorted-unique (x ∷ xs) [] same sx sy = absurd (omega (arith, same (λ z. true)))
IsSorted-unique (x ∷ xs) (y ∷ ys) same sx sy =
    let heads =
      tied x y (heads_tied y x ys xs (λ p. sym (same p)) sy) (heads_tied x y xs ys same sx) in
    let tails =
      IsSorted-unique xs ys
        (λ p.
          let one : Scored → ℕ = λ z. if p z then 1 else 0 in omega (arith, same p, ap one heads))
        sx.1 sy.1 in
    λ i. heads i ∷ tails i

process_lem :
    (k : ℕ) (xs : List Scored) → 2 ^ k ≤ length xs → AreFine xs → Sorts (process_merge_sort k xs) xs
unfolding process_merge_sort
process_lem zero xs room fine = sort_lem xs (omega arith) fine
process_lem (suc k) xs room fine =
    let mid = length xs / 2 in
    let sizes = length-halves mid xs (omega arith) in
    let halves = fine_halves mid xs fine in
    let (rs, right, hr, sr, er) = process_lem k (drop mid xs) (omega (arith, sizes.1)) halves.1 in
    let (ls, left, hl, sl, el) = process_lem k (take mid xs) (omega (arith, sizes.0)) halves.0 in
    let (same, order, long) = merged mid xs ls rs (omega arith) hl hr sl sr el er in
    (merge ls rs, rw (left, right) refl, same, order, long)

process_movies_lem : (xs : List Scored) → 10 ≤ length xs → AreFine xs → Sorts (process_movies xs) xs
unfolding process_movies layers
process_movies_lem xs many fine =
    let several : (layers (length xs) == 0) ≡ false = ground arith in
    rw several (process_lem (layers (length xs)) xs (ground arith) fine)

agree : (xs : List Scored) (o o' : Option (List Scored)) → Sorts o xs → Sorts o' xs → o ≡ o'
agree xs o o' (ys, e, same, order, long) (ys', e', same', order', long') =
    e ∙ ap some (IsSorted-unique ys ys' (λ p. same p ∙ sym (same' p)) order order') ∙ sym e'

-- Where a request selects at least ten movies, no score is negative, no title has a byte up to the tab,
-- and the byte that malloc leaves behind each copy of a title is 0, the server of processes, which
-- copies the NUL, writes the same list as the server of threads, and it does write one.
pub process_request-deal_request :
    {D : Type 0} (add mul : D → D → D) (zero_double : D) (rank : D → ℕ) (stale : ℕ → List ℕ)
    (keywords : List ℕ) (profile : List D) (movies : List (List ℕ × List D))
    → AreTerminated stale
    → 10 ≤ length (filtered add mul zero_double rank keywords profile movies)
    → AreFine (filtered add mul zero_double rank keywords profile movies)
    → (process_request add mul zero_double rank keywords profile movies
        ≡ deal_request add mul zero_double rank stale keywords profile movies)
      × Sorts
          (process_request add mul zero_double rank keywords profile movies)
          (filtered add mul zero_double rank keywords profile movies)
unfolding process_request deal_request
process_request-deal_request add mul zero_double rank stale keywords profile movies ends many fine =
    let xs = filtered add mul zero_double rank keywords profile movies in
    let processes = process_movies_lem xs many fine in
    let copies =
      filtered_copies-filtered add mul zero_double rank stale 0 keywords profile movies ends fine in
    rw copies
      (agree xs _ _ processes (sorted_movies-IsSorted xs (omega (arith, many)) fine), processes)
