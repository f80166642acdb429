-- ===== src/Sorting/Selection.antt =====
-- The selection sort of hw4/lib.c.
use sp_homework.Common.{
  ℕ, zero, suc, ◌-◌, ◌≡◌, ◌<◌, inl, inr, refl, sym, ap, ◌∙◌, Bool, true, false, not, some, List, [],
  ◌∷◌, ◌++◌, arith, length, length-append,
}
use sp_homework.Sorting.{
  Scored, Best, argmax_loop, argmax, exchange, swap, sort_rounds, sort, precedes, add_secret,
}
use sp_homework.Sorting.Order.{is_plain}
use sp_homework.Sorting.Argmax.{chosen, loop_lem, start, argmax_lem}
use sp_homework.Sorting.Lists.{
  count_if, IsSorted, HasSame, HasSecrets, is_fine, AreFine, count_if-append, count_if-secrets,
}

exchange_lem :
    (x : Scored) (front : List Scored) (y : Scored) (back : List Scored)
    → exchange x (length front) (front ++ y ∷ back) ≡ some (y, front ++ x ∷ back)
unfolding exchange
exchange_lem x [] y back = refl
exchange_lem x (z ∷ zs) y back = rw (exchange_lem x zs y back) refl

-- What a round of `sort` picks from `x ∷ xs`.
record Picked (x : Scored) (xs : List Scored) : Type 0 where
  index : ℕ
  least : Scored
  rest : List Scored
  found : argmax x xs ≡ some index
  swapped : swap x index xs ≡ some (least, rest)
  same : HasSame (least ∷ rest) (x ∷ xs)
  first : count_if (λ y. precedes y least) rest ≡ 0
  size : length rest ≡ length xs

picked : (x : Scored) (xs : List Scored) → AreFine (x ∷ xs) → Picked x xs
unfolding swap
picked x xs fine =
    let r = loop_lem xs 1 (start x) in
    let b' = argmax_loop xs 1 (start x) in
    let found = argmax_lem x xs (ground (arith, fine)) in
    elim r.place [
      | inl e ↦ record {
        index = 0;
        least = x;
        rest = xs;
        found = found ∙ ap (λ (b : Best). some b.ret) e;
        swapped = refl;
        same = λ p. refl;
        first = sym (ap (λ b. count_if (λ y. precedes y (chosen b)) xs) e) ∙ r.others;
        size = refl;
      }
      | inr (front, y, back, e, index, here) ↦
          let none_before : count_if (λ z. precedes z y) xs ≡ 0 =
            sym (ap (λ c. count_if (λ z. precedes z c) xs) here) ∙ r.others in
          let not_x : precedes x y ≡ false = sym (ap (λ c. precedes x c) here) ∙ r.first in
          record {
            index = suc (length front);
            least = y;
            rest = front ++ x ∷ back;
            found = found ∙ ap some (omega (arith, index));
            swapped = ap (exchange x (length front)) e ∙ exchange_lem x front y back;
            same = λ p. omega (
              arith,
              ap (count_if p) e,
              count_if-append p front (x ∷ back),
              count_if-append p front (y ∷ back),
            );
            first =
                let k : Scored → Bool = λ z. precedes z y in
                ground (
                  arith,
                  none_before,
                  not_x,
                  ap (count_if k) e,
                  count_if-append k front (x ∷ back),
                  count_if-append k front (y ∷ back),
                );
            size = omega (
              arith,
              ap (length {A = Scored}) e,
              length-append {0} front (x ∷ back),
              length-append {0} front (y ∷ back),
            );
          }
    ]

rounds_lem :
    (n : ℕ) (xs : List Scored)
    → suc n ≡ length xs
    → AreFine xs
    → (ys : List Scored) × (sort_rounds n xs ≡ some ys)
      × HasSecrets ys xs
      × IsSorted ys
      × (length ys ≡ length xs)
unfolding sort_rounds
rounds_lem n [] size fine = absurd (omega arith)
rounds_lem zero (x ∷ []) size fine = (add_secret x ∷ [], refl, λ p. refl, (refl, tt), refl)
rounds_lem zero (x ∷ y ∷ ys) size fine = absurd (omega arith)
rounds_lem (suc n) (x ∷ xs) size fine =
    let pick = picked x xs fine in
    let still : AreFine (pick.least ∷ pick.rest) = pick.same (λ z. not (is_fine z)) ∙ fine in
    let rest_fine : AreFine pick.rest = ground (arith, still) in
    let plain : is_plain pick.least.title ≡ true = ground (arith, still) in
    let (ys, sorted, secrets, order, long) =
      rounds_lem n pick.rest (omega (arith, pick.size)) rest_fine in
    let m = add_secret pick.least in
    (
      m ∷ ys,
      rw (pick.found, pick.swapped, sorted) refl,
      λ p. omega (arith, secrets p, pick.same (λ z. p (add_secret z))),
      (
        secrets (λ y. precedes y m)
            ∙ count_if-secrets pick.least pick.rest plain rest_fine
            ∙ pick.first,
        order,
      ),
      omega (arith, long, pick.size),
    )

-- A list of movies that is not empty, with scores that are not negative and plain titles, is sorted by
-- `sort`: without a failed assertion, to the list of these movies with their secrets, in order.
pub sort_lem :
    (xs : List Scored)
    → 0 < length xs
    → AreFine xs
    → (ys : List Scored) × (sort xs ≡ some ys)
      × HasSecrets ys xs
      × IsSorted ys
      × (length ys ≡ length xs)
unfolding sort
sort_lem xs some_movie fine = rounds_lem (length xs - 1) xs (omega arith) fine
