-- ===== src/Sorting/Fuel.antt =====
-- hw4: the loop of `initialize` over the rows of the file ends, and its fuel is enough.
use sp_homework.Common.{ℕ, zero, suc, ◌≡◌, ◌<◌, ◌≤◌, refl, Option, List, [], ◌∷◌, length, arith}
use sp_homework.Sorting.Data.{fgets, chunk_room, Arithmetic, Movie, load_rows}

fgets-le : (n : ℕ) (file : List ℕ) → length (fgets n file).1 ≤ length file
unfolding fgets
fgets-le zero file = omega arith
fgets-le (suc n) [] = omega arith
fgets-le (suc n) (c ∷ cs) = ground (arith, fgets-le n cs)

fgets-lt : (n c : ℕ) (cs : List ℕ) → length (fgets (suc n) (c ∷ cs)).1 < length (c ∷ cs)
unfolding fgets
fgets-lt n c cs = ground (arith, fgets-le n cs)

below : (a b n : ℕ) → a < b → b < suc n → a < n
below a b n less room = omega arith

-- The loop over the rows comes to the same with any fuel above the bytes of the file, whatever the
-- file holds and whatever is taken as the outcome of a loop without fuel: the loop ends by itself, and
-- that outcome is never met.
pub load_rows-fuel :
    {D : Type 0} (fp : Arithmetic D) (out out' : Option (List (Movie D))) (n m cnt : ℕ)
    (file : List ℕ)
    → length file < n
    → length file < m
    → load_rows fp out n cnt file ≡ load_rows fp out' m cnt file
unfolding load_rows
load_rows-fuel fp out out' zero m cnt file enough enough' = absurd (omega arith)
load_rows-fuel fp out out' (suc n) zero cnt file enough enough' = absurd (omega arith)
load_rows-fuel fp out out' (suc n) (suc m) cnt [] enough enough' = refl
load_rows-fuel fp out out' (suc n) (suc m) cnt (c ∷ cs) enough enough' =
    let shorter = fgets-lt 253 c cs in
    let rest =
      load_rows-fuel fp out out' n m (suc cnt) (fgets chunk_room (c ∷ cs)).1
        (below _ _ n shorter enough) (below _ _ m shorter enough') in
    rw rest refl
