-- ===== src/Sorting/Servers.antt =====
-- hw4/server.c: `main` of tserver and of pserver, from the file and the standard input to what they write.
use mathlib.Core.List.{map}
use sp_homework.Common.{
  ◌>>=◌, ℕ, suc, Option, none, some, List, [], ◌∷◌, leb, if◌then◌else◌, length,
}
use sp_homework.Common.Int.{ℤ}
use sp_homework.Sorting.{Scored}
use sp_homework.Sorting.Requests.{MovieProfile, deal_request, process_request}
use sp_homework.Sorting.Data.{Arithmetic, Movie, MovieRequest, initialize}

-- The places of `thread_id` and `x` in `main`.
abbrev pub max_threads : ℕ
max_threads = 32

module _ {D : Type 0} (fp : Arithmetic D) where
  abbrev pub profile_of : Movie D → MovieProfile fp.add fp.mul fp.zero_double fp.rank
  profile_of m = (m.title, m.profile)

  -- What one request writes, beside the id that names the file. `stale` is what malloc leaves behind
  -- the copy of each title.
  unfoldable pub answer_of :
      (ℕ → List ℕ) → List (Movie D) → MovieRequest D → Option (ℤ × List Scored)
  unfolding deal_request
  answer_of stale movies r =
      deal_request fp.add fp.mul fp.zero_double fp.rank stale r.keywords r.profile
        (map profile_of movies)
      >>= λ written. some (r.id, written)

  -- The threads, from the number `n` on, share nothing that they write.
  unfoldable pub answer_all :
      (ℕ → ℕ → List ℕ)
      → ℕ
      → List (Movie D)
      → List (MovieRequest D)
      → Option (List (ℤ × List Scored))
  unfolding answer_of
  answer_all heap n movies [] = some []
  answer_all heap n movies (r ∷ rs) = answer_of (heap n) movies r >>= λ first.
      answer_all heap (suc n) movies rs >>= λ more. some (first ∷ more)

  unfoldable pub tserver :
      (ℕ → ℕ → List ℕ) → (file stdin : List ℕ) → Option (List (ℤ × List Scored))
  unfolding initialize answer_all
  tserver heap file stdin = initialize fp file stdin >>= λ loaded.
      if leb (length loaded.1) max_threads then answer_all heap 0 loaded.0 loaded.1 else none

  -- pserver answer_all the first request; with none it follows a NULL pointer.
  abbrev pub first_answer : List (Movie D) → List (MovieRequest D) → Option (ℤ × List Scored)
  first_answer movies [] = none
  first_answer movies (r ∷ rs) =
      process_request fp.add fp.mul fp.zero_double fp.rank r.keywords r.profile
        (map profile_of movies)
      >>= λ written. some (r.id, written)

  unfoldable pub pserver : (file stdin : List ℕ) → Option (ℤ × List Scored)
  unfolding initialize process_request
  pserver file stdin = initialize fp file stdin >>= λ loaded. first_answer loaded.0 loaded.1
