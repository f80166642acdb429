-- ===== src/Sorting/Served.antt =====
-- hw4: from the file and the standard input in their form to what the servers write.
use mathlib.Core.List.{map}
use mathlib.Core.Path.{subst}
use sp_homework.Common.{
  ℕ, suc, ◌≡◌, ◌≢◌, ◌<◌, ◌≤◌, refl, sym, ap, ◌∙◌, some, List, [], ◌∷◌, ◌++◌, le→leb, length, arith,
}
use sp_homework.Common.Int.{ℤ, pos}
use sp_homework.Common.Text.{atoi, is_digit, digit_value}
use sp_homework.Sorting.{Scored}
use sp_homework.Sorting.Lists.{IsSorted, HasSecrets, AreFine}
use sp_homework.Sorting.Merging.{sorted_movies-IsSorted}
use sp_homework.Sorting.Requests.{deal_request, filtered}
use sp_homework.Sorting.Copies.{AreTerminated, filtered_copies-filtered}
use sp_homework.Sorting.Agreement.{process_request-deal_request}
use sp_homework.Sorting.Data.{
  chunk_room, max_movies, max_req, Arithmetic, Movie, initialize, requests_of,
}
use sp_homework.Sorting.Tokens.{IsFree}
use sp_homework.Sorting.Rows.{Row, rows_text, AreRows, movie_of, load_movies-rows}
use sp_homework.Common.Scan.{scan_number}
use sp_homework.Common.Scanning.{AreDigits, scan_number-digits, skip_spaces-digits}
use sp_homework.Sorting.Scan.{
  RequestRow, requests_text, AreRequests, request_of, read_requests-rows,
}
use sp_homework.Sorting.Servers.{
  max_threads, profile_of, answer_all, first_answer, tserver, pserver,
}

-- The files of a run: the first line, the rows, the number of requests as a text, and the requests.
pub record Input : Type 0 where
  pub first : List ℕ
  pub rows : List Row
  pub count : List ℕ
  pub requests : List RequestRow

pub record IsInput (i : Input) : Type 0 where
  pub first_line : IsFree 10 i.first
  pub first_short : length i.first < chunk_room
  pub are_rows : AreRows i.rows
  pub rows_fit : length i.rows ≤ max_movies
  pub count_digits : (i.count ≢ []) × AreDigits i.count
  pub counted : atoi i.count ≡ pos (length i.requests)
  pub are_requests : AreRequests i.requests
  pub requests_fit : length i.requests ≤ max_req

abbrev pub file_text : Input → List ℕ
file_text i = i.first ++ 10 ∷ rows_text i.rows

abbrev pub stdin_text : Input → List ℕ
stdin_text i = i.count ++ 10 ∷ requests_text i.requests

abbrev pub movies_of : {D : Type 0} → Arithmetic D → Input → List (Movie D)
movies_of fp i = map (movie_of fp) i.rows

requests_lem :
    {D : Type 0} (fp : Arithmetic D) (i : Input)
    → IsInput i
    → requests_of fp (scan_number (stdin_text i)) ≡ some (map (request_of fp) i.requests)
unfolding is_digit digit_value
requests_lem fp i is =
    let texts = requests_text i.requests in
    let skipped = skip_spaces-digits i.count texts 10 is.count_digits.1 is.count_digits.0 in
    let number =
      scan_number-digits (stdin_text i) i.count texts 10 skipped is.count_digits.1 is.count_digits.0
        refl (omega arith) in
    rw (number, is.counted, le→leb (length i.requests) max_req is.requests_fit)
      (read_requests-rows fp i.requests is.are_requests)

-- `initialize` reads a file and a standard input in their form, of at most 70000 movies and 255 requests,
-- as exactly these movies and these requests, where strtod ignores the end of a line.
pub initialize-texts :
    {D : Type 0} (fp : Arithmetic D)
    → ((g : List ℕ) → fp.strtod (g ++ 10 ∷ []) ≡ fp.strtod g)
    → (i : Input) → IsInput i
    → initialize fp (file_text i) (stdin_text i)
      ≡ some (movies_of fp i, map (request_of fp) i.requests)
unfolding initialize
initialize-texts fp line_end i is =
    let movies =
      load_movies-rows fp line_end i.first i.rows is.first_line is.first_short is.are_rows
        is.rows_fit in
    rw (movies, requests_lem fp i is) refl

-- What a request selects of the movies.
abbrev pub selected : {D : Type 0} → Arithmetic D → Input → RequestRow → List Scored
selected fp i q =
    filtered fp.add fp.mul fp.zero_double fp.rank q.keywords_text (request_of fp q).profile
      (map (profile_of fp) (movies_of fp i))

abbrev pub AllSelect : {D : Type 0} → Arithmetic D → Input → List RequestRow → Type 0
AllSelect fp i [] = Unit {0}
AllSelect fp i (q ∷ qs) =
    (0 < length (selected fp i q)) × AreFine (selected fp i q) × AllSelect fp i qs

-- Each request has its answer under its id: the selected movies with their secrets, sorted.
abbrev pub AreAnswers :
    {D : Type 0} → Arithmetic D → Input → List RequestRow → List (ℤ × List Scored) → Type 0
AreAnswers fp i [] [] = Unit {0}
AreAnswers fp i [] (a ∷ as') = ⊥
AreAnswers fp i (q ∷ qs) [] = ⊥
AreAnswers fp i (q ∷ qs) ((id, written) ∷ as') =
    (id ≡ atoi q.id_text)
    × HasSecrets written (selected fp i q)
    × IsSorted written
    × (length written ≡ length (selected fp i q))
    × AreAnswers fp i qs as'

-- What the mallocs of the threads leave behind the copies of the titles begins with a 0.
abbrev pub IsClean : (ℕ → ℕ → List ℕ) → Type 0
IsClean heap = (n : ℕ) → AreTerminated (heap n)

answers_lem :
    {D : Type 0} (fp : Arithmetic D) (heap : ℕ → ℕ → List ℕ) (n : ℕ) (i : Input)
    (qs : List RequestRow)
    → IsClean heap
    → AllSelect fp i qs
    → (as' : List (ℤ × List Scored)) × (answer_all fp heap n
          (movies_of fp i)
          (map (request_of fp) qs)
        ≡ some as')
      × AreAnswers fp i qs as'
unfolding answer_all deal_request
answers_lem fp heap n i [] clean all = ([], refl, tt)
answers_lem fp heap n i (q ∷ qs) clean (some_movie, fine, all) =
    let (written, e, same, order, long) =
      sorted_movies-IsSorted (selected fp i q) some_movie fine in
    let (more, e', rest) = answers_lem fp heap (suc n) i qs clean all in
    let copies =
      filtered_copies-filtered fp.add fp.mul fp.zero_double fp.rank (heap n) 0 q.keywords_text
        (request_of fp q).profile (map (profile_of fp) (movies_of fp i)) (clean n) fine in
    ((atoi q.id_text, written) ∷ more, rw (copies, e, e') refl, (refl, same, order, long, rest))

length-map : {A B : Type 0} (f : A → B) (xs : List A) → length (map f xs) ≡ length xs
length-map f [] = refl
length-map f (x ∷ xs) = ap suc (length-map f xs)

-- tserver, on a file and a standard input in their form with at most 32 requests, of which each
-- selects a movie: it ends without a fault, and each request is answered under its id with exactly the
-- movies that it selects, with their secrets, sorted by score and title. No score is negative, no
-- title has a byte up to the tab, strtod ignores the end of a line, and, as deal_request does not copy
-- the NUL of a title, the byte that malloc leaves behind each copy has to be 0.
pub tserver-AreAnswers :
    {D : Type 0} (fp : Arithmetic D)
    → ((g : List ℕ) → fp.strtod (g ++ 10 ∷ []) ≡ fp.strtod g)
    → (heap : ℕ → ℕ → List ℕ) → IsClean heap
    → (i : Input) → IsInput i
    → length i.requests ≤ max_threads
    → AllSelect fp i i.requests
    → (as' : List (ℤ × List Scored)) × (tserver fp heap (file_text i) (stdin_text i) ≡ some as')
      × AreAnswers fp i i.requests as'
unfolding tserver
tserver-AreAnswers fp line_end heap clean i is few all =
    let (as', e, are) = answers_lem fp heap 0 i i.requests clean all in
    let loaded = initialize-texts fp line_end i is in
    (as', rw (loaded, length-map (request_of fp) i.requests, le→leb _ _ few) e, are)

first_answered :
    {D : Type 0} (fp : Arithmetic D) (heap : ℕ → ℕ → List ℕ) (i : Input) (q : RequestRow)
    (qs : List RequestRow)
    → IsClean heap
    → 10 ≤ length (selected fp i q)
    → AllSelect fp i (q ∷ qs)
    → (written : List Scored) × (more : List (ℤ × List Scored)) × (first_answer fp
          (movies_of fp i)
          (map (request_of fp) (q ∷ qs))
        ≡ some (atoi q.id_text, written))
      × (answer_all fp heap 0 (movies_of fp i) (map (request_of fp) (q ∷ qs))
          ≡ some ((atoi q.id_text, written) ∷ more))
unfolding answer_all
first_answered fp heap i q qs clean many (some_movie, fine, all) =
    let (more, e', rest) = answers_lem fp heap 1 i qs clean all in
    let (same, (written, e, has, order, long)) =
      process_request-deal_request fp.add fp.mul fp.zero_double fp.rank (heap 0) q.keywords_text
        (request_of fp q).profile (map (profile_of fp) (movies_of fp i)) (clean 0) many fine in
    (written, more, rw e refl, rw (sym same ∙ e, e') refl)

-- pserver writes what tserver writes for the first request, under the same id, where that request
-- selects at least ten movies, under the conditions on the input, the other requests and the memory
-- behind the copies of tserver under which tserver does not fault.
pub pserver-tserver :
    {D : Type 0} (fp : Arithmetic D)
    → ((g : List ℕ) → fp.strtod (g ++ 10 ∷ []) ≡ fp.strtod g)
    → (heap : ℕ → ℕ → List ℕ) → IsClean heap
    → (i : Input) → IsInput i
    → length i.requests ≤ max_threads
    → AllSelect fp i i.requests
    → (q : RequestRow) (qs : List RequestRow) → i.requests ≡ q ∷ qs
    → 10 ≤ length (selected fp i q)
    → (written : List Scored) × (more : List (ℤ × List Scored)) × (pserver fp
          (file_text i)
          (stdin_text i)
        ≡ some (atoi q.id_text, written))
      × (tserver fp heap (file_text i) (stdin_text i) ≡ some ((atoi q.id_text, written) ∷ more))
unfolding tserver pserver
pserver-tserver fp line_end heap clean i is few all q qs e many =
    let (written, more, p, t) =
      first_answered fp heap i q qs clean many (subst (AllSelect fp i) e all) in
    let loaded = initialize-texts fp line_end i is in
    let p' : first_answer fp (movies_of fp i) (map (request_of fp) i.requests)
        ≡ some (atoi q.id_text, written) =
      ap (λ rs. first_answer fp (movies_of fp i) (map (request_of fp) rs)) e ∙ p in
    let t' : answer_all fp heap 0 (movies_of fp i) (map (request_of fp) i.requests)
        ≡ some ((atoi q.id_text, written) ∷ more) =
      ap (λ rs. answer_all fp heap 0 (movies_of fp i) (map (request_of fp) rs)) e ∙ t in
    (
      written,
      more,
      rw loaded p',
      rw (loaded, length-map (request_of fp) i.requests, le→leb _ _ few) t',
    )
