-- ===== src/Sorting/Scan.antt =====
-- hw4: `read_request` reads back a request that is printed in its form.
use mathlib.Core.List.{append-nil, map}
use sp_homework.Common.{ℕ, ◌≡◌, ◌≢◌, ◌≤◌, refl, ap, ◌∙◌, some, List, [], ◌∷◌, ◌++◌, length, arith}
use sp_homework.Common.Text.{is_digit, is_space, digit_value, atoi}
use sp_homework.Sorting.Data.{
  num_of_genre, Arithmetic, MovieRequest, normalize, read_request, read_requests,
}
use sp_homework.Common.Scanning.{
  AreDigits, HasNoSpaces, scan_number-digits, scan_word-word, skip_spaces-digits, skip_line_end,
}
use sp_homework.Sorting.Rows.{genres_text, AreTokens, read_genres-row}

-- The texts of a request: the id, the keywords, and the genres.
pub record RequestRow : Type 0 where
  pub id_text : List ℕ
  pub keywords_text : List ℕ
  pub genre_texts : List (List ℕ)

-- "id keywords genre,genre,...", with `rest` behind the end of the line
abbrev pub request_text : RequestRow → List ℕ → List ℕ
request_text r rest =
    r.id_text ++ 32 ∷ (r.keywords_text ++ 32 ∷ (genres_text r.genre_texts ++ 10 ∷ rest))

abbrev pub requests_text : List RequestRow → List ℕ
requests_text [] = []
requests_text (r ∷ rs) = request_text r (requests_text rs)

-- What a request has to be: its id is a number, and its keywords and its genres are words that fit
-- their buffers.
pub record IsRequest (r : RequestRow) : Type 0 where
  pub id_digits : (r.id_text ≢ []) × AreDigits r.id_text
  pub keyword : (r.keywords_text ≢ []) × HasNoSpaces r.keywords_text
  pub keywords_fit : length r.keywords_text ≤ 254
  pub genre_count : length r.genre_texts ≡ num_of_genre
  pub genre_tokens : AreTokens b',' r.genre_texts
  pub genre_word : (genres_text r.genre_texts ≢ []) × HasNoSpaces (genres_text r.genre_texts)
  pub genres_fit : length (genres_text r.genre_texts) ≤ 254

abbrev pub AreRequests : List RequestRow → Type 0
AreRequests [] = Unit {0}
AreRequests (r ∷ rs) = IsRequest r × AreRequests rs

module _ {D : Type 0} (fp : Arithmetic D) where
  -- The request that the texts stand for.
  abbrev pub request_of : RequestRow → MovieRequest D
  request_of r = record {
    id = atoi r.id_text;
    keywords = r.keywords_text;
    profile = normalize fp (map fp.strtod r.genre_texts);
  }

  read_request-row :
      (r : RequestRow) (rest : List ℕ)
      → IsRequest r
      → read_request fp (10 ∷ request_text r rest) ≡ some (request_of r, 10 ∷ rest)
  unfolding read_request is_digit digit_value is_space
  read_request-row r rest is =
      let line = genres_text r.genre_texts ++ 10 ∷ rest in
      let words = r.keywords_text ++ 32 ∷ line in
      let skipped =
        skip_line_end (request_text r rest)
        ∙ skip_spaces-digits r.id_text words 32 is.id_digits.1 is.id_digits.0 in
      let number =
        scan_number-digits (10 ∷ request_text r rest) r.id_text words 32 skipped is.id_digits.1
          is.id_digits.0 refl (omega arith) in
      let first =
        scan_word-word 254 r.keywords_text line 32 is.keyword.0 is.keyword.1 refl is.keywords_fit in
      let second =
        scan_word-word 254 (genres_text r.genre_texts) rest 10 is.genre_word.0 is.genre_word.1 refl
          is.genres_fit in
      let genres =
        read_genres-row fp [] tt (λ g. ap fp.strtod (append-nil g)) 18 r.genre_texts is.genre_count
          is.genre_tokens in
      let genres' = rw (append-nil (genres_text r.genre_texts)) at genres in
      rw (number, first, second, genres') refl

  -- A list of requests in this form is read as these requests.
  pub read_requests-rows :
      (rs : List RequestRow)
      → AreRequests rs
      → read_requests fp (length rs) (10 ∷ requests_text rs) ≡ some (map request_of rs)
  unfolding read_requests
  read_requests-rows [] are = refl
  read_requests-rows (r ∷ rs) (is, are) =
      rw (read_request-row r (requests_text rs) is, read_requests-rows rs are) refl
