-- ===== src/Sorting/Rows.antt =====
-- hw4: `initialize` reads back the rows of a file that are printed in its form.
use mathlib.Core.List.{append_assoc, map}
use sp_homework.Common.{
  ◌>>=◌, ℕ, zero, suc, ◌+◌, ◌-◌, ◌≡◌, ◌≢◌, ◌<◌, ◌≤◌, refl, ap, ◌∙◌, none, some, List, [], ◌∷◌, ◌++◌,
  lt→ltb, length, length-append, take, arith,
}
use sp_homework.Common.Text.{c_string, atoi}
use sp_homework.Sorting.Data.{
  fgets, chunk_room, max_movies, num_of_genre, Arithmetic, Movie, read_genres, normalize,
  read_movie, load_rows, load_movies,
}
use sp_homework.Sorting.Tokens.{
  IsFree, IsFree-append, strtok-token, strtok-last, fgets-line, c_string-IsFree,
}

-- The texts of a row: the id, the title, and the genres.
pub record Row : Type 0 where
  pub id_text : List ℕ
  pub title_text : List ℕ
  pub genre_texts : List (List ℕ)

abbrev pub commas : List ℕ → List (List ℕ) → List ℕ
commas g [] = g
commas g (h ∷ hs) = g ++ b',' ∷ commas h hs

abbrev pub genres_text : List (List ℕ) → List ℕ
genres_text [] = []
genres_text (g ∷ gs) = commas g gs

-- "id title {genre,genre,...", without the end of the line
abbrev pub row_text : Row → List ℕ
row_text r = r.id_text ++ 32 ∷ ((r.title_text ++ 32 ∷ []) ++ b'{' ∷ genres_text r.genre_texts)

abbrev pub rows_text : List Row → List ℕ
rows_text [] = []
rows_text (r ∷ rs) = row_text r ++ 10 ∷ rows_text rs

abbrev pub AreTokens : ℕ → List (List ℕ) → Type 0
AreTokens d [] = Unit {0}
AreTokens d (g ∷ gs) = (g ≢ []) × IsFree d g × AreTokens d gs

-- What a row has to be: one line that fits the buffer, whose parts do not have the delimiter behind them.
pub record IsRow (r : Row) : Type 0 where
  pub id_token : (r.id_text ≢ []) × IsFree 32 r.id_text
  pub title_free : IsFree b'{' r.title_text
  pub genre_count : length r.genre_texts ≡ num_of_genre
  pub genre_tokens : AreTokens b',' r.genre_texts
  pub one_line : IsFree 10 (row_text r)
  pub no_nul : IsFree 0 (row_text r)
  pub short : length (row_text r) < chunk_room

abbrev pub AreRows : List Row → Type 0
AreRows [] = Unit {0}
AreRows (r ∷ rs) = IsRow r × AreRows rs

nonempty-append : (xs : List ℕ) (x : ℕ) (ys : List ℕ) → xs ++ x ∷ ys ≢ []
nonempty-append [] x ys = λ e. cc
nonempty-append (y ∷ zs) x ys = λ e. cc

append-nonempty : (xs ys : List ℕ) → xs ≢ [] → xs ++ ys ≢ []
append-nonempty [] ys ne = absurd (ne refl)
append-nonempty (x ∷ xs) ys ne = λ e. cc

nonempty-snoc : (xs : List ℕ) (x : ℕ) → xs ++ x ∷ [] ≢ []
nonempty-snoc xs x = nonempty-append xs x []

take-snoc : (xs : List ℕ) (x : ℕ) → take (length (xs ++ x ∷ []) - 1) (xs ++ x ∷ []) ≡ xs
take-snoc xs x =
    take_lem (length (xs ++ x ∷ []) - 1) xs (omega (arith, length-append {0} xs (x ∷ [])))
  where
    take_lem : (n : ℕ) (ys : List ℕ) → n ≡ length ys → take n (ys ++ x ∷ []) ≡ ys
    take_lem n [] e = let none_left : n ≡ 0 = omega arith in rw none_left refl
    take_lem zero (y ∷ ys) e = absurd (omega arith)
    take_lem (suc n) (y ∷ ys) e = ap (◌∷◌ y) (take_lem n ys (omega arith))

-- The genres of a row, with something behind the last one that strtod does not read.
module _ {D : Type 0} (fp : Arithmetic D) (end : List ℕ) (plain : IsFree b',' end)
    (ignored : (g : List ℕ) → fp.strtod (g ++ end) ≡ fp.strtod g) where
  genres_lem :
      (g : List ℕ) (gs : List (List ℕ))
      → AreTokens b',' (g ∷ gs)
      → read_genres fp (suc (length gs)) (commas g gs ++ end) ≡ some (map fp.strtod (g ∷ gs))
  unfolding read_genres
  genres_lem g [] tokens =
      let whole =
        strtok-last b',' (g ++ end) (append-nonempty g end tokens.0)
          (IsFree-append b',' g end tokens.1 plain) in
      rw (whole, ignored g) refl
  genres_lem g (h ∷ hs) tokens =
      let first = strtok-token b',' g (commas h hs ++ end) tokens.0 tokens.1 in
      rw (append_assoc g, first, genres_lem h hs tokens.2) refl

  pub read_genres-row :
      (n : ℕ) (gs : List (List ℕ))
      → length gs ≡ suc n
      → AreTokens b',' gs
      → read_genres fp (suc n) (genres_text gs ++ end) ≡ some (map fp.strtod gs)
  read_genres-row n [] size tokens = absurd (omega arith)
  read_genres-row n (g ∷ gs) size tokens =
      let same : n ≡ length gs = omega arith in rw same (genres_lem g gs tokens)

-- The movie that a row stands for.
abbrev pub movie_of : {D : Type 0} → Arithmetic D → Row → Movie D
movie_of fp r = record {
  movie_id = atoi r.id_text;
  title = r.title_text;
  profile = normalize fp (map fp.strtod r.genre_texts);
}

module _ {D : Type 0} (fp : Arithmetic D)
    (line_end : (g : List ℕ) → fp.strtod (g ++ 10 ∷ []) ≡ fp.strtod g) where
  read_movie-row :
      (r : Row) → IsRow r → read_movie fp (row_text r ++ 10 ∷ []) ≡ some (movie_of fp r)
  unfolding read_movie
  read_movie-row r row =
      let title = r.title_text ++ 32 ∷ [] in
      let genres = genres_text r.genre_texts ++ 10 ∷ [] in
      let first =
        strtok-token 32 r.id_text (title ++ b'{' ∷ genres) row.id_token.0 row.id_token.1 in
      let second =
        strtok-token b'{' title genres (nonempty-snoc r.title_text 32)
          (IsFree-append b'{' r.title_text (32 ∷ []) row.title_free ((λ e. cc), tt)) in
      rw (append_assoc r.id_text, append_assoc title, first, second)
        (rw
          (
            read_genres-row fp (10 ∷ []) ((λ e. cc), tt) line_end 18 r.genre_texts row.genre_count
                row.genre_tokens,
            take-snoc r.title_text 32,
          )
          refl)

  -- One pass of the loop, on a file that has not ended.
  load_rows-next :
      (fuel cnt : ℕ) (file : List ℕ)
      → file ≢ []
      → cnt < max_movies
      → load_rows fp none (suc fuel) cnt file ≡ (
          read_movie fp (c_string (fgets chunk_room file).0) >>= λ movie.
          load_rows fp none fuel (suc cnt) (fgets chunk_room file).1 >>= λ movies.
          some (movie ∷ movies))
  unfolding load_rows
  load_rows-next fuel cnt [] ne room = absurd (ne refl)
  load_rows-next fuel cnt (c ∷ cs) ne room = rw (lt→ltb cnt max_movies room) refl

  load_movies-next :
      (file : List ℕ)
      → file ≢ []
      → load_movies fp file
        ≡ load_rows fp none (suc (length (fgets chunk_room file).1)) 0 (fgets chunk_room file).1
  unfolding load_movies
  load_movies-next [] ne = absurd (ne refl)
  load_movies-next (c ∷ cs) ne = refl

  load_rows-rows :
      (fuel cnt : ℕ) (rs : List Row)
      → AreRows rs
      → cnt + length rs ≤ max_movies
      → length (rows_text rs) < fuel
      → load_rows fp none fuel cnt (rows_text rs) ≡ some (map (movie_of fp) rs)
  unfolding load_rows
  load_rows-rows zero cnt rs rows room enough = absurd (omega arith)
  load_rows-rows (suc fuel) cnt [] rows room enough = refl
  load_rows-rows (suc fuel) cnt (r ∷ rs) (row, rows) room enough =
      let line = fgets-line chunk_room (row_text r) (rows_text rs) row.one_line row.short in
      let whole =
        c_string-IsFree (row_text r ++ 10 ∷ [])
          (IsFree-append 0 (row_text r) (10 ∷ []) row.no_nul ((λ e. cc), tt)) in
      let size = length-append {0} (row_text r) (10 ∷ rows_text rs) in
      let rest =
        load_rows-rows fuel (suc cnt) rs rows (omega arith) (omega (arith, size, enough)) in
      load_rows-next fuel cnt (row_text r ++ 10 ∷ rows_text rs)
        (nonempty-append (row_text r) 10 (rows_text rs)) (omega arith)
      ∙ rw (line, whole, read_movie-row r row, rest) refl

  -- A file of a first line, which is skipped, and at most 70000 rows of the form "id title {genres" is
  -- read as the movies of these rows: the number of the id, the title without the space behind it, and
  -- the normalised values of the 19 genres. A line fits the buffer of 255 bytes, no part of it is empty
  -- or has the delimiter that ends it, and strtod ignores the end of the line behind the last number.
  pub load_movies-rows :
      (first : List ℕ) (rs : List Row)
      → IsFree 10 first
      → length first < chunk_room
      → AreRows rs
      → length rs ≤ max_movies
      → load_movies fp (first ++ 10 ∷ rows_text rs) ≡ some (map (movie_of fp) rs)
  load_movies-rows first rs line short rows room =
      load_movies-next (first ++ 10 ∷ rows_text rs) (nonempty-append first 10 (rows_text rs))
      ∙ rw (fgets-line chunk_room first (rows_text rs) line short)
          (load_rows-rows (suc (length (rows_text rs))) 0 rs rows (omega arith) (omega arith))
