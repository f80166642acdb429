-- ===== src/Sorting/Data.antt =====
-- hw4/server.c: `initialize` and `read_request`, which read the movies from the file and the requests
-- from the standard input.
use sp_homework.Common.{
  ◌>>=◌, ℕ, zero, suc, ◌-◌, Bool, Option, none, some, List, [], ◌∷◌, ◌==◌, ltb, leb, if◌then◌else◌,
  length, take,
}
use sp_homework.Common.Int.{ℤ, pos, negsuc}
use sp_homework.Common.Text.{c_string, atoi}
use sp_homework.Common.Scan.{scan_word, scan_number}

-- strtok with one delimiter: the token, and what is behind the delimiter that ends it.
unfoldable pub skip_delimiter : ℕ → List ℕ → List ℕ
skip_delimiter d [] = []
skip_delimiter d (c ∷ cs) = if c == d then skip_delimiter d cs else c ∷ cs

unfoldable pub token_of : ℕ → List ℕ → List ℕ
token_of d [] = []
token_of d (c ∷ cs) = if c == d then [] else c ∷ token_of d cs

unfoldable pub behind : ℕ → List ℕ → List ℕ
behind d [] = []
behind d (c ∷ cs) = if c == d then cs else behind d cs

abbrev pub some_token : ℕ → List ℕ → Option (List ℕ × List ℕ)
some_token d [] = none
some_token d (c ∷ cs) = some (token_of d (c ∷ cs), behind d (c ∷ cs))

unfoldable pub strtok : ℕ → List ℕ → Option (List ℕ × List ℕ)
unfolding skip_delimiter token_of behind
strtok d s = some_token d (skip_delimiter d s)

-- fgets with room for `n` bytes and the NUL: what it reads, and the rest of the file.
unfoldable pub fgets : ℕ → List ℕ → List ℕ × List ℕ
fgets zero file = ([], file)
fgets (suc n) [] = ([], [])
fgets (suc n) (c ∷ cs) =
    let more = fgets n cs in if c == 10 then (c ∷ [], cs) else (c ∷ more.0, more.1)

abbrev pub max_movies : ℕ
max_movies = 70000

abbrev pub max_req : ℕ
max_req = 255

abbrev pub num_of_genre : ℕ
num_of_genre = 19

-- The bytes that fit `chunk`, whose length is MAX_LEN, and that "%254s" reads at most.
abbrev pub chunk_room : ℕ
chunk_room = 254

pub record Movie (D : Type 0) : Type 0 where
  pub movie_id : ℤ
  pub title : List ℕ
  pub profile : List D

pub record MovieRequest (D : Type 0) : Type 0 where
  pub id : ℤ
  pub keywords : List ℕ
  pub profile : List D

-- The arithmetic of `double`: its operations, `== 0`, its order by ranks, and strtod.
pub record Arithmetic (D : Type 0) : Type 0 where
  pub add : D → D → D
  pub mul : D → D → D
  pub divide : D → D → D
  pub zero_double : D
  pub sqrt : D → D
  pub is_zero : D → Bool
  pub rank : D → ℕ
  pub strtod : List ℕ → D

module _ {D : Type 0} (fp : Arithmetic D) where
  -- The numbers of a row: `none` is the NULL that strtod follows.
  unfoldable pub read_genres : ℕ → List ℕ → Option (List D)
  unfolding strtok
  read_genres zero s = some []
  read_genres (suc n) s =
      strtok b',' s >>= λ found. read_genres n found.1 >>= λ more. some (fp.strtod found.0 ∷ more)

  unfoldable pub sum_of_squares : D → List D → D
  sum_of_squares sum [] = sum
  sum_of_squares sum (d ∷ ds) = sum_of_squares (fp.add sum (fp.mul d d)) ds

  unfoldable pub scale : D → List D → List D
  scale norm [] = []
  scale norm (d ∷ ds) =
      (if fp.is_zero norm then fp.zero_double else fp.divide d norm) ∷ scale norm ds

  unfoldable pub normalize : List D → List D
  unfolding sum_of_squares scale
  normalize ds = scale (fp.sqrt (sum_of_squares fp.zero_double ds)) ds

  -- A row of the file. The title loses its last byte.
  unfoldable pub read_movie : List ℕ → Option (Movie D)
  unfolding strtok
  read_movie chunk = strtok 32 chunk >>= λ first. strtok b'{' first.1 >>= λ second.
      read_genres num_of_genre second.1 >>= λ genres. some (record {
        movie_id = atoi first.0;
        title = take (length second.0 - 1) second.0;
        profile = normalize genres;
      })

  -- The loop over the rows, with `cnt` movies before. `none` is an end of the process. `out` is what
  -- it comes to without fuel.
  unfoldable pub load_rows :
      Option (List (Movie D)) → (fuel cnt : ℕ) → List ℕ → Option (List (Movie D))
  load_rows out zero cnt file = out
  load_rows out (suc fuel) cnt [] = some []
  load_rows out (suc fuel) cnt (c ∷ cs) =
      if ltb cnt max_movies
      then (read_movie (c_string (fgets chunk_room (c ∷ cs)).0) >>= λ movie.
          load_rows out fuel (suc cnt) (fgets chunk_room (c ∷ cs)).1 >>= λ movies.
          some (movie ∷ movies))
      else none

  -- The first row is skipped. A loop takes a byte at least.
  unfoldable pub load_movies : List ℕ → Option (List (Movie D))
  load_movies [] = none
  load_movies (c ∷ cs) =
      let file = (fgets chunk_room (c ∷ cs)).1 in load_rows none (suc (length file)) 0 file

  unfoldable pub read_request : List ℕ → Option (MovieRequest D × List ℕ)
  unfolding scan_number scan_word
  read_request stdin = scan_number stdin >>= λ number. scan_word chunk_room number.1 >>= λ first.
      scan_word chunk_room first.1 >>= λ second. read_genres num_of_genre second.0 >>= λ genres.
      some (record { id = number.0; keywords = first.0; profile = normalize genres }, second.1)

  unfoldable pub read_requests : ℕ → List ℕ → Option (List (MovieRequest D))
  unfolding read_request
  read_requests zero stdin = some []
  read_requests (suc n) stdin =
      read_request stdin >>= λ found. read_requests n found.1 >>= λ more. some (found.0 ∷ more)

  -- The number of requests, from the standard input; it is unsigned.
  abbrev pub requests_of : Option (ℤ × List ℕ) → Option (List (MovieRequest D))
  requests_of none = some []
  requests_of (some (pos n, stdin)) = if leb n max_req then read_requests n stdin else none
  requests_of (some (negsuc n, stdin)) = none

  unfoldable pub initialize :
      (file stdin : List ℕ) → Option (List (Movie D) × List (MovieRequest D))
  unfolding load_movies
  initialize file stdin = load_movies file >>= λ movies.
      requests_of (scan_number stdin) >>= λ requests. some (movies, requests)
