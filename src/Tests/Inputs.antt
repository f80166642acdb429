-- ===== src/Tests/Inputs.antt =====
-- hw4: a file of ten movies and a standard input of one request, with natural numbers for `double`.
use sp_homework.Common.{
  ℕ, zero, suc, ◌+◌, ◌*◌, ◌≡◌, ◌≤◌, refl, Bool, true, ◌&&◌, not, none, some, List, [], ◌∷◌, ◌++◌,
  ◌==◌, length, arith,
}
use sp_homework.Common.Int.{ℤ}
use sp_homework.Common.Text.{atoi, read_digits, digit_value, is_digit, is_space}
use sp_homework.Sorting.{Scored, zero_rank}
use sp_homework.Sorting.Data.{Arithmetic, load_rows, initialize, normalize}
use sp_homework.Sorting.Requests.{filtered}
use sp_homework.Sorting.Fuel.{load_rows-fuel}
use sp_homework.Sorting.Room.{HaveRoom, initialize-HaveRoom}
use sp_homework.Sorting.Tokens.{IsFree}
use sp_homework.Sorting.Rows.{Row, AreTokens, genres_text, IsRow, row_text}
use sp_homework.Common.Scanning.{HasNoSpaces}
use sp_homework.Sorting.Scan.{RequestRow, request_of}
use sp_homework.Sorting.Servers.{tserver, pserver}
use sp_homework.Sorting.Served.{
  IsClean, Input, IsInput, file_text, stdin_text, movies_of, initialize-texts, selected, AllSelect,
  AreAnswers, tserver-AreAnswers, pserver-tserver,
}

abbrev number_of : List ℕ → ℕ
number_of g = read_digits 10 0 g

abbrev numbers : Arithmetic ℕ
numbers = record {
  add = λ a b. a + b;
  mul = λ a b. a * b;
  divide = λ a b. a;
  zero_double = 0;
  sqrt = λ a. a;
  is_zero = λ a. a == 0;
  rank = λ a. zero_rank + a;
  strtod = number_of;
}

digits_end : (acc : ℕ) (g : List ℕ) → read_digits 10 acc (g ++ 10 ∷ []) ≡ read_digits 10 acc g
unfolding read_digits digit_value is_digit
digits_end acc [] = refl
digits_end acc (c ∷ cs) = rw (digits_end (acc * 10 + digit_value c) cs) refl

number_end : (g : List ℕ) → numbers.strtod (g ++ 10 ∷ []) ≡ numbers.strtod g
number_end g = digits_end 0 g

-- The conditions on bytes, as tests.
abbrev is_free : ℕ → List ℕ → Bool
is_free d [] = true
is_free d (c ∷ cs) = not (c == d) && is_free d cs

is_free_lem : (d : ℕ) (cs : List ℕ) → is_free d cs ≡ true → IsFree d cs
is_free_lem d [] h = tt
is_free_lem d (c ∷ cs) h = (ground (arith, h), is_free_lem d cs (ground (arith, h)))

abbrev has_no_spaces : List ℕ → Bool
has_no_spaces [] = true
has_no_spaces (c ∷ cs) = not (is_space c) && has_no_spaces cs

has_no_spaces_lem : (cs : List ℕ) → has_no_spaces cs ≡ true → HasNoSpaces cs
has_no_spaces_lem [] h = tt
has_no_spaces_lem (c ∷ cs) h = (ground (arith, h), has_no_spaces_lem cs (ground (arith, h)))

abbrev ones : ℕ → List (List ℕ)
ones zero = []
ones (suc n) = (b'1' ∷ []) ∷ ones n

abbrev nineteen_ones : List (List ℕ)
nineteen_ones = ones 19

ones-AreTokens : (n : ℕ) → AreTokens b',' (ones n)
ones-AreTokens zero = tt
ones-AreTokens (suc n) = ((λ e. cc), is_free_lem b',' (b'1' ∷ []) refl, ones-AreTokens n)

abbrev movie_row : ℕ → Row
movie_row c = record { id_text = b'7' ∷ []; title_text = c ∷ []; genre_texts = nineteen_ones }

abbrev ten_rows : List Row
ten_rows =
    movie_row b'j'
    ∷ movie_row b'b'
    ∷ movie_row b'c'
    ∷ movie_row b'a'
    ∷ movie_row b'e'
    ∷ movie_row b'f'
    ∷ movie_row b'g'
    ∷ movie_row b'h'
    ∷ movie_row b'i'
    ∷ movie_row b'd'
    ∷ []

abbrev every_movie : RequestRow
every_movie = record {
  id_text = b'4' ∷ b'2' ∷ [];
  keywords_text = b'*' ∷ [];
  genre_texts = nineteen_ones;
}

abbrev ten_movies : Input
ten_movies = record {
  first = b'i' ∷ b'd' ∷ [];
  rows = ten_rows;
  count = b'1' ∷ [];
  requests = every_movie ∷ [];
}

movie_row-IsRow :
    (c : ℕ)
    → is_free b'{' (c ∷ []) ≡ true
    → is_free 10 (row_text (movie_row c)) ≡ true
    → is_free 0 (row_text (movie_row c)) ≡ true
    → IsRow (movie_row c)
movie_row-IsRow c title line nul = record {
  id_token = ((λ e. cc), ((λ e. cc), tt));
  title_free = is_free_lem b'{' (c ∷ []) title;
  genre_count = refl;
  genre_tokens = ones-AreTokens 19;
  one_line = is_free_lem 10 (row_text (movie_row c)) line;
  no_nul = is_free_lem 0 (row_text (movie_row c)) nul;
  short = omega arith;
}

ten_movies-IsInput : IsInput ten_movies
unfolding is_digit is_space atoi
ten_movies-IsInput = record {
  first_line = is_free_lem 10 (b'i' ∷ b'd' ∷ []) refl;
  first_short = omega arith;
  are_rows = (
    movie_row-IsRow b'j' refl refl refl,
    (
      movie_row-IsRow b'b' refl refl refl,
      (
        movie_row-IsRow b'c' refl refl refl,
        (
          movie_row-IsRow b'a' refl refl refl,
          (
            movie_row-IsRow b'e' refl refl refl,
            (
              movie_row-IsRow b'f' refl refl refl,
              (
                movie_row-IsRow b'g' refl refl refl,
                (
                  movie_row-IsRow b'h' refl refl refl,
                  (movie_row-IsRow b'i' refl refl refl, (movie_row-IsRow b'd' refl refl refl, tt)),
                ),
              ),
            ),
          ),
        ),
      ),
    ),
  );
  rows_fit = omega arith;
  count_digits = ((λ e. cc), (refl, tt));
  counted = refl;
  are_requests = (
    record {
      id_digits = ((λ e. cc), (refl, (refl, tt)));
      keyword = ((λ e. cc), (refl, tt));
      keywords_fit = omega arith;
      genre_count = refl;
      genre_tokens = ones-AreTokens 19;
      genre_word = ((λ e. cc), has_no_spaces_lem (genres_text nineteen_ones) refl);
      genres_fit = omega arith;
    },
    tt,
  );
  requests_fit = omega arith;
}

initialize-texts_example :
    initialize numbers (file_text ten_movies) (stdin_text ten_movies)
    ≡ some (movies_of numbers ten_movies, request_of numbers every_movie ∷ [])
initialize-texts_example = initialize-texts numbers number_end ten_movies ten_movies-IsInput

all_selected : AllSelect numbers ten_movies (every_movie ∷ [])
unfolding filtered normalize read_digits digit_value is_digit
all_selected = (omega arith, refl, tt)

ten_selected : 10 ≤ length (selected numbers ten_movies every_movie)
unfolding filtered normalize read_digits digit_value is_digit
ten_selected = omega arith

-- malloc gives zeroed memory.
abbrev zeroed : ℕ → ℕ → List ℕ
zeroed n i = 0 ∷ []

zeroed-IsClean : IsClean zeroed
zeroed-IsClean n i = ([], refl)

tserver-AreAnswers_example :
    (as' : List (ℤ × List Scored)) × (tserver numbers zeroed
        (file_text ten_movies)
        (stdin_text ten_movies)
      ≡ some as')
    × AreAnswers numbers ten_movies (every_movie ∷ []) as'
tserver-AreAnswers_example =
    tserver-AreAnswers numbers number_end zeroed zeroed-IsClean ten_movies ten_movies-IsInput
      (omega arith) all_selected

pserver-tserver_example :
    (written : List Scored) × (more : List (ℤ × List Scored)) × (pserver numbers
        (file_text ten_movies)
        (stdin_text ten_movies)
      ≡ some (atoi every_movie.id_text, written))
    × (tserver numbers zeroed (file_text ten_movies) (stdin_text ten_movies)
        ≡ some ((atoi every_movie.id_text, written) ∷ more))
pserver-tserver_example =
    pserver-tserver numbers number_end zeroed zeroed-IsClean ten_movies ten_movies-IsInput
      (omega arith) all_selected every_movie [] refl ten_selected

load_rows-fuel_example :
    load_rows numbers none 5 0 (b'7' ∷ 10 ∷ []) ≡ load_rows numbers (some []) 3 0 (b'7' ∷ 10 ∷ [])
load_rows-fuel_example =
    load_rows-fuel numbers none (some []) 5 3 0 (b'7' ∷ 10 ∷ []) (omega arith) (omega arith)

initialize-HaveRoom_example : HaveRoom numbers (movies_of numbers ten_movies)
initialize-HaveRoom_example =
    initialize-HaveRoom numbers (file_text ten_movies) (stdin_text ten_movies)
      (movies_of numbers ten_movies) (request_of numbers every_movie ∷ []) initialize-texts_example
