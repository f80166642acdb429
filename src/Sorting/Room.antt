-- ===== src/Sorting/Room.antt =====
-- hw4: the titles that `initialize` reads, and the room that `add_secret` in hw4/lib.c has for them.
use mathlib.Core.Path.{subst}
use mathlib.Core.Option.{some-injective}
use sp_homework.Common.{
  ℕ, zero, suc, ◌+◌, ◌-◌, ◌*◌, ◌≡◌, ◌≤◌, ◌<◌, ap, inl, inr, none, some, List, [], ◌∷◌, ltb, length,
  length-append, take, arith, Bool-cases, Option-cases,
}
use sp_homework.Common.Scan.{scan_number}
use sp_homework.Common.Text.{c_string}
use sp_homework.Common.TextBounds.{length-c_string}
use sp_homework.Sorting.{secret, add_secret}
use sp_homework.Sorting.Data.{
  strtok, fgets, chunk_room, max_movies, num_of_genre, Arithmetic, Movie, read_genres, read_movie,
  load_rows, load_movies, MovieRequest, requests_of, initialize,
}
use sp_homework.Sorting.TokenSizes.{gap, gap-one, strtok-Fits, length-fgets, length-take}

-- MAX_LEN, the size of the buffer of `add_secret`.
abbrev pub max_len : ℕ
max_len = 255

module _ {D : Type 0} (fp : Arithmetic D) where
  -- n numbers need n bytes and the delimiters between them.
  length-read_genres :
      (n : ℕ) (s : List ℕ) (ds : List D) → read_genres fp n s ≡ some ds → 2 * n ≤ length s + 1
  unfolding read_genres
  length-read_genres zero s ds e = omega arith
  length-read_genres (suc n) s ds e = elim (Option-cases (strtok b',' s)) [
    | inl missing ↦ absurd (let e' : none ≡ some ds = rw missing at e in cc)
    | inr (found, token) ↦ elim (Option-cases (read_genres fp n found.1)) [
      | inl missing ↦ absurd (let e' : none ≡ some ds = rw (token, missing) at e in cc)
      | inr (more, numbers) ↦
          let fits = strtok-Fits b',' s found token in
          let rest = length-read_genres n found.1 more numbers in
          room n (length s) (length found.1) (gap found.1) fits.0 rest (gap-one found.1)
    ]
  ]
    where
      room : (n s r g : ℕ) → 1 + g + r ≤ s → 2 * n ≤ r + 1 → (1 ≤ r → g ≡ 1) → 2 * suc n ≤ s + 1
      room zero s r g fits rest one = omega arith
      room (suc n) s r g fits rest one = let all : g ≡ 1 = one (omega arith) in omega arith

  -- The line of a movie holds its title and 41 bytes more: the number, the delimiters and the genres.
  length-read_movie :
      (chunk : List ℕ) (m : Movie D)
      → read_movie fp chunk ≡ some m
      → length m.title + 41 ≤ length chunk
  unfolding read_movie
  length-read_movie chunk m e = elim (Option-cases (strtok 32 chunk)) [
    | inl missing ↦ absurd (let e' : none ≡ some m = rw missing at e in cc)
    | inr (first, number) ↦ elim (Option-cases (strtok b'{' first.1)) [
      | inl missing ↦ absurd (let e' : none ≡ some m = rw (number, missing) at e in cc)
      | inr (second, title) ↦ elim (Option-cases (read_genres fp num_of_genre second.1)) [
        | inl missing ↦ absurd (let e' : none ≡ some m = rw (number, title, missing) at e in cc)
        | inr (genres, read) ↦
            let same = some-injective _ _ (rw (number, title, read) at e) in
            let all : length (take (length second.0 - 1) second.0) + 41 ≤ length chunk =
              room (length chunk) (length first.1) (gap first.1) (length second.0) (length second.1)
                (gap second.1) _ (strtok-Fits 32 chunk first number).0
                (strtok-Fits b'{' first.1 second title) (length-read_genres 19 second.1 genres read)
                (gap-one first.1) (gap-one second.1) (length-take (length second.0 - 1) second.0) in
            subst (λ (k : Movie D). length k.title + 41 ≤ length chunk) same all
      ]
    ]
  ]
    where
      room :
          (s f g t r h k : ℕ)
          → 1 + g + f ≤ s
          → (1 + h + r ≤ f) × (t + r + h ≤ f)
          → 2 * 19 ≤ r + 1
          → (1 ≤ f → g ≡ 1)
          → (1 ≤ r → h ≡ 1)
          → k ≤ t - 1
          → k + 41 ≤ s
      room s f g t r h k one two numbers gap_one gap_two short =
          let there : h ≡ 1 = gap_two (omega arith) in
          let there' : g ≡ 1 = gap_one (omega arith) in omega arith

  -- Does the title, with the secret, fit the buffer of `add_secret`?
  abbrev pub HasRoom : Movie D → Type 0
  HasRoom m =
      (rank : ℕ) → length (add_secret (record { title = m.title; score = rank })).title < max_len

  abbrev pub HaveRoom : List (Movie D) → Type 0
  HaveRoom [] = Unit {0}
  HaveRoom (m ∷ ms) = HasRoom m × HaveRoom ms

  room-HasRoom : (m : Movie D) → length m.title + 41 ≤ chunk_room → HasRoom m
  unfolding add_secret
  room-HasRoom m room rank = omega (arith, length-append {0} m.title secret)

  row-HasRoom :
      (chunk : List ℕ) (m : Movie D)
      → length chunk ≤ chunk_room
      → read_movie fp (c_string chunk) ≡ some m
      → HasRoom m
  row-HasRoom chunk m short e =
      room-HasRoom m
        (omega (arith, length-read_movie (c_string chunk) m e, length-c_string chunk, short))

  load_rows-HaveRoom :
      (fuel cnt : ℕ) (file : List ℕ) (ms : List (Movie D))
      → load_rows fp none fuel cnt file ≡ some ms
      → HaveRoom ms
  unfolding load_rows
  load_rows-HaveRoom zero cnt file ms e = absurd (cc)
  load_rows-HaveRoom (suc fuel) cnt [] ms e = subst HaveRoom (some-injective [] ms e) tt
  load_rows-HaveRoom (suc fuel) cnt (c ∷ cs) ms e = elim (Bool-cases (ltb cnt max_movies)) [
    | inr full ↦ absurd (let e' : none ≡ some ms = rw full at e in cc)
    | inl below ↦ elim (Option-cases (read_movie fp (c_string (fgets chunk_room (c ∷ cs)).0))) [
      | inl missing ↦ absurd (let e' : none ≡ some ms = rw (below, missing) at e in cc)
      | inr (m, row) ↦
          elim (Option-cases (load_rows fp none fuel (suc cnt) (fgets chunk_room (c ∷ cs)).1)) [
            | inl missing ↦ absurd (let e' : none ≡ some ms = rw (below, row, missing) at e in cc)
            | inr (more, rest) ↦
                let same : m ∷ more ≡ ms = some-injective _ _ (rw (below, row, rest) at e) in
                subst HaveRoom same (
                  row-HasRoom (fgets chunk_room (c ∷ cs)).0 m (length-fgets chunk_room (c ∷ cs))
                      row,
                  load_rows-HaveRoom fuel (suc cnt) (fgets chunk_room (c ∷ cs)).1 more rest,
                )
          ]
    ]
  ]

  load_movies-HaveRoom :
      (file : List ℕ) (ms : List (Movie D)) → load_movies fp file ≡ some ms → HaveRoom ms
  unfolding load_movies
  load_movies-HaveRoom [] ms e = absurd (cc)
  load_movies-HaveRoom (c ∷ cs) ms e = load_rows-HaveRoom _ 0 (fgets chunk_room (c ∷ cs)).1 ms e

  -- Whatever the file and the standard input hold, when `initialize` returns, the title of every movie
  -- it has read, with the secret behind it and the NUL, fits the MAX_LEN bytes of add_secret's buffer.
  pub initialize-HaveRoom :
      (file stdin : List ℕ) (movies : List (Movie D)) (requests : List (MovieRequest D))
      → initialize fp file stdin ≡ some (movies, requests)
      → HaveRoom movies
  unfolding initialize
  initialize-HaveRoom file stdin movies requests e = elim (Option-cases (load_movies fp file)) [
    | inl missing ↦ absurd (let e' : none ≡ some (movies, requests) = rw missing at e in cc)
    | inr (ms, loaded) ↦ elim (Option-cases (requests_of fp (scan_number stdin))) [
      | inl missing ↦
          absurd (let e' : none ≡ some (movies, requests) = rw (loaded, missing) at e in cc)
      | inr (rs, read) ↦
          let same : (ms, rs) ≡ (movies, requests) = some-injective _ _ (rw (loaded, read) at e) in
          subst HaveRoom (ap (λ found. found.0) same) (load_movies-HaveRoom file ms loaded)
    ]
  ]
