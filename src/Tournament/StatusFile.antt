-- ===== src/Tournament/StatusFile.antt =====
-- hw2/player.c: the status file, and the tournament that is fought with it.
use mathlib.Core.Path.{subst}
use sp_homework.Common.{
  ◌>>=◌, ℕ, zero, suc, ◌≡◌, ◌≢◌, ◌<◌, ◌≤◌, refl, ◌∙◌, true, false, Option, none, some, List, [],
  ◌∷◌, ◌++◌, ◌==◌, ltb, lt→ltb, if◌then◌else◌, length, length-append, arith,
}
use sp_homework.Common.Int.{pos}
use sp_homework.Common.Text.{is_digit, is_space, digit_value, skip_spaces, atoi}
use sp_homework.Common.Scan.{scan_word, scan_number}
use sp_homework.Common.Scanning.{
  AreDigits, HasNoSpaces, scan_number-digits, scan_word-word, skip_spaces-digits, skip_line_end,
  skip_space,
}
use sp_homework.Tournament.{Attribute, fire, grass, water, Status}
use sp_homework.Tournament.Bracket.{tournament}
use sp_homework.Tournament.Actions.{ArePlayers}
use sp_homework.Tournament.Champion.{tournament-champion}

-- "%c" behind spaces
abbrev pub some_char : List ℕ → Option (ℕ × List ℕ)
some_char [] = none
some_char (c ∷ cs) = some (c, cs)

-- By the first byte of the word.
abbrev pub attribute_of : List ℕ → Attribute
attribute_of [] = water
attribute_of (c ∷ cs) = if c == b'F' then fire else if c == b'G' then grass else water

-- The bytes of `buf`.
abbrev pub buf_size : ℕ
buf_size = 10

-- A pass of the loop over `playerStatus`. Where nothing matches, a field has no value, and a longer
-- word is written past `buf`: `none`.
unfoldable pub read_status : ℕ → List ℕ → Option (Status × List ℕ)
read_status i file = scan_number file >>= λ hp. scan_number hp.1 >>= λ atk.
    scan_word (length atk.1) atk.1 >>= λ buf.
    (if ltb (length buf.0) buf_size then some_char (skip_spaces buf.1) else none) >>= λ letter.
    scan_number letter.1 >>= λ flag. some (
      record {
        real_player_id = i;
        hp = hp.0;
        atk = atk.0;
        attr = attribute_of buf.0;
        current_battle_id = letter.0;
        battle_ended_flag = flag.0;
      },
      flag.1,
    )

unfoldable pub read_statuses : (n i : ℕ) → List ℕ → Option (List Status)
read_statuses zero i file = some []
read_statuses (suc n) i file = read_status i file >>= λ found.
    read_statuses n (suc i) found.1 >>= λ more. some (found.0 ∷ more)

-- `playerStatus`; behind its end nothing is read.
abbrev pub status_at : List Status → ℕ → Status
status_at [] i = record {
  real_player_id = 0;
  hp = pos 0;
  atk = pos 0;
  attr = water;
  current_battle_id = 0;
  battle_ended_flag = pos 0;
}
status_at (s ∷ ss) zero = s
status_at (s ∷ ss) (suc i) = status_at ss i

-- `./battle A 0`, where each player reads the same file.
unfoldable pub battle_a : List ℕ → Option ℕ
battle_a file = read_statuses 8 0 file >>= λ statuses. tournament (status_at statuses)

-- The texts of a line of the file: "hp atk word letter flag".
pub record StatusRow : Type 0 where
  pub hp_text : List ℕ
  pub atk_text : List ℕ
  pub word : List ℕ
  pub letter : ℕ
  pub flag_text : List ℕ

abbrev pub status_text : StatusRow → List ℕ → List ℕ
status_text r rest =
    r.hp_text
    ++ 32 ∷ (r.atk_text ++ 32 ∷ (r.word ++ 32 ∷ r.letter ∷ 32 ∷ (r.flag_text ++ 10 ∷ rest)))

abbrev pub statuses_text : List StatusRow → List ℕ
statuses_text [] = []
statuses_text (r ∷ rs) = status_text r (statuses_text rs)

pub record IsStatusRow (r : StatusRow) : Type 0 where
  pub hp_digits : (r.hp_text ≢ []) × AreDigits r.hp_text
  pub atk_digits : (r.atk_text ≢ []) × AreDigits r.atk_text
  pub word_plain : (r.word ≢ []) × HasNoSpaces r.word
  pub word_fits : length r.word < buf_size
  pub letter_plain : is_space r.letter ≡ false
  pub flag_digits : (r.flag_text ≢ []) × AreDigits r.flag_text

abbrev pub AreStatusRows : List StatusRow → Type 0
AreStatusRows [] = Unit {0}
AreStatusRows (r ∷ rs) = IsStatusRow r × AreStatusRows rs

abbrev pub status_of : ℕ → StatusRow → Status
status_of i r = record {
  real_player_id = i;
  hp = atoi r.hp_text;
  atk = atoi r.atk_text;
  attr = attribute_of r.word;
  current_battle_id = r.letter;
  battle_ended_flag = atoi r.flag_text;
}

abbrev pub statuses_of : ℕ → List StatusRow → List Status
statuses_of i [] = []
statuses_of i (r ∷ rs) = status_of i r ∷ statuses_of (suc i) rs

space : is_space 32 ≡ true
unfolding is_space
space = refl

skip_to : (c : ℕ) (cs : List ℕ) → is_space c ≡ false → skip_spaces (32 ∷ c ∷ cs) ≡ c ∷ cs
unfolding skip_spaces is_space
skip_to c cs plain = rw plain refl

-- A number of a row, behind a space.
field_lem :
    (xs rest : List ℕ) (d : ℕ)
    → (xs ≢ []) × AreDigits xs
    → is_digit d ≡ false
    → 10 ≤ digit_value d
    → scan_number (32 ∷ (xs ++ d ∷ rest)) ≡ some (atoi xs, d ∷ rest)
field_lem xs rest d (ne, digits) other large =
    scan_number-digits (32 ∷ (xs ++ d ∷ rest)) xs rest d
      (skip_space (xs ++ d ∷ rest) ∙ skip_spaces-digits xs rest d digits ne) digits ne other large

read_status-row :
    (i : ℕ) (file : List ℕ) (r : StatusRow) (rest : List ℕ)
    → skip_spaces file ≡ status_text r rest
    → IsStatusRow r
    → read_status i file ≡ some (status_of i r, 10 ∷ rest)
unfolding read_status is_digit digit_value
read_status-row i file r rest e is =
    let end = r.flag_text ++ 10 ∷ rest in
    let letters = r.letter ∷ 32 ∷ end in
    let words = r.word ++ 32 ∷ letters in
    let powers = r.atk_text ++ 32 ∷ words in
    let hp =
      scan_number-digits file r.hp_text powers 32 e is.hp_digits.1 is.hp_digits.0 refl
        (omega arith) in
    let atk = field_lem r.atk_text words 32 is.atk_digits refl (omega arith) in
    let size = length-append {0} r.word (32 ∷ letters) in
    let word =
      scan_word-word (length (32 ∷ words)) r.word letters 32 is.word_plain.0 is.word_plain.1 space
        (omega (arith, size)) in
    let letter = skip_to r.letter (32 ∷ end) is.letter_plain in
    let flag = field_lem r.flag_text rest 10 is.flag_digits refl (omega arith) in
    rw (hp, atk, word, lt→ltb (length r.word) buf_size is.word_fits, letter, flag) refl

-- Behind the first row each row has the end of the one before it in front.
skip_row :
    (r : StatusRow) (rest : List ℕ)
    → IsStatusRow r
    → skip_spaces (status_text r rest) ≡ status_text r rest
skip_row r rest is = skip_spaces-digits r.hp_text _ 32 is.hp_digits.1 is.hp_digits.0

read_statuses-rows :
    (i : ℕ) (file : List ℕ) (rs : List StatusRow)
    → skip_spaces file ≡ skip_spaces (statuses_text rs)
    → AreStatusRows rs
    → read_statuses (length rs) i file ≡ some (statuses_of i rs)
unfolding read_statuses
read_statuses-rows i file [] e are = refl
read_statuses-rows i file (r ∷ rs) e (is, are) =
    let first =
      read_status-row i file r (statuses_text rs) (e ∙ skip_row r (statuses_text rs) is) is in
    let more =
      read_statuses-rows (suc i) (10 ∷ statuses_text rs) rs (skip_line_end (statuses_text rs))
        are in
    rw (first, more) refl

-- A status file of eight rows "hp atk word letter flag" of players that may fight, of HP and power below
-- 2^30, is read as these players, and the tournament that is fought with it has one of them as its
-- champion.
pub battle_a-champion :
    (rs : List StatusRow)
    → AreStatusRows rs
    → length rs ≡ 8
    → ArePlayers (status_at (statuses_of 0 rs))
    → (read_statuses 8 0 (statuses_text rs) ≡ some (statuses_of 0 rs))
      × ((c : ℕ) × (battle_a (statuses_text rs) ≡ some c) × c < 8)
unfolding battle_a
battle_a-champion rs are eight players =
    let read = read_statuses-rows 0 (statuses_text rs) rs refl are in
    let read8 : read_statuses 8 0 (statuses_text rs) ≡ some (statuses_of 0 rs) =
      subst (λ n. read_statuses n 0 (statuses_text rs) ≡ some (statuses_of 0 rs)) eight read in
    let (c, e, real) = tournament-champion (status_at (statuses_of 0 rs)) players in
    (read8, (c, rw read8 e, real))
