-- ===== src/Tests/StatusTable.antt =====
-- hw2: the status file of the repository, hw2/player_status.txt.
use sp_homework.Common.{ℕ, zero, suc, refl, List, [], ◌∷◌, arith}
use sp_homework.Common.Text.{atoi, is_digit, is_space}
use sp_homework.Tournament.Actions.{ArePlayers}
use sp_homework.Tournament.StatusFile.{StatusRow, statuses_of, status_at, AreStatusRows}

abbrev fire_word : List ℕ
fire_word = b'F' ∷ b'I' ∷ b'R' ∷ b'E' ∷ []

abbrev grass_word : List ℕ
grass_word = b'G' ∷ b'R' ∷ b'A' ∷ b'S' ∷ b'S' ∷ []

abbrev water_word : List ℕ
water_word = b'W' ∷ b'A' ∷ b'T' ∷ b'E' ∷ b'R' ∷ []

abbrev row : List ℕ → ℕ → List ℕ → ℕ → StatusRow
row hp atk word letter = record {
  hp_text = hp;
  atk_text = atk ∷ [];
  word = word;
  letter = letter;
  flag_text = b'0' ∷ [];
}

abbrev pub sample : List StatusRow
sample =
    row (b'7' ∷ []) b'2' fire_word b'G'
    ∷ row (b'8' ∷ []) b'3' grass_word b'G'
    ∷ row (b'4' ∷ []) b'4' fire_word b'H'
    ∷ row (b'1' ∷ []) b'4' grass_word b'H'
    ∷ row (b'1' ∷ b'2' ∷ []) b'2' water_word b'I'
    ∷ row (b'3' ∷ []) b'4' grass_word b'I'
    ∷ row (b'7' ∷ []) b'3' water_word b'J'
    ∷ row (b'1' ∷ b'0' ∷ []) b'2' water_word b'J'
    ∷ []

pub sample-AreStatusRows : AreStatusRows sample
unfolding is_digit is_space
sample-AreStatusRows = (
  record {
    hp_digits = ((λ e. cc), (refl, tt));
    atk_digits = ((λ e. cc), (refl, tt));
    word_plain = ((λ e. cc), (refl, (refl, (refl, (refl, tt)))));
    word_fits = omega arith;
    letter_plain = refl;
    flag_digits = ((λ e. cc), (refl, tt));
  },
  (
    record {
      hp_digits = ((λ e. cc), (refl, tt));
      atk_digits = ((λ e. cc), (refl, tt));
      word_plain = ((λ e. cc), (refl, (refl, (refl, (refl, (refl, tt))))));
      word_fits = omega arith;
      letter_plain = refl;
      flag_digits = ((λ e. cc), (refl, tt));
    },
    (
      record {
        hp_digits = ((λ e. cc), (refl, tt));
        atk_digits = ((λ e. cc), (refl, tt));
        word_plain = ((λ e. cc), (refl, (refl, (refl, (refl, tt)))));
        word_fits = omega arith;
        letter_plain = refl;
        flag_digits = ((λ e. cc), (refl, tt));
      },
      (
        record {
          hp_digits = ((λ e. cc), (refl, tt));
          atk_digits = ((λ e. cc), (refl, tt));
          word_plain = ((λ e. cc), (refl, (refl, (refl, (refl, (refl, tt))))));
          word_fits = omega arith;
          letter_plain = refl;
          flag_digits = ((λ e. cc), (refl, tt));
        },
        (
          record {
            hp_digits = ((λ e. cc), (refl, (refl, tt)));
            atk_digits = ((λ e. cc), (refl, tt));
            word_plain = ((λ e. cc), (refl, (refl, (refl, (refl, (refl, tt))))));
            word_fits = omega arith;
            letter_plain = refl;
            flag_digits = ((λ e. cc), (refl, tt));
          },
          (
            record {
              hp_digits = ((λ e. cc), (refl, tt));
              atk_digits = ((λ e. cc), (refl, tt));
              word_plain = ((λ e. cc), (refl, (refl, (refl, (refl, (refl, tt))))));
              word_fits = omega arith;
              letter_plain = refl;
              flag_digits = ((λ e. cc), (refl, tt));
            },
            (
              record {
                hp_digits = ((λ e. cc), (refl, tt));
                atk_digits = ((λ e. cc), (refl, tt));
                word_plain = ((λ e. cc), (refl, (refl, (refl, (refl, (refl, tt))))));
                word_fits = omega arith;
                letter_plain = refl;
                flag_digits = ((λ e. cc), (refl, tt));
              },
              (
                record {
                  hp_digits = ((λ e. cc), (refl, (refl, tt)));
                  atk_digits = ((λ e. cc), (refl, tt));
                  word_plain = ((λ e. cc), (refl, (refl, (refl, (refl, (refl, tt))))));
                  word_fits = omega arith;
                  letter_plain = refl;
                  flag_digits = ((λ e. cc), (refl, tt));
                },
                tt,
              ),
            ),
          ),
        ),
      ),
    ),
  ),
)

pub sample-ArePlayers : ArePlayers (status_at (statuses_of 0 sample))
unfolding atoi
sample-ArePlayers zero h = record {
  own_id = refl;
  fighter = record {
    lives = omega arith;
    fits = omega arith;
    harms = omega arith;
    bounded = omega arith;
  };
  small = omega arith;
  begins = refl;
}
sample-ArePlayers (suc zero) h = record {
  own_id = refl;
  fighter = record {
    lives = omega arith;
    fits = omega arith;
    harms = omega arith;
    bounded = omega arith;
  };
  small = omega arith;
  begins = refl;
}
sample-ArePlayers (suc (suc zero)) h = record {
  own_id = refl;
  fighter = record {
    lives = omega arith;
    fits = omega arith;
    harms = omega arith;
    bounded = omega arith;
  };
  small = omega arith;
  begins = refl;
}
sample-ArePlayers (suc (suc (suc zero))) h = record {
  own_id = refl;
  fighter = record {
    lives = omega arith;
    fits = omega arith;
    harms = omega arith;
    bounded = omega arith;
  };
  small = omega arith;
  begins = refl;
}
sample-ArePlayers (suc (suc (suc (suc zero)))) h = record {
  own_id = refl;
  fighter = record {
    lives = omega arith;
    fits = omega arith;
    harms = omega arith;
    bounded = omega arith;
  };
  small = omega arith;
  begins = refl;
}
sample-ArePlayers (suc (suc (suc (suc (suc zero))))) h = record {
  own_id = refl;
  fighter = record {
    lives = omega arith;
    fits = omega arith;
    harms = omega arith;
    bounded = omega arith;
  };
  small = omega arith;
  begins = refl;
}
sample-ArePlayers (suc (suc (suc (suc (suc (suc zero)))))) h = record {
  own_id = refl;
  fighter = record {
    lives = omega arith;
    fits = omega arith;
    harms = omega arith;
    bounded = omega arith;
  };
  small = omega arith;
  begins = refl;
}
sample-ArePlayers (suc (suc (suc (suc (suc (suc (suc zero))))))) h = record {
  own_id = refl;
  fighter = record {
    lives = omega arith;
    fits = omega arith;
    harms = omega arith;
    bounded = omega arith;
  };
  small = omega arith;
  begins = refl;
}
sample-ArePlayers (suc (suc (suc (suc (suc (suc (suc (suc i)))))))) h = absurd (omega (arith, h))
