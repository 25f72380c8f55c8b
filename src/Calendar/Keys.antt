-- ===== src/Calendar/Keys.antt =====
-- The text of a date key, written and read back.
use tckr.Prelude.{ℕ, ◌≡◌, refl, ap, ◌∙◌, true, false, some, [], ◌∷◌, ◌++◌, ◌==◌, ==_iff, arith}
use tckr.Text.{Text, IsDigits, is_digit, to_digits, of_digits}
use tckr.Text.Digits.{
  of_digits-to_digits, to_digits-IsDigits, of_digits-pad_start, IsDigits-pad_start,
}
use tckr.Calendar.{DateKey, date_key_text, read_date_key, split, pad2, key_of_pieces}

-- A code unit that is no digit does not split digits.
pub digit-is_no_separator :
    (sep c : ℕ) → is_digit sep ≡ false → is_digit c ≡ true → (c == sep) ≡ false
digit-is_no_separator sep c apart h = ground arith

pub split-digits_first :
    (sep : ℕ) (s t : Text)
    → is_digit sep ≡ false
    → IsDigits s
    → split sep (s ++ sep ∷ t) ≡ s ∷ split sep t
unfolding split
split-digits_first sep [] t apart digits = rw ((==_iff sep sep).1 refl) refl
split-digits_first sep (c ∷ s) t apart (here, rest) =
    rw (digit-is_no_separator sep c apart here, split-digits_first sep s t apart rest) refl

pub split-digits : (sep : ℕ) (s : Text) → is_digit sep ≡ false → IsDigits s → split sep s ≡ s ∷ []
unfolding split
split-digits sep [] apart digits = refl
split-digits sep (c ∷ s) apart (here, rest) =
    rw (digit-is_no_separator sep c apart here, split-digits sep s apart rest) refl

pub pad2-IsDigits : (n : ℕ) → IsDigits (pad2 n)
unfolding pad2
pad2-IsDigits n = IsDigits-pad_start 2 (to_digits n) (to_digits-IsDigits n)

pub of_digits-pad2 : (n : ℕ) → of_digits 0 (pad2 n) ≡ n
unfolding pad2
of_digits-pad2 n = rw (of_digits-pad_start 2 (to_digits n)) (of_digits-to_digits n)

split-date_key_text :
    (key : DateKey)
    → split b'-' (date_key_text key) ≡ to_digits key.year ∷ pad2 key.month ∷ pad2 key.day ∷ []
unfolding date_key_text
split-date_key_text key =
    split-digits_first b'-' (to_digits key.year) (pad2 key.month ++ b'-' ∷ pad2 key.day) refl
      (to_digits-IsDigits key.year)
    ∙ ap (λ pieces. to_digits key.year ∷ pieces)
        (split-digits_first b'-' (pad2 key.month) (pad2 key.day) refl (pad2-IsDigits key.month))
    ∙ ap (λ pieces. to_digits key.year ∷ pad2 key.month ∷ pieces)
        (split-digits b'-' (pad2 key.day) refl (pad2-IsDigits key.day))

-- Reading the text of a date key gives the key.
pub read_date_key-date_key_text : (key : DateKey) → read_date_key (date_key_text key) ≡ some key
unfolding read_date_key
read_date_key-date_key_text key =
    ap key_of_pieces (split-date_key_text key)
    ∙ rw (of_digits-to_digits key.year, of_digits-pad2 key.month, of_digits-pad2 key.day) refl
