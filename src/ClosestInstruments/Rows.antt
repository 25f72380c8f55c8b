-- ===== src/ClosestInstruments/Rows.antt =====
-- The row that the edit distance keeps: an item for each start of the second text.
use tckr.Prelude.{
  ℕ, suc, ◌+◌, ◌≡◌, refl, ap, ◌∙◌, some, min, true, false, List, [], ◌∷◌, length, get_elem?,
  if◌then◌else◌, ◌==◌, arith,
}
use tckr.Text.{Text}
use tckr.ClosestInstruments.{count_up, fill, next_row, all_rows, edit_distance}
use tckr.ClosestInstruments.Edits.{
  IsDistance, edits_to_nothing-IsDistance, edits_from_nothing-IsDistance, IsDistance-cell, onto,
  IsDistance-onto,
}

-- The items of a row, from the start of the second text that is `d` backwards, with `b` to come; all
-- for the start of the first text that is `c` backwards.
abbrev IsRow : Text → Text → Text → List ℕ → Type 0
IsRow c d b [] = true ≡ false
IsRow c d [] (n ∷ []) = IsDistance c d n
IsRow c d [] (n ∷ m ∷ row) = true ≡ false
IsRow c d (y ∷ b) (n ∷ row) = IsDistance c d n × IsRow c (y ∷ d) b row

IsRow-first : (c d b : Text) (n : ℕ) (row : List ℕ) → IsRow c d b (n ∷ row) → IsDistance c d n
IsRow-first c d [] n [] r = r
IsRow-first c d [] n (m ∷ row) r = ground arith
IsRow-first c d (y ∷ b) n row (first, rest) = first

fill-IsRow :
    (x : ℕ) (c d b : Text) (row : List ℕ) (diagonal left : ℕ)
    → IsRow c d b (diagonal ∷ row)
    → IsDistance (x ∷ c) d left
    → IsRow (x ∷ c) d b (left ∷ fill x b row diagonal left)
unfolding fill
fill-IsRow x c d [] row diagonal left r l = l
fill-IsRow x c d (y ∷ b) [] diagonal left (first, rest) l = ground arith
fill-IsRow x c d (y ∷ b) (above ∷ row) diagonal left (first, rest) l =
    let cell = min (min (above + 1) (left + 1)) (diagonal + (if x == y then 0 else 1)) in
    (
      l,
      fill-IsRow x c (y ∷ d) b row above cell rest (
          IsDistance-cell x y above left diagonal c d (IsRow-first c (y ∷ d) b above row rest) l
            first),
    )

next_row-IsRow :
    (x : ℕ) (c b : Text) (row : List ℕ)
    → IsRow c [] b row
    → IsRow (x ∷ c) [] b (next_row (suc (length c)) x b row)
unfolding next_row
next_row-IsRow x c b [] r = r
next_row-IsRow x c b (diagonal ∷ row) r =
    fill-IsRow x c [] b row diagonal (suc (length c)) r (edits_to_nothing-IsDistance (x ∷ c))

all_rows-IsRow :
    (a c b : Text) (row : List ℕ)
    → IsRow c [] b row
    → IsRow (onto a c) [] b (all_rows (suc (length c)) a b row)
unfolding all_rows onto
all_rows-IsRow [] c b row r = r
all_rows-IsRow (x ∷ a) c b row r =
    all_rows-IsRow a (x ∷ c) b (next_row (suc (length c)) x b row) (next_row-IsRow x c b row r)

count_up-IsRow : (d b : Text) → IsRow [] d b (count_up (length d) (suc (length b)))
unfolding count_up
count_up-IsRow d [] = edits_from_nothing-IsDistance d
count_up-IsRow d (y ∷ b) = (edits_from_nothing-IsDistance d, count_up-IsRow (y ∷ d) b)

IsRow-last :
    (c d b : Text) (row : List ℕ)
    → IsRow c d b row
    → (n : ℕ) × (get_elem? row (length b) ≡ some n) × IsDistance c (onto b d) n
unfolding onto
IsRow-last c d b [] r = ground arith
IsRow-last c d [] (n ∷ []) r = (n, refl, r)
IsRow-last c d [] (n ∷ m ∷ row) r = ground arith
IsRow-last c d (y ∷ b) (n ∷ row) (first, rest) = IsRow-last c (y ∷ d) b row rest

one_more :
    (a b : Text) (n : ℕ)
    → n ≡ suc (length b)
    → get_elem? (all_rows 1 a b (count_up 0 n)) (length b)
      ≡ get_elem? (all_rows 1 a b (count_up 0 (suc (length b)))) (length b)
one_more a b n e = ap (λ k. get_elem? (all_rows 1 a b (count_up 0 k)) (length b)) e

-- The edit distance of any two texts is there, and it is the fewest edits that turn the one into the
-- other, where an edit replaces, removes or inserts a character.
pub edit_distance-IsDistance :
    (a b : Text) → (n : ℕ) × (edit_distance a b ≡ some n) × IsDistance a b n
unfolding edit_distance
edit_distance-IsDistance a b =
    let row = all_rows-IsRow a [] b (count_up 0 (suc (length b))) (count_up-IsRow [] b) in
    let (n, last, distance) =
      IsRow-last (onto a []) [] b (all_rows 1 a b (count_up 0 (suc (length b)))) row in
    (n, one_more a b (length b + 1) (omega arith) ∙ last, IsDistance-onto a b n distance)
