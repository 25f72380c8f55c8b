-- ===== src/ClosestInstruments.antt =====
-- client/Tckr.MarketWatch/src/pages/closestInstruments.ts: the edit distance, and the
-- instruments closest to a query. The built-ins on Unicode and locales are parameters: `trim`, `toLowerCase`,
-- the words of `split(/\s+/)`, which are one at least, and whether `localeCompare` is negative.
pub mod Edits
pub mod Rows
use tckr.Prelude.{
  ℕ, zero, suc, ◌+◌, ◌*◌, ◌/◌, min, max, Bool, true, ◌&&◌, ◌||◌, Option, none, some, List, [], ◌∷◌,
  length, get_elem?, if◌then◌else◌, ◌==◌, ltb, leb, take,
}
use tckr.Text.{Text, is_digit}
use tckr.Contracts.{SymbolDefinition}
use tckr.Messages.{units}

-- `Array.from({ length: n }, (_, i) => first + i)`
unfoldable pub count_up : ℕ → ℕ → List ℕ
count_up first zero = []
count_up first (suc n) = first ∷ count_up (suc first) n

-- The loop over j: `b` and `row` from j on, with `diagonal` and what is now `row[j - 1]`; the row has
-- an item for each character, so that it does not end first.
unfoldable pub fill : ℕ → Text → List ℕ → ℕ → ℕ → List ℕ
fill x [] row diagonal left = []
fill x (y ∷ b) [] diagonal left = []
fill x (y ∷ b) (above ∷ row) diagonal left =
    let cell = min (min (above + 1) (left + 1)) (diagonal + (if x == y then 0 else 1)) in
    cell ∷ fill x b row above cell

-- The body of the loop over i, for the character `a[i - 1]`.
unfoldable pub next_row : ℕ → ℕ → Text → List ℕ → List ℕ
unfolding fill
next_row i x b [] = []
next_row i x b (diagonal ∷ row) = i ∷ fill x b row diagonal i

unfoldable pub all_rows : ℕ → Text → Text → List ℕ → List ℕ
unfolding next_row
all_rows i [] b row = row
all_rows i (x ∷ a) b row = all_rows (suc i) a b (next_row i x b row)

-- `row[b.length]!`, with `none` where it is not there.
unfoldable pub edit_distance : Text → Text → Option ℕ
unfolding all_rows count_up
edit_distance a b = get_elem? (all_rows 1 a b (count_up 0 (length b + 1))) (length b)

abbrev pub number_or_zero : Option ℕ → ℕ
number_or_zero none = 0
number_or_zero (some n) = n

-- The distance as a number; it is there for any two texts.
unfoldable pub distance_of : Text → Text → ℕ
unfolding edit_distance
distance_of a b = number_or_zero (edit_distance a b)

-- `Math.min(...)` of what `f` gives on the first text and the others.
unfoldable pub least_of : (Text → ℕ) → Text → List Text → ℕ
least_of f first [] = f first
least_of f first (next ∷ texts) = min (f first) (least_of f next texts)

-- `c` in `[a-z0-9]`
abbrev pub is_lower_or_digit : ℕ → Bool
is_lower_or_digit c = (leb b'a' c && leb c b'z') || is_digit c

abbrev pub all_lower_or_digit : Text → Bool
all_lower_or_digit [] = true
all_lower_or_digit (c ∷ s) = is_lower_or_digit c && all_lower_or_digit s

-- `/^[a-z0-9]{2,6}$/`
unfoldable pub is_ticker_shaped : Text → Bool
is_ticker_shaped q = leb 2 (length q) && leb (length q) 6 && all_lower_or_digit q

unfoldable pub allowed_distance : Text → ℕ
allowed_distance q = max 1 (length q / 3)

unfoldable pub filter {ℓ} : {A : Type ℓ} → (A → Bool) → List A → List A
filter p [] = []
filter p (a ∷ items) = let rest = filter p items in if p a then a ∷ rest else rest

-- A stable sort by a test that says which of two items comes first.
unfoldable pub insert_sorted {ℓ} : {A : Type ℓ} → (A → A → Bool) → A → List A → List A
insert_sorted before a [] = a ∷ []
insert_sorted before a (b ∷ items) =
    if before b a then b ∷ insert_sorted before a items else a ∷ b ∷ items

unfoldable pub sort {ℓ} : {A : Type ℓ} → (A → A → Bool) → List A → List A
unfolding insert_sorted
sort before [] = []
sort before (a ∷ items) = insert_sorted before a (sort before items)

module _ (trim to_lower_case : Text → Text) (words : Text → Text × List Text)
    (locale_less : Text → Text → Bool) where
  unfoldable pub symbol_distance : Text → SymbolDefinition → ℕ
  unfolding distance_of
  symbol_distance q definition = distance_of q (to_lower_case (units definition.symbol))

  unfoldable pub name_distance : Text → SymbolDefinition → ℕ
  unfolding least_of
  name_distance q definition =
      let name_words = words (to_lower_case (units definition.name)) in
      least_of (λ word. distance_of q (take (length q) word)) (name_words.0) (name_words.1)

  -- The `rank` and `distance` of the candidate that an instrument is.
  unfoldable pub rank : Text → SymbolDefinition → ℕ
  unfolding symbol_distance name_distance
  rank q definition = min (symbol_distance q definition * 2) (name_distance q definition * 2 + 1)

  unfoldable pub distance : Text → SymbolDefinition → ℕ
  unfolding symbol_distance name_distance
  distance q definition = min (symbol_distance q definition) (name_distance q definition)

  abbrev pub comes_first : Text → SymbolDefinition → SymbolDefinition → Bool
  comes_first q a b =
      if rank q a == rank q b
      then locale_less (units a.symbol) (units b.symbol)
      else ltb (rank q a) (rank q b)

  unfoldable pub candidates : Text → List SymbolDefinition → List SymbolDefinition
  unfolding filter distance
  candidates q universe =
      filter (λ definition. leb (distance q definition) (allowed_distance q)) universe

  unfoldable pub ticker_matches : Text → List SymbolDefinition → List SymbolDefinition
  unfolding filter symbol_distance
  ticker_matches q found =
      filter (λ definition. leb (symbol_distance q definition) (allowed_distance q)) found

  unfoldable pub offered : Text → List SymbolDefinition → List SymbolDefinition
  unfolding candidates ticker_matches
  offered q universe =
      let matches = ticker_matches q (candidates q universe) in
      if is_ticker_shaped q && ltb 0 (length matches) then matches else candidates q universe

  unfoldable pub closest_instruments : Text → List SymbolDefinition → ℕ → List SymbolDefinition
  unfolding offered sort
  closest_instruments query universe limit =
      let q = to_lower_case (trim query) in
      if ltb (length q) 2 then [] else take limit (sort (comes_first q) (offered q universe))
