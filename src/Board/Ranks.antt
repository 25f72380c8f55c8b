-- ===== src/Board/Ranks.antt =====
-- pages/useBoardSort.ts and boardColumns.tsx: what the order of the sorted board says of its figures.
use Prim.{tt}
use tckr.Prelude.{
  ◌^◌, ◌<◌, ◌≡◌, refl, sym, arith, String, Bool, true, false, Option, none, some, List, [], ◌∷◌,
  length, leb, ltb, ltb→lt, Bool-cases, inl, inr, All, has_value, ◌||◌,
}
use tckr.Prelude.Int.{ℤ, pos, is_neg, abs, ◌≤ℤ◌, ◌-ℤ◌, ◌*ℤ◌, -ℤ_parts}
use tckr.Text.{Text}
use tckr.Contracts.{SymbolDefinition}
use tckr.Decimal.{compare, sign_of, is_decimal, to_scaled_int, multiply_by_quantity}
use tckr.Decimal.Exact.{multiply_by_quantity-exact}
use tckr.Messages.{units}
use tckr.Store.{SymbolView}
use tckr.ClosestInstruments.{sort, insert_sorted, filter}
use tckr.Board.{
  SortColumn, by_symbol, by_name, by_price, by_change, by_change_percent, by_volume, by_value,
  SortDirection, ascending, descending, SortState, sign_value, is_first, compare_by, comes_before,
  sorted, traded_value, all_comparable, paced_price, paced_change, paced_change_percent,
  paced_volume,
}
use tckr.Board.Order.{IsOrdered, IsOpposite, compare_by-IsOpposite, sorted-IsOrdered}

module _ (P : SymbolDefinition → Type 0) (before : SymbolDefinition → SymbolDefinition → Bool) where
  All-insert_sorted :
      (a : SymbolDefinition) (items : List SymbolDefinition)
      → P a
      → All P items
      → All P (insert_sorted before a items)
  unfolding insert_sorted
  All-insert_sorted a [] p h = (p, tt)
  All-insert_sorted a (b ∷ items) p (q, h) = elim (Bool-cases (before b a)) [
    | inl first ↦ rw first (q, All-insert_sorted a items p h)
    | inr last ↦ rw last (p, (q, h))
  ]

  All-sort : (items : List SymbolDefinition) → All P items → All P (sort before items)
  unfolding sort
  All-sort [] h = tt
  All-sort (a ∷ items) (p, h) = All-insert_sorted a (sort before items) p (All-sort items h)

difference-le : (a b : ℤ) → is_neg (b -ℤ a) ≡ false → a ≤ℤ b
difference-le a b h = ground (arith, -ℤ_parts b a)

sign_of-le : (a b : ℤ) → is_neg (sign_value (sign_of (b -ℤ a))) ≡ false → a ≤ℤ b
sign_of-le a b h = ground (arith, -ℤ_parts b a)

or_true : (b : Bool) → (b || true) ≡ true
or_true true = refl
or_true false = refl

no_figure : {P : Type 0} → false ≡ true → P
no_figure h = cc

turned :
    (x y : Option ℤ) → IsOpposite x y → is_first descending x ≡ false → is_first ascending y ≡ false
turned none none h k = refl
turned none (some y) h k = elim h [ ]
turned (some x) none h k = elim h [ ]
turned (some x) (some y) h k = ground arith

module _ (locale_compare : Text → Text → ℤ)
    (opposite : (x y : Text) → IsOpposite (some (locale_compare x y)) (some (locale_compare y x)))
    (paced : String → Option SymbolView) where
  -- The price that the board shows of an instrument, and its traded value: the price times the shares.
  abbrev pub price_shown : SymbolDefinition → Text
  price_shown d = paced_price d (paced d.symbol)

  abbrev pub value_shown : SymbolDefinition → ℤ
  value_shown d = to_scaled_int (price_shown d) *ℤ paced_volume (paced d.symbol)

  -- By a column, `b` does not rank before `a`.
  abbrev pub NotAfter : SortColumn → SymbolDefinition → SymbolDefinition → Type 0
  NotAfter by_symbol a b = pos 0 ≤ℤ locale_compare (units b.symbol) (units a.symbol)
  NotAfter by_name a b = pos 0 ≤ℤ locale_compare (units b.name) (units a.name)
  NotAfter by_price a b = to_scaled_int (price_shown a) ≤ℤ to_scaled_int (price_shown b)
  NotAfter by_change a b =
      to_scaled_int (paced_change (paced a.symbol)) ≤ℤ to_scaled_int (paced_change (paced b.symbol))
  NotAfter by_change_percent a b =
      paced_change_percent (paced a.symbol) ≤ℤ paced_change_percent (paced b.symbol)
  NotAfter by_volume a b = paced_volume (paced a.symbol) ≤ℤ paced_volume (paced b.symbol)
  NotAfter by_value a b = value_shown a ≤ℤ value_shown b

  -- What a row has: a price that is a decimal string, and a figure to compare.
  abbrev HasFigure : SortColumn → SymbolDefinition → Type 0
  HasFigure column d =
      (is_decimal (price_shown d) ≡ true)
      × (has_value (compare_by locale_compare paced column d d) ≡ true)

  traded_value-some :
      (d : SymbolDefinition)
      → HasFigure by_value d
      → (t : Text) × (traded_value d (paced d.symbol) ≡ some t) × (to_scaled_int t ≡ value_shown d)
  unfolding traded_value compare_by multiply_by_quantity
  traded_value-some d (decimal, figure) =
      elim (Bool-cases (ltb (abs (paced_volume (paced d.symbol))) (2 ^ 53))) [
        | inl safe ↦
            let (t, is_some, ok, places, exact) =
              multiply_by_quantity-exact (price_shown d) (paced_volume (paced d.symbol)) decimal
                (ltb→lt _ _ safe) in
            (t, is_some, exact)
        | inr unsafe ↦ no_figure (rw unsafe at figure)
      ]

  compare_by-NotAfter :
      (column : SortColumn) (a b : SymbolDefinition)
      → HasFigure column a
      → HasFigure column b
      → is_first ascending (compare_by locale_compare paced column b a) ≡ false
      → NotAfter column a b
  unfolding compare_by compare
  compare_by-NotAfter by_symbol a b ha hb h = ground arith
  compare_by-NotAfter by_name a b ha hb h = ground arith
  compare_by-NotAfter by_price a b ha hb h = sign_of-le _ _ h
  compare_by-NotAfter by_change a b ha hb h = sign_of-le _ _ h
  compare_by-NotAfter by_change_percent a b ha hb h = difference-le _ _ h
  compare_by-NotAfter by_volume a b ha hb h = difference-le _ _ h
  compare_by-NotAfter by_value a b ha hb h =
      let (x, is_x, exact_x) = traded_value-some a ha in
      let (y, is_y, exact_y) = traded_value-some b hb in
      let le : to_scaled_int x ≤ℤ to_scaled_int y = sign_of-le _ _ (rw (is_x, is_y) at h) in
      rw (sym exact_x, sym exact_y) le

  -- By a column and a direction, a row stands rightly in front of another.
  abbrev pub InOrder : SortColumn → SortDirection → SymbolDefinition → SymbolDefinition → Type 0
  InOrder column ascending a b = NotAfter column a b
  InOrder column descending a b = NotAfter column b a

  comes_before-InOrder :
      (column : SortColumn) (direction : SortDirection) (a b : SymbolDefinition)
      → HasFigure column a
      → HasFigure column b
      → is_first direction (compare_by locale_compare paced column b a) ≡ false
      → InOrder column direction a b
  comes_before-InOrder column ascending a b ha hb h = compare_by-NotAfter column a b ha hb h
  comes_before-InOrder column descending a b ha hb h = compare_by-NotAfter column b a hb ha (
      turned (compare_by locale_compare paced column b a)
        (compare_by locale_compare paced column a b)
        (compare_by-IsOpposite locale_compare opposite paced column b a) h)

  abbrev pub IsRanked : SortColumn → SortDirection → List SymbolDefinition → Type 0
  IsRanked column direction [] = Unit
  IsRanked column direction (a ∷ []) = Unit
  IsRanked column direction (a ∷ b ∷ rows) =
      InOrder column direction a b × IsRanked column direction (b ∷ rows)

  IsOrdered-IsRanked :
      (state : SortState) (rows : List SymbolDefinition)
      → IsOrdered (comes_before locale_compare paced state) rows
      → All (HasFigure state.column) rows
      → IsRanked state.column state.direction rows
  unfolding comes_before
  IsOrdered-IsRanked state [] h figures = tt
  IsOrdered-IsRanked state (a ∷ []) h figures = tt
  IsOrdered-IsRanked state (a ∷ b ∷ rows) (le, h) (ha, (hb, figures)) = (
    comes_before-InOrder state.column state.direction a b ha hb le,
    IsOrdered-IsRanked state (b ∷ rows) h (hb, figures),
  )

  -- The board shows a decimal price, and a volume that is a safe integer.
  abbrev pub IsQuoted : SymbolDefinition → Type 0
  IsQuoted d = (is_decimal (price_shown d) ≡ true) × (abs (paced_volume (paced d.symbol)) < 2 ^ 53)

  IsQuoted-HasFigure :
      (column : SortColumn) (d : SymbolDefinition) → IsQuoted d → HasFigure column d
  unfolding compare_by traded_value
  IsQuoted-HasFigure by_symbol d (decimal, safe) = (decimal, refl)
  IsQuoted-HasFigure by_name d (decimal, safe) = (decimal, refl)
  IsQuoted-HasFigure by_price d (decimal, safe) = (decimal, refl)
  IsQuoted-HasFigure by_change d (decimal, safe) = (decimal, refl)
  IsQuoted-HasFigure by_change_percent d (decimal, safe) = (decimal, refl)
  IsQuoted-HasFigure by_volume d (decimal, safe) = (decimal, refl)
  IsQuoted-HasFigure by_value d (decimal, safe) =
      let (t, is_some, ok, places, exact) =
        multiply_by_quantity-exact (price_shown d) (paced_volume (paced d.symbol)) decimal safe in
      (decimal, rw is_some refl)

  all_comparable-All :
      (column : SortColumn) (items : List SymbolDefinition)
      → All IsQuoted items
      → (all_comparable locale_compare paced column items ≡ true) × All (HasFigure column) items
  all_comparable-All column [] h = (refl, tt)
  all_comparable-All column (d ∷ items) (quoted, h) =
      let (decimal, figure) = IsQuoted-HasFigure column d quoted in
      let (rest, figures) = all_comparable-All column items h in
      (rw figure rest, ((decimal, figure), figures))

  -- Where the board shows a decimal price and a safe volume of every instrument of the filtered list, and
  -- the comparison of texts turns its sign with its sides: the sort returns each row as often as it is
  -- in the list, and of two rows in a row, by the column and in the direction of the state, the second
  -- does not rank before the first: by the price, the change, the change in percent, the volume, the
  -- price times the volume, or the text.
  pub sorted-IsRanked :
      (state : SortState) (filtered : List SymbolDefinition)
      → All IsQuoted filtered
      → (rows : List SymbolDefinition) × (sorted locale_compare paced (some state) filtered
          ≡ some rows)
        × IsRanked state.column state.direction rows
        × ((p : SymbolDefinition → Bool) → length (filter p rows) ≡ length (filter p filtered))
  unfolding sorted
  sorted-IsRanked state filtered quoted =
      let (comparable, figures) = all_comparable-All state.column filtered quoted in
      let before = comes_before locale_compare paced state in
      let rows = sort before filtered in
      let sorts : sorted locale_compare paced (some state) filtered ≡ some rows =
        rw (comparable, or_true (leb (length filtered) 1)) refl in
      let (ordered, counts) =
        sorted-IsOrdered locale_compare opposite paced state filtered rows sorts in
      (
        rows,
        sorts,
        IsOrdered-IsRanked state rows ordered
            (All-sort (HasFigure state.column) before filtered figures),
        counts,
      )
