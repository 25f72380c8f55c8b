-- ===== src/Board.antt =====
-- client/Tckr.MarketWatch/src/pages/boardColumns.tsx, useBoardSort.ts and useBoardSearch.ts: the order of
-- the board, its presets, and the search. `localeCompare`, `trim`, `toLowerCase` and `includes` are
-- parameters; the view that the board paints of a symbol is a function.

pub mod Order
pub mod Ranks
use tckr.Prelude.{
  has_value, ℕ, Bool, true, false, not, ◌&&◌, ◌||◌, Option, none, some, List, [], ◌∷◌, String, leb,
  length, if◌then◌else◌, ◌==◌,
}
use tckr.Prelude.Int.{ℤ, pos, negsuc, is_neg, ◌-ℤ◌, ltb_ℤ}
use tckr.Text.{Text}
use tckr.Contracts.{SymbolDefinition}
use tckr.Decimal.{Sign3, less, equal, greater, compare, multiply_by_quantity}
use tckr.Messages.{units}
use tckr.Store.{SymbolView}
use tckr.ClosestInstruments.{sort, filter}

pub data SortColumn : Type 0 where
  by_symbol by_name by_price by_change by_change_percent by_volume by_value : SortColumn

pub data SortDirection : Type 0 where
  ascending descending : SortDirection

pub record SortState : Type 0 where
  pub column : SortColumn
  pub direction : SortDirection

-- `numeric` of `COLUMNS`.
abbrev pub is_numeric : SortColumn → Bool
is_numeric by_symbol = false
is_numeric by_name = false
is_numeric by_price = true
is_numeric by_change = true
is_numeric by_change_percent = true
is_numeric by_volume = true
is_numeric by_value = true

abbrev pub column_number : SortColumn → ℕ
column_number by_symbol = 0
column_number by_name = 1
column_number by_price = 2
column_number by_change = 3
column_number by_change_percent = 4
column_number by_volume = 5
column_number by_value = 6

abbrev pub same_column : SortColumn → SortColumn → Bool
same_column a b = column_number a == column_number b

abbrev pub reversed : SortDirection → SortDirection
reversed ascending = descending
reversed descending = ascending

abbrev pub first_direction : SortColumn → SortDirection
first_direction column = if is_numeric column then descending else ascending

unfoldable pub handle_sort : SortColumn → Option SortState → SortState
handle_sort column none = record { column = column; direction = first_direction column }
handle_sort column (some current) =
    if same_column current.column column
    then record { column = column; direction = reversed current.direction }
    else record { column = column; direction = first_direction column }

pub data Preset : Type 0 where
  exchange most_active gainers losers : Preset

-- `PRESETS.find(...)`, in their order.
unfoldable pub preset_for : Option SortState → Option Preset
preset_for none = some exchange
preset_for (some state) = elim state.column [
  | by_value ↦ elim state.direction [ descending ↦ some most_active | ascending ↦ none ]
  | by_change_percent ↦ elim state.direction [ descending ↦ some gainers | ascending ↦ some losers ]
  | _ ↦ none
]

abbrev pub paced_price : SymbolDefinition → Option SymbolView → Text
paced_price d none = d.reference_price
paced_price d (some view) = view.price

abbrev pub paced_change : Option SymbolView → Text
paced_change none = b'0' ∷ []
paced_change (some view) = view.change

abbrev pub paced_change_percent : Option SymbolView → ℤ
paced_change_percent none = pos 0
paced_change_percent (some view) = view.change_percent

abbrev pub paced_volume : Option SymbolView → ℤ
paced_volume none = pos 0
paced_volume (some view) = view.volume

-- `none` is the error of a volume that is no safe integer.
unfoldable pub traded_value : SymbolDefinition → Option SymbolView → Option Text
unfolding multiply_by_quantity
traded_value d view = multiply_by_quantity (paced_price d view) (paced_volume view)

abbrev pub sign_value : Sign3 → ℤ
sign_value less = negsuc 0
sign_value equal = pos 0
sign_value greater = pos 1

abbrev pub compare_values : Option Text → Option Text → Option ℤ
compare_values (some a) (some b) = some (sign_value (compare a b))
compare_values _ _ = none

-- `factor * compareBy(column, a, b) < 0`; false where it throws.
abbrev pub is_first : SortDirection → Option ℤ → Bool
is_first direction none = false
is_first ascending (some order) = is_neg order
is_first descending (some order) = ltb_ℤ (pos 0) order

module _ (locale_compare : Text → Text → ℤ) (paced : String → Option SymbolView) where
  -- `none` where `tradedValue` throws.
  unfoldable pub compare_by : SortColumn → SymbolDefinition → SymbolDefinition → Option ℤ
  unfolding traded_value compare
  compare_by by_symbol a b = some (locale_compare (units a.symbol) (units b.symbol))
  compare_by by_name a b = some (locale_compare (units a.name) (units b.name))
  compare_by by_price a b =
      some (sign_value (compare (paced_price a (paced a.symbol)) (paced_price b (paced b.symbol))))
  compare_by by_change a b =
      some (sign_value (compare (paced_change (paced a.symbol)) (paced_change (paced b.symbol))))
  compare_by by_change_percent a b =
      some (paced_change_percent (paced a.symbol) -ℤ paced_change_percent (paced b.symbol))
  compare_by by_volume a b = some (paced_volume (paced a.symbol) -ℤ paced_volume (paced b.symbol))
  compare_by by_value a b =
      compare_values (traded_value a (paced a.symbol)) (traded_value b (paced b.symbol))

  unfoldable pub comes_before : SortState → SymbolDefinition → SymbolDefinition → Bool
  unfolding compare_by
  comes_before state a b = is_first state.direction (compare_by state.column a b)

  abbrev pub all_comparable : SortColumn → List SymbolDefinition → Bool
  all_comparable column [] = true
  all_comparable column (d ∷ items) =
      has_value (compare_by column d d) && all_comparable column items

  -- `sorted`; a sort of two items or more compares each of them, so it throws if one has no value.
  unfoldable pub sorted : Option SortState → List SymbolDefinition → Option (List SymbolDefinition)
  unfolding sort comes_before compare_by
  sorted none filtered = some filtered
  sorted (some state) filtered =
      if leb (length filtered) 1 || all_comparable state.column filtered
      then some (sort (comes_before state) filtered)
      else none

module _ (trim to_lower_case : Text → Text) (includes : Text → Text → Bool) where
  abbrev pub is_found : Text → SymbolDefinition → Bool
  is_found query d =
      includes (to_lower_case (units d.symbol)) query
      || includes (to_lower_case (units d.name)) query

  -- `filtered` of `useBoardSearch`; `none` is a universe that has not arrived.
  unfoldable pub filtered : Option (List SymbolDefinition) → Text → List SymbolDefinition
  unfolding filter
  filtered none debounced_query = []
  filtered (some universe) debounced_query =
      let query = to_lower_case (trim debounced_query) in
      if length query == 0 then universe else filter (is_found query) universe
