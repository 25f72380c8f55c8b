-- ===== src/Tests/Board.antt =====
-- The order of the board at a concrete list.
use tckr.Prelude.{ℕ, ◌≡◌, refl, Bool, Option, none, some, All, arith, List, [], ◌∷◌, String, length}
use tckr.Prelude.Int.{ℤ, pos, ◌-ℤ◌}
use tckr.Text.{Text}
use tckr.JsMap.{lookup}
use tckr.Messages.{units}
use tckr.Contracts.{live, SymbolDefinition}
use tckr.Store.{SymbolView}
use tckr.ClosestInstruments.{sort, insert_sorted, filter}
use tckr.Board.{SortState, by_volume, descending, handle_sort, sorted, comes_before, compare_by}
use Prim.{tt}
use tckr.Decimal.{is_decimal}
use tckr.Board.Order.{difference-IsOpposite}
use tckr.Board.Ranks.{IsQuoted, IsRanked, sorted-IsRanked}

abbrev listed : String → SymbolDefinition
listed symbol = record {
  symbol = symbol;
  name = "company";
  currency = "EGP";
  tick_size = units "0.01";
  lot_size = pos 1;
  reference_price = units "10";
}

abbrev traded : String → ℕ → SymbolView
traded symbol volume = record {
  symbol = symbol;
  name = "company";
  price = units "10";
  change = units "0";
  change_percent = pos 0;
  volume = pos volume;
  last_update = 5;
  stream = live;
}

abbrev painted : String → Option SymbolView
painted symbol =
    lookup symbol
      (("COMI", traded "COMI" 300) ∷ ("HRHO", traded "HRHO" 100) ∷ ("SWDY", traded "SWDY" 200) ∷ [])

abbrev by_length : Text → Text → ℤ
by_length x y = pos (length x) -ℤ pos (length y)

abbrev by_most_volume : SortState
by_most_volume = handle_sort by_volume none

abbrev exchange_order : List SymbolDefinition
exchange_order = listed "HRHO" ∷ listed "COMI" ∷ listed "SWDY" ∷ []

abbrev volume_order : List SymbolDefinition
volume_order = listed "COMI" ∷ listed "SWDY" ∷ listed "HRHO" ∷ []

by_volume_sorted : sorted by_length painted (some by_most_volume) exchange_order ≡ some volume_order
unfolding sorted comes_before compare_by sort insert_sorted lookup handle_sort ◌-ℤ◌
by_volume_sorted = refl

third_click :
    (handle_sort by_volume (some (handle_sort by_volume (some by_most_volume)))).direction
    ≡ descending
unfolding handle_sort
third_click = refl

exchange_order-IsQuoted :
    All
      (IsQuoted by_length (λ x y. difference-IsOpposite (pos (length x)) (pos (length y))) painted)
      exchange_order
unfolding is_decimal lookup units
exchange_order-IsQuoted = ((refl, omega arith), ((refl, omega arith), ((refl, omega arith), tt)))

sorted-IsRanked_example :
    (rows : List SymbolDefinition) × (sorted by_length painted (some by_most_volume) exchange_order
      ≡ some rows)
    × IsRanked by_length
        (λ x y. difference-IsOpposite (pos (length x)) (pos (length y)))
        painted
        by_most_volume.column
        by_most_volume.direction
        rows
    × ((p : SymbolDefinition → Bool) → length (filter p rows) ≡ length (filter p exchange_order))
sorted-IsRanked_example =
    sorted-IsRanked by_length (λ x y. difference-IsOpposite (pos (length x)) (pos (length y)))
      painted by_most_volume exchange_order exchange_order-IsQuoted
