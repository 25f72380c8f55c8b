-- ===== src/Tests/Pages.antt =====
-- The paced views and the suggestions at concrete inputs.
use tckr.Prelude.{
  ℕ, ◌+◌, ◌%◌, ◌≤◌, ◌<◌, ◌≡◌, refl, Bool, true, false, none, some, List, [], ◌∷◌, String, arith,
}
use tckr.Prelude.Int.{pos}
use tckr.Text.{Text}
use tckr.Messages.{units}
use tckr.JsMap.{lookup, insert}
use tckr.Contracts.{live, SymbolDefinition}
use tckr.ClosestInstruments.{
  edit_distance, all_rows, next_row, fill, count_up, closest_instruments, offered, candidates,
  ticker_matches, sort, insert_sorted, filter, distance, rank, symbol_distance, name_distance,
  least_of, distance_of, is_ticker_shaped, allowed_distance,
}
use tckr.ClosestInstruments.Edits.{IsDistance}
use tckr.ClosestInstruments.Rows.{edit_distance-IsDistance}
use tckr.Store.{Store, SymbolView, get_symbol_snapshot}
use tckr.PacedViews.{
  PacedViews, no_paced_views, display_refresh_interval_ms, get_paced_symbol_snapshot,
  subscribe_paced_symbol, subscribe_beat, start, schedule, publish, publish_all, stream_discarded,
  beat,
}
use tckr.PacedViews.Events.{PacedEvent, symbol_subscribed, beat_subscribed, paced_run, IsTicking}
use tckr.PacedViews.Ticking.{paced_run-IsTicking}
use tckr.PacedViews.Painting.{beat-paints}
use tckr.PacedViews.Between.{view_in, run-keeps_painted}

abbrev comi_view : Text → SymbolView
comi_view price = record {
  symbol = "COMI";
  name = "CIB";
  price = price;
  change = units "0";
  change_percent = pos 0;
  volume = pos 100;
  last_update = 5;
  stream = live;
}

abbrev store_of : Text → Store
store_of price = record {
  records = ("COMI", record { view = some (comi_view price); listeners = [] }) ∷ [];
  meta = [];
  symbol_list = "COMI" ∷ [];
  stream_discard_listeners = [];
}

-- Two views that are read at different times are taken to be different objects.
abbrev never_same : SymbolView → SymbolView → Bool
never_same v w = false

never_same-equal : (v w : SymbolView) → never_same v w ≡ true → v ≡ w
never_same-equal v w e = ground arith

abbrev subscriptions : List (PacedEvent × ℕ × Store)
subscriptions =
    (symbol_subscribed "COMI" 1, 12345, store_of (units "81"))
    ∷ (beat_subscribed 7, 12400, store_of (units "82"))
    ∷ (symbol_subscribed "HRHO" 2, 13000, store_of (units "83"))
    ∷ []

-- The board after these subscriptions: COMI is painted as it was at the first of them.
abbrev board : PacedViews
board = record {
  entries =
      ("COMI", record { entry_id = 0; view = some (comi_view (units "81")); listeners = 1 ∷ [] })
      ∷ ("HRHO", record { entry_id = 1; view = none; listeners = 2 ∷ [] })
      ∷ [];
  beat_listeners = 7 ∷ [];
  beat_timer = some 20000;
  is_watching_discards = true;
  next_entry_id = 2;
}

board_reached : paced_run never_same subscriptions no_paced_views ≡ board
unfolding paced_run subscribe_paced_symbol subscribe_beat start schedule lookup insert
    get_symbol_snapshot
board_reached = refl

beat_calls : (beat never_same 20001 (store_of (units "83")) board).1 ≡ 1 ∷ 7 ∷ []
unfolding beat stream_discarded publish_all publish get_symbol_snapshot lookup
beat_calls = refl

paced_run-IsTicking_example : IsTicking (paced_run never_same subscriptions no_paced_views)
paced_run-IsTicking_example = paced_run-IsTicking never_same subscriptions

beat-paints_example :
    (get_paced_symbol_snapshot "COMI"
        (store_of (units "83"))
        ((beat never_same 20001 (store_of (units "83")) board).0)
      ≡ get_symbol_snapshot "COMI" (store_of (units "83")))
    × ((due : ℕ) × (((beat never_same 20001 (store_of (units "83")) board).0).beat_timer ≡ some due)
        × (due % display_refresh_interval_ms ≡ 0)
        × (20001 < due)
        × (due ≤ 20001 + display_refresh_interval_ms))
beat-paints_example =
    beat-paints never_same never_same-equal 20001 (store_of (units "83")) board "COMI" refl

comi_painted : view_in "COMI" board.entries ≡ some (some (comi_view (units "81")))
unfolding lookup
comi_painted = refl

run-keeps_painted_example :
    get_paced_symbol_snapshot "COMI"
      (store_of (units "84"))
      (paced_run never_same subscriptions board)
    ≡ some (comi_view (units "81"))
run-keeps_painted_example =
    run-keeps_painted never_same subscriptions (store_of (units "84")) board "COMI"
      (some (comi_view (units "81"))) refl comi_painted

-- "COMY" for COMI, and what is suggested for it where texts are lower-case already.
comi_distance : edit_distance (units "comy") (units "comi") ≡ some 1
unfolding edit_distance all_rows next_row fill count_up units
comi_distance = refl

kitten_distance : edit_distance (units "kitten") (units "sitting") ≡ some 3
unfolding edit_distance all_rows next_row fill count_up units
kitten_distance = refl

edit_distance-IsDistance_example :
    (n : ℕ) × (edit_distance (units "comy") (units "comi") ≡ some n)
    × IsDistance (units "comy") (units "comi") n
edit_distance-IsDistance_example = edit_distance-IsDistance (units "comy") (units "comi")

abbrev unchanged : Text → Text
unchanged s = s

abbrev one_word : Text → Text × List Text
one_word s = (s, [])

abbrev never_less : Text → Text → Bool
never_less s t = false

abbrev instrument : String → SymbolDefinition
instrument symbol = record {
  symbol = symbol;
  name = "company";
  currency = "EGP";
  tick_size = units "0.01";
  lot_size = pos 1;
  reference_price = units "10";
}

abbrev instruments : List SymbolDefinition
instruments = instrument "hrho" ∷ instrument "comi" ∷ instrument "swdy" ∷ []

comi_suggested :
    closest_instruments unchanged unchanged one_word never_less (units "comy") instruments 3
    ≡ instrument "comi" ∷ []
unfolding closest_instruments offered candidates ticker_matches sort insert_sorted filter distance
    rank symbol_distance name_distance least_of distance_of edit_distance all_rows next_row fill
    count_up units is_ticker_shaped allowed_distance
comi_suggested = refl
