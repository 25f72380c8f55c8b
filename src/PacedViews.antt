-- ===== src/PacedViews.antt =====
-- client/Tckr.MarketWatch/src/display/pacedViews.ts: the views as last painted, and the beat that brings
-- them up to the store. `===` of two views is the parameter `is_same`; a listener is known by a
-- number, a timer by the time it is due, and each operation returns the calls that it makes, in
-- order. Listeners are taken not to subscribe or write to the store while they are called.
pub mod Events
pub mod Ticking
pub mod Painting
pub mod Between
use tckr.Prelude.{
  ℕ, zero, suc, ◌+◌, ◌*◌, ◌/◌, Bool, true, false, not, Option, none, some, List, [], ◌∷◌, ◌++◌,
  ◌&&◌, ◌||◌, ◌==◌, if◌then◌else◌, String,
}
use tckr.JsMap.{JsMap, lookup, insert, remove}
use tckr.Store.{Store, SymbolView, get_symbol_snapshot, add_listener, delete_listener}

-- `entry_id` tells an entry from a later one of the same symbol.
pub record PacedEntry : Type 0 where
  pub entry_id : ℕ
  pub view : Option SymbolView
  pub listeners : List ℕ

pub record PacedViews : Type 0 where
  pub entries : JsMap PacedEntry
  pub beat_listeners : List ℕ
  pub beat_timer : Option ℕ
  pub is_watching_discards : Bool
  pub next_entry_id : ℕ

abbrev pub no_paced_views : PacedViews
no_paced_views = record {
  entries = [];
  beat_listeners = [];
  beat_timer = none;
  is_watching_discards = false;
  next_entry_id = 0;
}

abbrev pub display_refresh_interval_ms : ℕ
display_refresh_interval_ms = 10000

abbrev pub is_empty {ℓ} : {A : Type ℓ} → List A → Bool
is_empty [] = true
is_empty (a ∷ as_list) = false

-- `entries.size === 0 && beatListeners.size === 0`
abbrev pub is_idle : PacedViews → Bool
is_idle p = is_empty p.entries && is_empty p.beat_listeners

abbrev pub is_set : Option ℕ → Bool
is_set none = false
is_set (some due) = true

unfoldable pub schedule : ℕ → PacedViews → PacedViews
schedule now p = if is_set p.beat_timer || is_idle p then p else record p {
  beat_timer = some ((now / display_refresh_interval_ms + 1) * display_refresh_interval_ms);
}

unfoldable pub start : ℕ → PacedViews → PacedViews
unfolding schedule
start now p = schedule now (record p { is_watching_discards = true })

unfoldable pub stop_if_idle : PacedViews → PacedViews
stop_if_idle p =
    if not (is_idle p) then p else record p { beat_timer = none; is_watching_discards = false }

abbrev pub painted_of : Option PacedEntry → Option SymbolView → Option SymbolView
painted_of none in_store = in_store
painted_of (some entry) in_store = entry.view

unfoldable pub get_paced_symbol_snapshot : String → Store → PacedViews → Option SymbolView
get_paced_symbol_snapshot symbol store p =
    painted_of (lookup symbol p.entries) (get_symbol_snapshot symbol store)

abbrev pub entry_or_new : String → Store → PacedViews → Option PacedEntry → PacedEntry
entry_or_new symbol store p (some entry) = entry
entry_or_new symbol store p none = record {
  entry_id = p.next_entry_id;
  view = get_symbol_snapshot symbol store;
  listeners = [];
}

-- With the id of the entry that the returned function keeps.
unfoldable pub subscribe_paced_symbol : String → ℕ → ℕ → Store → PacedViews → PacedViews × ℕ
unfolding start
subscribe_paced_symbol symbol cb now store p =
    let active = entry_or_new symbol store p (lookup symbol p.entries) in
    (
      start now (record p {
        entries =
            insert symbol (record active { listeners = add_listener cb active.listeners })
              p.entries;
        next_entry_id = p.next_entry_id + 1;
      }),
      active.entry_id,
    )

abbrev pub without_listener : String → ℕ → ℕ → PacedViews → Option PacedEntry → PacedViews
without_listener symbol cb id p none = p
without_listener symbol cb id p (some entry) =
    let left = delete_listener cb entry.listeners in
    if not (entry.entry_id == id)
    then p
    else if is_empty left
    then record p { entries = remove symbol p.entries }
    else record p { entries = insert symbol (record entry { listeners = left }) p.entries }

-- The function that `subscribePacedSymbol` returns; an entry that has left the map is not seen again.
unfoldable pub unsubscribe_paced_symbol : String → ℕ → ℕ → PacedViews → PacedViews
unfolding stop_if_idle
unsubscribe_paced_symbol symbol cb id p =
    stop_if_idle (without_listener symbol cb id p (lookup symbol p.entries))

unfoldable pub subscribe_beat : ℕ → ℕ → PacedViews → PacedViews
unfolding start
subscribe_beat cb now p = start now (record p { beat_listeners = add_listener cb p.beat_listeners })

unfoldable pub unsubscribe_beat : ℕ → PacedViews → PacedViews
unfolding stop_if_idle
unsubscribe_beat cb p =
    stop_if_idle (record p { beat_listeners = delete_listener cb p.beat_listeners })

abbrev pub published_entry :
    String → PacedViews → Option (PacedEntry × List ℕ) → PacedViews × List ℕ
published_entry symbol p none = (p, [])
published_entry symbol p (some (entry, calls)) =
    (record p { entries = insert symbol entry p.entries }, calls)

module _ (is_same : SymbolView → SymbolView → Bool) where
  -- `next === entry.view`
  abbrev pub is_same_view : Option SymbolView → Option SymbolView → Bool
  is_same_view none none = true
  is_same_view none (some w) = false
  is_same_view (some v) none = false
  is_same_view (some v) (some w) = is_same v w

  unfoldable pub publish : String → Store → PacedEntry → PacedEntry × List ℕ
  publish symbol store entry =
      let next = get_symbol_snapshot symbol store in
      if is_same_view next entry.view
      then (entry, [])
      else (record entry { view = next }, entry.listeners)

  unfoldable pub publish_all : Store → JsMap PacedEntry → JsMap PacedEntry × List ℕ
  unfolding publish
  publish_all store [] = ([], [])
  publish_all store ((symbol, entry) ∷ entries) =
      let published = publish symbol store entry in
      let rest = publish_all store entries in
      ((symbol, published.0) ∷ rest.0, published.1 ++ rest.1)

  -- What a stream discard calls, while it is watched.
  unfoldable pub stream_discarded : Store → PacedViews → PacedViews × List ℕ
  unfolding publish_all
  stream_discarded store p =
      let published = publish_all store p.entries in
      (record p { entries = published.0 }, published.1)

  unfoldable pub beat : ℕ → Store → PacedViews → PacedViews × List ℕ
  unfolding stream_discarded schedule
  beat now store p =
      let published = stream_discarded store (record p { beat_timer = none }) in
      (schedule now (published.0), published.1 ++ p.beat_listeners)

  abbrev pub publish_found : String → Store → Option PacedEntry → Option (PacedEntry × List ℕ)
  publish_found symbol store none = none
  publish_found symbol store (some entry) = some (publish symbol store entry)

  unfoldable pub flush_paced_symbol : String → Store → PacedViews → PacedViews × List ℕ
  flush_paced_symbol symbol store p =
      published_entry symbol p (publish_found symbol store (lookup symbol p.entries))
