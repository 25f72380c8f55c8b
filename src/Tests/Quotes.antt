-- ===== src/Tests/Quotes.antt =====
-- The theorems on data/config.ts and pages/useDetailQuote.ts at concrete inputs.
use tckr.Prelude.{
  ◌≡◌, ◌↔◌, refl, true, false, some, none, List, [], ◌∷◌, String, str_eq, if◌then◌else◌,
}
use tckr.Prelude.Int.{ℤ, pos, ◌+ℤ◌}
use tckr.Contracts.{Stream, live, delayed, Tick, trade}
use tckr.ClientConfig.{
  Environment, no_overrides, resolved, refused, simulated_in_production, merged_config,
  resolve_client_config, read_env_flag, read_env_string, read_env_count, read_source, base_config,
}
use tckr.ClientConfig.Guards.{SourceAllowed, ClockAllowed, resolve_client_config_iff}
use tckr.ClientConfig.Shared.{
  Request, get, reset, reconnect, absent, IsLived, serve_each, serve_each-IsLived,
}
use tckr.DetailQuote.{ready}
use tckr.DetailQuote.Page.{Builtins, DetailQuoteState, mounted, entitlement_changed, beat}
use tckr.DetailQuote.Events.{Event, tick_received, beat_due, effect_due, run}
use tckr.DetailQuote.Streams.{IsOf, run-entitlement_changed}
use tckr.DetailQuote.Volumes.{
  arrive_each, shown, IsPainted, pending_first, own_ticks, traded, beat-arrive_each,
}
use tckr.Tests.Clocks.{standard_time}

-- A production build in which only the source's kind is set.
abbrev production : String → Environment
production kind = record {
  variable = λ key. if str_eq key "VITE_TCKR_SOURCE" then some kind else none;
  prod = true;
  now_ms = pos 1795687200000;
  number_of = λ raw. none;
  cairo_formatter = standard_time;
  trim = λ text. text;
  to_lower_case = λ text. text;
}

unset_is_refused :
    resolve_client_config (production "") no_overrides ≡ refused simulated_in_production
unfolding resolve_client_config merged_config base_config read_source read_env_string read_env_count
    read_env_flag
unset_is_refused = refl

resolve_client_config_iff_example :
    let config = merged_config (production "gateway") no_overrides in
    (resolve_client_config (production "gateway") no_overrides ≡ resolved config) ↔ (
      SourceAllowed (production "gateway") config.source
      × ClockAllowed (production "gateway") config.source config.simulated.clock)
resolve_client_config_iff_example = resolve_client_config_iff (production "gateway") no_overrides

abbrev requests : List (Environment × Request)
requests =
    (production "", get)
    ∷ (production "gateway", get)
    ∷ (production "gateway", get)
    ∷ (production "gateway", reconnect)
    ∷ (production "gateway", reset)
    ∷ (production "gateway", reconnect)
    ∷ []

serve_each-IsLived_example : IsLived absent (serve_each requests none)
serve_each-IsLived_example = serve_each-IsLived requests

abbrev builtins : Builtins
builtins = record {
  format_percent_figure = λ value. "+0.00";
  parse_date = λ text. pos 0;
  trim = λ text. text;
  to_lower_case = λ text. text;
  words = λ text. (text, []);
  locale_less = λ a b. false;
}

abbrev tick_of : String → String → ℤ → Stream → Tick
tick_of symbol time quantity stream = record {
  s = symbol;
  p = 56 ∷ 50 ∷ [];
  q = quantity;
  k = trade;
  t = time;
  id = "evt-000000000001";
  st = stream;
}

-- A page that holds two ticks of the old stream.
abbrev old_page : DetailQuoteState
old_page = record (mounted "COMI") {
  phase = ready;
  queued_tick = some (tick_of "COMI" "2026-11-26T10:00:00.000Z" (pos 5) delayed);
  pending_tick = some (tick_of "COMI" "2026-11-26T10:00:01.000Z" (pos 5) delayed);
}

abbrev new_events : List Event
new_events =
    tick_received (tick_of "COMI" "2026-11-26T10:00:02.000Z" (pos 20) live)
    ∷ beat_due
    ∷ effect_due
    ∷ []

run-entitlement_changed_example : IsOf live (run builtins new_events (entitlement_changed old_page))
run-entitlement_changed_example =
    run-entitlement_changed live builtins new_events old_page (refl, (tt, (tt, tt)))

abbrev burst : List Tick
burst =
    tick_of "COMI" "2026-11-26T10:00:02.000Z" (pos 20) live
    ∷ tick_of "HRHO" "2026-11-26T10:00:03.000Z" (pos 300) live
    ∷ tick_of "COMI" "2026-11-26T10:00:01.000Z" (pos 50) live
    ∷ []

-- 70 of the page's symbol were traded, and the tick that came last is not the latest.
burst_volume : traded "COMI" burst ≡ pos 70
unfolding ◌+ℤ◌
burst_volume = refl

beat-arrive_each_example :
    IsPainted builtins.format_percent_figure old_page
      (pending_first old_page.pending_tick (own_ticks "COMI" burst))
      (old_page.volume_baseline +ℤ (old_page.volume_since_baseline +ℤ traded "COMI" burst))
      (beat builtins.format_percent_figure (arrive_each burst (shown old_page))).quote
unfolding mounted
beat-arrive_each_example = beat-arrive_each builtins.format_percent_figure burst old_page
