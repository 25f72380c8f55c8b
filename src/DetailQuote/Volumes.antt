-- ===== src/DetailQuote/Volumes.antt =====
-- pages/useDetailQuote.ts: what a beat paints of the ticks that arrived before it, and the volume.
use tckr.Prelude.{
  ◌≡◌, refl, ap, ◌⊎◌, true, sym, ◌∙◌, false, Option, none, some, List, [], ◌∷◌, str_eq, String,
  Bool-cases, inl, inr, if◌then◌else◌,
}
use tckr.Prelude.Int.{ℤ, pos, ◌+ℤ◌, +ℤ_assoc, +ℤ-zero}
use tckr.Contracts.{Tick}
use tckr.DetailQuote.{DetailQuote, ready, merge_tick_into_quote, or_price, str_lt}
use tckr.DetailQuote.Latest.{IsLatest, kept_latest, kept_latest-IsLatest}
use tckr.Text.{Text}
use tckr.Decimal.{subtract}
use tckr.Decimal.Percent.{percent_change}
use mathlib.Core.Path.{subst}
use Prim.{tt}
use tckr.DetailQuote.Page.{
  DetailQuoteState, painted, beat, latest_tick, tick_arrived, throttled_apply_tick,
}

abbrev pub arrive_each : List Tick → DetailQuoteState → DetailQuoteState
arrive_each [] d = d
arrive_each (tick ∷ ticks) d = arrive_each ticks (tick_arrived tick d)

-- How much the ticks of the page's symbol traded, and which of them is painted.
abbrev pub traded : String → List Tick → ℤ
traded symbol [] = pos 0
traded symbol (tick ∷ ticks) =
    if str_eq tick.s symbol then tick.q +ℤ traded symbol ticks else traded symbol ticks

abbrev latest_each : String → Option Tick → List Tick → Option Tick
latest_each symbol pending [] = pending
latest_each symbol pending (tick ∷ ticks) =
    if str_eq tick.s symbol
    then latest_each symbol (some (latest_tick pending tick)) ticks
    else latest_each symbol pending ticks

-- The page while it is open, with its snapshot rendered.
abbrev pub shown : DetailQuoteState → DetailQuoteState
shown d = record d { phase = ready; cancelled = false }

-- The page after ticks of which the latest is pending, and which traded a quantity.
abbrev arrived : Option Tick → ℤ → DetailQuoteState → DetailQuoteState
arrived pending quantity d = record d {
  pending_tick = pending;
  volume_since_baseline = d.volume_since_baseline +ℤ quantity;
}

arrive_each-shown :
    (ticks : List Tick) (d : DetailQuoteState)
    → arrive_each ticks (shown d)
      ≡ shown (arrived (latest_each d.symbol d.pending_tick ticks) (traded d.symbol ticks) d)
unfolding tick_arrived throttled_apply_tick
arrive_each-shown [] d =
    ap (λ (v : ℤ). shown (record d { volume_since_baseline = v }))
      (sym (+ℤ-zero d.volume_since_baseline))
arrive_each-shown (tick ∷ ticks) d = elim (Bool-cases (str_eq tick.s d.symbol)) [
  | inl own ↦
      let counted : DetailQuoteState = arrived (some (latest_tick d.pending_tick tick)) tick.q d in
      rw own (
        arrive_each-shown ticks counted
        ∙ ap
            (λ (v : ℤ). shown (record d {
              pending_tick = latest_each d.symbol (some (latest_tick d.pending_tick tick)) ticks;
              volume_since_baseline = v;
            }))
            (+ℤ_assoc d.volume_since_baseline tick.q (traded d.symbol ticks)))
  | inr other ↦ rw other (arrive_each-shown ticks d)
]

abbrev painted_quote : (ℤ → String) → DetailQuoteState → Option Tick → ℤ → Option DetailQuote
painted_quote format_percent_figure d none quantity = d.quote
painted_quote format_percent_figure d (some tick) quantity =
    merge_tick_into_quote format_percent_figure d.quote tick d.baseline
      (d.volume_baseline +ℤ (d.volume_since_baseline +ℤ quantity))

painted-shown :
    (format_percent_figure : ℤ → String) (pending : Option Tick) (quantity : ℤ)
    (d : DetailQuoteState)
    → (painted format_percent_figure pending (shown (arrived pending quantity d))).quote
      ≡ painted_quote format_percent_figure d pending quantity
painted-shown format_percent_figure none quantity d = refl
painted-shown format_percent_figure (some tick) quantity d = refl

-- The ticks of the page's symbol.
abbrev pub own_ticks : String → List Tick → List Tick
own_ticks symbol [] = []
own_ticks symbol (tick ∷ ticks) =
    if str_eq tick.s symbol then tick ∷ own_ticks symbol ticks else own_ticks symbol ticks

abbrev pub pending_first : Option Tick → List Tick → List Tick
pending_first none ticks = ticks
pending_first (some pending) ticks = pending ∷ ticks

abbrev latest_of : List Tick → Option Tick
latest_of [] = none
latest_of (tick ∷ ticks) = some (kept_latest tick ticks)

latest_each_lem :
    (symbol : String) (pending : Option Tick) (ticks : List Tick)
    → latest_each symbol pending ticks ≡ latest_of (pending_first pending (own_ticks symbol ticks))
latest_each_lem symbol none [] = refl
latest_each_lem symbol (some pending) [] = refl
latest_each_lem symbol none (tick ∷ ticks) = elim (Bool-cases (str_eq tick.s symbol)) [
  | inl own ↦ rw own (latest_each_lem symbol (some tick) ticks)
  | inr other ↦ rw other (latest_each_lem symbol none ticks)
]
latest_each_lem symbol (some pending) (tick ∷ ticks) = elim (Bool-cases (str_eq tick.s symbol)) [
  | inl own ↦ rw own (latest_each_lem symbol (some (latest_tick (some pending) tick)) ticks)
  | inr other ↦ rw other (latest_each_lem symbol (some pending) ticks)
]

-- A quote with the price, the time and the stream of a tick, a volume, and the change since a baseline.
abbrev pub IsQuoteOf : (ℤ → String) → Tick → Text → ℤ → DetailQuote → Type 0
IsQuoteOf format_percent_figure tick baseline volume quote =
    (quote.price ≡ tick.p)
    × (quote.volume ≡ volume)
    × (quote.exchange_timestamp ≡ tick.t)
    × (quote.stream ≡ tick.st)
    × (quote.change ≡ subtract tick.p baseline)
    × (quote.change_percent_text ≡ format_percent_figure (percent_change baseline tick.p))

-- The quote is none yet, or earlier than a time.
abbrev pub IsBefore : Option DetailQuote → String → Type 0
IsBefore none time = Unit
IsBefore (some quote) time = str_lt quote.exchange_timestamp time ≡ true

abbrev pub IsNotBefore : Option DetailQuote → String → Type 0
IsNotBefore none time = ⊥
IsNotBefore (some quote) time = str_lt quote.exchange_timestamp time ≡ false

-- A tick that is later than the quote takes its place, and another leaves it as it is.
abbrev pub IsMerged :
    (ℤ → String) → Option DetailQuote → Option Text → Tick → ℤ → Option DetailQuote → Type 0
IsMerged format_percent_figure prev baseline tick volume after =
    (IsBefore prev tick.t
      × (quote : DetailQuote) × (after ≡ some quote)
      × IsQuoteOf format_percent_figure tick (or_price baseline tick.p) volume quote)
    ⊎ (IsNotBefore prev tick.t × (after ≡ prev))

merge-IsMerged :
    (format_percent_figure : ℤ → String) (prev : Option DetailQuote) (baseline : Option Text)
    (tick : Tick) (volume : ℤ)
    → IsMerged format_percent_figure prev baseline tick volume
        (merge_tick_into_quote format_percent_figure prev tick baseline volume)
unfolding merge_tick_into_quote
merge-IsMerged format_percent_figure none baseline tick volume =
    inl (tt, _, refl, (refl, refl, refl, refl, refl, refl))
merge-IsMerged format_percent_figure (some quote) baseline tick volume =
    elim (Bool-cases (str_lt quote.exchange_timestamp tick.t)) [
      | inl later ↦ rw later (inl (refl, _, refl, (refl, refl, refl, refl, refl, refl)))
      | inr earlier ↦ rw earlier (inr (refl, refl))
    ]

-- What is shown after the ticks that waited: the latest of them is merged, where there is any.
abbrev pub IsPainted : (ℤ → String) → DetailQuoteState → List Tick → ℤ → Option DetailQuote → Type 0
IsPainted format_percent_figure d [] volume after = after ≡ d.quote
IsPainted format_percent_figure d (tick ∷ ticks) volume after =
    (latest : Tick) × IsLatest (tick ∷ ticks) latest
    × IsMerged format_percent_figure d.quote d.baseline latest volume after

painted_quote-IsPainted :
    (format_percent_figure : ℤ → String) (d : DetailQuoteState) (waiting : List Tick) (quantity : ℤ)
    → IsPainted format_percent_figure d waiting
        (d.volume_baseline +ℤ (d.volume_since_baseline +ℤ quantity))
        (painted_quote format_percent_figure d (latest_of waiting) quantity)
painted_quote-IsPainted format_percent_figure d [] quantity = refl
painted_quote-IsPainted format_percent_figure d (tick ∷ ticks) quantity = (
  kept_latest tick ticks,
  kept_latest-IsLatest tick ticks,
  merge-IsMerged format_percent_figure d.quote d.baseline (kept_latest tick ticks) _,
)

-- On an open page whose snapshot has rendered, a beat after any ticks looks at the one that waited and
-- those of the page's symbol, and at the latest of them alone, of equal times the last to come. Where it is
-- later than the quote, or there is none, the quote becomes its own: its price, time and stream, its
-- change since the baseline, and a volume that counts every tick of the symbol since the snapshot. Else
-- the quote stays.
pub beat-arrive_each :
    (format_percent_figure : ℤ → String) (ticks : List Tick) (d : DetailQuoteState)
    → IsPainted format_percent_figure d
        (pending_first d.pending_tick (own_ticks d.symbol ticks))
        (d.volume_baseline +ℤ (d.volume_since_baseline +ℤ traded d.symbol ticks))
        (beat format_percent_figure (arrive_each ticks (shown d))).quote
unfolding beat
beat-arrive_each format_percent_figure ticks d =
    let quantity = traded d.symbol ticks in
    let waiting = pending_first d.pending_tick (own_ticks d.symbol ticks) in
    let volume = d.volume_baseline +ℤ (d.volume_since_baseline +ℤ quantity) in
    let is_painted =
      ap (λ (e : DetailQuoteState). (beat format_percent_figure e).quote)
        (arrive_each-shown ticks d)
      ∙ painted-shown format_percent_figure (latest_each d.symbol d.pending_tick ticks) quantity d
      ∙ ap (λ (t : Option Tick). painted_quote format_percent_figure d t quantity)
          (latest_each_lem d.symbol d.pending_tick ticks) in
    subst (IsPainted format_percent_figure d waiting volume) (sym is_painted)
      (painted_quote-IsPainted format_percent_figure d waiting quantity)
