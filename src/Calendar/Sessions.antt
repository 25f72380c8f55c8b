-- ===== src/Calendar/Sessions.antt =====
-- The market's status: which session it shows, and when the next one opens.
use Prim.{Unit, tt}
use mathlib.Core.Path.{subst}
use tckr.Prelude.{
  ◌≡◌, refl, Bool, true, false, not, ◌&&◌, Option, none, some, if◌then◌else◌, ◌⊎◌, inl, inr,
}
use tckr.Prelude.Int.{ℤ, pos, negsuc, ltb_ℤ}
use tckr.Messages.{◌>>=◌}
use tckr.Calendar.{FormattedParts, DateKey, is_trading_day, get_cairo_parts, cairo_date_key, walk}
use tckr.Calendar.Walk.{IsNearest, MovesWeekday, walk-IsNearest_iff, walk_finds}
use tckr.Calendar.Market.{
  Session, MarketStatus, opened, closed, session_on, open_at, close_at, get_market_status,
  previous_trading_date_key, next_trading_date_key,
}

module _ (cairo_formatter : ℤ → FormattedParts) (now_ms : ℤ) where
  abbrev today : DateKey
  today = cairo_date_key cairo_formatter now_ms

  abbrev trades_today : Bool
  trades_today = is_trading_day ((get_cairo_parts cairo_formatter now_ms).weekday)

  abbrev HasOpened : Type 0
  HasOpened = ltb_ℤ now_ms (open_at cairo_formatter today) ≡ false

  abbrev HasClosed : Type 0
  HasClosed = ltb_ℤ now_ms (close_at cairo_formatter today) ≡ false

  -- The session of today where it has ended, otherwise that of the nearest day before that trades.
  abbrev IsLastSession : Session → Type 0
  IsLastSession session =
      ((session ≡ session_on cairo_formatter today) × (trades_today ≡ true) × HasClosed)
      ⊎ ((day : DateKey) × (session ≡ session_on cairo_formatter day)
          × IsNearest cairo_formatter 7 (negsuc 0) today day
          × ((trades_today ≡ false) ⊎ (ltb_ℤ now_ms (open_at cairo_formatter today) ≡ true)))

  -- The opening of today where it is still to come, otherwise that of the nearest day that trades.
  abbrev IsNextOpening : ℤ → Type 0
  IsNextOpening next_open_at =
      ((next_open_at ≡ open_at cairo_formatter today)
        × (trades_today ≡ true)
        × (ltb_ℤ now_ms (open_at cairo_formatter today) ≡ true))
      ⊎ ((day : DateKey) × (next_open_at ≡ open_at cairo_formatter day)
          × IsNearest cairo_formatter 7 (pos 1) today day
          × ((trades_today ≡ false) ⊎ HasClosed))

  abbrev pub Describes : MarketStatus → Type 0
  Describes (opened session) =
      (session ≡ session_on cairo_formatter today)
      × (trades_today ≡ true)
      × HasOpened
      × (ltb_ℤ now_ms (close_at cairo_formatter today) ≡ true)
  Describes (closed session next_open_at) = IsLastSession session × IsNextOpening next_open_at

  abbrev ReachesStatus : Option MarketStatus → Type 0
  ReachesStatus none = Unit
  ReachesStatus (some status) = Describes status

  before_opening :
      trades_today ≡ true
      → ltb_ℤ now_ms (open_at cairo_formatter today) ≡ true
      → ReachesStatus (
          previous_trading_date_key cairo_formatter today >>= (λ prev_key.
            some (closed (session_on cairo_formatter prev_key) (open_at cairo_formatter today))))
  unfolding previous_trading_date_key
  before_opening trades early = go (walk cairo_formatter 7 (negsuc 0) today) refl
    where
      go :
          (found : Option DateKey)
          → walk cairo_formatter 7 (negsuc 0) today ≡ found
          → ReachesStatus (
              found >>= (λ prev_key.
                some
                  (closed (session_on cairo_formatter prev_key) (open_at cairo_formatter today))))
      go none e = tt
      go (some day) e = (
        inr (day, refl, (walk-IsNearest_iff cairo_formatter 7 (negsuc 0) today day).0 e, inr early),
        inl (refl, trades, early),
      )

  after_closing :
      trades_today ≡ true
      → HasClosed
      → ReachesStatus (
          next_trading_date_key cairo_formatter today >>= (λ next_key.
            some (closed (session_on cairo_formatter today) (open_at cairo_formatter next_key))))
  unfolding next_trading_date_key
  after_closing trades late = go (walk cairo_formatter 7 (pos 1) today) refl
    where
      go :
          (found : Option DateKey)
          → walk cairo_formatter 7 (pos 1) today ≡ found
          → ReachesStatus (
              found >>= (λ next_key.
                some
                  (closed (session_on cairo_formatter today) (open_at cairo_formatter next_key))))
      go none e = tt
      go (some day) e = (
        inl (refl, trades, late),
        inr (day, refl, (walk-IsNearest_iff cairo_formatter 7 (pos 1) today day).0 e, inr late),
      )

  on_other_days :
      trades_today ≡ false
      → ReachesStatus (
          previous_trading_date_key cairo_formatter today >>= (λ prev_key.
            next_trading_date_key cairo_formatter today >>= (λ next_key.
              some
                (closed (session_on cairo_formatter prev_key) (open_at cairo_formatter next_key)))))
  unfolding previous_trading_date_key next_trading_date_key
  on_other_days rests =
      go (walk cairo_formatter 7 (negsuc 0) today) (walk cairo_formatter 7 (pos 1) today) refl refl
    where
      go :
          (prev next : Option DateKey)
          → walk cairo_formatter 7 (negsuc 0) today ≡ prev
          → walk cairo_formatter 7 (pos 1) today ≡ next
          → ReachesStatus (
              prev >>= (λ prev_key. next >>= (λ next_key.
                some (
                  closed
                    (session_on cairo_formatter prev_key)
                    (open_at cairo_formatter next_key)))))
      go none next e f = tt
      go (some prev) none e f = tt
      go (some prev) (some next) e f = (
        inr (
          prev,
          refl,
          (walk-IsNearest_iff cairo_formatter 7 (negsuc 0) today prev).0 e,
          inl rests,
        ),
        inr (next, refl, (walk-IsNearest_iff cairo_formatter 7 (pos 1) today next).0 f, inl rests),
      )

  get_market_status-ReachesStatus : ReachesStatus (get_market_status cairo_formatter now_ms)
  unfolding get_market_status
  get_market_status-ReachesStatus =
      go trades_today (ltb_ℤ now_ms (open_at cairo_formatter today))
        (ltb_ℤ now_ms (close_at cairo_formatter today)) refl refl refl
    where
      go :
          (t early late : Bool)
          → trades_today ≡ t
          → ltb_ℤ now_ms (open_at cairo_formatter today) ≡ early
          → ltb_ℤ now_ms (close_at cairo_formatter today) ≡ late
          → ReachesStatus (
              if t && not early && late
              then some (opened (session_on cairo_formatter today))
              else if t && early
              then (previous_trading_date_key cairo_formatter today >>= (λ prev_key.
                  some
                    (closed (session_on cairo_formatter prev_key) (open_at cairo_formatter today))))
              else if t && not late
              then (next_trading_date_key cairo_formatter today >>= (λ next_key.
                  some
                    (closed (session_on cairo_formatter today) (open_at cairo_formatter next_key))))
              else (previous_trading_date_key cairo_formatter today >>= (λ prev_key.
                  next_trading_date_key cairo_formatter today >>= (λ next_key. some (
                    closed
                      (session_on cairo_formatter prev_key)
                      (open_at cairo_formatter next_key))))))
      go true true late te ee le = before_opening te ee
      go true false true te ee le = (refl, te, ee, le)
      go true false false te ee le = after_closing te le
      go false early late te ee le = on_other_days te

  -- A status that `get_market_status` returns is open exactly in today's session, where today trades;
  -- a closed one shows the last session that has ended and the next opening: today's, or those of the
  -- nearest days, before and after, that trade. A session's times are those of its day.
  pub get_market_status-Describes :
      (status : MarketStatus)
      → get_market_status cairo_formatter now_ms ≡ some status
      → Describes status
  get_market_status-Describes status e = subst ReachesStatus e get_market_status-ReachesStatus

  -- Where the three days before today and the three after it follow each other in the week, there
  -- is a status: neither search fails.
  pub get_market_status-returns :
      MovesWeekday cairo_formatter 6 3 (negsuc 0) today
      → MovesWeekday cairo_formatter 1 3 (pos 1) today
      → (status : MarketStatus) × (get_market_status cairo_formatter now_ms ≡ some status)
  unfolding get_market_status previous_trading_date_key next_trading_date_key
  get_market_status-returns back forth =
      let prev = walk_finds cairo_formatter 6 (negsuc 0) today (inr refl) back in
      let next = walk_finds cairo_formatter 1 (pos 1) today (inl refl) forth in
      rw (prev.1, next.1)
        (go trades_today (ltb_ℤ now_ms (open_at cairo_formatter today))
          (ltb_ℤ now_ms (close_at cairo_formatter today)) (prev.0) (next.0))
    where
      go :
          (t early late : Bool) (prev next : DateKey)
          → (status : MarketStatus) × ((if t && not early && late
                then some (opened (session_on cairo_formatter today))
                else if t && early
                then some (closed (session_on cairo_formatter prev) (open_at cairo_formatter today))
                else if t && not late
                then some (closed (session_on cairo_formatter today) (open_at cairo_formatter next))
                else some (closed (session_on cairo_formatter prev) (open_at cairo_formatter next)))
              ≡ some status)
      go true true late prev next =
          (closed (session_on cairo_formatter prev) (open_at cairo_formatter today), refl)
      go true false true prev next = (opened (session_on cairo_formatter today), refl)
      go true false false prev next =
          (closed (session_on cairo_formatter today) (open_at cairo_formatter next), refl)
      go false early late prev next =
          (closed (session_on cairo_formatter prev) (open_at cairo_formatter next), refl)
