-- ===== src/Lib.antt =====
-- A verification library for Tckr's web client, the market-data terminal in client/Tckr.MarketWatch:
-- the part of it between the gateway's socket and the pages, with its exact decimal prices.
--
-- How the parts interact: the gateway source (data/TckrGatewaySource.ts) receives the server's
-- messages. Ticks go to the tick dispatcher (data/TickDispatcher.ts), which coalesces them by symbol
-- and hands them, once for each animation frame, to the store (data/store.ts); snapshots go to the
-- store at once. The store computes changes by contracts/decimal.ts and calls the listeners of a
-- symbol. The reconnect policy (data/reconnect.ts) says when a closed connection is retried and when
-- heartbeats are missed. A message is read from JSON by contracts/messages.ts, and the source reads its
-- REST bodies itself. The pages see the store through the paced views (display/pacedViews.ts), which
-- follow it at a beat; the market calendar (data/marketCalendar.ts) tells them whether the exchange is
-- open. A chart keeps its points in a ring buffer (chart/ringBuffer.ts). In place of the gateway source,
-- the simulated source (data/SimulatedSource.ts) makes up a tape that follows the calendar and feeds
-- the same dispatcher and store; data/config.ts decides between the two and shares one of them. The
-- page of one instrument (pages/useDetailQuote.ts) listens to the source itself.
--
-- Files, and what they model; paths are below client/Tckr.MarketWatch/src:
--   Prelude, Prelude/*    the names the files share: tests, lists and integers over native numbers.
--   Text, Text/Digits     texts as lists of UTF-16 code units, and the built-ins that the prices use.
--   JsMap                 Map and Set: entries in insertion order.
--   Contracts             contracts/messages.ts, rest.ts, closeCodes.ts: the data on the wire.
--   Decimal, Decimal/*    contracts/decimal.ts: isDecimal, toScaledInt, fromScaledInt, compare,
--                         subtract, multiplyByQuantity, percentChange, percentChangeText, format, and
--                         formatCompact in Compact.
--   Simulated, /*         data/SimulatedSource.ts: the generator and the reconstructed session in
--                         Simulated; State has the source's fields and outputs, Engine its private
--                         methods, Sessions the market's sessions, Source the public methods, Events
--                         the runs. Draws, Backfills, Samples, Listing, Kept, Writes, Prices, Runs,
--                         Answers, Delays, Delivered and Batches have the theorems.
--   ClientConfig, /*      data/config.ts: resolveClientConfig, createMarketDataSource and, in Shared, the
--                         shared source; Guards says what is refused.
--   DetailQuote, /*       pages/detailQuote.ts and useDetailQuote.ts: the quote of one instrument's page
--                         and, in Page, the handlers of its hook; Events has the runs, Streams, Latest and
--                         Volumes the theorems.
--   Board, /*             pages/useBoardSort.ts, pages/useBoardSearch.ts and the orders of
--                         pages/boardColumns.tsx; Order and Ranks are the proofs.
--   Charts, /*            chart/chartSeed.ts, placeAxisTags of chart/chartScale.ts, pointsInRange of
--                         pages/chartRanges.ts and pages/useBoundedSparkline.ts; Seeds and Tags are the
--                         proofs.
--   RingBuffer, /Window   chart/ringBuffer.ts: constructor, push, clear and what the views show.
--   Dispatcher, /*        data/TickDispatcher.ts: push and flushNow; Frames has its steps with the
--                         browser's frames, Quantity the quantities.
--   Store, /*             data/store.ts: every function; a store is a record of the module's
--                         variables, and each write returns the calls to listeners.
--   Reconnect, /*         data/reconnect.ts: nextDelay, shouldReconnect and the watchdog.
--   Gateway, /*           data/TckrGatewaySource.ts as a state machine. Gateway/State has its fields
--                         and outputs; Outbound, Lifecycle and Inbound have one function for each
--                         method, named after it; Events has the events and runs. Walk and Walk/*
--                         lift a property of a few parts of the handlers to every event; Silence, Queue,
--                         Status, Retries, Streams and Symbols have the theorems.
--   Json                  JSON values, as JSON.parse returns them.
--   Messages, /*          contracts/messages.ts: parseServerMessage with its readers, and
--                         serializeClientMessage; Records, Readers, Typed, Carried and Accepted have
--                         what a message is read from, Outbound what is written.
--   Rest, /*              data/TckrGatewaySource.ts: the REST bodies and their validators, httpBase, and
--                         getUniverse with its cache and its request in flight.
--   Calendar, /*          data/marketCalendar.ts: Calendar has date keys, instants and the search for a
--                         day, Market the status and the texts; Keys, Walk and Sessions are the proofs.
--   SimulatedClock, /*    data/simulatedClock.ts: the settings, the instant they name, the shifted clock.
--   PacedViews, /*        display/pacedViews.ts: every operation on a record of the module's variables;
--                         Events has what happens to it and the timer, Ticking when the beat runs,
--                         Painting a beat, Between what is painted until the next one.
--   ClosestInstruments, /* pages/closestInstruments.ts: editDistance with its row of numbers, and
--                         closestInstruments; Edits has what a distance is, Rows the proof.
--   Tests, Tests/*        the theorems at concrete inputs, and tests of the definitions.
--
-- Bounds and fuel: BigInt is an unbounded integer and so is a Number; whole numbers beyond 2 ^ 53 and
-- fractions are not modelled, but multiplyByQuantity tests for safe integers as the code does. A
-- delay, and the random number in it, is a fraction given by its numerator and denominator. A number
-- is printed with as much fuel as its value plus one, which is more than it has digits.
--
-- The search for a trading day makes the seven rounds of the code, and three are enough where the
-- weekdays follow each other. An instant is an integer of milliseconds, the time zone database is a
-- parameter, and so are the identity of two views and the built-ins on Unicode and locales.
--
-- A generator of the simulator is its 32-bit state, with wrap-around written out; a draw is the
-- numerator of a fraction of 2 ^ 32, and a comparison or a product with it is exact, where the code
-- has doubles.
--
-- Asynchrony: a handler runs to its end, reading one time and one random number. Promises are the
-- jobs and the openers of Gateway/State. A timer is a field that says whether it is set, and its
-- event may come at any time while it is. The ready state of a socket is changed by its environment.
--
-- Not modelled: reading and writing JSON text, the texts of errors, console warnings, the replacement
-- of the global Date, the y range and the axes of a chart, the texts of its ranges, down-sampling, the
-- description of the board's order, React components, styling and animation, and the C# programs.
pub mod Board
pub mod Calendar
pub mod Charts
pub mod ClientConfig
pub mod ClosestInstruments
pub mod Contracts
pub mod Decimal
pub mod DetailQuote
pub mod Dispatcher
pub mod Gateway
pub mod JsMap
pub mod Json
pub mod Messages
pub mod PacedViews
pub mod Prelude
pub mod Reconnect
pub mod Rest
pub mod RingBuffer
pub mod Simulated
pub mod SimulatedClock
pub mod Store
pub mod Tests
pub mod Text
