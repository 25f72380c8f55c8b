-- ===== src/Tests.antt =====
-- The theorems at concrete inputs that exercise the code, and small tests of the definitions.
mod Prices
mod Charts
mod Board
mod Ticks
mod Connection
mod Wire
mod Pages
mod Clocks
mod Simulator
mod Quotes
