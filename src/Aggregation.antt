-- ===== src/Aggregation.antt =====
-- The aggregation of candle sticks over markets and timeframes: lib/use-cases/market-records/candle-sticks
-- and lib/utils/median.js. Prices and volumes are whole multiples of one small unit, so that sums and
-- comparisons are exact; the rounding of floating point numbers is not modelled.
mod Examples
pub mod Median
pub mod Range
pub mod Charts
pub mod Frames
pub mod Batches
