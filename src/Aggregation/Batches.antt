-- ===== src/Aggregation/Batches.antt =====
-- The batches of one symbol: `fetchAndProcessBatch` and `aggregateCandleSticksForSymbol` of
-- DiscreteAggregation.js. The search of the database is a parameter: it is given the offset, since
-- the other arguments do not change in the loop.
pub mod Termination
use wolfram_price_feed_infra.Base.{
  ℕ, zero, suc, ◌+◌, Bool, true, false, Option, none, some, List, [], ◌∷◌, ◌++◌, length, ltb,
  if◌then◌else◌,
}
use wolfram_price_feed_infra.Aggregation.Charts.{Aggregate}
use wolfram_price_feed_infra.Aggregation.Frames.{CandleStick, process_batch, push_some}

-- What the loop carries from one batch to the next.
pub record Progress : Type 0 where
  pub aggregated_data : List Aggregate
  pub offset : ℕ
  pub is_last_batch : Bool
  pub transition_timeframe : Option Aggregate
  pub timeframe_start : ℕ

abbrev pub first_progress : ℕ → Progress
first_progress range_date_start = record {
  aggregated_data = [];
  offset = 0;
  is_last_batch = false;
  transition_timeframe = none;
  timeframe_start = range_date_start;
}

pub record SymbolResult : Type 0 where
  pub processed_count : ℕ
  pub count : ℕ
  pub candles : List Aggregate

unfoldable pub symbol_result : Progress → SymbolResult
symbol_result p =
    let candles = push_some p.aggregated_data p.transition_timeframe in
    record { processed_count = p.offset; count = length candles; candles = candles }

abbrev pub result_of : Option Progress → Option SymbolResult
result_of none = none
result_of (some p) = some (symbol_result p)

module _ (search : ℕ → List CandleStick) (step_size timeframe_duration_ms : ℕ) where
  -- One round of the loop, on the candle sticks that the search gave.
  unfoldable pub process_fetched : Progress → List CandleStick → Progress
  process_fetched p [] = record p { is_last_batch = ltb 0 step_size }
  process_fetched p (c ∷ cs) =
      let b =
        process_batch (c ∷ cs) p.transition_timeframe timeframe_duration_ms p.timeframe_start in
      record {
        aggregated_data = p.aggregated_data ++ b.aggregated_timeframes;
        offset = p.offset + length (c ∷ cs);
        is_last_batch = ltb (length (c ∷ cs)) step_size;
        transition_timeframe = b.unfinished_timeframe;
        timeframe_start = b.last_timeframe_start;
      }

  unfoldable pub fetch_and_process_batch : Progress → Progress
  fetch_and_process_batch p = process_fetched p (search p.offset)

  -- `none` where the fuel ends before the loop does.
  unfoldable pub loop : ℕ → Progress → Option Progress
  loop zero p = none
  loop (suc fuel) p =
      let next = fetch_and_process_batch p in
      let rest = loop fuel next in if next.is_last_batch then some next else rest

  unfoldable pub aggregate_candle_sticks_for_symbol : ℕ → ℕ → Option SymbolResult
  aggregate_candle_sticks_for_symbol fuel range_date_start =
      result_of (loop fuel (first_progress range_date_start))
