-- ===== src/Aggregation/Examples.antt =====
-- The theorems of this part at concrete inputs: two markets, in timeframes of ten.
use wolfram_price_feed_infra.Base.{
  ℕ, ◌+◌, ◌*◌, ◌<◌, ◌≡◌, refl, none, some, List, [], ◌∷◌, length, take, drop, arith,
}
use wolfram_price_feed_infra.Base.Ratio
use wolfram_price_feed_infra.Aggregation.Charts.{Chart, MarketChart, Aggregate, aggregate_charts}
use wolfram_price_feed_infra.Aggregation.Charts.Volume.{volume_of, carried, closed_volume}
use wolfram_price_feed_infra.Aggregation.Charts.Bounds.{
  IsMarketChart, IsAggregate, aggregate_charts-IsAggregate,
}
use wolfram_price_feed_infra.Aggregation.Frames.{CandleStick, steps, first_frame, process_batch}
use wolfram_price_feed_infra.Aggregation.Frames.Volume.{
  batch_frames, process_batch_volume, carried_timeframe_repeated,
}
use wolfram_price_feed_infra.Aggregation.Frames.Aligned.{Fits, Grid, steps-Fits, process_batch-Grid}
use wolfram_price_feed_infra.Aggregation.Batches.{SymbolResult, aggregate_candle_sticks_for_symbol}
use wolfram_price_feed_infra.Aggregation.Batches.Termination.{
  aggregate_candle_sticks_total, one_batch_volume,
}
use wolfram_price_feed_infra.Aggregation.Range.{
  empty_aggregate, update_markets_aggregate, calculate_common_aggregate, aggregate_data_for_symbol,
}
use wolfram_price_feed_infra.Aggregation.Range.Steps.{aggregate_in_one_pass, range_volume}

abbrev chart : ℕ → ℕ → ℕ → Chart
chart timestamp price volume = record {
  timestamp = timestamp;
  open_ = price;
  high = price + 3;
  low = price;
  close = price + 1;
  volume = volume;
}

abbrev market_chart : ℕ → ℕ → ℕ → ℕ → MarketChart
market_chart market timestamp price volume = record {
  market_id = market;
  chart = chart timestamp price volume;
}

abbrev sticks : List CandleStick
sticks =
    (record { market_id = 2; charts = chart 101 50 7 ∷ chart 112 51 8 ∷ [] })
    ∷ (record { market_id = 1; charts = chart 103 40 5 ∷ chart 127 41 6 ∷ [] })
    ∷ []

chart-InOrder : (timestamp price volume : ℕ) → IsMarketChart (market_chart 1 timestamp price volume)
chart-InOrder timestamp price volume = record {
  low_open = omega arith;
  open_high = omega arith;
  low_close = omega arith;
  close_high = omega arith;
}

aggregate_charts-IsAggregate_example :
    (a : Aggregate) × (aggregate_charts (market_chart 2 101 50 7 ∷ market_chart 1 103 40 5 ∷ []) 100
      ≡ some a)
    × IsAggregate a
aggregate_charts-IsAggregate_example =
    aggregate_charts-IsAggregate (market_chart 2 101 50 7) (market_chart 1 103 40 5 ∷ []) 100
      (chart-InOrder 101 50 7, (chart-InOrder 103 40 5, tt))

abbrev earlier : Aggregate
earlier = record {
  timestamp = 90;
  open_ = 44;
  high = 49;
  low = 43;
  close = 45;
  volume = 9;
  aggregated_average_price = record { num = 92; den = 2 };
}

earlier-IsAggregate : IsAggregate earlier
unfolding Ratio.of_ℕ
earlier-IsAggregate = record {
  prices = record {
    low_open = omega arith;
    open_high = omega arith;
    low_close = omega arith;
    close_high = omega arith;
  };
  above = omega arith;
  below = omega arith;
}

steps-Fits_example :
    Fits 10
      (steps 10 none (first_frame 10 100) (market_chart 2 112 50 7 ∷ market_chart 1 95 40 5 ∷ []))
steps-Fits_example =
    steps-Fits 10 none (first_frame 10 100) (market_chart 2 112 50 7 ∷ market_chart 1 95 40 5 ∷ [])
      (omega arith) (record { long = refl; within = tt })

process_batch-Grid_example :
    Grid 100 10
      (process_batch sticks none 10 100).aggregated_timeframes
      (process_batch sticks none 10 100).last_timeframe_start
process_batch-Grid_example =
    process_batch-Grid sticks 10 100 (omega arith)
      (omega arith, (omega arith, (omega arith, (omega arith, tt))))

process_batch_volume_example :
    closed_volume (process_batch sticks none 10 100).aggregated_timeframes
      + carried (process_batch sticks none 10 100).unfinished_timeframe
    ≡ 26
process_batch_volume_example = process_batch_volume sticks 10 100

carried_timeframe_repeated_example :
    let b = process_batch sticks (some earlier) 10 100 in
    let lost = (batch_frames sticks (some earlier) 10 100).current_timeframe_data in
    (b.unfinished_timeframe ≡ some earlier)
    × (0 < length lost)
    × (closed_volume b.aggregated_timeframes + volume_of lost
        ≡ 26 + length b.aggregated_timeframes * 9)
carried_timeframe_repeated_example = carried_timeframe_repeated sticks earlier 10 100 (omega arith)

abbrev pages_of : ℕ → ℕ → List CandleStick
pages_of n offset = take n (drop offset sticks)

aggregate_candle_sticks_total_example :
    (r : SymbolResult) × (aggregate_candle_sticks_for_symbol (pages_of 1) 1 10 3 100 ≡ some r)
    × (r.processed_count ≡ 2)
aggregate_candle_sticks_total_example =
    aggregate_candle_sticks_total (pages_of 1) 1 10 sticks (record { page = λ offset. refl })
      (omega arith) 3 100 (omega arith)

one_batch_volume_example :
    (r : SymbolResult) × (aggregate_candle_sticks_for_symbol (pages_of 5) 5 10 1 100 ≡ some r)
    × (closed_volume r.candles ≡ 26)
one_batch_volume_example =
    one_batch_volume (pages_of 5) 5 10 sticks (record { page = λ offset. refl }) (omega arith) 0 100

abbrev found : ℕ → ℕ → List CandleStick
found limit offset = take limit (drop offset sticks)

aggregate_in_one_pass_example : aggregate_data_for_symbol found 1500 1 ≡ record {
  aggregated_data =
      calculate_common_aggregate
        (update_markets_aggregate empty_aggregate (take 1500 (drop 1 sticks)));
  aggregated_records = 2;
}
aggregate_in_one_pass_example =
    aggregate_in_one_pass found sticks (record { page = λ limit offset. refl }) 1500 1

range_volume_example : (aggregate_data_for_symbol found 1500 0).aggregated_data.volume ≡ 26
range_volume_example = range_volume found sticks (record { page = λ limit offset. refl }) 1500 0
