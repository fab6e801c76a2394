-- ===== src/Aggregation/Frames.antt =====
-- The charts of one batch, cut into timeframes: `processBatch` of DiscreteAggregation.js.
pub mod Aligned
pub mod Volume
use wolfram_price_feed_infra.Base.{
  ℕ, suc, ◌+◌, ◌-◌, ◌*◌, ◌/◌, Bool, true, Option, none, some, List, [], ◌∷◌, ◌++◌, map, ltb, leb,
  sort_by, if◌then◌else◌,
}
use wolfram_price_feed_infra.Aggregation.Charts.{
  Chart, MarketChart, Aggregate, aggregate_charts, merge_transitional_data,
}

-- The variables of `processBatch`, and the bounds of a timeframe: the end is outside.
pub record Frames : Type 0 where
  pub current_timeframe_start : ℕ
  pub current_timeframe_end : ℕ
  pub current_timeframe_data : List MarketChart
  pub aggregated_timeframes : List Aggregate

pub record CandleStick : Type 0 where
  pub market_id : ℕ
  pub charts : List Chart

abbrev pub charts_of : CandleStick → List MarketChart
charts_of cs = map (λ (c : Chart). record { market_id = cs.market_id; chart = c }) cs.charts

abbrev pub all_charts : List CandleStick → List MarketChart
all_charts [] = []
all_charts (cs ∷ rest) = charts_of cs ++ all_charts rest

abbrev pub timestamp_of : MarketChart → ℕ
timestamp_of c = c.chart.timestamp

unfoldable pub sort_charts_by_timestamp : List CandleStick → List MarketChart
sort_charts_by_timestamp candle_sticks = sort_by leb timestamp_of (all_charts candle_sticks)

unfoldable pub is_outside_timeframe : ℕ → ℕ → ℕ → Bool
is_outside_timeframe timestamp start end_ = if ltb timestamp start then true else leb end_ timestamp

-- The next start: the floor of a negative quotient is what `ceil` of the positive one goes back.
-- Native subtraction stops at 0, where the code's start would lie before 1970.
unfoldable pub resolve_next_timeframe_interval : ℕ → ℕ → ℕ → ℕ
resolve_next_timeframe_interval current_end duration timestamp =
    if leb current_end timestamp
    then current_end + duration * ((timestamp - current_end) / duration)
    else current_end - duration * ((current_end - timestamp + (duration - 1)) / duration)

unfoldable pub resolve_last_timeframe_aggregation :
    ℕ → List MarketChart → Option Aggregate → Option Aggregate
resolve_last_timeframe_aggregation start [] transition = elim transition [
  | none ↦ none
  | some t ↦ merge_transitional_data (some t) none
]
resolve_last_timeframe_aggregation start (c ∷ cs) transition = elim transition [
  | none ↦ aggregate_charts (c ∷ cs) start
  | some t ↦ merge_transitional_data (some t) (aggregate_charts (c ∷ cs) start)
]

abbrev pub push_some : List Aggregate → Option Aggregate → List Aggregate
push_some closed none = closed
push_some closed (some a) = closed ++ a ∷ []

-- The timeframe is closed, and the one that the chart falls in is begun.
unfoldable pub close_timeframe : ℕ → Option Aggregate → Frames → MarketChart → Frames
close_timeframe duration transition f candle =
    let start =
      resolve_next_timeframe_interval f.current_timeframe_end duration (timestamp_of candle) in
    record {
      current_timeframe_start = start;
      current_timeframe_end = start + duration;
      current_timeframe_data = candle ∷ [];
      aggregated_timeframes = push_some f.aggregated_timeframes (
          resolve_last_timeframe_aggregation f.current_timeframe_start f.current_timeframe_data
            transition);
    }

-- The body of `forEach`.
unfoldable pub step : ℕ → Option Aggregate → Frames → MarketChart → Frames
step duration transition f candle =
    if is_outside_timeframe (timestamp_of candle) f.current_timeframe_start f.current_timeframe_end
    then close_timeframe duration transition f candle
    else (record f { current_timeframe_data = f.current_timeframe_data ++ candle ∷ [] })

unfoldable pub steps : ℕ → Option Aggregate → Frames → List MarketChart → Frames
steps duration transition f [] = f
steps duration transition f (c ∷ cs) = steps duration transition (step duration transition f c) cs

-- `unfinished` is the parameter `unfinishedTimeframe`.
unfoldable pub handle_unfinished_timeframe :
    Option Aggregate → List MarketChart → ℕ → Option Aggregate → Option Aggregate
handle_unfinished_timeframe unfinished data_ start none = aggregate_charts data_ start
handle_unfinished_timeframe unfinished data_ start (some t) =
    merge_transitional_data (some t) unfinished

abbrev pub first_frame : ℕ → ℕ → Frames
first_frame duration start = record {
  current_timeframe_start = start;
  current_timeframe_end = start + duration;
  current_timeframe_data = [];
  aggregated_timeframes = [];
}

pub record BatchResult : Type 0 where
  pub aggregated_timeframes : List Aggregate
  pub unfinished_timeframe : Option Aggregate
  pub last_timeframe_start : ℕ

-- `unfinishedTimeframe` is `null` until the last timeframe is handled, and the handler is given it.
unfoldable pub unfinished_of : Option Aggregate → Frames → Option Aggregate
unfinished_of transition f = elim f.current_timeframe_data [
  | [] ↦ none
  | c ∷ cs ↦ handle_unfinished_timeframe none (c ∷ cs) f.current_timeframe_start transition
]

unfoldable pub process_batch : List CandleStick → Option Aggregate → ℕ → ℕ → BatchResult
process_batch candle_sticks transition duration start =
    let f =
      steps duration transition (first_frame duration start)
        (sort_charts_by_timestamp candle_sticks) in
    record {
      aggregated_timeframes = f.aggregated_timeframes;
      unfinished_timeframe = unfinished_of transition f;
      last_timeframe_start = f.current_timeframe_start;
    }
