-- ===== src/Aggregation/Range.antt =====
-- One aggregate of a whole range: lib/use-cases/market-records/candle-sticks/Aggregate.js. The search of
-- the database is a parameter, given the limit and the offset of a step.
pub mod Steps
use wolfram_price_feed_infra.Base.{
  ℕ, zero, suc, ◌+◌, ◌-◌, ◌/◌, ◌%◌, min, max, Option, none, some, List, [], ◌∷◌, map, length,
  get_elem?, ltb, leb, ◌==◌, if◌then◌else◌, get_or, sort_by,
}
use wolfram_price_feed_infra.Base.Ratio.{Ratio}
use wolfram_price_feed_infra.Base.Ratio
use wolfram_price_feed_infra.Scheduling.Units.{ceil_div}
use wolfram_price_feed_infra.Aggregation.Charts.{Chart, last_close, max_high, min_low, sum_volume}
use wolfram_price_feed_infra.Aggregation.Frames.{CandleStick}

abbrev pub aggregation_step_size : ℕ
aggregation_step_size = 1000

-- A property of an object whose keys are market ids.
pub record Cell : Type 0 where
  pub market_id : ℕ
  pub value : ℕ

unfoldable pub get_cell : List Cell → ℕ → Option ℕ
get_cell [] m = none
get_cell (c ∷ cs) m = if c.market_id == m then some c.value else get_cell cs m

-- The keys are whole numbers, and the object has them in their order.
unfoldable pub set_cell : List Cell → ℕ → ℕ → List Cell
set_cell [] m v = (record { market_id = m; value = v }) ∷ []
set_cell (c ∷ cs) m v =
    if c.market_id == m
    then (record { market_id = m; value = v }) ∷ cs
    else (if ltb m c.market_id
        then (record { market_id = m; value = v }) ∷ c ∷ cs
        else c ∷ set_cell cs m v)

pub record MarketsAggregate : Type 0 where
  pub open_ : List Cell
  pub high : List Cell
  pub low : List Cell
  pub close : List Cell
  pub volume : ℕ

abbrev pub empty_aggregate : MarketsAggregate
empty_aggregate = record { open_ = []; high = []; low = []; close = []; volume = 0 }

unfoldable pub get_first_open : Option ℕ → Chart → ℕ
get_first_open current first = get_or current first.open_

-- `Number.MIN_VALUE` is below every price that is not 0, and `Number.MAX_VALUE` above every price.
unfoldable pub get_max_high : Option ℕ → Chart → List Chart → ℕ
get_max_high none first others = max_high first others
get_max_high (some current) first others = max current (max_high first others)

unfoldable pub get_min_low : Option ℕ → Chart → List Chart → ℕ
get_min_low none first others = min_low first others
get_min_low (some current) first others = min current (min_low first others)

-- The body of the `reduce`; a candle stick without charts is passed over.
unfoldable pub update_market : MarketsAggregate → ℕ → List Chart → MarketsAggregate
update_market agg m [] = agg
update_market agg m (first ∷ others) = record {
  open_ = set_cell agg.open_ m (get_first_open (get_cell agg.open_ m) first);
  high = set_cell agg.high m (get_max_high (get_cell agg.high m) first others);
  low = set_cell agg.low m (get_min_low (get_cell agg.low m) first others);
  close = set_cell agg.close m (last_close first others);
  volume = agg.volume + sum_volume (first ∷ others);
}

unfoldable pub update_markets_aggregate : MarketsAggregate → List CandleStick → MarketsAggregate
update_markets_aggregate agg [] = agg
update_markets_aggregate agg (cs ∷ rest) =
    update_markets_aggregate (update_market agg cs.market_id cs.charts) rest

-- The mean of the two in the middle where there is no one in the middle.
unfoldable pub calculate_median : List ℕ → Option Ratio
calculate_median numbers =
    let sorted_numbers = sort_by leb (λ n. n) numbers in
    let half = length sorted_numbers / 2 in
    elim (get_elem? sorted_numbers half) [
      | none ↦ none
      | some upper ↦
          if length sorted_numbers % 2 == 0
          then (elim (get_elem? sorted_numbers (half - 1)) [
            | none ↦ none
            | some lower ↦ some (record { num = lower + upper; den = 2 })
          ])
          else some (Ratio.of_ℕ upper)
    ]

pub record CommonAggregate : Type 0 where
  pub open_ : Option Ratio
  pub high : Option Ratio
  pub low : Option Ratio
  pub close : Option Ratio
  pub volume : ℕ
  pub aggregated_average_price : Ratio

abbrev pub cell_values : List Cell → List ℕ
cell_values = map (λ (c : Cell). c.value)

-- `null` counts as 0 in a sum.
unfoldable pub calculate_common_aggregate : MarketsAggregate → CommonAggregate
calculate_common_aggregate agg =
    let high = calculate_median (cell_values agg.high) in
    let low = calculate_median (cell_values agg.low) in
    record {
      open_ = calculate_median (cell_values agg.open_);
      high = high;
      low = low;
      close = calculate_median (cell_values agg.close);
      volume = agg.volume;
      aggregated_average_price =
          Ratio.div (Ratio.add (get_or high (Ratio.of_ℕ 0)) (get_or low (Ratio.of_ℕ 0))) 2;
    }

-- A limit of 0 is falsy.
unfoldable pub get_step_limit : ℕ → ℕ → ℕ → ℕ
get_step_limit step steps limit =
    let step_limit =
      if step + 1 == steps then limit % aggregation_step_size else aggregation_step_size in
    if step_limit == 0 then aggregation_step_size else step_limit

pub record RangeResult : Type 0 where
  pub aggregated_data : CommonAggregate
  pub aggregated_records : ℕ

module _ (search : ℕ → ℕ → List CandleStick) (steps limit : ℕ) where
  -- The `for` loop with so many steps left, and the offset and the aggregate so far.
  unfoldable pub for_steps : ℕ → ℕ → ℕ → MarketsAggregate → MarketsAggregate × ℕ
  for_steps zero step offset agg = (agg, offset)
  for_steps (suc left) step offset agg =
      let step_limit = get_step_limit step steps limit in
      let candle_sticks = search step_limit offset in
      let agg' = update_markets_aggregate agg candle_sticks in
      let offset' = offset + length candle_sticks in
      let rest = for_steps left (step + 1) offset' agg' in
      if ltb (length candle_sticks) step_limit then (agg', offset') else rest

unfoldable pub aggregate_data_for_symbol : (ℕ → ℕ → List CandleStick) → ℕ → ℕ → RangeResult
aggregate_data_for_symbol find limit offset =
    let steps = ceil_div limit aggregation_step_size in
    let (agg, end_) = for_steps find steps limit steps 0 offset empty_aggregate in
    record { aggregated_data = calculate_common_aggregate agg; aggregated_records = end_ }
