-- ===== src/Aggregation/Charts.antt =====
-- Charts of several markets, and one aggregate of them: the functions of DiscreteAggregation.js that
-- look at no timeframe.
pub mod Bounds
pub mod Volume
use wolfram_price_feed_infra.Base.{
  ℕ, ◌+◌, min, max, Option, none, some, List, [], ◌∷◌, ◌++◌, map, ltb, ◌==◌, if◌then◌else◌,
}
use wolfram_price_feed_infra.Base.Ratio.{Ratio}
use wolfram_price_feed_infra.Aggregation.Median.{median}

-- `[timestamp, open, high, low, close, volume]`.
pub record Chart : Type 0 where
  pub timestamp : ℕ
  pub open_ : ℕ
  pub high : ℕ
  pub low : ℕ
  pub close : ℕ
  pub volume : ℕ

pub record MarketChart : Type 0 where
  pub market_id : ℕ
  pub chart : Chart

-- The charts of one market, of which there is at least one.
pub record Group : Type 0 where
  pub market_id : ℕ
  pub first : Chart
  pub others : List Chart

-- The aggregate of one market.
pub record MarketAggregate : Type 0 where
  pub open_ : ℕ
  pub high : ℕ
  pub low : ℕ
  pub close : ℕ
  pub volume : ℕ

pub record Aggregate : Type 0 where
  pub timestamp : ℕ
  pub open_ : ℕ
  pub high : ℕ
  pub low : ℕ
  pub close : ℕ
  pub volume : ℕ
  pub aggregated_average_price : Ratio

-- `acc[marketId].push(chart)`. The values of an object whose keys are whole numbers come in the order
-- of the keys, so a new key goes to its place among them.
unfoldable pub push_chart : List Group → MarketChart → List Group
push_chart [] c = (record { market_id = c.market_id; first = c.chart; others = [] }) ∷ []
push_chart (g ∷ gs) c =
    if g.market_id == c.market_id
    then record g { others = g.others ++ c.chart ∷ [] } ∷ gs
    else (if ltb c.market_id g.market_id
        then (record { market_id = c.market_id; first = c.chart; others = [] }) ∷ g ∷ gs
        else g ∷ push_chart gs c)

unfoldable pub group_from : List Group → List MarketChart → List Group
unfolding push_chart
group_from acc [] = acc
group_from acc (c ∷ cs) = group_from (push_chart acc c) cs

unfoldable pub group_charts_by_market : List MarketChart → List Group
unfolding group_from
group_charts_by_market = group_from []

abbrev pub last_close : Chart → List Chart → ℕ
last_close c [] = c.close
last_close c (d ∷ ds) = last_close d ds

abbrev pub max_high : Chart → List Chart → ℕ
max_high c [] = c.high
max_high c (d ∷ ds) = max c.high (max_high d ds)

abbrev pub min_low : Chart → List Chart → ℕ
min_low c [] = c.low
min_low c (d ∷ ds) = min c.low (min_low d ds)

abbrev pub sum_volume : List Chart → ℕ
sum_volume [] = 0
sum_volume (c ∷ cs) = c.volume + sum_volume cs

unfoldable pub aggregate_group : Group → MarketAggregate
aggregate_group g = record {
  open_ = g.first.open_;
  high = max_high g.first g.others;
  low = min_low g.first g.others;
  close = last_close g.first g.others;
  volume = sum_volume (g.first ∷ g.others);
}

unfoldable pub aggregate_charts_by_market : List Group → List MarketAggregate
aggregate_charts_by_market = map aggregate_group

infixl 5 ◌>>=◌
abbrev ◌>>=◌ {ℓ κ} : {A : Type ℓ} {B : Type κ} → Option A → (A → Option B) → Option B
o >>= next = elim o [ none ↦ none | some a ↦ next a ]

abbrev pub total_volume : List MarketAggregate → ℕ
total_volume [] = 0
total_volume (a ∷ as_) = a.volume + total_volume as_

-- `none` for an empty list of charts, which no caller has.
unfoldable pub aggregate_charts : List MarketChart → ℕ → Option Aggregate
aggregate_charts charts timestamp =
    let per_exchange = aggregate_charts_by_market (group_charts_by_market charts) in
    do
      opening ← median (map (λ (a : MarketAggregate). a.open_) per_exchange)
      high ← median (map (λ (a : MarketAggregate). a.high) per_exchange)
      low ← median (map (λ (a : MarketAggregate). a.low) per_exchange)
      close ← median (map (λ (a : MarketAggregate). a.close) per_exchange)
      some (record {
        timestamp = timestamp;
        open_ = opening;
        high = high;
        low = low;
        close = close;
        volume = total_volume per_exchange;
        aggregated_average_price = record { num = high + low; den = 2 };
      })

-- `none` is `null`.
unfoldable pub merge_transitional_data : Option Aggregate → Option Aggregate → Option Aggregate
merge_transitional_data none current = current
merge_transitional_data (some previous) none = some previous
merge_transitional_data (some previous) (some current) =
    let high = max previous.high current.high in
    let low = min previous.low current.low in
    some (record {
      timestamp = min previous.timestamp current.timestamp;
      open_ = previous.open_;
      high = high;
      low = low;
      close = current.close;
      volume = previous.volume + current.volume;
      aggregated_average_price = record { num = high + low; den = 2 };
    })
