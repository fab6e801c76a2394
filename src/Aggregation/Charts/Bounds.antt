-- ===== src/Aggregation/Charts/Bounds.antt =====
-- Aggregates of well-formed charts are well-formed.
use wolfram_price_feed_infra.Base.{
  ℕ, ◌+◌, ◌≤◌, ◌≡◌, refl, inl, inr, min, max, some, List, [], ◌∷◌, map, ltb, ◌==◌, All, All-append,
  arith, Bool-cases,
}
use wolfram_price_feed_infra.Base.Ratio.{Le}
use wolfram_price_feed_infra.Base.Ratio
use wolfram_price_feed_infra.Aggregation.Median.Monotone.{Below, median-Below}
use wolfram_price_feed_infra.Aggregation.Charts.{
  Chart, MarketChart, Group, MarketAggregate, Aggregate, push_chart, group_from,
  group_charts_by_market, last_close, max_high, min_low, aggregate_group,
  aggregate_charts_by_market, aggregate_charts, merge_transitional_data,
}
use wolfram_price_feed_infra.Aggregation.Charts.Volume.{Summarises, aggregate_charts_total}

-- The opening and the closing price lie between the lowest and the highest.
pub record InOrder (open_ high low close : ℕ) : Type 0 where
  pub low_open : low ≤ open_
  pub open_high : open_ ≤ high
  pub low_close : low ≤ close
  pub close_high : close ≤ high

abbrev pub IsChart : Chart → Type 0
IsChart c = InOrder c.open_ c.high c.low c.close

abbrev pub IsMarketChart : MarketChart → Type 0
IsMarketChart c = IsChart c.chart

abbrev IsMarketAggregate : MarketAggregate → Type 0
IsMarketAggregate m = InOrder m.open_ m.high m.low m.close

-- And the average between the lowest and the highest.
pub record IsAggregate (a : Aggregate) : Type 0 where
  pub prices : InOrder a.open_ a.high a.low a.close
  pub above : Le (Ratio.of_ℕ a.low) a.aggregated_average_price
  pub below : Le a.aggregated_average_price (Ratio.of_ℕ a.high)

average-between :
    (h l : ℕ)
    → l ≤ h
    → Le (Ratio.of_ℕ l) (record { num = h + l; den = 2 })
      × Le (record { num = h + l; den = 2 }) (Ratio.of_ℕ h)
unfolding Ratio.of_ℕ
average-between h l le = (omega (arith, le), omega (arith, le))

abbrev IsGroup : Group → Type 0
IsGroup g = IsChart g.first × All IsChart g.others

push_chart-IsGroup :
    (gs : List Group) (c : MarketChart)
    → All IsGroup gs
    → IsChart c.chart
    → All IsGroup (push_chart gs c)
unfolding push_chart
push_chart-IsGroup [] c h k = ((k, tt), tt)
push_chart-IsGroup (g ∷ gs) c h k = elim (Bool-cases (g.market_id == c.market_id)) [
  | inl same ↦ rw same ((h.0.0, All-append IsChart g.others (c.chart ∷ []) h.0.1 (k, tt)), h.1)
  | inr other ↦ elim (Bool-cases (ltb c.market_id g.market_id)) [
    | inl below ↦ rw (other, below) ((k, tt), h)
    | inr above ↦ rw (other, above) (h.0, push_chart-IsGroup gs c h.1 k)
  ]
]

group_from-IsGroup :
    (gs : List Group) (cs : List MarketChart)
    → All IsGroup gs
    → All IsMarketChart cs
    → All IsGroup (group_from gs cs)
unfolding group_from
group_from-IsGroup gs [] h k = h
group_from-IsGroup gs (c ∷ cs) h k =
    group_from-IsGroup (push_chart gs c) cs (push_chart-IsGroup gs c h k.0) k.1

-- The first opening and the last closing price lie between the extremes of the charts.
first_between : (c : Chart) (ds : List Chart) → (min_low c ds ≤ c.low) × (c.high ≤ max_high c ds)
first_between c [] = (omega arith, omega arith)
first_between c (d ∷ ds) = (omega arith, omega arith)

last_between :
    (c : Chart) (ds : List Chart)
    → IsChart c
    → All IsChart ds
    → (min_low c ds ≤ last_close c ds) × (last_close c ds ≤ max_high c ds)
last_between c [] h k = (h.low_close, h.close_high)
last_between c (d ∷ ds) h k =
    let (lo, hi) = last_between d ds k.0 k.1 in (omega (arith, lo), omega (arith, hi))

aggregate_group-IsMarketAggregate : (g : Group) → IsGroup g → IsMarketAggregate (aggregate_group g)
unfolding aggregate_group
aggregate_group-IsMarketAggregate g h =
    let (f_lo, f_hi) = first_between g.first g.others in
    let (l_lo, l_hi) = last_between g.first g.others h.0 h.1 in
    record {
      low_open = omega (arith, f_lo, h.0.low_open);
      open_high = omega (arith, f_hi, h.0.open_high);
      low_close = l_lo;
      close_high = l_hi;
    }

All-IsMarketAggregate :
    (gs : List Group) → All IsGroup gs → All IsMarketAggregate (aggregate_charts_by_market gs)
unfolding aggregate_charts_by_market
All-IsMarketAggregate [] h = tt
All-IsMarketAggregate (g ∷ gs) h =
    (aggregate_group-IsMarketAggregate g h.0, All-IsMarketAggregate gs h.1)

Below-map :
    (f g : MarketAggregate → ℕ) (ms : List MarketAggregate)
    → ((m : MarketAggregate) → IsMarketAggregate m → f m ≤ g m)
    → All IsMarketAggregate ms
    → Below (map f ms) (map g ms)
Below-map f g [] le h = tt
Below-map f g (m ∷ ms) le h = (le m h.0, Below-map f g ms le h.1)

Summarises-IsAggregate :
    (ms : List MarketAggregate) (timestamp : ℕ) (a : Aggregate)
    → All IsMarketAggregate ms
    → Summarises ms timestamp a
    → IsAggregate a
Summarises-IsAggregate ms timestamp a h s =
    let low_open =
      median-Below _ _ a.low a.open_
        (Below-map (λ m. m.low) (λ m. m.open_) ms (λ m k. k.low_open) h) s.lowest s.opening in
    let open_high =
      median-Below _ _ a.open_ a.high
        (Below-map (λ m. m.open_) (λ m. m.high) ms (λ m k. k.open_high) h) s.opening s.highest in
    let low_close =
      median-Below _ _ a.low a.close
        (Below-map (λ m. m.low) (λ m. m.close) ms (λ m k. k.low_close) h) s.lowest s.closing in
    let close_high =
      median-Below _ _ a.close a.high
        (Below-map (λ m. m.close) (λ m. m.high) ms (λ m k. k.close_high) h) s.closing s.highest in
    let (above, below) = average-between a.high a.low (omega (arith, low_open, open_high)) in
    record {
      prices = record {
        low_open = low_open;
        open_high = open_high;
        low_close = low_close;
        close_high = close_high;
      };
      above = rw s.average above;
      below = rw s.average below;
    }

-- Charts whose prices are in order, at least one, have an aggregate, and its opening, closing and
-- average price lie between its lowest and its highest, although each is a median of its own.
pub aggregate_charts-IsAggregate :
    (c : MarketChart) (cs : List MarketChart) (timestamp : ℕ)
    → All IsMarketChart (c ∷ cs)
    → (a : Aggregate) × (aggregate_charts (c ∷ cs) timestamp ≡ some a) × IsAggregate a
unfolding group_charts_by_market
aggregate_charts-IsAggregate c cs timestamp h =
    let (a, found, sums) = aggregate_charts_total c cs timestamp in
    (
      a,
      found,
      Summarises-IsAggregate (aggregate_charts_by_market (group_charts_by_market (c ∷ cs)))
          timestamp a
          (All-IsMarketAggregate (group_charts_by_market (c ∷ cs))
            (group_from-IsGroup [] (c ∷ cs) tt h))
          sums,
    )

-- The merge of two aggregates whose prices are in order is one whose prices are.
pub merge-IsAggregate :
    (t a : Aggregate)
    → IsAggregate t
    → IsAggregate a
    → (m : Aggregate) × (merge_transitional_data (some t) (some a) ≡ some m) × IsAggregate m
unfolding merge_transitional_data
merge-IsAggregate t a h k =
    let (above, below) =
      average-between (max t.high a.high) (min t.low a.low)
        (omega (arith, h.prices.low_open, h.prices.open_high)) in
    (
      _,
      refl,
      record {
        prices = record {
          low_open = omega (arith, h.prices.low_open);
          open_high = omega (arith, h.prices.open_high);
          low_close = omega (arith, k.prices.low_close);
          close_high = omega (arith, k.prices.close_high);
        };
        above = above;
        below = below;
      },
    )
