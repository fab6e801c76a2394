-- ===== src/Aggregation/Charts/Volume.antt =====
-- Grouping by market and aggregating lose no volume, and the groups of some charts are not empty.
use wolfram_price_feed_infra.Base.{
  ℕ, ◌+◌, ◌≡◌, refl, sym, ap, ◌∙◌, subst, inl, inr, Option, none, some, List, [], ◌∷◌, ◌++◌, map,
  ltb, ◌==◌, arith, Bool-cases,
}
use wolfram_price_feed_infra.Aggregation.Median.{median}
use wolfram_price_feed_infra.Aggregation.Median.Monotone.{median_total}
use wolfram_price_feed_infra.Aggregation.Charts.{
  Chart, MarketChart, Group, MarketAggregate, Aggregate, push_chart, group_from,
  group_charts_by_market, sum_volume, aggregate_group, aggregate_charts_by_market, total_volume,
  aggregate_charts, merge_transitional_data,
}

-- The volume of charts, of an aggregate and of a list of those.
abbrev pub volume_of : List MarketChart → ℕ
volume_of [] = 0
volume_of (c ∷ cs) = c.chart.volume + volume_of cs

abbrev pub carried : Option Aggregate → ℕ
carried none = 0
carried (some a) = a.volume

abbrev pub closed_volume : List Aggregate → ℕ
closed_volume [] = 0
closed_volume (a ∷ as_) = a.volume + closed_volume as_

sum_volume-append :
    (xs : List Chart) (c : Chart) → sum_volume (xs ++ c ∷ []) ≡ sum_volume xs + c.volume
sum_volume-append [] c = omega arith
sum_volume-append (x ∷ xs) c = omega (arith, sum_volume-append xs c)

pub volume_of-append :
    (xs : List MarketChart) (c : MarketChart)
    → volume_of (xs ++ c ∷ []) ≡ volume_of xs + c.chart.volume
volume_of-append [] c = omega arith
volume_of-append (x ∷ xs) c = omega (arith, volume_of-append xs c)

abbrev groups_volume : List Group → ℕ
groups_volume gs = total_volume (aggregate_charts_by_market gs)

push_chart-volume :
    (gs : List Group) (c : MarketChart)
    → total_volume (map aggregate_group (push_chart gs c))
      ≡ total_volume (map aggregate_group gs) + c.chart.volume
unfolding push_chart aggregate_group
push_chart-volume [] c = omega arith
push_chart-volume (g ∷ gs) c =
    grind (arith, push_chart-volume gs c, sum_volume-append g.others c.chart)

group_from-volume :
    (gs : List Group) (cs : List MarketChart)
    → total_volume (map aggregate_group (group_from gs cs))
      ≡ total_volume (map aggregate_group gs) + volume_of cs
unfolding group_from
group_from-volume gs [] = omega arith
group_from-volume gs (c ∷ cs) =
    omega (arith, group_from-volume (push_chart gs c) cs, push_chart-volume gs c)

push_chart-nonempty :
    (gs : List Group) (c : MarketChart) → (g : Group) × (l : List Group) × (push_chart gs c ≡ g ∷ l)
unfolding push_chart
push_chart-nonempty [] c = (_, _, refl)
push_chart-nonempty (g ∷ gs) c = elim (Bool-cases (g.market_id == c.market_id)) [
  | inl same ↦ rw same (_, _, refl)
  | inr other ↦ elim (Bool-cases (ltb c.market_id g.market_id)) [
    | inl below ↦ rw (other, below) (_, _, refl)
    | inr above ↦ rw (other, above) (_, _, refl)
  ]
]

group_from-nonempty :
    (g : Group) (l : List Group) (cs : List MarketChart)
    → (g' : Group) × (l' : List Group) × (group_from (g ∷ l) cs ≡ g' ∷ l')
unfolding group_from
group_from-nonempty g l [] = (g, l, refl)
group_from-nonempty g l (c ∷ cs) =
    let (g', l', e) = push_chart-nonempty (g ∷ l) c in rw e (group_from-nonempty g' l' cs)

-- The charts of at least one market.
pub groups_nonempty :
    (c : MarketChart) (cs : List MarketChart)
    → (g : Group) × (l : List Group) × (group_charts_by_market (c ∷ cs) ≡ g ∷ l)
unfolding group_charts_by_market group_from push_chart
groups_nonempty c cs = group_from-nonempty _ [] cs

-- An aggregate is the medians over the markets, and all their volume.
pub record Summarises (ms : List MarketAggregate) (timestamp : ℕ) (a : Aggregate) : Type 0 where
  pub opening : median (map (λ (m : MarketAggregate). m.open_) ms) ≡ some a.open_
  pub highest : median (map (λ (m : MarketAggregate). m.high) ms) ≡ some a.high
  pub lowest : median (map (λ (m : MarketAggregate). m.low) ms) ≡ some a.low
  pub closing : median (map (λ (m : MarketAggregate). m.close) ms) ≡ some a.close
  pub whole : a.volume ≡ total_volume ms
  pub at_ : a.timestamp ≡ timestamp
  pub average : a.aggregated_average_price ≡ record { num = a.high + a.low; den = 2 }

aggregate_charts-Summarises :
    (charts : List MarketChart) (timestamp : ℕ) (m : MarketAggregate) (ms : List MarketAggregate)
    → aggregate_charts_by_market (group_charts_by_market charts) ≡ m ∷ ms
    → (a : Aggregate) × (aggregate_charts charts timestamp ≡ some a)
      × Summarises (m ∷ ms) timestamp a
unfolding aggregate_charts
aggregate_charts-Summarises charts timestamp m ms e =
    let (o, ho) = median_total m.open_ (map (λ (a : MarketAggregate). a.open_) ms) in
    let (h, hh) = median_total m.high (map (λ (a : MarketAggregate). a.high) ms) in
    let (l, hl) = median_total m.low (map (λ (a : MarketAggregate). a.low) ms) in
    let (c, hc) = median_total m.close (map (λ (a : MarketAggregate). a.close) ms) in
    rw e (
      rw (ho, hh, hl, hc)
        (
          _,
          refl,
          record {
            opening = ho;
            highest = hh;
            lowest = hl;
            closing = hc;
            whole = refl;
            at_ = refl;
            average = refl;
          },
        ))

-- Charts of which there is at least one have an aggregate, which summarises their markets.
pub aggregate_charts_total :
    (c : MarketChart) (cs : List MarketChart) (timestamp : ℕ)
    → (a : Aggregate) × (aggregate_charts (c ∷ cs) timestamp ≡ some a)
      × Summarises (aggregate_charts_by_market (group_charts_by_market (c ∷ cs))) timestamp a
unfolding aggregate_charts_by_market
aggregate_charts_total c cs timestamp =
    let (g, l, e) = groups_nonempty c cs in
    let (a, found, sums) =
      aggregate_charts-Summarises (c ∷ cs) timestamp (aggregate_group g) (map aggregate_group l)
        (ap (map aggregate_group) e) in
    (a, found, subst (λ gs. Summarises (map aggregate_group gs) timestamp a) (sym e) sums)

-- No volume is lost.
pub grouped_volume :
    (cs : List MarketChart)
    → total_volume (aggregate_charts_by_market (group_charts_by_market cs)) ≡ volume_of cs
unfolding aggregate_charts_by_market group_charts_by_market
grouped_volume cs = group_from-volume [] cs ∙ omega arith

pub aggregate_charts_volume :
    (cs : List MarketChart) (timestamp : ℕ) → carried (aggregate_charts cs timestamp) ≡ volume_of cs
unfolding aggregate_charts group_charts_by_market group_from aggregate_charts_by_market median
aggregate_charts_volume [] timestamp = refl
aggregate_charts_volume (c ∷ cs) timestamp =
    let (a, found, sums) = aggregate_charts_total c cs timestamp in
    rw found (sums.whole ∙ grouped_volume (c ∷ cs))

pub merge_volume :
    (t o : Option Aggregate) → carried (merge_transitional_data t o) ≡ carried t + carried o
unfolding merge_transitional_data
merge_volume none o = omega arith
merge_volume (some t) none = omega arith
merge_volume (some t) (some a) = refl
