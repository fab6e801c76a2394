-- ===== src/Aggregation/Range/Steps.antt =====
-- The steps of a range come to one pass over the rows that its limit and offset ask for.
use wolfram_price_feed_infra.Base.{
  ℕ, zero, suc, ◌+◌, ◌-◌, ◌*◌, ◌/◌, ◌≤◌, ◌<◌, ◌≡◌, refl, sym, ap, ap₂, ◌∙◌, inl, inr, min, false,
  List, [], ◌∷◌, ◌++◌, length, length-append, take, drop, take_add, drop_add, take_short,
  length-take_le, ltb, ltb→lt, arith, Bool-cases,
}
use wolfram_price_feed_infra.Scheduling.Units.{ceil_div}
use wolfram_price_feed_infra.Aggregation.Charts.{Chart, sum_volume}
use wolfram_price_feed_infra.Aggregation.Charts.Volume.{volume_of}
use wolfram_price_feed_infra.Aggregation.Frames.{CandleStick, all_charts}
use wolfram_price_feed_infra.Aggregation.Range.{
  MarketsAggregate, empty_aggregate, update_market, update_markets_aggregate,
  calculate_common_aggregate, get_step_limit, RangeResult, for_steps, aggregate_data_for_symbol,
}

update-append :
    (agg : MarketsAggregate) (xs ys : List CandleStick)
    → update_markets_aggregate agg (xs ++ ys)
      ≡ update_markets_aggregate (update_markets_aggregate agg xs) ys
unfolding update_markets_aggregate
update-append agg [] ys = refl
update-append agg (x ∷ xs) ys = update-append (update_market agg x.market_id x.charts) xs ys

-- Every step but the last asks for a full page, and the last for what is left of the limit.
step_limit :
    (step left limit : ℕ)
    → step + suc left ≡ (limit + 999) / 1000
    → (get_step_limit step ((limit + 999) / 1000) limit ≡ min 1000 (limit - step * 1000))
      × (step * 1000 < limit)
unfolding get_step_limit
step_limit step left limit h = (ground (arith, h), omega (arith, h))

charts_volume :
    (m : ℕ) (cs : List Chart) (rest : List CandleStick)
    → volume_of (all_charts ((record { market_id = m; charts = cs }) ∷ rest))
      ≡ sum_volume cs + volume_of (all_charts rest)
charts_volume m [] rest = omega arith
charts_volume m (c ∷ cs) rest = omega (arith, charts_volume m cs rest)

update_market_volume :
    (agg : MarketsAggregate) (m : ℕ) (cs : List Chart)
    → (update_market agg m cs).volume ≡ agg.volume + sum_volume cs
unfolding update_market
update_market_volume agg m [] = omega arith
update_market_volume agg m (c ∷ cs) = refl

update_volume :
    (agg : MarketsAggregate) (sticks : List CandleStick)
    → (update_markets_aggregate agg sticks).volume ≡ agg.volume + volume_of (all_charts sticks)
unfolding update_markets_aggregate
update_volume agg [] = omega arith
update_volume agg (s ∷ rest) = omega (
  arith,
  update_volume (update_market agg s.market_id s.charts) rest,
  update_market_volume agg s.market_id s.charts,
  charts_volume s.market_id s.charts rest,
)

-- The search gives at most `limit` rows from the offset on, of rows that do not change and in an order
-- that does not change.
pub record Searches (rows : List CandleStick) (search : ℕ → ℕ → List CandleStick) : Type 0 where
  pub page : (limit offset : ℕ) → search limit offset ≡ take limit (drop offset rows)

-- One pass over some rows, and the offset after it.
abbrev pub one_pass : List CandleStick → ℕ → MarketsAggregate → MarketsAggregate × ℕ
one_pass rows offset agg = (update_markets_aggregate agg rows, offset + length rows)

one_pass-append :
    (xs ys : List CandleStick) (offset : ℕ) (agg : MarketsAggregate)
    → one_pass ys (offset + length xs) (update_markets_aggregate agg xs)
      ≡ one_pass (xs ++ ys) offset agg
one_pass-append xs ys offset agg =
    ap₂ {A = MarketsAggregate} {B = ℕ} (λ a n. (a, n)) (sym (update-append agg xs ys))
      (omega (arith, length-append xs ys))

full_page :
    (a : ℕ) (xs : List CandleStick) → ltb (length (take a xs)) a ≡ false → length (take a xs) ≡ a
full_page a xs h = omega (arith, length-take_le a xs, not_ltb (length (take a xs)) a h)
  where
    not_ltb : (m n : ℕ) → ltb m n ≡ false → n ≤ m
    not_ltb m n e = ground arith

module _ (find : ℕ → ℕ → List CandleStick) (rows : List CandleStick) (pages : Searches rows find)
    (limit : ℕ) where
  abbrev wanted : ℕ → ℕ → List CandleStick
  wanted step offset = take (limit - step * 1000) (drop offset rows)

  -- After a full page the rest of the range is what the next step wants.
  wanted-next :
      (step offset a : ℕ)
      → a ≡ min 1000 (limit - step * 1000)
      → take a (drop offset rows) ++ wanted (step + 1) (offset + a) ≡ wanted step offset
  wanted-next step offset a h =
      ap (λ l. take a (drop offset rows) ++ take (limit - (step + 1) * 1000) l)
        (drop_add offset a rows)
      ∙ sym (take_add a (limit - (step + 1) * 1000) (drop offset rows))
      ∙ ap (λ n. take n (drop offset rows)) (omega (arith, h))

  for_steps-one_pass :
      (left step offset : ℕ) (agg : MarketsAggregate)
      → step + left ≡ (limit + 999) / 1000
      → for_steps find ((limit + 999) / 1000) limit left step offset agg
        ≡ one_pass (wanted step offset) offset agg
  unfolding for_steps update_markets_aggregate
  for_steps-one_pass zero step offset agg h =
      let nothing : limit - step * 1000 ≡ 0 = omega (arith, h) in
      ap {A = ℕ} (λ n. (agg, n)) (omega arith)
      ∙ ap (λ n. one_pass (take n (drop offset rows)) offset agg) (sym nothing)
  for_steps-one_pass (suc left) step offset agg h =
      let (e, below) = step_limit step left limit h in
      let a = min 1000 (limit - step * 1000) in
      rw (e, pages.page a offset)
        (elim (Bool-cases (ltb (length (take a (drop offset rows))) a)) [
          | inl short ↦ rw short (
              ap (λ l. one_pass l offset agg)
                (sym (
                  take_short a (limit - step * 1000) (drop offset rows) (ltb→lt _ _ short)
                    (omega arith))))
          | inr full ↦ rw full (
              for_steps-one_pass left (step + 1) (offset + length (take a (drop offset rows)))
                (update_markets_aggregate agg (take a (drop offset rows))) (omega (arith, h))
              ∙ one_pass-append (take a (drop offset rows))
                  (wanted (step + 1) (offset + length (take a (drop offset rows)))) offset agg
              ∙ ap (λ l. one_pass l offset agg)
                  (ap (λ n. take a (drop offset rows) ++ wanted (step + 1) (offset + n))
                      (full_page a (drop offset rows) full)
                    ∙ wanted-next step offset a refl))
        ])

  -- Over rows that the search gives page by page, the steps of a symbol come to one pass over the rows
  -- from the offset on, as many as the limit. The number that is reported as the aggregated records is
  -- the offset and the number of those rows.
  pub aggregate_in_one_pass :
      (offset : ℕ)
      → aggregate_data_for_symbol find limit offset ≡ record {
        aggregated_data =
            calculate_common_aggregate
              (update_markets_aggregate empty_aggregate (take limit (drop offset rows)));
        aggregated_records = offset + length (take limit (drop offset rows));
      }
  unfolding aggregate_data_for_symbol ceil_div
  aggregate_in_one_pass offset =
      let passed =
        for_steps-one_pass ((limit + 999) / 1000) 0 offset empty_aggregate (omega arith) in
      ap {A = MarketsAggregate × ℕ}
        (λ p. record { aggregated_data = calculate_common_aggregate p.0; aggregated_records = p.1 })
        (passed ∙ ap (λ n. one_pass (take n (drop offset rows)) offset empty_aggregate) all)
    where
      all : limit - 0 * 1000 ≡ limit
      all = omega arith

  -- The volume of the aggregate is the volume of all charts of the rows that were asked for.
  pub range_volume :
      (offset : ℕ)
      → (aggregate_data_for_symbol find limit offset).aggregated_data.volume
        ≡ volume_of (all_charts (take limit (drop offset rows)))
  unfolding calculate_common_aggregate
  range_volume offset =
      ap {A = RangeResult} (λ r. r.aggregated_data.volume) (aggregate_in_one_pass offset)
      ∙ update_volume empty_aggregate (take limit (drop offset rows))
      ∙ omega arith
