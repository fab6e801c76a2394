-- ===== src/Aggregation/Frames/Volume.antt =====
-- What becomes of the volume of a batch, with and without a timeframe carried into it.
use wolfram_price_feed_infra.Base.{
  ℕ, ◌+◌, ◌*◌, ◌≡◌, refl, ◌∙◌, inl, inr, Option, none, some, List, [], ◌∷◌, ◌++◌, length,
  length-append, leb, sort_by, insert_by, length-sort_by, ◌<◌, arith, Bool-cases, List-cases,
}
use wolfram_price_feed_infra.Aggregation.Charts.{
  MarketChart, Aggregate, aggregate_charts, merge_transitional_data,
}
use wolfram_price_feed_infra.Aggregation.Charts.Volume.{
  volume_of, carried, closed_volume, volume_of-append, aggregate_charts_volume, merge_volume,
}
use wolfram_price_feed_infra.Aggregation.Frames.{
  Frames, CandleStick, all_charts, timestamp_of, sort_charts_by_timestamp, is_outside_timeframe,
  resolve_last_timeframe_aggregation, push_some, close_timeframe, step, steps,
  handle_unfinished_timeframe, first_frame, unfinished_of, process_batch,
}

closed_volume-append :
    (as_ : List Aggregate) (a : Aggregate)
    → closed_volume (as_ ++ a ∷ []) ≡ closed_volume as_ + a.volume
closed_volume-append [] a = omega arith
closed_volume-append (x ∷ xs) a = omega (arith, closed_volume-append xs a)

pub closed_volume-push_some :
    (as_ : List Aggregate) (o : Option Aggregate)
    → closed_volume (push_some as_ o) ≡ closed_volume as_ + carried o
closed_volume-push_some as_ none = omega arith
closed_volume-push_some as_ (some a) = closed_volume-append as_ a

resolved_volume :
    (start : ℕ) (data_ : List MarketChart) (t : Option Aggregate)
    → carried (resolve_last_timeframe_aggregation start data_ t) ≡ carried t + volume_of data_
unfolding resolve_last_timeframe_aggregation
resolved_volume start [] none = refl
resolved_volume start [] (some t) = merge_volume (some t) none
resolved_volume start (c ∷ cs) none = aggregate_charts_volume (c ∷ cs) start ∙ omega arith
resolved_volume start (c ∷ cs) (some t) = omega (
  arith,
  merge_volume (some t) (aggregate_charts (c ∷ cs) start),
  aggregate_charts_volume (c ∷ cs) start,
)

merged_some :
    (t : Aggregate) (o : Option Aggregate)
    → (a : Aggregate) × (merge_transitional_data (some t) o ≡ some a)
unfolding merge_transitional_data
merged_some t none = (_, refl)
merged_some t (some a) = (_, refl)

resolved_some :
    (start : ℕ) (data_ : List MarketChart) (t : Aggregate)
    → (a : Aggregate) × (resolve_last_timeframe_aggregation start data_ (some t) ≡ some a)
unfolding resolve_last_timeframe_aggregation
resolved_some start [] t = merged_some t none
resolved_some start (c ∷ cs) t = merged_some t (aggregate_charts (c ∷ cs) start)

-- One more timeframe carries the volume of the transition once more.
pushed_count :
    (as_ : List Aggregate) (start : ℕ) (data_ : List MarketChart) (t : Option Aggregate)
    → length (push_some as_ (resolve_last_timeframe_aggregation start data_ t)) * carried t
      ≡ length as_ * carried t + carried t
pushed_count as_ start data_ none = omega arith
pushed_count as_ start data_ (some t) =
    let (a, e) = resolved_some start data_ t in rw (e, length-append as_ (a ∷ [])) (omega arith)

abbrev held : Frames → ℕ
held f = closed_volume f.aggregated_timeframes + volume_of f.current_timeframe_data

step_volume :
    (duration : ℕ) (t : Option Aggregate) (f : Frames) (c : MarketChart)
    → held (step duration t f c) + length f.aggregated_timeframes * carried t
      ≡ held f + c.chart.volume + length (step duration t f c).aggregated_timeframes * carried t
unfolding step close_timeframe
step_volume duration t f c =
    elim (Bool-cases
      (is_outside_timeframe (timestamp_of c) f.current_timeframe_start f.current_timeframe_end)) [
        | inl outside ↦ rw outside (
            omega (
              arith,
              pushed_count f.aggregated_timeframes f.current_timeframe_start
                  f.current_timeframe_data t,
              closed_volume-push_some f.aggregated_timeframes (
                  resolve_last_timeframe_aggregation f.current_timeframe_start
                    f.current_timeframe_data t),
              resolved_volume f.current_timeframe_start f.current_timeframe_data t,
            ))
        | inr inside ↦ rw inside (omega (arith, volume_of-append f.current_timeframe_data c))
      ]

steps_volume :
    (duration : ℕ) (t : Option Aggregate) (f : Frames) (cs : List MarketChart)
    → held (steps duration t f cs) + length f.aggregated_timeframes * carried t
      ≡ held f + volume_of cs + length (steps duration t f cs).aggregated_timeframes * carried t
unfolding steps
steps_volume duration t f [] = omega arith
steps_volume duration t f (c ∷ cs) =
    omega (arith, step_volume duration t f c, steps_volume duration t (step duration t f c) cs)

insert_volume :
    (c : MarketChart) (cs : List MarketChart)
    → volume_of (insert_by leb timestamp_of c cs) ≡ c.chart.volume + volume_of cs
insert_volume c [] = refl
insert_volume c (d ∷ ds) = ground (arith, insert_volume c ds)

sort_volume : (cs : List MarketChart) → volume_of (sort_by leb timestamp_of cs) ≡ volume_of cs
sort_volume [] = refl
sort_volume (c ∷ cs) = omega (arith, insert_volume c (sort_by leb timestamp_of cs), sort_volume cs)

-- The frames at the end of a batch.
abbrev pub batch_frames : List CandleStick → Option Aggregate → ℕ → ℕ → Frames
batch_frames candle_sticks t duration start =
    steps duration t (first_frame duration start) (sort_charts_by_timestamp candle_sticks)

batch_volume :
    (candle_sticks : List CandleStick) (t : Option Aggregate) (duration start : ℕ)
    → held (batch_frames candle_sticks t duration start)
      ≡ volume_of (all_charts candle_sticks)
        + length (batch_frames candle_sticks t duration start).aggregated_timeframes * carried t
unfolding sort_charts_by_timestamp
batch_volume candle_sticks t duration start = omega (
  arith,
  steps_volume duration t (first_frame duration start)
      (sort_by leb timestamp_of (all_charts candle_sticks)),
  sort_volume (all_charts candle_sticks),
)

unfinished_volume :
    (f : Frames) → carried (unfinished_of none f) ≡ volume_of f.current_timeframe_data
unfolding unfinished_of handle_unfinished_timeframe
unfinished_volume f = elim (List-cases f.current_timeframe_data) [
  | inl e ↦ rw e refl
  | inr (c, cs, e) ↦ rw e (aggregate_charts_volume (c ∷ cs) f.current_timeframe_start)
]

-- A batch into which no timeframe is carried keeps the volume of its charts: the closed timeframes
-- and the one left unfinished have it all.
pub process_batch_volume :
    (candle_sticks : List CandleStick) (duration start : ℕ)
    → let b = process_batch candle_sticks none duration start in
      closed_volume b.aggregated_timeframes + carried b.unfinished_timeframe
      ≡ volume_of (all_charts candle_sticks)
unfolding process_batch
process_batch_volume candle_sticks duration start = omega (
  arith,
  batch_volume candle_sticks none duration start,
  unfinished_volume (batch_frames candle_sticks none duration start),
)

append-nonempty :
    (xs : List MarketChart) (c : MarketChart)
    → (d : MarketChart) × (ds : List MarketChart) × (xs ++ c ∷ [] ≡ d ∷ ds)
append-nonempty [] c = (c, [], refl)
append-nonempty (x ∷ xs) c = (x, xs ++ c ∷ [], refl)

abbrev Holds : Frames → Type 0
Holds f = (d : MarketChart) × (ds : List MarketChart) × (f.current_timeframe_data ≡ d ∷ ds)

step-Holds :
    (duration : ℕ) (t : Option Aggregate) (f : Frames) (c : MarketChart)
    → Holds (step duration t f c)
unfolding step close_timeframe
step-Holds duration t f c =
    elim (Bool-cases
      (is_outside_timeframe (timestamp_of c) f.current_timeframe_start f.current_timeframe_end)) [
        | inl outside ↦ rw outside (c, [], refl)
        | inr inside ↦ rw inside (append-nonempty f.current_timeframe_data c)
      ]

steps-Holds :
    (duration : ℕ) (t : Option Aggregate) (f : Frames) (cs : List MarketChart)
    → Holds f
    → Holds (steps duration t f cs)
unfolding steps
steps-Holds duration t f [] h = h
steps-Holds duration t f (c ∷ cs) h =
    steps-Holds duration t (step duration t f c) cs (step-Holds duration t f c)

steps_of_some-Holds :
    (duration : ℕ) (t : Option Aggregate) (f : Frames) (cs : List MarketChart)
    → 0 < length cs
    → Holds (steps duration t f cs)
unfolding steps
steps_of_some-Holds duration t f [] h = absurd (omega (arith, h))
steps_of_some-Holds duration t f (c ∷ cs) h =
    steps-Holds duration t (step duration t f c) cs (step-Holds duration t f c)

-- A batch into which a timeframe is carried, and which has a chart, leaves just that timeframe
-- unfinished: the charts of its last timeframe are lost, and the volume that was carried in is counted
-- again in each timeframe that it closes.
pub carried_timeframe_repeated :
    (candle_sticks : List CandleStick) (t : Aggregate) (duration start : ℕ)
    → 0 < length (all_charts candle_sticks)
    → let b = process_batch candle_sticks (some t) duration start in
      let lost = (batch_frames candle_sticks (some t) duration start).current_timeframe_data in
      (b.unfinished_timeframe ≡ some t)
      × (0 < length lost)
      × (closed_volume b.aggregated_timeframes + volume_of lost
          ≡ volume_of (all_charts candle_sticks) + length b.aggregated_timeframes * t.volume)
unfolding process_batch unfinished_of handle_unfinished_timeframe merge_transitional_data
    sort_charts_by_timestamp
carried_timeframe_repeated candle_sticks t duration start h =
    let (d, ds, e) =
      steps_of_some-Holds duration (some t) (first_frame duration start)
        (sort_by leb timestamp_of (all_charts candle_sticks))
        (rw (length-sort_by leb timestamp_of (all_charts candle_sticks)) h) in
    (rw e refl, rw e (omega arith), batch_volume candle_sticks (some t) duration start)
