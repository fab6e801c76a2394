-- ===== src/Aggregation/Frames/Aligned.antt =====
-- The timeframes of a batch lie on the grid of its start, and every chart is put in its own.
use native.Mathlib.Nat.{lt-div-mul-add, div-mul-le_self}
use wolfram_price_feed_infra.Base.{
  ℕ, suc, ◌+◌, ◌-◌, ◌*◌, ◌/◌, ◌≤◌, ◌<◌, ◌≡◌, refl, sym, subst, inl, inr, true, false, Option, none,
  List, [], ◌∷◌, ◌++◌, map, leb, leb→le, le→leb, sort_by, sort_by-map, All-sort_by, All, All-append,
  arith, Bool-cases, List-cases,
}
use wolfram_price_feed_infra.Aggregation.Median.Monotone.{Ascending, sort-Ascending}
use wolfram_price_feed_infra.Aggregation.Charts.{MarketChart, Aggregate}
use wolfram_price_feed_infra.Aggregation.Charts.Volume.{aggregate_charts_total}
use wolfram_price_feed_infra.Aggregation.Frames.{
  Frames, CandleStick, all_charts, timestamp_of, sort_charts_by_timestamp, is_outside_timeframe,
  resolve_next_timeframe_interval, resolve_last_timeframe_aggregation, push_some, close_timeframe,
  step, steps, first_frame, process_batch,
}

-- The timeframe has the given length, and its charts lie in it.
pub record Fits (duration : ℕ) (f : Frames) : Type 0 where
  pub long : f.current_timeframe_end ≡ f.current_timeframe_start + duration
  pub within :
      All
        (λ c.
          (f.current_timeframe_start ≤ timestamp_of c) × (timestamp_of c < f.current_timeframe_end))
        f.current_timeframe_data

ahead : (n d : ℕ) → 0 < d → (d * (n / d) ≤ n) × (n < d * (n / d) + d)
ahead n d h = (omega (arith, div-mul-le_self n d), omega (arith, lt-div-mul-add {a = n} h))

-- The next timeframe has the chart in it, whether the chart lies after the current one or before.
next_has :
    (end_ d ts : ℕ)
    → 0 < d
    → (resolve_next_timeframe_interval end_ d ts ≤ ts)
      × (ts < resolve_next_timeframe_interval end_ d ts + d)
unfolding resolve_next_timeframe_interval
next_has end_ d ts h = elim (Bool-cases (leb end_ ts)) [
  | inl after ↦
      let (lo, hi) = ahead (ts - end_) d h in
      rw after (omega (arith, leb→le end_ ts after, lo), omega (arith, leb→le end_ ts after, hi))
  | inr before ↦
      let (lo, hi) = ahead (end_ - ts + (d - 1)) d h in
      rw before
        (omega (arith, not_leb end_ ts before, hi, h), omega (arith, not_leb end_ ts before, lo, h))
]
  where
    not_leb : (a b : ℕ) → leb a b ≡ false → b < a
    not_leb a b e = ground arith

inside_bounds :
    (ts start end_ : ℕ) → is_outside_timeframe ts start end_ ≡ false → (start ≤ ts) × (ts < end_)
unfolding is_outside_timeframe
inside_bounds ts start end_ h = ground arith

outside_bounds :
    (ts start end_ : ℕ) → is_outside_timeframe ts start end_ ≡ true → start ≤ ts → end_ ≤ ts
unfolding is_outside_timeframe
outside_bounds ts start end_ h k = ground arith

step-Fits :
    (duration : ℕ) (t : Option Aggregate) (f : Frames) (c : MarketChart)
    → 0 < duration
    → Fits duration f
    → Fits duration (step duration t f c)
unfolding step close_timeframe
step-Fits duration t f c pos h =
    elim (Bool-cases
      (is_outside_timeframe (timestamp_of c) f.current_timeframe_start f.current_timeframe_end)) [
        | inl outside ↦ rw outside (record {
          long = refl;
          within = (next_has f.current_timeframe_end duration (timestamp_of c) pos, tt);
        })
        | inr inside ↦ rw inside (record {
          long = h.long;
          within = All-append _ f.current_timeframe_data (c ∷ []) h.within (
            inside_bounds (timestamp_of c) f.current_timeframe_start f.current_timeframe_end inside,
            tt,
          );
        })
      ]

-- However many charts were taken in, and in whichever order they come, the charts of the current
-- timeframe lie within its bounds.
pub steps-Fits :
    (duration : ℕ) (t : Option Aggregate) (f : Frames) (cs : List MarketChart)
    → 0 < duration
    → Fits duration f
    → Fits duration (steps duration t f cs)
unfolding steps
steps-Fits duration t f [] pos h = h
steps-Fits duration t f (c ∷ cs) pos h =
    steps-Fits duration t (step duration t f c) cs pos (step-Fits duration t f c pos h)

-- Timeframes from `start` on that lie on its grid, one after the other, and before `last`.
abbrev pub Grid : ℕ → ℕ → List Aggregate → ℕ → Type 0
Grid start duration [] last = (k : ℕ) × (last ≡ start + k * duration)
Grid start duration (a ∷ as_) last =
    (k : ℕ) × (a.timestamp ≡ start + k * duration) × Grid (a.timestamp + duration) duration as_ last

Grid-extend :
    (start d : ℕ) (as_ : List Aggregate) (last k : ℕ)
    → Grid start d as_ last
    → Grid start d as_ (last + k * d)
Grid-extend start d [] last k (j, e) = (j + k, omega (arith, e))
Grid-extend start d (a ∷ as_) last k (j, e, g) =
    (j, e, Grid-extend (a.timestamp + d) d as_ last k g)

Grid-append :
    (start d : ℕ) (as_ : List Aggregate) (a : Aggregate) (k : ℕ)
    → Grid start d as_ a.timestamp
    → Grid start d (as_ ++ a ∷ []) (a.timestamp + d + k * d)
Grid-append start d [] a k (j, e) = (j, e, (k, refl))
Grid-append start d (b ∷ as_) a k (j, e, g) = (j, e, Grid-append (b.timestamp + d) d as_ a k g)

-- Closing the timeframe adds to the grid, and the next timeframe starts on it.
close-Grid :
    (start d : ℕ) (f : Frames) (k : ℕ)
    → Grid start d f.aggregated_timeframes f.current_timeframe_start
    → Grid start d
        (push_some f.aggregated_timeframes (
          resolve_last_timeframe_aggregation f.current_timeframe_start f.current_timeframe_data
            none))
        (f.current_timeframe_start + d + k * d)
unfolding resolve_last_timeframe_aggregation
close-Grid start d f k g = elim (List-cases f.current_timeframe_data) [
  | inl e ↦ rw e (
      subst (Grid start d f.aggregated_timeframes) (omega arith)
        (Grid-extend start d f.aggregated_timeframes f.current_timeframe_start (suc k) g))
  | inr (c, cs, e) ↦
      let (a, found, sums) = aggregate_charts_total c cs f.current_timeframe_start in
      rw (e, found)
        (subst (λ n. Grid start d (f.aggregated_timeframes ++ a ∷ []) (n + d + k * d)) sums.at_
          (Grid-append start d f.aggregated_timeframes a k
            (subst (Grid start d f.aggregated_timeframes) (sym sums.at_) g)))
]

next_start :
    (s e ts d : ℕ)
    → e ≡ s + d
    → e ≤ ts
    → s + d + (ts - e) / d * d ≡ resolve_next_timeframe_interval e d ts
unfolding resolve_next_timeframe_interval
next_start s e ts d h k = rw (le→leb e ts k) (omega (arith, h))

step-Grid :
    (start d : ℕ) (f : Frames) (c : MarketChart)
    → 0 < d
    → f.current_timeframe_end ≡ f.current_timeframe_start + d
    → f.current_timeframe_start ≤ timestamp_of c
    → Grid start d f.aggregated_timeframes f.current_timeframe_start
    → Grid start d (step d none f c).aggregated_timeframes (step d none f c).current_timeframe_start
      × ((step d none f c).current_timeframe_start ≤ timestamp_of c)
unfolding step close_timeframe
step-Grid start d f c pos long below g =
    elim (Bool-cases
      (is_outside_timeframe (timestamp_of c) f.current_timeframe_start f.current_timeframe_end)) [
        | inl outside ↦
            let later =
              outside_bounds (timestamp_of c) f.current_timeframe_start f.current_timeframe_end
                outside below in
            rw outside (
              subst (Grid start d _)
                  (next_start f.current_timeframe_start f.current_timeframe_end (timestamp_of c) d
                    long later)
                  (close-Grid start d f ((timestamp_of c - f.current_timeframe_end) / d) g),
              (next_has f.current_timeframe_end d (timestamp_of c) pos).0,
            )
        | inr inside ↦ rw inside (g, below)
      ]

steps-Grid :
    (start d : ℕ) (f : Frames) (cs : List MarketChart)
    → 0 < d
    → Fits d f
    → Ascending (map timestamp_of cs)
    → All (λ c. f.current_timeframe_start ≤ timestamp_of c) cs
    → Grid start d f.aggregated_timeframes f.current_timeframe_start
    → Grid start d
        (steps d none f cs).aggregated_timeframes
        (steps d none f cs).current_timeframe_start
unfolding steps
steps-Grid start d f [] pos h asc above g = g
steps-Grid start d f (c ∷ cs) pos h asc above g =
    let (g', below) = step-Grid start d f c pos h.long above.0 g in
    steps-Grid start d (step d none f c) cs pos (step-Fits d none f c pos h) asc.1
      (all_above (step d none f c).current_timeframe_start (timestamp_of c) cs below asc.0) g'
  where
    all_above :
        (a b : ℕ) (cs : List MarketChart)
        → a ≤ b
        → All (λ y. b ≤ y) (map timestamp_of cs)
        → All (λ c. a ≤ timestamp_of c) cs
    all_above a b [] h k = tt
    all_above a b (c ∷ cs) h k = (omega (arith, h, k.0), all_above a b cs h k.1)

sorted-Ascending :
    (cs : List MarketChart) → Ascending (map timestamp_of (sort_by leb timestamp_of cs))
sorted-Ascending cs =
    subst Ascending (sort_by-map leb timestamp_of timestamp_of (λ n. n) (λ a. refl) cs)
      (sort-Ascending (map timestamp_of cs))

-- When no timeframe is carried into a batch and none of its charts is before its start, the
-- timeframes that it closes begin at the start or whole timeframes later, each after the one before it
-- has ended, and all before the timeframe that is left unfinished, which is on the same grid.
pub process_batch-Grid :
    (candle_sticks : List CandleStick) (duration start : ℕ)
    → 0 < duration
    → All (λ c. start ≤ timestamp_of c) (all_charts candle_sticks)
    → let b = process_batch candle_sticks none duration start in
      Grid start duration b.aggregated_timeframes b.last_timeframe_start
unfolding process_batch sort_charts_by_timestamp
process_batch-Grid candle_sticks duration start pos above =
    steps-Grid start duration (first_frame duration start)
      (sort_by leb timestamp_of (all_charts candle_sticks)) pos
      (record { long = refl; within = tt }) (sorted-Ascending (all_charts candle_sticks))
      (All-sort_by leb timestamp_of (λ c. start ≤ timestamp_of c) (all_charts candle_sticks) above)
      (0, omega arith)
