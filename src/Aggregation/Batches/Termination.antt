-- ===== src/Aggregation/Batches/Termination.antt =====
-- The loop over the batches ends, and has then taken in every candle stick.
use wolfram_price_feed_infra.Base.{
  ℕ, zero, suc, ◌+◌, ◌-◌, ◌≤◌, ◌<◌, ◌≡◌, refl, ap, ◌∙◌, inl, inr, min, Bool, true, false, none,
  some, List, [], ◌∷◌, length, take, drop, ltb, ltb→lt, lt→ltb, if◌then◌else◌, arith, Bool-cases,
}
use wolfram_price_feed_infra.Aggregation.Charts.Volume.{volume_of, closed_volume}
use wolfram_price_feed_infra.Aggregation.Frames.{CandleStick, all_charts, process_batch}
use wolfram_price_feed_infra.Aggregation.Frames.Volume.{
  process_batch_volume, closed_volume-push_some,
}
use wolfram_price_feed_infra.Aggregation.Batches.{
  Progress, first_progress, SymbolResult, symbol_result, result_of, process_fetched,
  fetch_and_process_batch, loop, aggregate_candle_sticks_for_symbol,
}

length-page :
    (n m : ℕ) (rows : List CandleStick) → length (take n (drop m rows)) ≡ min n (length rows - m)
length-page zero zero rows = omega arith
length-page zero (suc m) [] = omega arith
length-page zero (suc m) (r ∷ rs) = omega arith
length-page (suc n) zero [] = omega arith
length-page (suc n) zero (r ∷ rs) = omega (arith, length-page n zero rs)
length-page (suc n) (suc m) [] = omega arith
length-page (suc n) (suc m) (r ∷ rs) = omega (arith, length-page (suc n) m rs)

whole_page : (n : ℕ) (rows : List CandleStick) → length rows < n → take n (drop 0 rows) ≡ rows
whole_page zero rows h = absurd (omega (arith, h))
whole_page (suc n) [] h = refl
whole_page (suc n) (r ∷ rs) h = ap (◌∷◌ r) (whole_page n rs (omega (arith, h)))

-- The search gives the rows from the offset on, as many as one batch has at most: a query with a
-- limit and an offset, in an order that does not change, over rows that do not change.
pub record Pages (rows : List CandleStick) (step_size : ℕ) (search : ℕ → List CandleStick)
    : Type 0 where
  pub page : (offset : ℕ) → search offset ≡ take step_size (drop offset rows)

module _ (search : ℕ → List CandleStick) (step_size duration : ℕ) where
  fetched :
      (p : Progress) (page : List CandleStick)
      → ((process_fetched search step_size duration p page).offset ≡ p.offset + length page)
        × ((process_fetched search step_size duration p page).is_last_batch
            ≡ ltb (length page) step_size)
  unfolding process_fetched
  fetched p [] = (omega arith, refl)
  fetched p (c ∷ cs) = (refl, refl)

  module _ (rows : List CandleStick) (pages : Pages rows step_size search)
      (pos : 0 < step_size) where
    next_offset :
        (p : Progress)
        → (fetch_and_process_batch search step_size duration p).offset
          ≡ p.offset + min step_size (length rows - p.offset)
    unfolding fetch_and_process_batch
    next_offset p =
        (fetched p (search p.offset)).0
        ∙ ap (λ l. p.offset + length l) (pages.page p.offset)
        ∙ ap (λ n. p.offset + n) (length-page step_size p.offset rows)

    next_last :
        (p : Progress)
        → (fetch_and_process_batch search step_size duration p).is_last_batch
          ≡ ltb (min step_size (length rows - p.offset)) step_size
    unfolding fetch_and_process_batch
    next_last p =
        (fetched p (search p.offset)).1
        ∙ ap (λ l. ltb (length l) step_size) (pages.page p.offset)
        ∙ ap (λ n. ltb n step_size) (length-page step_size p.offset rows)

    loop_ends :
        (fuel : ℕ) (p : Progress)
        → p.offset ≤ length rows
        → length rows < p.offset + fuel
        → (q : Progress) × (loop search step_size duration fuel p ≡ some q)
          × (q.offset ≡ length rows)
    unfolding loop
    loop_ends zero p h k = absurd (omega (arith, h, k))
    loop_ends (suc fuel) p h k =
        let next = fetch_and_process_batch search step_size duration p in
        elim (Bool-cases (ltb (min step_size (length rows - p.offset)) step_size)) [
          | inl last ↦ (next, test p last, omega (arith, next_offset p, h, ltb→lt _ _ last))
          | inr more ↦
              let full = not_ltb (min step_size (length rows - p.offset)) step_size more in
              let (q, e, at_end) =
                loop_ends fuel next (omega (arith, next_offset p, h))
                  (omega (arith, next_offset p, h, k, full, pos)) in
              (q, test p more ∙ e, at_end)
        ]
      where
        test :
            {b : Bool} (p : Progress)
            → ltb (min step_size (length rows - p.offset)) step_size ≡ b
            → loop search step_size duration (suc fuel) p ≡ (
                if b
                then some (fetch_and_process_batch search step_size duration p)
                else loop search step_size duration fuel
                    (fetch_and_process_batch search step_size duration p))
        test p e =
            ap
              (λ b.
                if b
                then some (fetch_and_process_batch search step_size duration p)
                else loop search step_size duration fuel
                    (fetch_and_process_batch search step_size duration p))
              (next_last p ∙ e)

        not_ltb : (a b : ℕ) → ltb a b ≡ false → b ≤ a
        not_ltb a b e = ground arith

    -- Where the search gives pages of at least one row, as many rounds as there are rows and one more
    -- are enough: the aggregation of a symbol returns, and it has counted every row once.
    pub aggregate_candle_sticks_total :
        (fuel start : ℕ)
        → length rows < fuel
        → (r : SymbolResult) × (aggregate_candle_sticks_for_symbol search step_size duration fuel
              start
            ≡ some r)
          × (r.processed_count ≡ length rows)
    unfolding aggregate_candle_sticks_for_symbol symbol_result
    aggregate_candle_sticks_total fuel start h =
        let (q, e, at_end) =
          loop_ends fuel (first_progress start) (omega arith) (omega (arith, h)) in
        (symbol_result q, ap result_of e, at_end)

first_batch_volume :
    (search : ℕ → List CandleStick) (step_size duration start : ℕ) (rows : List CandleStick)
    → closed_volume
        (symbol_result
          (process_fetched search step_size duration (first_progress start) rows)).candles
      ≡ volume_of (all_charts rows)
unfolding symbol_result process_fetched
first_batch_volume find step_size duration start [] = refl
first_batch_volume find step_size duration start (c ∷ cs) =
    let b = process_batch (c ∷ cs) none duration start in
    closed_volume-push_some b.aggregated_timeframes b.unfinished_timeframe
    ∙ process_batch_volume (c ∷ cs) duration start

-- Candle sticks that fit in one batch are aggregated without loss: the candles of the result have the
-- volume of all charts.
pub one_batch_volume :
    (search : ℕ → List CandleStick) (step_size duration : ℕ) (rows : List CandleStick)
    → Pages rows step_size search
    → length rows < step_size
    → (fuel start : ℕ)
    → (r : SymbolResult) × (aggregate_candle_sticks_for_symbol search step_size duration
          (suc fuel)
          start
        ≡ some r)
      × (closed_volume r.candles ≡ volume_of (all_charts rows))
unfolding aggregate_candle_sticks_for_symbol loop fetch_and_process_batch
one_batch_volume find step_size duration rows pages small fuel start =
    let p = first_progress start in
    let all = pages.page 0 ∙ whole_page step_size rows small in
    let next = process_fetched find step_size duration p (find 0) in
    let last : next.is_last_batch ≡ true =
      (fetched find step_size duration p (find 0)).1
      ∙ ap (λ l. ltb (length l) step_size) all
      ∙ lt→ltb (length rows) step_size small in
    (
      symbol_result next,
      ap (λ b. result_of (if b then some next else loop find step_size duration fuel next)) last,
      ap (λ l. closed_volume (symbol_result (process_fetched find step_size duration p l)).candles)
            all
          ∙ first_batch_volume find step_size duration start rows,
    )
