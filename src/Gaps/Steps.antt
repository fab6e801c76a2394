-- ===== src/Gaps/Steps.antt =====
-- The count in steps is the count over all rows at once: no gap is lost or counted twice where one batch
-- ends and the next begins.
use wolfram_price_feed_infra.Base.{
  ℕ, zero, suc, ◌+◌, ◌*◌, ◌≤◌, ◌<◌, ◌≡◌, refl, sym, ap, ap₂, ◌∙◌, inl, inr, Bool, true, false,
  Option, none, some, List, [], ◌∷◌, ◌++◌, length, take, drop, take-drop, length-drop, length-take,
  take_all, drop_add, arith, List-cases,
}
use wolfram_price_feed_infra.Scheduling.Units.{ceil_div}
use wolfram_price_feed_infra.Scheduling.Units.Divisor.{ceil_div_bounds}
use wolfram_price_feed_infra.Gaps.{
  Row, MarketGaps, Results, no_results, ensure_market, see_market, count_pair, count_gaps, last_row,
  with_entry, process_steps, process_data_in_steps, initialize_steps_count,
}

ensure_twice :
    (gs : List MarketGaps) (m : ℕ) → ensure_market (ensure_market gs m) m ≡ ensure_market gs m
unfolding ensure_market
ensure_twice [] m = ground arith
ensure_twice (g ∷ gs) m = ground (arith, ensure_twice gs m)

see_twice : (r : Results) (x : Row) → see_market (see_market r x) x ≡ see_market r x
unfolding see_market
see_twice r x = ap (λ ms. record r { markets = ms }) (ensure_twice r.markets x.market_id)

-- Seeing the market of the first row before the count changes nothing.
seen_before :
    (b : Bool) (x : Row) (xs : List Row) (r : Results)
    → count_gaps b (x ∷ xs) (see_market r x) ≡ count_gaps b (x ∷ xs) r
unfolding count_gaps count_pair
seen_before b x [] r = rw (see_twice r x) refl
seen_before b x (y ∷ ys) r = rw (see_twice r x) refl

-- A batch that ends at a row and the next that begins with it count what both count as one.
count_gaps-append :
    (b : Bool) (xs : List Row) (l : Row) (ys : List Row) (r : Results)
    → count_gaps b (l ∷ ys) (count_gaps false (xs ++ l ∷ []) r) ≡ count_gaps b (xs ++ l ∷ ys) r
unfolding count_gaps
count_gaps-append b [] l ys r = seen_before b l ys r
count_gaps-append b (x ∷ []) l ys r = seen_before b l ys (count_pair r x l)
count_gaps-append b (x ∷ y ∷ zs) l ys r = count_gaps-append b (y ∷ zs) l ys (count_pair r x y)

-- A list that is not empty, taken apart at its last item.
split_last :
    (x : Row) (xs : List Row)
    → (before : List Row) × (l : Row) × (x ∷ xs ≡ before ++ l ∷ []) × (last_row (x ∷ xs) ≡ some l)
unfolding last_row
split_last x [] = ([], x, refl, refl)
split_last x (y ∷ ys) =
    let (before, l, parts, last) = split_last y ys in (x ∷ before, l, ap (◌∷◌ x) parts, last)

-- The search gives the rows page by page, in an order that does not change.
pub record Batches (rows : List Row) (step_size : ℕ) (load : ℕ → List Row) : Type 0 where
  pub batch : (step : ℕ) → load step ≡ take step_size (drop (step * step_size) rows)

append_assoc : (xs ys zs : List Row) → (xs ++ ys) ++ zs ≡ xs ++ (ys ++ zs)
append_assoc [] ys zs = refl
append_assoc (x ∷ xs) ys zs = ap (◌∷◌ x) (append_assoc xs ys zs)

with_entry-append :
    (e : Option Row) (xs ys : List Row) → with_entry e xs ++ ys ≡ with_entry e (xs ++ ys)
with_entry-append none xs ys = refl
with_entry-append (some x) xs ys = refl

-- A full batch, with the entry carried into it, and the rest with the last entry carried out of it.
batch_then_rest :
    (e : Option Row) (before : List Row) (l : Row) (rest : List Row) (r : Results)
    → count_gaps true (l ∷ rest) (count_gaps false (with_entry e (before ++ l ∷ [])) r)
      ≡ count_gaps true (with_entry e ((before ++ l ∷ []) ++ rest)) r
batch_then_rest none before l rest r =
    count_gaps-append true before l rest r
    ∙ ap (λ xs. count_gaps true xs r) (sym (append_assoc before (l ∷ []) rest))
batch_then_rest (some x) before l rest r =
    count_gaps-append true (x ∷ before) l rest r
    ∙ ap (λ xs. count_gaps true (x ∷ xs) r) (sym (append_assoc before (l ∷ []) rest))

module _ (load : ℕ → List Row) (rows : List Row) (size : ℕ) (batches : Batches rows size load)
    (pos : 0 < size) where
  abbrev left_at : ℕ → List Row
  left_at step = drop (step * size) rows

  next_left : (step : ℕ) → left_at (step + 1) ≡ drop size (left_at step)
  next_left step = ap (λ n. drop n rows) (next_offset step) ∙ drop_add (step * size) size rows
    where
      next_offset : (s : ℕ) → (s + 1) * size ≡ s * size + size
      next_offset s = omega arith

  process_steps-count_gaps :
      (k step : ℕ) (e : Option Row) (r : Results)
      → length (left_at step) ≤ suc k * size
      → suc k * size < length (left_at step) + size
      → process_steps load (suc k) step e r ≡ count_gaps true (with_entry e (left_at step)) r
  unfolding process_steps
  process_steps-count_gaps zero step e r h m =
      ap (λ l. count_gaps true (with_entry e l) r)
        (batches.batch step ∙ take_all size (left_at step) (omega (arith, h)))
  process_steps-count_gaps (suc k) step e r h m =
      rw (batches.batch step) (elim (List-cases (take size (left_at step))) [
        | inl empty ↦ absurd (omega (arith, pos, full, ap length empty))
        | inr (x, xs, found) ↦
            let (before, l, parts, last) = split_last x xs in
            rw (found, last)
              (process_steps-count_gaps k (step + 1) (some l)
                  (count_gaps false (with_entry e (x ∷ xs)) r) (omega (arith, h, shorter))
                  (omega (arith, m, shorter))
                ∙ ap₂ (λ ys zs. count_gaps true (l ∷ ys) (count_gaps false (with_entry e zs) r))
                    (next_left step) parts
                ∙ batch_then_rest e before l (drop size (left_at step)) r
                ∙ ap (λ ys. count_gaps true (with_entry e ys) r)
                    (ap (λ ys. ys ++ drop size (left_at step)) (sym parts ∙ sym found)
                      ∙ take-drop size (left_at step)))
      ])
    where
      full : length (take size (left_at step)) ≡ size
      full = length-take size (left_at step) (omega (arith, m))

      shorter : length (left_at (step + 1)) + size ≡ length (left_at step)
      shorter = omega (arith, length-drop size (left_at step), full, ap length (next_left step))

  count_in_steps :
      (n : ℕ)
      → length rows ≤ n * size
      → n * size < length rows + size
      → process_steps load n 0 none no_results ≡ count_gaps true rows no_results
  unfolding process_steps count_gaps
  count_in_steps zero h m = elim (List-cases rows) [
    | inl empty ↦ rw empty refl
    | inr (x, xs, found) ↦ absurd (omega (arith, h, ap length found))
  ]
  count_in_steps (suc k) h m =
      process_steps-count_gaps k 0 none no_results (omega (arith, h, ap length start))
        (omega (arith, m, ap length start))
      ∙ ap (λ xs. count_gaps true xs no_results) start
    where
      start : left_at 0 ≡ rows
      start = ap (λ n. drop n rows) (zero_mul size)
        where
          zero_mul : (n : ℕ) → 0 * n ≡ 0
          zero_mul n = omega arith

  -- Where the rows come in pages of at least one row, and the number of steps is what the count of the
  -- rows asks for, the steps find the same gaps in each market and in total as one count over all rows.
  pub process_data-count_gaps :
      process_data_in_steps load (initialize_steps_count (length rows) size)
      ≡ count_gaps true rows no_results
  unfolding process_data_in_steps initialize_steps_count
  process_data-count_gaps =
      let (enough, needed) = ceil_div_bounds (length rows) size pos in
      count_in_steps (ceil_div (length rows) size) enough needed
