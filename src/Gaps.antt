-- ===== src/Gaps.antt =====
-- lib/use-cases/testing/CheckCryptoMarketsGapsUseCase.js: the gaps between the intervals of the records
-- of each market. The count and the search of the database are parameters.
mod Examples
pub mod Steps
use wolfram_price_feed_infra.Base.{
  ℕ, zero, suc, ◌+◌, ◌*◌, ◌/◌, Bool, true, false, Option, none, some, List, [], ◌∷◌, ltb, ◌==◌,
  if◌then◌else◌,
}
use wolfram_price_feed_infra.Scheduling.Units.{ceil_div}

-- The times are in milliseconds.
pub record Row : Type 0 where
  pub market_id : ℕ
  pub interval_start : ℕ
  pub interval_end : ℕ

pub record MarketGaps : Type 0 where
  pub market_id : ℕ
  pub gaps : ℕ

pub record Results : Type 0 where
  pub markets : List MarketGaps
  pub total : ℕ

abbrev pub no_results : Results
no_results = record { markets = []; total = 0 }

-- `results.markets[currentMarketId] ??= 0`, at the place of the key in the order of whole numbers.
unfoldable pub ensure_market : List MarketGaps → ℕ → List MarketGaps
ensure_market [] m = (record { market_id = m; gaps = 0 }) ∷ []
ensure_market (g ∷ gs) m =
    if g.market_id == m
    then g ∷ gs
    else (if ltb m g.market_id
        then (record { market_id = m; gaps = 0 }) ∷ g ∷ gs
        else g ∷ ensure_market gs m)

unfoldable pub gaps_of : List MarketGaps → ℕ → ℕ
gaps_of [] m = 0
gaps_of (g ∷ gs) m = if g.market_id == m then g.gaps else gaps_of gs m

unfoldable pub add_gap : List MarketGaps → ℕ → List MarketGaps
add_gap [] m = []
add_gap (g ∷ gs) m =
    if g.market_id == m then (record g { gaps = g.gaps + 1 }) ∷ gs else g ∷ add_gap gs m

unfoldable pub see_market : Results → Row → Results
see_market r item = record r { markets = ensure_market r.markets item.market_id }

unfoldable pub close_market : Results → Row → Results
close_market r item = record r { total = r.total + gaps_of r.markets item.market_id }

-- The texts of two dates, which leave out the milliseconds.
abbrev pub same_date : ℕ → ℕ → Bool
same_date a b = a / 1000 == b / 1000

-- The body of `forEach` where another row follows.
unfoldable pub count_pair : Results → Row → Row → Results
count_pair r item next =
    let seen = see_market r item in
    if item.market_id == next.market_id
    then (if same_date item.interval_end next.interval_start
        then seen
        else (record seen { markets = add_gap seen.markets item.market_id }))
    else close_market seen item

unfoldable pub count_gaps : Bool → List Row → Results → Results
count_gaps is_last_batch [] r = r
count_gaps is_last_batch (item ∷ []) r =
    if is_last_batch then close_market (see_market r item) item else see_market r item
count_gaps is_last_batch (item ∷ next ∷ rest) r =
    count_gaps is_last_batch (next ∷ rest) (count_pair r item next)

-- `rows.at(-1)`.
unfoldable pub last_row : List Row → Option Row
last_row [] = none
last_row (x ∷ []) = some x
last_row (x ∷ y ∷ rest) = last_row (y ∷ rest)

abbrev pub with_entry : Option Row → List Row → List Row
with_entry none rows = rows
with_entry (some entry) rows = entry ∷ rows

abbrev pub is_zero : ℕ → Bool
is_zero zero = true
is_zero (suc n) = false

module _ (load_next_batch : ℕ → List Row) where
  -- The `for` loop with so many steps left.
  unfoldable pub process_steps : ℕ → ℕ → Option Row → Results → Results
  process_steps zero step last_entry r = r
  process_steps (suc left) step last_entry r =
      let rows = load_next_batch step in
      process_steps left (step + 1) (last_row rows)
        (count_gaps (is_zero left) (with_entry last_entry rows) r)

unfoldable pub process_data_in_steps : (ℕ → List Row) → ℕ → Results
process_data_in_steps load steps_count = process_steps load steps_count 0 none no_results

unfoldable pub initialize_steps_count : ℕ → ℕ → ℕ
initialize_steps_count total_rows_count step_size = ceil_div total_rows_count step_size
