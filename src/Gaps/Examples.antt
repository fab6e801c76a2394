-- ===== src/Gaps/Examples.antt =====
-- The theorems of this part at concrete inputs: two markets, of which one has a gap.
use wolfram_price_feed_infra.Base.{ℕ, ◌*◌, ◌≡◌, refl, true, List, [], ◌∷◌, take, drop, arith}
use wolfram_price_feed_infra.Gaps.{
  Row, no_results, count_gaps, process_data_in_steps, initialize_steps_count, close_market,
  count_pair, see_market, gaps_of, ensure_market, add_gap,
}
use wolfram_price_feed_infra.Gaps.Steps.{process_data-count_gaps}

abbrev row : ℕ → ℕ → ℕ → Row
row market from to = record { market_id = market; interval_start = from; interval_end = to }

abbrev rows : List Row
rows = row 1 1000 2000 ∷ row 1 2000 3000 ∷ row 1 5000 6000 ∷ row 2 1000 2000 ∷ row 2 2000 3000 ∷ []

abbrev batch : ℕ → List Row
batch step = take 2 (drop (step * 2) rows)

process_data-count_gaps_example :
    process_data_in_steps batch (initialize_steps_count 5 2) ≡ count_gaps true rows no_results
process_data-count_gaps_example =
    process_data-count_gaps batch rows 2 (record { batch = λ step. refl }) (omega arith)

one_gap : (count_gaps true rows no_results).total ≡ 1
unfolding count_gaps close_market count_pair see_market gaps_of ensure_market add_gap
one_gap = refl
