-- ===== src/Aggregation/Median.antt =====
-- lib/utils/median.js.
pub mod Monotone
use wolfram_price_feed_infra.Base.{ℕ, ◌/◌, Option, List, length, get_elem?, leb, sort_by}

-- `none` is `null`, which only an empty list has.
unfoldable pub median : List ℕ → Option ℕ
median numbers =
    let sorted_numbers = sort_by leb (λ n. n) numbers in
    let half = length sorted_numbers / 2 in get_elem? sorted_numbers half
