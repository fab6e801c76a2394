-- ===== src/Allocation/Examples.antt =====
-- The theorem of this part at a concrete input: five exchanges, two processors, two exchanges a process.
use wolfram_price_feed_infra.Base.{
  ℕ, max, ◌≤◌, ◌<◌, ◌≡◌, refl, some, [], ◌∷◌, length, All, returns, arith,
}
use wolfram_price_feed_infra.Allocation.{Bins, ProcessAllocator, create, allocate_exchange_bins}
use wolfram_price_feed_infra.Allocation.Bins.{count, count_in}
use wolfram_price_feed_infra.Allocation.Limits.{exchanges_allocated}

abbrev two_each : ProcessAllocator
two_each = create 2 300 700 4

two_each-limit : two_each.exchanges_per_process ≡ some 2
unfolding create
two_each-limit = refl

two_each-counted : 0 < two_each.cpu_count
unfolding create
two_each-counted = omega arith

exchanges_allocated_example :
    (bins : Bins) × (allocate_exchange_bins two_each (1 ∷ 2 ∷ 3 ∷ 4 ∷ 5 ∷ []) ≡ returns bins)
    × All (λ b. (0 < length b) × (length b ≤ max 2 1)) bins
    × ((x : ℕ) → count_in x bins ≡ count x (1 ∷ 2 ∷ 3 ∷ 4 ∷ 5 ∷ []))
exchanges_allocated_example =
    exchanges_allocated two_each 2 (1 ∷ 2 ∷ 3 ∷ 4 ∷ 5 ∷ []) two_each-limit two_each-counted
