-- ===== src/Allocation.antt =====
-- lib/domain-collectors/utils/ProcessAllocator.cjs: which process collects from which exchanges. The number of
-- processors is a parameter, as the operating system tells it.
pub mod Bins
pub mod Limits
mod Examples
use wolfram_price_feed_infra.Base.{
  ℕ, zero, suc, ◌/◌, min, Bool, true, false, Option, none, some, List, [], ◌∷◌, ◌++◌, length,
  get_elem?, filter, not, ltb, leb, ◌==◌, if◌then◌else◌, Completion, returns, throws, type_error,
  ◌>>=◌,
}

abbrev pub Bins : Type 0
Bins = List (List ℕ)

-- `exchanges_per_process` is `none` for NaN.
pub record ProcessAllocator : Type 0 where
  pub exchanges_per_process : Option ℕ
  pub cpu_count : ℕ

-- A quotient by 0 is infinite, so that the other limit counts, or NaN for 0 / 0.
unfoldable pub create : ℕ → ℕ → ℕ → ℕ → ProcessAllocator
create cpu_count potential_exchange_size tolerable_process_size tolerable_parallel_exchanges =
    record {
      exchanges_per_process =
          if potential_exchange_size == 0
          then (if tolerable_process_size == 0 then none else some tolerable_parallel_exchanges)
          else some
              (min tolerable_parallel_exchanges (tolerable_process_size / potential_exchange_size));
      cpu_count = cpu_count;
    }

-- The loop: the first bin with fewer exchanges than a number.
unfoldable pub first_smaller : ℕ → Bins → Option ℕ
first_smaller n [] = none
first_smaller n (b ∷ bs) =
    let rest = first_smaller n bs in
    if ltb (length b) n then some 0 else (elim rest [ none ↦ none | some i ↦ some (suc i) ])

unfoldable pub get_next_best_bin_index : Bins → ℕ → Completion ℕ
get_next_best_bin_index bins best = elim (get_elem? bins best) [
  | none ↦ throws type_error
  | some bin ↦ elim (first_smaller (length bin) bins) [ none ↦ returns best | some i ↦ returns i ]
]

abbrev pub all_hold : ℕ → Bins → Bool
all_hold n [] = true
all_hold n (b ∷ bs) = if leb n (length b) then all_hold n bs else false

-- No length is at least NaN; the bins are never empty here.
unfoldable pub should_expand_bins : ProcessAllocator → Bins → Bool
should_expand_bins a bins = elim a.exchanges_per_process [ none ↦ false | some n ↦ all_hold n bins ]

abbrev pub push_to : ℕ → ℕ → Bins → Completion Bins
push_to exchange i [] = throws type_error
push_to exchange zero (b ∷ bs) = returns ((b ++ exchange ∷ []) ∷ bs)
push_to exchange (suc i) (b ∷ bs) = push_to exchange i bs >>= λ pushed. returns (b ∷ pushed)

abbrev pub expand : ProcessAllocator → Bins → Bins
expand a bins = if should_expand_bins a bins then bins ++ [] ∷ [] else bins

-- `forEach` from the bins and the best index so far.
unfoldable pub allocate_from : ProcessAllocator → Bins → ℕ → List ℕ → Completion Bins
unfolding get_next_best_bin_index should_expand_bins
allocate_from a bins best [] = returns bins
allocate_from a bins best (exchange ∷ rest) = do
  i ← get_next_best_bin_index bins best
  pushed ← push_to exchange i bins
  allocate_from a (expand a pushed) i rest

abbrev pub empty_bins : ℕ → Bins
empty_bins zero = []
empty_bins (suc n) = [] ∷ empty_bins n

unfoldable pub allocate_exchange_bins : ProcessAllocator → List ℕ → Completion Bins
unfolding allocate_from
allocate_exchange_bins a exchanges = do
  bins ← allocate_from a (empty_bins a.cpu_count) 0 exchanges
  returns (filter (λ b. not (length b == 0)) bins)
