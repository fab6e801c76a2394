-- ===== src/Allocation/Limits.antt =====
-- What lib/domain-collectors/utils/ProcessAllocator.cjs promises of its result.
use wolfram_price_feed_infra.Base.{
  ℕ, zero, suc, ◌≤◌, ◌<◌, max, ◌≡◌, refl, ap, ◌∙◌, inl, inr, Bool, true, false, some, List, [], ◌∷◌,
  length, filter, All, not, ◌==◌, returns, Completion, ◌>>=◌, Bool-cases, arith,
}
use wolfram_price_feed_infra.Allocation.{
  Bins, ProcessAllocator, empty_bins, allocate_exchange_bins, allocate_from,
}
use wolfram_price_feed_infra.Allocation.Bins.{AtMost, count, count_in, allocate_from-IsAllocated}

empty_bins-AtMost : (k n : ℕ) → AtMost k (empty_bins n)
empty_bins-AtMost k zero = tt
empty_bins-AtMost k (suc n) = (omega arith, empty_bins-AtMost k n)

count_in-empty_bins : (x n : ℕ) → count_in x (empty_bins n) ≡ 0
count_in-empty_bins x zero = refl
count_in-empty_bins x (suc n) = omega (arith, count_in-empty_bins x n)

abbrev used : List ℕ → Bool
used b = not (length b == 0)

abbrev kept : Bins → Completion Bins
kept bins = returns (filter used bins)

abbrev IsShare : ℕ → List ℕ → Type 0
IsShare k b = (0 < length b) × (length b ≤ k)

used_positive : (n : ℕ) → (n == 0) ≡ false → 0 < n
used_positive n e = ground arith

no_exchange : (x : ℕ) (b : List ℕ) → (length b == 0) ≡ true → count x b ≡ 0
no_exchange x [] e = refl
no_exchange x (y ∷ ys) e = absurd (ground arith)

filter-Shares :
    (k : ℕ) (bins : Bins)
    → AtMost k bins
    → All (IsShare k) (filter used bins)
      × ((x : ℕ) → count_in x (filter used bins) ≡ count_in x bins)
filter-Shares k [] h = (tt, λ x. refl)
filter-Shares k (b ∷ bs) h =
    let (shares, same) = filter-Shares k bs h.1 in
    elim (Bool-cases (length b == 0)) [
      | inl empty ↦ rw empty (shares, λ x. omega (arith, same x, no_exchange x b empty))
      | inr some_ ↦
          rw some_ (((used_positive (length b) some_, h.0), shares), λ x. omega (arith, same x))
    ]

-- With a processor, and sizes whose quotient is a number, the allocation returns bins that are not empty, none
-- of which has more exchanges than a process may have (one, where the quotient is 0), and every exchange is in
-- the bins as often as it is listed.
pub exchanges_allocated :
    (a : ProcessAllocator) (n : ℕ) (exchanges : List ℕ)
    → a.exchanges_per_process ≡ some n
    → 0 < a.cpu_count
    → (bins : Bins) × (allocate_exchange_bins a exchanges ≡ returns bins)
      × All (λ b. (0 < length b) × (length b ≤ max n 1)) bins
      × ((x : ℕ) → count_in x bins ≡ count x exchanges)
unfolding allocate_exchange_bins
exchanges_allocated a n exchanges limit pos = by_count a.cpu_count pos refl
  where
    by_count :
        (c : ℕ)
        → 0 < c
        → a.cpu_count ≡ c
        → (bins : Bins) × (allocate_exchange_bins a exchanges ≡ returns bins)
          × All (λ b. (0 < length b) × (length b ≤ max n 1)) bins
          × ((x : ℕ) → count_in x bins ≡ count x exchanges)
    by_count zero h e = absurd (omega (arith, h))
    by_count (suc c) h e =
        let k = max n 1 in
        let (final, (done, most, total)) =
          allocate_from-IsAllocated a n k (empty_bins (suc c)) 0 [] exchanges limit (omega arith)
            (omega arith) (empty_bins-AtMost k (suc c)) (0, [], refl, omega arith) refl in
        let (shares, same) = filter-Shares k final most in
        (
          filter used final,
          ap (λ m. allocate_from a (empty_bins m) 0 exchanges >>= kept) e
              ∙ ap (λ (o : Completion Bins). o >>= kept) done,
          shares,
          λ x. omega (arith, same x, total x, count_in-empty_bins x (suc c)),
        )
