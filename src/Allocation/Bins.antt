-- ===== src/Allocation/Bins.antt =====
-- The bins of lib/domain-collectors/utils/ProcessAllocator.cjs: each exchange is in one, and none is too full.
use wolfram_price_feed_infra.Base.{
  ℕ, zero, suc, ◌+◌, ◌≤◌, ◌<◌, ◌≡◌, refl, sym, ap, ◌∙◌, inl, inr, false, none, some, List, [], ◌∷◌,
  ◌++◌, length, length-append, get_elem?, All, All-append, ltb, ltb→lt, leb, ◌==◌, if◌then◌else◌,
  returns, Bool-cases, Option-cases, none≢some, some-injective, arith,
}
use mathlib.Core.Bool.{false≢true}
use wolfram_price_feed_infra.Allocation.{
  Bins, ProcessAllocator, first_smaller, get_next_best_bin_index, all_hold, should_expand_bins,
  push_to, expand, allocate_from,
}

-- How often an exchange is listed, and how often it is in the bins.
abbrev pub count : ℕ → List ℕ → ℕ
count x [] = 0
count x (y ∷ ys) = (if y == x then 1 else 0) + count x ys

abbrev pub count_in : ℕ → Bins → ℕ
count_in x [] = 0
count_in x (b ∷ bs) = count x b + count_in x bs

abbrev pub AtMost : ℕ → Bins → Type 0
AtMost k = All (λ b. length b ≤ k)

-- A bin at an index.
abbrev Holds : Bins → ℕ → List ℕ → Type 0
Holds bins i b = get_elem? bins i ≡ some b

-- A bin that has room.
abbrev HasRoom : ℕ → Bins → Type 0
HasRoom k bins = (i : ℕ) × (b : List ℕ) × Holds bins i b × (length b < k)

count-append : (x : ℕ) (xs ys : List ℕ) → count x (xs ++ ys) ≡ count x xs + count x ys
count-append x [] ys = omega arith
count-append x (z ∷ zs) ys = omega (arith, count-append x zs ys)

count_in-append : (x : ℕ) (bs cs : Bins) → count_in x (bs ++ cs) ≡ count_in x bs + count_in x cs
count_in-append x [] cs = omega arith
count_in-append x (b ∷ bs) cs = omega (arith, count_in-append x bs cs)

at-AtMost :
    (k : ℕ) (bins : Bins) (i : ℕ) (b : List ℕ) → AtMost k bins → Holds bins i b → length b ≤ k
at-AtMost k [] i b h e = absurd (none≢some e)
at-AtMost k (c ∷ cs) zero b h e = let same = some-injective e in omega (arith, h.0, ap length same)
at-AtMost k (c ∷ cs) (suc i) b h e = at-AtMost k cs i b h.1 e

Holds-append : (bs cs : Bins) (i : ℕ) (b : List ℕ) → Holds bs i b → Holds (bs ++ cs) i b
Holds-append [] cs i b h = absurd (none≢some h)
Holds-append (x ∷ xs) cs zero b h = h
Holds-append (x ∷ xs) cs (suc i) b h = Holds-append xs cs i b h

last-Holds : (bs : Bins) (b : List ℕ) → Holds (bs ++ b ∷ []) (length bs) b
last-Holds [] b = refl
last-Holds (x ∷ xs) b = last-Holds xs b

not_leb : (a b : ℕ) → leb a b ≡ false → b < a
not_leb a b e = ground arith

not_ltb : (a b : ℕ) → ltb a b ≡ false → b ≤ a
not_ltb a b e = ground arith

-- What the loop finds is smaller, and where it finds nothing no bin is.
first_smaller-some :
    (n : ℕ) (bins : Bins) (i : ℕ)
    → first_smaller n bins ≡ some i
    → (b : List ℕ) × Holds bins i b × (length b < n)
unfolding first_smaller
first_smaller-some n [] i h = absurd (none≢some h)
first_smaller-some n (c ∷ cs) i h = elim (Bool-cases (ltb (length c) n)) [
  | inl smaller ↦
      let here : 0 ≡ i = some-injective (rw smaller at h) in
      (c, ap (get_elem? (c ∷ cs)) (sym here), ltb→lt (length c) n smaller)
  | inr not_smaller ↦ elim (Option-cases (first_smaller n cs)) [
    | inl missed ↦ absurd (none≢some (rw (not_smaller, missed) at h))
    | inr (j, found) ↦
        let here : suc j ≡ i = some-injective (rw (not_smaller, found) at h) in
        let (b, holds, small) = first_smaller-some n cs j found in
        (b, ap (get_elem? (c ∷ cs)) (sym here) ∙ holds, small)
  ]
]

first_smaller-rest :
    (n : ℕ) (c : List ℕ) (cs : Bins)
    → first_smaller n (c ∷ cs) ≡ none
    → (n ≤ length c) × (first_smaller n cs ≡ none)
unfolding first_smaller
first_smaller-rest n c cs h = elim (Bool-cases (ltb (length c) n)) [
  | inl smaller ↦ absurd (none≢some (sym (rw smaller at h)))
  | inr not_smaller ↦ elim (Option-cases (first_smaller n cs)) [
    | inl missed ↦ (not_ltb (length c) n not_smaller, missed)
    | inr (j, found) ↦ absurd (none≢some (sym (rw (not_smaller, found) at h)))
  ]
]

first_smaller-none :
    (n : ℕ) (bins : Bins) (i : ℕ) (b : List ℕ)
    → first_smaller n bins ≡ none
    → Holds bins i b
    → n ≤ length b
first_smaller-none n [] i b h e = absurd (none≢some e)
first_smaller-none n (c ∷ cs) zero b h e =
    let same = some-injective e in omega (arith, (first_smaller-rest n c cs h).0, ap length same)
first_smaller-none n (c ∷ cs) (suc i) b h e =
    first_smaller-none n cs i b (first_smaller-rest n c cs h).1 e

-- Where some bin has room, the next best bin has.
get_next_best_bin_index-HasRoom :
    (k : ℕ) (bins : Bins) (best : ℕ) (bin : List ℕ)
    → AtMost k bins
    → HasRoom k bins
    → Holds bins best bin
    → (i : ℕ) × (b : List ℕ) × (get_next_best_bin_index bins best ≡ returns i)
      × Holds bins i b
      × (length b < k)
unfolding get_next_best_bin_index
get_next_best_bin_index-HasRoom k bins best bin most (j, room, holds, free) at =
    elim (Option-cases (first_smaller (length bin) bins)) [
      | inl missed ↦
          let least = first_smaller-none (length bin) bins j room missed holds in
          (best, bin, rw (at, missed, get_next_best_bin_index) refl, at, omega (arith, least, free))
      | inr (i, found) ↦
          let (b, here, small) = first_smaller-some (length bin) bins i found in
          let bound = at-AtMost k bins best bin most at in
          (i, b, rw (at, found, get_next_best_bin_index) refl, here, omega (arith, small, bound))
    ]

-- A push to a bin with room.
abbrev IsPushed : ℕ → ℕ → ℕ → Bins → List ℕ → Bins → Type 0
IsPushed k exchange i bins b pushed =
    (push_to exchange i bins ≡ returns pushed)
    × AtMost k pushed
    × Holds pushed i (b ++ exchange ∷ [])
    × ((x : ℕ) → count_in x pushed ≡ count_in x bins + count x (exchange ∷ []))

push_to-IsPushed :
    (k exchange i : ℕ) (bins : Bins) (b : List ℕ)
    → AtMost k bins
    → Holds bins i b
    → length b < k
    → (pushed : Bins) × IsPushed k exchange i bins b pushed
push_to-IsPushed k exchange i [] b most h free = absurd (none≢some h)
push_to-IsPushed k exchange zero (c ∷ cs) b most h free =
    let same = some-injective h in
    (
      (c ++ exchange ∷ []) ∷ cs,
      (
        refl,
        (omega (arith, length-append c (exchange ∷ []), ap length same, free), most.1),
        ap (λ d. some (d ++ exchange ∷ [])) same,
        λ x. omega (arith, count-append x c (exchange ∷ [])),
      ),
    )
push_to-IsPushed k exchange (suc i) (c ∷ cs) b most h free =
    let (pushed, (returned, bound, holds, counts)) =
      push_to-IsPushed k exchange i cs b most.1 h free in
    (c ∷ pushed, (rw returned refl, (most.0, bound), holds, λ x. omega (arith, counts x)))

not_all_hold-HasRoom : (n k : ℕ) (bins : Bins) → n ≤ k → all_hold n bins ≡ false → HasRoom k bins
not_all_hold-HasRoom n k [] h e = absurd (false≢true (sym e))
not_all_hold-HasRoom n k (c ∷ cs) h e = elim (Bool-cases (leb n (length c))) [
  | inl full ↦
      let (i, b, holds, free) = not_all_hold-HasRoom n k cs h (rw full at e) in
      (suc i, b, holds, free)
  | inr short ↦ (0, c, refl, omega (arith, h, not_leb n (length c) short))
]

-- After a push the bins have room again: one is added where all are full.
expand-HasRoom :
    (a : ProcessAllocator) (n k : ℕ) (bins : Bins)
    → a.exchanges_per_process ≡ some n
    → n ≤ k
    → 0 < k
    → AtMost k bins
    → AtMost k (expand a bins) × HasRoom k (expand a bins)
unfolding should_expand_bins
expand-HasRoom a n k bins limit h pos most = elim (Bool-cases (all_hold n bins)) [
  | inl full ↦
      rw (limit, full)
        (
          All-append (λ b. length b ≤ k) bins ([] ∷ []) most (omega arith, tt),
          (length bins, [], last-Holds bins [], pos),
        )
  | inr short ↦ rw (limit, short) (most, not_all_hold-HasRoom n k bins h short)
]

expand-keeps :
    (a : ProcessAllocator) (bins : Bins) (i : ℕ) (b : List ℕ)
    → Holds bins i b
    → Holds (expand a bins) i b × ((x : ℕ) → count_in x (expand a bins) ≡ count_in x bins)
expand-keeps a bins i b h = elim (Bool-cases (should_expand_bins a bins)) [
  | inl more ↦
      rw more
        (Holds-append bins ([] ∷ []) i b h, λ x. omega (arith, count_in-append x bins ([] ∷ [])))
  | inr same ↦ rw same (h, λ x. refl)
]

-- The loop returns, keeps the bound, and puts every exchange that is left into a bin.
abbrev IsAllocated : ProcessAllocator → ℕ → Bins → ℕ → List ℕ → Bins → Type 0
IsAllocated a k bins best exchanges final =
    (allocate_from a bins best exchanges ≡ returns final)
    × AtMost k final
    × ((x : ℕ) → count_in x final ≡ count_in x bins + count x exchanges)

pub allocate_from-IsAllocated :
    (a : ProcessAllocator) (n k : ℕ) (bins : Bins) (best : ℕ) (bin : List ℕ) (exchanges : List ℕ)
    → a.exchanges_per_process ≡ some n
    → n ≤ k
    → 0 < k
    → AtMost k bins
    → HasRoom k bins
    → Holds bins best bin
    → (final : Bins) × IsAllocated a k bins best exchanges final
unfolding allocate_from
allocate_from-IsAllocated a n k bins best bin [] limit h pos most room at =
    (bins, (refl, most, λ x. omega arith))
allocate_from-IsAllocated a n k bins best bin (exchange ∷ rest) limit h pos most room at =
    let (i, b, index, holds, free) = get_next_best_bin_index-HasRoom k bins best bin most room at in
    let (pushed, (returned, bound, there, counts)) =
      push_to-IsPushed k exchange i bins b most holds free in
    let (wide, roomy) = expand-HasRoom a n k pushed limit h pos bound in
    let (kept, same) = expand-keeps a pushed i (b ++ exchange ∷ []) there in
    let (final, (done, fits, total)) =
      allocate_from-IsAllocated a n k (expand a pushed) i (b ++ exchange ∷ []) rest limit h pos wide
        roomy kept in
    (final, (rw (index, returned) done, fits, λ x. omega (arith, total x, same x, counts x)))
