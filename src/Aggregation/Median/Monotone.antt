-- ===== src/Aggregation/Median/Monotone.antt =====
-- The median of a list whose items are all at least those of another is at least the other's median.
use wolfram_price_feed_infra.Base.{
  ℕ, zero, suc, ◌/◌, ◌≤◌, ◌<◌, ◌≡◌, refl, ap, inl, inr, false, some, List, [], ◌∷◌, length,
  get_elem?, leb, leb→le, sort_by, insert_by, length-sort_by, All, All-insert_by, arith, Bool-cases,
  some-injective, none≢some,
}
use wolfram_price_feed_infra.Aggregation.Median.{median}

-- Lists of one length, of which the first is below the second item by item.
abbrev pub Below : List ℕ → List ℕ → Type 0
Below [] [] = Unit
Below [] (y ∷ ys) = ⊥
Below (x ∷ xs) [] = ⊥
Below (x ∷ xs) (y ∷ ys) = (x ≤ y) × Below xs ys

abbrev pub Ascending : List ℕ → Type 0
Ascending [] = Unit
Ascending (x ∷ xs) = All (λ y. x ≤ y) xs × Ascending xs

abbrev insert : ℕ → List ℕ → List ℕ
insert = insert_by leb (λ n. n)

abbrev sort : List ℕ → List ℕ
sort = sort_by leb (λ n. n)

not_leb : (a b : ℕ) → leb a b ≡ false → b ≤ a
not_leb a b h = ground arith

All-le_trans : (a b : ℕ) (xs : List ℕ) → a ≤ b → All (λ y. b ≤ y) xs → All (λ y. a ≤ y) xs
All-le_trans a b [] h k = tt
All-le_trans a b (x ∷ xs) h k = (omega (arith, h, k.0), All-le_trans a b xs h k.1)

insert-Ascending : (a : ℕ) (xs : List ℕ) → Ascending xs → Ascending (insert a xs)
insert-Ascending a [] h = (tt, tt)
insert-Ascending a (x ∷ xs) h = elim (Bool-cases (leb a x)) [
  | inl below ↦ rw below ((leb→le a x below, All-le_trans a x xs (leb→le a x below) h.0), h)
  | inr above ↦ rw above (
    All-insert_by leb (λ n. n) (λ y. x ≤ y) a xs (not_leb a x above) h.0,
    insert-Ascending a xs h.1,
  )
]

pub sort-Ascending : (xs : List ℕ) → Ascending (sort xs)
sort-Ascending [] = tt
sort-Ascending (x ∷ xs) = insert-Ascending x (sort xs) (sort-Ascending xs)

-- An item goes in above: the list before starts with one item more.
Below-insert :
    (a y : ℕ) (xs ys : List ℕ)
    → a ≤ y
    → Ascending (a ∷ xs)
    → Below xs ys
    → Below (a ∷ xs) (insert y ys)
Below-insert a y [] [] h s b = (h, tt)
Below-insert a y [] (y' ∷ ys) h s b = absurd b
Below-insert a y (x ∷ xs) [] h s b = absurd b
Below-insert a y (x ∷ xs) (y' ∷ ys) h s b = elim (Bool-cases (leb y y')) [
  | inl below ↦ rw below (h, b)
  | inr above ↦ rw above (
    omega (arith, s.0.0, b.0),
    Below-insert x y xs ys (omega (arith, b.0, not_leb y y' above)) s.1 b.1,
  )
]

-- An item goes in below: the list after starts with one item more.
insert-Below :
    (x b : ℕ) (xs ys : List ℕ)
    → x ≤ b
    → Ascending (b ∷ ys)
    → Below xs ys
    → Below (insert x xs) (b ∷ ys)
insert-Below x b [] [] h s k = (h, tt)
insert-Below x b [] (y ∷ ys) h s k = absurd k
insert-Below x b (x' ∷ xs) [] h s k = absurd k
insert-Below x b (x' ∷ xs) (y ∷ ys) h s k = elim (Bool-cases (leb x x')) [
  | inl below ↦ rw below (h, k)
  | inr above ↦ rw above (
    omega (arith, h, not_leb x x' above),
    insert-Below x y xs ys (omega (arith, h, s.0.0)) s.1 k.1,
  )
]

insert-insert-Below :
    (x y : ℕ) (xs ys : List ℕ)
    → x ≤ y
    → Ascending xs
    → Ascending ys
    → Below xs ys
    → Below (insert x xs) (insert y ys)
insert-insert-Below x y [] [] h s t b = (h, tt)
insert-insert-Below x y [] (y' ∷ ys) h s t b = absurd b
insert-insert-Below x y (x' ∷ xs) [] h s t b = absurd b
insert-insert-Below x y (x' ∷ xs) (y' ∷ ys) h s t b = elim (Bool-cases (leb x x')) [
  | inl p ↦ elim (Bool-cases (leb y y')) [
    | inl q ↦ rw (p, q) (h, b)
    | inr q ↦
        rw (p, q)
          (
            omega (arith, leb→le x x' p, b.0),
            Below-insert x' y xs ys (omega (arith, b.0, not_leb y y' q)) s b.1,
          )
  ]
  | inr p ↦ elim (Bool-cases (leb y y')) [
    | inl q ↦
        rw (p, q)
          (
            omega (arith, h, not_leb x x' p),
            insert-Below x y' xs ys (omega (arith, h, leb→le y y' q)) t b.1,
          )
    | inr q ↦ rw (p, q) (b.0, insert-insert-Below x y xs ys h s.1 t.1 b.1)
  ]
]

sort-Below : (xs ys : List ℕ) → Below xs ys → Below (sort xs) (sort ys)
sort-Below [] [] b = tt
sort-Below [] (y ∷ ys) b = absurd b
sort-Below (x ∷ xs) [] b = absurd b
sort-Below (x ∷ xs) (y ∷ ys) b =
    insert-insert-Below x y (sort xs) (sort ys) b.0 (sort-Ascending xs) (sort-Ascending ys)
      (sort-Below xs ys b.1)

Below-length : (xs ys : List ℕ) → Below xs ys → length xs ≡ length ys
Below-length [] [] b = refl
Below-length [] (y ∷ ys) b = absurd b
Below-length (x ∷ xs) [] b = absurd b
Below-length (x ∷ xs) (y ∷ ys) b = ap suc (Below-length xs ys b.1)

Below-get_elem? :
    (xs ys : List ℕ) (i a b : ℕ)
    → Below xs ys
    → get_elem? xs i ≡ some a
    → get_elem? ys i ≡ some b
    → a ≤ b
Below-get_elem? [] ys i a b h p q = absurd (none≢some p)
Below-get_elem? (x ∷ xs) [] i a b h p q = absurd h
Below-get_elem? (x ∷ xs) (y ∷ ys) zero a b h p q =
    omega (arith, h.0, some-injective p, some-injective q)
Below-get_elem? (x ∷ xs) (y ∷ ys) (suc i) a b h p q = Below-get_elem? xs ys i a b h.1 p q

pub median-Below :
    (xs ys : List ℕ) (a b : ℕ) → Below xs ys → median xs ≡ some a → median ys ≡ some b → a ≤ b
unfolding median
median-Below xs ys a b h p q =
    Below-get_elem? (sort xs) (sort ys) (length (sort ys) / 2) a b (sort-Below xs ys h)
      (rw (Below-length (sort xs) (sort ys) (sort-Below xs ys h)) at p) q

found : (xs : List ℕ) (i : ℕ) → i < length xs → (a : ℕ) × (get_elem? xs i ≡ some a)
found [] i h = absurd (omega (arith, h))
found (x ∷ xs) zero h = (x, refl)
found (x ∷ xs) (suc i) h = found xs i (omega (arith, h))

-- A list that is not empty has a median.
pub median_total : (x : ℕ) (xs : List ℕ) → (a : ℕ) × (median (x ∷ xs) ≡ some a)
unfolding median
median_total x xs =
    found (sort (x ∷ xs)) (length (sort (x ∷ xs)) / 2) (
      half_below (length (sort (x ∷ xs))) (rw (length-sort_by leb (λ n. n) (x ∷ xs)) (omega arith)))
  where
    half_below : (n : ℕ) → 0 < n → n / 2 < n
    half_below n h = omega (arith, h)
