-- ===== src/Base/Ids.antt =====
-- Lists of numbers that name things: `includes` and what is removed.
use Prim.Native.Nat.{ℕ}
use mathlib.Core.Path.{◌≡◌, refl, sym, ap, ◌∙◌}
use mathlib.Core.Logic.{◌≢◌, ◌⊎◌, inl, inr}
use mathlib.Core.Bool.{Bool, true, false, false≢true}
use mathlib.Core.List.{List, [], ◌∷◌, ◌++◌}
use wolfram_price_feed_infra.Base.Lists.{filter}
use wolfram_price_feed_infra.Base.Tests.{◌==◌, ==_iff, if◌then◌else◌, Bool-cases}

-- `includes` of an array.
abbrev pub includes : List ℕ → ℕ → Bool
includes [] a = false
includes (x ∷ xs) a = if x == a then true else includes xs a

-- No number twice.
abbrev pub Distinct : List ℕ → Type 0
Distinct [] = Unit
Distinct (x ∷ xs) = (includes xs x ≡ false) × Distinct xs

pub ==_self : (n : ℕ) → (n == n) ≡ true
==_self n = (==_iff n n).1 refl

pub ==_apart : (m n : ℕ) → m ≢ n → (m == n) ≡ false
==_apart m n h = elim (Bool-cases (m == n)) [ inl e ↦ absurd (h ((==_iff m n).0 e)) | inr e ↦ e ]

pub includes-head : (x : ℕ) (xs : List ℕ) → includes (x ∷ xs) x ≡ true
includes-head x xs = rw (==_self x) refl

pub includes-tail : (x a : ℕ) (xs : List ℕ) → includes xs a ≡ true → includes (x ∷ xs) a ≡ true
includes-tail x a xs h = elim (Bool-cases (x == a)) [ inl e ↦ rw e refl | inr e ↦ rw e h ]

pub includes-other :
    (x a : ℕ) (xs : List ℕ) → (x == a) ≡ false → includes (x ∷ xs) a ≡ includes xs a
includes-other x a xs h = rw h refl

pub includes-last : (xs : List ℕ) (a : ℕ) → includes (xs ++ a ∷ []) a ≡ true
includes-last [] a = includes-head a []
includes-last (x ∷ xs) a = includes-tail x a (xs ++ a ∷ []) (includes-last xs a)

pub includes-append_left :
    (xs ys : List ℕ) (a : ℕ) → includes xs a ≡ true → includes (xs ++ ys) a ≡ true
includes-append_left [] ys a h = absurd (false≢true h)
includes-append_left (x ∷ xs) ys a h = elim (Bool-cases (x == a)) [
  | inl e ↦ rw e refl
  | inr e ↦ rw e (includes-append_left xs ys a (rw e at h))
]

pub includes-append_right :
    (xs ys : List ℕ) (a : ℕ) → includes ys a ≡ true → includes (xs ++ ys) a ≡ true
includes-append_right [] ys a h = h
includes-append_right (x ∷ xs) ys a h =
    includes-tail x a (xs ++ ys) (includes-append_right xs ys a h)

-- A function with another value at one number: a map with a key set, or a store with a cell written.
abbrev pub put {ℓ} : {A : Type ℓ} → (ℕ → A) → ℕ → A → ℕ → A
put f k v i = if i == k then v else f i

module _ {ℓ} {A : Type ℓ} (f : ℕ → A) (k : ℕ) (v : A) where
  pub put_same : put f k v k ≡ v
  put_same = rw (==_self k) refl

  pub put_other : (i : ℕ) → i ≢ k → put f k v i ≡ f i
  put_other i h = rw (==_apart i k h) refl

pub includes-append_one :
    (xs : List ℕ) (a r : ℕ) → includes (xs ++ a ∷ []) r ≡ true → (r ≡ a) ⊎ (includes xs r ≡ true)
includes-append_one [] a r h = elim (Bool-cases (a == r)) [
  | inl e ↦ inl (sym ((==_iff a r).0 e))
  | inr e ↦ absurd (false≢true (rw e at h))
]
includes-append_one (x ∷ xs) a r h = elim (Bool-cases (x == r)) [
  | inl e ↦ inr (rw e refl)
  | inr e ↦ rw e (includes-append_one xs a r (rw e at h))
]

pub absent-head :
    (x a : ℕ) (xs : List ℕ) → includes (x ∷ xs) a ≡ false → (a ≢ x) × (includes xs a ≡ false)
absent-head x a xs h = elim (Bool-cases (x == a)) [
  | inl e ↦ absurd (false≢true (sym (rw e at h)))
  | inr e ↦ (λ same. false≢true (sym e ∙ (==_iff x a).1 (sym same)), rw e at h)
]

pub filter-includes :
    (p : ℕ → Bool) (l : List ℕ) (a : ℕ)
    → includes l a ≡ true
    → p a ≡ true
    → includes (filter p l) a ≡ true
filter-includes p [] a h k = h
filter-includes p (x ∷ xs) a h k = elim (Bool-cases (x == a)) [
  | inl e ↦
      let passes : p x ≡ true = ap p ((==_iff x a).0 e) ∙ k in
      rw passes (ap (λ b. if b then true else includes (filter p xs) a) e)
  | inr e ↦
      let rest = filter-includes p xs a (rw e at h) k in
      elim (Bool-cases (p x)) [
        | inl passes ↦ rw passes (includes-tail x a (filter p xs) rest)
        | inr fails ↦ rw fails rest
      ]
]

pub includes-filter :
    (p : ℕ → Bool) (l : List ℕ) (a : ℕ)
    → includes (filter p l) a ≡ true
    → (includes l a ≡ true) × (p a ≡ true)
includes-filter p [] a h = absurd (false≢true h)
includes-filter p (x ∷ xs) a h = elim (Bool-cases (p x)) [
  | inl passes ↦
      let kept : includes (x ∷ filter p xs) a ≡ true = rw passes at h in
      elim (Bool-cases (x == a)) [
        | inl e ↦ (rw e refl, ap p (sym ((==_iff x a).0 e)) ∙ passes)
        | inr e ↦ let (l, k) = includes-filter p xs a (rw e at kept) in (rw e l, k)
      ]
  | inr fails ↦ let (l, k) = includes-filter p xs a (rw fails at h) in (includes-tail x a xs l, k)
]

pub not_includes : (xs : List ℕ) (a : ℕ) → (includes xs a ≡ true → ⊥) → includes xs a ≡ false
not_includes xs a h = elim (Bool-cases (includes xs a)) [ inl e ↦ absurd (h e) | inr e ↦ e ]

pub Distinct-append_one :
    (xs : List ℕ) (a : ℕ) → Distinct xs → includes xs a ≡ false → Distinct (xs ++ a ∷ [])
Distinct-append_one [] a d h = (refl, tt)
Distinct-append_one (x ∷ xs) a d h =
    let (apart, absent) = absent-head x a xs h in
    (
      not_includes (xs ++ a ∷ []) x (λ k. elim (includes-append_one xs a x k) [
        | inl e ↦ apart (sym e)
        | inr e ↦ false≢true (sym d.0 ∙ e)
      ]),
      Distinct-append_one xs a d.1 absent,
    )

pub Distinct-filter : (p : ℕ → Bool) (xs : List ℕ) → Distinct xs → Distinct (filter p xs)
Distinct-filter p [] d = d
Distinct-filter p (x ∷ xs) d = elim (Bool-cases (p x)) [
  | inl passes ↦ rw passes (
    not_includes (filter p xs) x (λ k. false≢true (sym d.0 ∙ (includes-filter p xs x k).0)),
    Distinct-filter p xs d.1,
  )
  | inr fails ↦ rw fails (Distinct-filter p xs d.1)
]
