-- ===== src/Base/Lists.antt =====
-- Lists measured and indexed by native numbers, under the library's names.
use Prim.Native.Nat.{ℕ, zero, suc, ◌+◌}
use mathlib.Core.Path.{◌≡◌, refl, sym, ap}
use mathlib.Core.Bool.{Bool, true, false, false≢true}
use mathlib.Core.Logic.{◌⊎◌, inl, inr}
use mathlib.Core.List.{List, [], ◌∷◌, ◌++◌, map}
use mathlib.Core.Option.{Option, none, some}
use native.Mathlib.Omega.{arith}
use wolfram_price_feed_infra.Base.Tests.{if◌then◌else◌, Bool-cases}

module _ {ℓ} {A : Type ℓ} where
  abbrev pub length : List A → ℕ
  length [] = 0
  length (x ∷ xs) = suc (length xs)

  abbrev pub get_elem? : List A → ℕ → Option A
  get_elem? [] i = none
  get_elem? (x ∷ xs) zero = some x
  get_elem? (x ∷ xs) (suc i) = get_elem? xs i

  abbrev pub take : ℕ → List A → List A
  take zero xs = []
  take (suc n) [] = []
  take (suc n) (x ∷ xs) = x ∷ take n xs

  abbrev pub drop : ℕ → List A → List A
  drop zero xs = xs
  drop (suc n) [] = []
  drop (suc n) (x ∷ xs) = drop n xs

  -- `filter` of an array by a Boolean test.
  abbrev pub filter : (A → Bool) → List A → List A
  filter p [] = []
  filter p (x ∷ xs) = if p x then x ∷ filter p xs else filter p xs

  abbrev pub get_or : Option A → A → A
  get_or none d = d
  get_or (some a) d = a

  -- A predicate that holds of every item.
  abbrev pub All {κ} : (A → Type κ) → List A → Type κ
  All P [] = Unit
  All P (x ∷ xs) = P x × All P xs

  pub length-append : (xs ys : List A) → length (xs ++ ys) ≡ length xs + length ys
  length-append [] ys = omega arith
  length-append (x ∷ xs) ys = omega (arith, length-append xs ys)

  pub All-append {κ} : (P : A → Type κ) (xs ys : List A) → All P xs → All P ys → All P (xs ++ ys)
  All-append P [] ys h k = k
  All-append P (x ∷ xs) ys h k = (h.0, All-append P xs ys h.1 k)

pub length-map {ℓ κ} :
    {A : Type ℓ} {B : Type κ} (xs : List A) (f : A → B) → length (map f xs) ≡ length xs
length-map [] f = refl
length-map (x ∷ xs) f = ap suc (length-map xs f)

-- Whether some item passes the test.
abbrev pub any {ℓ} : {A : Type ℓ} → (A → Bool) → List A → Bool
any p [] = false
any p (x ∷ xs) = if p x then true else any p xs

-- A list with an item that passes, taken apart at the first such item.
pub record FirstHit {ℓ} {A : Type ℓ} (p : A → Bool) (l : List A) : Type ℓ where
  pub before : List A
  pub hit : A
  pub after : List A
  pub parts : l ≡ before ++ hit ∷ after
  pub missed : All (λ x. p x ≡ false) before
  pub passed : p hit ≡ true

pub first_hit {ℓ} : {A : Type ℓ} (p : A → Bool) (l : List A) → any p l ≡ true → FirstHit p l
first_hit p [] h = absurd (false≢true h)
first_hit p (x ∷ xs) h = elim (Bool-cases (p x)) [
  | inl passes ↦ record {
    before = [];
    hit = x;
    after = xs;
    parts = refl;
    missed = tt;
    passed = passes;
  }
  | inr fails ↦
      let r = first_hit p xs (rw fails at h) in
      record {
        before = x ∷ r.before;
        hit = r.hit;
        after = r.after;
        parts = ap (◌∷◌ x) r.parts;
        missed = (fails, r.missed);
        passed = r.passed;
      }
]

pub All-of-not-any {ℓ} :
    {A : Type ℓ} (p : A → Bool) (l : List A) → any p l ≡ false → All (λ x. p x ≡ false) l
All-of-not-any p [] h = tt
All-of-not-any p (x ∷ xs) h = elim (Bool-cases (p x)) [
  | inl passes ↦ absurd (false≢true (sym (rw passes at h)))
  | inr fails ↦ (fails, All-of-not-any p xs (rw fails at h))
]

pub All-map {ℓ κ π} :
    {A : Type ℓ} {B : Type κ} (P : B → Type π) (f : A → B) (l : List A)
    → All (λ x. P (f x)) l
    → All P (map f l)
All-map P f [] h = h
All-map P f (x ∷ xs) h = (h.0, All-map P f xs h.1)

pub List-cases {ℓ} : {A : Type ℓ} (l : List A) → (l ≡ []) ⊎ ((x : A) × (xs : List A) × (l ≡ x ∷ xs))
List-cases [] = inl refl
List-cases (x ∷ xs) = inr (x, xs, refl)
