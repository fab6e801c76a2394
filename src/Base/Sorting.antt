-- ===== src/Base/Sorting.antt =====
-- A stable sort by a key, as `Array.prototype.sort` is, and what does not depend on its algorithm.
use Prim.Native.Nat.{suc}
use mathlib.Core.Path.{◌≡◌, refl, ap, ap₂, ◌∙◌}
use mathlib.Core.Logic.{◌⊎◌, inl, inr, ∥∥₁_elim}
use mathlib.Core.Bool.{Bool, true}
use mathlib.Core.List.{List, [], ◌∷◌, map, Permᴰ, Perm}
use native.Mathlib.Omega.{arith}
use wolfram_price_feed_infra.Base.Tests.{if◌then◌else◌, Bool-cases}
use wolfram_price_feed_infra.Base.Lists.{length, All, any}

-- A comparison of keys that is a total order.
pub record TotalOrder {ℓ} {K : Type ℓ} (leb : K → K → Bool) : Type ℓ where
  pub total : (a b : K) → (leb a b ≡ true) ⊎ (leb b a ≡ true)
  pub trans : (a b c : K) → leb a b ≡ true → leb b c ≡ true → leb a c ≡ true
  pub antisymm : (a b : K) → leb a b ≡ true → leb b a ≡ true → a ≡ b

module _ {ℓ κ} {A : Type ℓ} {K : Type κ} (leb : K → K → Bool) (key : A → K) where
  -- Equal keys stay in order: a new item goes before the first that is not below it.
  abbrev pub insert_by : A → List A → List A
  insert_by a [] = a ∷ []
  insert_by a (x ∷ xs) = if leb (key a) (key x) then a ∷ x ∷ xs else x ∷ insert_by a xs

  abbrev pub sort_by : List A → List A
  sort_by [] = []
  sort_by (x ∷ xs) = insert_by x (sort_by xs)

  pub length-insert_by : (a : A) (xs : List A) → length (insert_by a xs) ≡ suc (length xs)
  length-insert_by a [] = refl
  length-insert_by a (x ∷ xs) = ground (arith, length-insert_by a xs)

  pub length-sort_by : (xs : List A) → length (sort_by xs) ≡ length xs
  length-sort_by [] = refl
  length-sort_by (x ∷ xs) = length-insert_by x (sort_by xs) ∙ ap suc (length-sort_by xs)

  pub All-insert_by {π} :
      (P : A → Type π) (a : A) (xs : List A) → P a → All P xs → All P (insert_by a xs)
  All-insert_by P a [] pa ps = (pa, ps)
  All-insert_by P a (x ∷ xs) pa ps = elim (Bool-cases (leb (key a) (key x))) [
    | inl below ↦ rw below (pa, ps)
    | inr above ↦ rw above (ps.0, All-insert_by P a xs pa ps.1)
  ]

  pub All-sort_by {π} : (P : A → Type π) (xs : List A) → All P xs → All P (sort_by xs)
  All-sort_by P [] ps = ps
  All-sort_by P (x ∷ xs) ps = All-insert_by P x (sort_by xs) ps.0 (All-sort_by P xs ps.1)

  any-insert_by : (p : A → Bool) (a : A) (xs : List A) → any p (insert_by a xs) ≡ any p (a ∷ xs)
  any-insert_by p a [] = refl
  any-insert_by p a (x ∷ xs) = ground (arith, any-insert_by p a xs)

  pub any-sort_by : (p : A → Bool) (xs : List A) → any p (sort_by xs) ≡ any p xs
  any-sort_by p [] = refl
  any-sort_by p (x ∷ xs) =
      any-insert_by p x (sort_by xs) ∙ ap (λ (b : Bool). if p x then true else b) (any-sort_by p xs)

  -- Two insertions commute where the keys settle the order.
  insert_by_comm :
      TotalOrder leb
      → ((a b : A) → key a ≡ key b → a ≡ b)
      → (a b : A) (xs : List A) → insert_by a (insert_by b xs) ≡ insert_by b (insert_by a xs)
  insert_by_comm o inj a b [] =
      ground (arith, o.total (key a) (key b), o.antisymm (key a) (key b), inj a b)
  insert_by_comm o inj a b (x ∷ xs) = ground (
    arith,
    o.total (key a) (key b),
    o.antisymm (key a) (key b),
    inj a b,
    o.trans (key a) (key b) (key x),
    o.trans (key b) (key a) (key x),
    o.total (key a) (key x),
    o.total (key b) (key x),
    insert_by_comm o inj a b xs,
  )

  -- What the sort returns does not depend on the order of its input.
  sort_byᴰ :
      TotalOrder leb
      → ((a b : A) → key a ≡ key b → a ≡ b)
      → {xs ys : List A} → Permᴰ xs ys
      → sort_by xs ≡ sort_by ys
  sort_byᴰ o inj Permᴰ.nil = refl
  sort_byᴰ o inj (Permᴰ.cons e p) = ap₂ insert_by e (sort_byᴰ o inj p)
  sort_byᴰ o inj (Permᴰ.swap {a} {b} {l = l} e f) =
      insert_by_comm o inj a b (sort_by l) ∙ ap₂ (λ u v. insert_by u (insert_by v (sort_by l))) f e
  sort_byᴰ o inj (Permᴰ.trans p q) = sort_byᴰ o inj p ∙ sort_byᴰ o inj q

  pub sort_by-perm :
      TotalOrder leb
      → ((a b : A) → key a ≡ key b → a ≡ b)
      → IsSet A
      → {xs ys : List A} → Perm xs ys
      → sort_by xs ≡ sort_by ys
  sort_by-perm o inj set p = ∥∥₁_elim p (hlevel) (sort_byᴰ o inj)

-- A change that keeps the keys may be made before or after the sort.
module _ {ℓ ℓ' κ} {A : Type ℓ} {B : Type ℓ'} {K : Type κ} (leb : K → K → Bool) (f : A → B)
    (key : A → K) (key' : B → K) (keeps : (a : A) → key' (f a) ≡ key a) where
  insert_by-map :
      (a : A) (xs : List A) → insert_by leb key' (f a) (map f xs) ≡ map f (insert_by leb key a xs)
  insert_by-map a [] = refl
  insert_by-map a (x ∷ xs) =
      rw (keeps a, keeps x)
        (elim (Bool-cases (leb (key a) (key x))) [
          | inl below ↦ rw below
          | inr above ↦ rw above (ap (◌∷◌ (f x)) (insert_by-map a xs))
        ])

  pub sort_by-map : (xs : List A) → sort_by leb key' (map f xs) ≡ map f (sort_by leb key xs)
  sort_by-map [] = refl
  sort_by-map (x ∷ xs) =
      ap (insert_by leb key' (f x)) (sort_by-map xs) ∙ insert_by-map x (sort_by leb key xs)
