-- ===== src/Base/Errors.antt =====
-- What a call may throw, and the monad of calls that may throw.
use mathlib.Core.Path.{◌≡◌, refl, sym}
use mathlib.Core.Logic.{◌⊎◌, inl, inr}

-- `type_error`: a property of `undefined` or `null` is read.
-- `range_error`: the call stack is exhausted by a recursion that does not end.
-- `other_error`: an error that the code itself throws.
pub data Exception : Type 0 where
  type_error range_error other_error : Exception

-- How a call ends.
pub data Completion {ℓ} (A : Type ℓ) : Type ℓ where
  returns : A → Completion A
  throws : Exception → Completion A

infixl 5 ◌>>=◌
abbrev pub ◌>>=◌ {ℓ κ} :
    {A : Type ℓ} {B : Type κ} → Completion A → (A → Completion B) → Completion B
call >>= next = elim call [ returns value ↦ next value | throws exception ↦ throws exception ]

pub returns≢throws {ℓ} : {A : Type ℓ} {a : A} {e : Exception} → returns a ≡ throws e → ⊥
returns≢throws h = cc

pub returns-injective {ℓ} : {A : Type ℓ} {a b : A} → returns a ≡ returns b → a ≡ b
returns-injective h = cc

-- A call that may throw on a state that it changes: the changes that were made before it threw stay.
abbrev pub Attempt {ℓ} : Type ℓ → Type ℓ
Attempt S = S × Completion {0} Unit

infixl 5 ◌and_then◌
abbrev pub ◌and_then◌ {ℓ} : {S : Type ℓ} → Attempt S → (S → Attempt S) → Attempt S
first and_then next = elim first.1 [ returns _ ↦ next first.0 | throws e ↦ (first.0, throws e) ]

-- A `catch` that throws an error of its own in place of the one it caught.
abbrev pub rethrow {ℓ} : {S : Type ℓ} → Attempt S → Attempt S
rethrow a = elim a.1 [ returns _ ↦ a | throws _ ↦ (a.0, throws other_error) ]

pub rethrow_state {ℓ} : {S : Type ℓ} (a : Attempt S) → (rethrow a).0 ≡ a.0
rethrow_state (s, returns _) = refl
rethrow_state (s, throws e) = refl

-- What every step keeps, a sequence of them keeps, however it ends.
pub and_then_keeps {ℓ κ} :
    {S : Type ℓ} (P : S → Type κ) (first : Attempt S) (next : S → Attempt S)
    → P first.0
    → ((s : S) → P s → P (next s).0)
    → P (first and_then next).0
and_then_keeps P (s, returns _) next h k = k s h
and_then_keeps P (s, throws e) next h k = h

pub rethrow_keeps {ℓ κ} : {S : Type ℓ} (P : S → Type κ) (a : Attempt S) → P a.0 → P (rethrow a).0
rethrow_keeps P (s, returns _) h = h
rethrow_keeps P (s, throws e) h = h

-- A sequence that returns has returned at each step.
pub and_then_returns {ℓ} :
    {S : Type ℓ} (first : Attempt S) (next : S → Attempt S)
    → (first and_then next).1 ≡ returns tt
    → (first.1 ≡ returns tt) × ((first and_then next) ≡ next first.0)
and_then_returns (s, returns _) next h = (refl, refl)
and_then_returns (s, throws e) next h = absurd (returns≢throws (sym h))

pub rethrow_returns {ℓ} :
    {S : Type ℓ} (a : Attempt S) → (rethrow a).1 ≡ returns tt → (a.1 ≡ returns tt) × (rethrow a ≡ a)
rethrow_returns (s, returns _) h = (refl, refl)
rethrow_returns (s, throws e) h = absurd (returns≢throws (sym h))

pub and_then-returned {ℓ} :
    {S : Type ℓ} (first : Attempt S) (next : S → Attempt S)
    → first.1 ≡ returns tt
    → (first and_then next) ≡ next first.0
and_then-returned (s, returns _) next h = refl
and_then-returned (s, throws e) next h = absurd (returns≢throws (sym h))

pub rethrow-returned {ℓ} : {S : Type ℓ} (a : Attempt S) → a.1 ≡ returns tt → rethrow a ≡ a
rethrow-returned (s, returns _) h = refl
rethrow-returned (s, throws e) h = absurd (returns≢throws (sym h))

pub rethrow-thrown {ℓ} :
    {S : Type ℓ} (a : Attempt S) {e : Exception}
    → a.1 ≡ throws e
    → (rethrow a).1 ≡ throws other_error
rethrow-thrown (s, returns _) h = absurd (returns≢throws h)
rethrow-thrown (s, throws e) h = refl

-- Where the first part keeps `P`, which implies `Q`, and the rest leads from `P` to `Q`.
pub and_then_reaches {ℓ κ π} :
    {S : Type ℓ} (P : S → Type κ) (Q : S → Type π) (first : Attempt S) (next : S → Attempt S)
    → P first.0
    → ((s : S) → P s → Q s)
    → ((s : S) → P s → Q (next s).0)
    → Q (first and_then next).0
and_then_reaches P Q (s, returns _) next h weaken k = k s h
and_then_reaches P Q (s, throws e) next h weaken k = weaken s h

pub and_then-thrown {ℓ} :
    {S : Type ℓ} (first : Attempt S) (next : S → Attempt S) {e : Exception}
    → first.1 ≡ throws e
    → (first and_then next) ≡ (first.0, throws e)
and_then-thrown (s, returns _) next h = absurd (returns≢throws h)
and_then-thrown (s, throws e) next h = cc

pub Completion-cases {ℓ} :
    {A : Type ℓ} (c : Completion A)
    → ((a : A) × (c ≡ returns a)) ⊎ ((e : Exception) × (c ≡ throws e))
Completion-cases (returns a) = inl (a, refl)
Completion-cases (throws e) = inr (e, refl)
