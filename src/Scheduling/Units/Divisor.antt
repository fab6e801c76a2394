-- ===== src/Scheduling/Units/Divisor.antt =====
-- What the search for a divisor finds, and when it ends.
use native.Mathlib.Nat.{mod-eq_of_lt, mod_self, lt-div-mul-add, div-mul-le_self, div-lt_iff_lt-mul}
use wolfram_price_feed_infra.Base.{
  ℕ, zero, suc, ◌+◌, ◌*◌, ◌/◌, ◌-◌, ◌%◌, ◌≤◌, ◌<◌, ◌≡◌, refl, ◌≢◌, inl, inr, false, none, some,
  arith, ◌==◌, Bool-cases, ==_iff, ℕ_discrete, subst,
}
use wolfram_price_feed_infra.Scheduling.Units.{
  closest_divisor, ceil_div, get_context, milliseconds_in_a_day,
}

-- The result is the least divisor of `target` that is not below `num`.
pub record IsClosest (num target d : ℕ) : Type 0 where
  pub above : num ≤ d
  pub divides : target % d ≡ 0
  pub least : (e : ℕ) → num ≤ e → e < d → target % e ≢ 0

IsClosest-here : (num target : ℕ) → target % num ≡ 0 → IsClosest num target num
IsClosest-here num target h = record {
  above = omega arith;
  divides = h;
  least = λ e le lt. absurd (omega arith);
}

IsClosest-next :
    (num target d : ℕ) → target % num ≢ 0 → IsClosest (num + 1) target d → IsClosest num target d
IsClosest-next num target d miss c = record {
  above = omega (arith, c.above);
  divides = c.divides;
  least = λ e le lt. elim (ℕ_discrete num e) [
    | yes same ↦ subst (λ k. target % k ≢ 0) same miss
    | no other ↦ c.least e (omega arith) lt
  ];
}

pub closest_divisor-IsClosest :
    (frames num target : ℕ) {d : ℕ}
    → closest_divisor frames num target ≡ some d
    → IsClosest num target d
unfolding closest_divisor
closest_divisor-IsClosest zero num target h = cc
closest_divisor-IsClosest (suc frames) num target {d} h = elim (Bool-cases (target % num == 0)) [
  | inl found ↦
      subst (IsClosest num target) (ground arith) (IsClosest-here num target ((==_iff _ 0).0 found))
  | inr missed ↦
      IsClosest-next num target d (ground arith)
        (closest_divisor-IsClosest frames (num + 1) target (rw missed at h))
]

-- With `target - num` frames to spare the search ends: `target` divides itself.
pub closest_divisor_total :
    (frames num target : ℕ)
    → 0 < target
    → num ≤ target
    → target < num + frames
    → (d : ℕ) × (closest_divisor frames num target ≡ some d) × (d ≤ target)
unfolding closest_divisor
closest_divisor_total zero num target pos h f = absurd (omega arith)
closest_divisor_total (suc frames) num target pos h f = elim (Bool-cases (target % num == 0)) [
  | inl found ↦ (num, rw found, h)
  | inr missed ↦
      rw missed (closest_divisor_total frames (num + 1) target pos (more missed) (omega arith))
]
  where
    more : (target % num == 0) ≡ false → num + 1 ≤ target
    more missed = elim (ℕ_discrete num target) [
      | yes same ↦ absurd (ground (arith, mod_self num))
      | no other ↦ omega arith
    ]

-- Past `target` no number divides it, so however deep the stack is, the search runs out of it.
pub closest_divisor_diverges :
    (frames num target : ℕ) → 0 < target → target < num → closest_divisor frames num target ≡ none
unfolding closest_divisor
closest_divisor_diverges zero num target pos h = refl
closest_divisor_diverges (suc frames) num target pos h =
    ground (arith, mod-eq_of_lt h, closest_divisor_diverges frames (num + 1) target)

-- `Math.ceil`: the least whole number that is not below the quotient.
pub ceil_div_bounds : (a b : ℕ) → 0 < b → (a ≤ ceil_div a b * b) × (ceil_div a b * b < a + b)
unfolding ceil_div
ceil_div_bounds a b pos =
    omega (arith, lt-div-mul-add {a = a + (b - 1)} pos, div-mul-le_self (a + (b - 1)) b)

pub ceil_div_le : (a b k : ℕ) → 0 < b → a ≤ k * b → ceil_div a b ≤ k
unfolding ceil_div
ceil_div_le a b k pos h =
    let q : (a + (b - 1)) / b < suc k = (div-lt_iff_lt-mul pos).1 (omega arith) in omega arith

-- The rounded-up length of a cluster's interval in the units chosen for it.
abbrev pub interval_in_units : ℕ → ℕ
interval_in_units ms = ceil_div ms (get_context ms).time_unit_divisor

-- Within a day the rounded-up interval is no more than a whole turn of the unit.
pub interval_in_units-le :
    (ms : ℕ) → ms ≤ milliseconds_in_a_day → interval_in_units ms ≤ (get_context ms).unit
unfolding get_context
interval_in_units-le ms h =
    ground (arith, ceil_div_le ms 1000 60, ceil_div_le ms 60000 60, ceil_div_le ms 3600000 24)

pub get_context_pos :
    (ms : ℕ) → (0 < (get_context ms).unit) × (0 < (get_context ms).time_unit_divisor)
unfolding get_context
get_context_pos ms = ground arith

pub get_context_unit-le : (ms : ℕ) → (get_context ms).unit ≤ 60
unfolding get_context
get_context_unit-le ms = ground arith

-- Beyond a day the rounded-up interval is more than the 24 hours of a turn.
pub interval_in_units-lt :
    (ms : ℕ) → milliseconds_in_a_day < ms → (get_context ms).unit < interval_in_units ms
unfolding get_context
interval_in_units-lt ms h = let q = (ceil_div_bounds ms 3600000 (omega arith)).0 in ground arith
