-- ===== src/Scheduling/Historical/Tiles.antt =====
-- The cycles tile the range of dates.
use native.Mathlib.Decide.{dec_lt}
use native.Mathlib.Nat.{div-add-mod', mod-lt}
use wolfram_price_feed_infra.Base.{
  ℕ, zero, suc, ◌+◌, ◌-◌, ◌*◌, ◌/◌, ◌%◌, ◌≤◌, ◌<◌, ◌≡◌, refl, sym, ap, arith, subst, ℕ_discrete,
  Option, some, false, if◌then◌else◌, ◌==◌, ==_apart,
}
use wolfram_price_feed_infra.Scheduling.Units.{milliseconds_in_a_minute, ceil_div}
use wolfram_price_feed_infra.Scheduling.Units.Divisor.{ceil_div_bounds}
use wolfram_price_feed_infra.Scheduling.Historical.{
  Historical, Bounds, round_date_to_minute, total_minutes, calculate_total_cycles,
  calculate_last_cycle_limit, new, cycle_bounds,
}

quotient_lt : (a b l : ℕ) → a * l < b * l → a < b
quotient_lt a b l h = grind arith

pred-mul : (t l : ℕ) → 0 < t → (t - 1) * l + l ≡ t * l
pred-mul zero l h = absurd (omega arith)
pred-mul (suc t) l h = let e : suc t - 1 ≡ t = omega arith in rw e (omega arith)

-- All full cycles but the last, and the last, make up the minutes of the range.
whole_range :
    (m limit total last : ℕ)
    → 0 < m
    → 0 < limit
    → m ≤ total * limit
    → total * limit < m + limit
    → last ≡ (if m % limit == 0 then limit else m % limit)
    → (total - 1) * limit + last ≡ m
whole_range m limit total last pos l above below e = elim (ℕ_discrete (m % limit) 0) [
  | yes none_left ↦
      let same : total ≡ m / limit =
        exact (m / limit) total (omega (arith, parts)) (omega (arith, parts)) in
      let full : last ≡ limit = ground arith in
      omega (arith, parts, ap times same, pred-mul total limit (pos_total total above), full)
  | no some_left ↦
      let same : total ≡ m / limit + 1 =
        exact (m / limit + 1) total (omega (arith, parts, mod-lt m l))
          (omega (arith, parts, mod-lt m l)) in
      let part : last ≡ m % limit = ground arith in
      omega (arith, parts, ap times same, pred-mul total limit (pos_total total above), part)
]
  where
    parts : m / limit * limit + m % limit ≡ m
    parts = div-add-mod' m limit

    times : ℕ → ℕ
    times t = t * limit

    pos_total : (t : ℕ) → m ≤ t * limit → 0 < t
    pos_total zero h = absurd (omega arith)
    pos_total (suc t) h = omega arith

    exact : (q t : ℕ) → q * limit < t * limit + limit → t * limit < q * limit + limit → t ≡ q
    exact q t h k = omega (
      arith,
      quotient_lt q (t + 1) limit (omega arith),
      quotient_lt t (q + 1) limit (omega arith),
    )

-- The state as the constructor fixes it for good: the cycles fit the range.
pub record IsPlanned (h : Historical) (total : ℕ) : Type 0 where
  pub cycles : h.total_cycles ≡ some total
  pub minutes : ℕ
  pub limited : 0 < h.operation_limit
  pub ordered : h.collection_end_date ≡ h.collection_start_date + minutes * milliseconds_in_a_minute
  pub above : minutes ≤ total * h.operation_limit
  pub below : total * h.operation_limit < minutes + h.operation_limit
  pub last : h.last_cycle_limit ≡ (
      if minutes % h.operation_limit == 0 then h.operation_limit else minutes % h.operation_limit)

-- The bounds of the cycle with number `k` of a total.
abbrev pub bounds_of : Historical → ℕ → ℕ → Bounds
bounds_of h total k = cycle_bounds (record h { cycle_counter = k; total_cycles = some total })

-- The number of cycles of a range.
abbrev pub cycles_of : ℕ → ℕ → ℕ → ℕ
cycles_of s e limit =
    ceil_div (total_minutes (round_date_to_minute s) (round_date_to_minute e)) limit

pub new-IsPlanned :
    (s e limit : ℕ) (counter backoff : Option ℕ)
    → 0 < limit
    → s ≤ e
    → IsPlanned (new s e (some limit) counter backoff) (cycles_of s e limit)
unfolding new round_date_to_minute calculate_total_cycles calculate_last_cycle_limit
new-IsPlanned s e limit counter backoff pos le =
    let some_limit : (limit == 0) ≡ false = ==_apart limit 0 (λ e. omega (arith, e, pos)) in
    rw some_limit (record {
      cycles = refl;
      minutes = total_minutes (round_date_to_minute s) (round_date_to_minute e);
      limited = pos;
      ordered = omega arith;
      above = (ceil_div_bounds _ limit pos).0;
      below = (ceil_div_bounds _ limit pos).1;
      last = refl;
    })

module _ (h : Historical) (total_cycles : ℕ) (p : IsPlanned h total_cycles) where
  open h use {collection_start_date, collection_end_date, operation_limit}

  abbrev offset : ℕ → ℕ
  offset k = k * operation_limit * milliseconds_in_a_minute

  some_minutes : 0 < total_cycles → 0 < p.minutes
  some_minutes pos = elim (ℕ_discrete p.minutes 0) [
    | yes empty ↦
        absurd (omega (arith, quotient_lt total_cycles 1 operation_limit (omega (arith, p.below))))
    | no some_ ↦ omega arith
  ]

  -- The cycles up to the last, and the last, are all the minutes.
  fits : (k : ℕ) → k + 1 ≡ total_cycles → k * operation_limit + h.last_cycle_limit ≡ p.minutes
  fits k e =
      let k_last : total_cycles - 1 ≡ k = omega arith in
      subst (λ j. j * operation_limit + h.last_cycle_limit ≡ p.minutes) k_last
        (whole_range p.minutes operation_limit total_cycles h.last_cycle_limit
          (some_minutes (omega arith)) p.limited p.above p.below p.last)

  -- The last cycle ends where the range ends.
  pub last_cycle_end :
      (k : ℕ)
      → k + 1 ≡ total_cycles
      → (bounds_of h total_cycles k).interval_end ≡ collection_end_date
  unfolding cycle_bounds
  last_cycle_end k e = ground (arith, fits k e, p.ordered)

  -- Each other cycle ends where the next begins.
  pub cycles_abut :
      (k : ℕ)
      → k + 1 < total_cycles
      → (bounds_of h total_cycles k).interval_end
        ≡ (bounds_of h total_cycles (k + 1)).interval_start
  unfolding cycle_bounds
  cycles_abut k e = ground arith

  in_cycle :
      (x k : ℕ)
      → x < collection_end_date
      → k < total_cycles
      → x < collection_start_date + (k + 1) * operation_limit * milliseconds_in_a_minute
      → x < (bounds_of h total_cycles k).interval_end
  in_cycle x k to below inside = elim (dec_lt (k + 1) total_cycles) [
    | yes more ↦ subst (λ b. x < b) (sym (cycles_abut k more)) (abutting x k inside)
    | no last ↦ subst (λ b. x < b) (sym (last_cycle_end k (omega arith))) to
  ]
    where
      abutting :
          (x k : ℕ)
          → x < collection_start_date + (k + 1) * operation_limit * milliseconds_in_a_minute
          → x < (bounds_of h total_cycles (k + 1)).interval_start
      abutting x k inside = unfold cycle_bounds in inside

  -- Every instant of the range lies within the bounds of one of the cycles.
  pub cycle_of :
      (x : ℕ)
      → collection_start_date ≤ x
      → x < collection_end_date
      → (k : ℕ) × (k < total_cycles)
        × ((bounds_of h total_cycles k).interval_start ≤ x)
        × (x < (bounds_of h total_cycles k).interval_end)
  unfolding cycle_bounds
  cycle_of x from to =
      let width = operation_limit * milliseconds_in_a_minute in
      let k = (x - collection_start_date) / width in
      let parts = div-add-mod' (x - collection_start_date) width in
      let rest = mod-lt (x - collection_start_date) {m = width} (omega (arith, p.limited)) in
      let below_total : k < total_cycles =
        quotient_lt k total_cycles width (omega (arith, parts, p.above, p.ordered, to)) in
      (
        k,
        below_total,
        omega (arith, parts),
        in_cycle x k to below_total (omega (arith, parts, rest)),
      )
