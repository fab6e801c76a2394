-- ===== src/Scheduling/Interval.antt =====
-- What `initInterval` computes, and when it throws.
use native.Mathlib.Nat.{le_trans}
use wolfram_price_feed_infra.Base.{
  ℕ, ◌+◌, ◌-◌, ◌*◌, ◌%◌, ◌≤◌, ◌<◌, ◌≡◌, refl, sym, ap, ◌∙◌, ◌≢◌, inl, inr, Option, none, some, List,
  [], ◌∷◌, length, returns, throws, returns≢throws, returns-injective, subst, type_error,
  range_error, arith, Option-cases,
}
use wolfram_price_feed_infra.Base.Ratio.{Ratio}
use wolfram_price_feed_infra.Base.Ratio
use wolfram_price_feed_infra.Scheduling.Units.{
  ScheduleUnit, get_context, closest_divisor, milliseconds_in_a_day,
}
use wolfram_price_feed_infra.Scheduling.Units.Divisor.{
  closest_divisor-IsClosest, closest_divisor_total, closest_divisor_diverges, ceil_div_bounds,
  ceil_div_le, interval_in_units, interval_in_units-le, interval_in_units-lt, get_context_pos,
  get_context_unit-le,
}
use wolfram_price_feed_infra.Scheduling.Scheduler.{
  ClusterMember, Scheduler, IntervalContext, sum_intervals, add_intervals, get_interval_context,
  member_count, init_interval,
}

abbrev pub unit_of : List ClusterMember → ScheduleUnit
unit_of members = get_context (sum_intervals members)

-- The scheduler `t` is `s` with its interval set up for `members`.
pub record IsTuned (members : List ClusterMember) (s t : Scheduler) : Type 0 where
  pub precise :
      t.precise_normalized_interval ≡ t.normalized_interval * (unit_of members).time_unit_divisor
  pub fits : sum_intervals members ≤ t.precise_normalized_interval
  pub even : (unit_of members).unit % t.normalized_interval ≡ 0
  pub least :
      (n : ℕ)
      → sum_intervals members ≤ n * (unit_of members).time_unit_divisor
      → n < t.normalized_interval
      → (unit_of members).unit % n ≢ 0
  pub retimed : t ≡ record s {
    normalized_interval = t.normalized_interval;
    precise_normalized_interval = t.precise_normalized_interval;
    cron_string = (unit_of members).cron_string;
    intra_cluster_distance =
        Ratio.div
          (Ratio.of_ℕ (t.precise_normalized_interval - sum_intervals members))
          (length members);
    intra_interval_distance =
        Ratio.div t.intra_cluster_distance (s.queue_size * length s.operations * s.replica_size);
  }

add_intervals-sum :
    (acc : ℕ) (ms : List ClusterMember) → add_intervals acc ms ≡ acc + sum_intervals ms
unfolding add_intervals
add_intervals-sum acc [] = omega arith
add_intervals-sum acc (m ∷ ms) = omega (arith, add_intervals-sum (acc + m.interval) ms)

abbrev context_of : ℕ → IntervalContext
context_of total = record {
  cluster_interval_in_milliseconds = total;
  schedule_unit = get_context total;
}

get_interval_context-some :
    (s : Scheduler) (members : List ClusterMember)
    → s.cluster_members ≡ some members
    → get_interval_context s ≡ returns (context_of (sum_intervals members))
unfolding get_interval_context
get_interval_context-some s members e =
    let total : add_intervals 0 members ≡ sum_intervals members =
      omega (arith, add_intervals-sum 0 members) in
    rw e (ap (λ n. returns (context_of n)) total)

member_count-some :
    (s : Scheduler) (members : List ClusterMember)
    → s.cluster_members ≡ some members
    → member_count s ≡ length members
member_count-some s members e = rw e

-- The scheduler that `initInterval` leaves when the search finds `d`.
abbrev pub tuned : List ClusterMember → Scheduler → ℕ → Scheduler
tuned members s d =
    let precise = d * (unit_of members).time_unit_divisor in
    let distance = Ratio.div (Ratio.of_ℕ (precise - sum_intervals members)) (length members) in
    record s {
      normalized_interval = d;
      precise_normalized_interval = precise;
      cron_string = (unit_of members).cron_string;
      intra_cluster_distance = distance;
      intra_interval_distance =
          Ratio.div distance (s.queue_size * length s.operations * s.replica_size);
    }

-- How the search for the number of units ends.
abbrev pub turn : ℕ → List ClusterMember → Option ℕ
turn frames members =
    closest_divisor frames (interval_in_units (sum_intervals members)) (unit_of members).unit

module _ (frames : ℕ) (s : Scheduler) (members : List ClusterMember) where
  pub init_interval-found :
      (d : ℕ)
      → s.cluster_members ≡ some members
      → turn frames members ≡ some d
      → init_interval frames s ≡ returns (tuned members s d)
  unfolding init_interval
  init_interval-found d e h =
      simp (get_interval_context-some s members e, h, member_count-some s members e)

  init_interval-lost :
      s.cluster_members ≡ some members
      → turn frames members ≡ none
      → init_interval frames s ≡ throws range_error
  unfolding init_interval
  init_interval-lost e h = simp (get_interval_context-some s members e, h)

-- A search that finds `d` tunes the scheduler.
IsTuned-tuned :
    (frames : ℕ) (s : Scheduler) (members : List ClusterMember) (d : ℕ)
    → turn frames members ≡ some d
    → IsTuned members s (tuned members s d)
IsTuned-tuned frames s members d h =
    let closest = closest_divisor-IsClosest frames _ _ h in
    let pos = (get_context_pos (sum_intervals members)).1 in
    record {
      precise = refl;
      fits = le_trans (ceil_div_bounds (sum_intervals members) _ pos).0 (mul-mono _ closest.above);
      even = closest.divides;
      least = λ n above below. closest.least n (ceil_div_le _ _ n pos above) below;
      retimed = refl;
    }
  where
    mul-mono : (c : ℕ) {a b : ℕ} → a ≤ b → a * c ≤ b * c
    mul-mono c le = grind arith

-- A scheduler whose members' intervals add up to at most a day is tuned, whatever the rest of its
-- state, given a stack of 62 frames.
pub init_interval_total :
    (frames : ℕ) (s : Scheduler) (members : List ClusterMember)
    → s.cluster_members ≡ some members
    → sum_intervals members ≤ milliseconds_in_a_day
    → 61 < frames
    → (t : Scheduler) × (init_interval frames s ≡ returns t) × IsTuned members s t
init_interval_total frames s members e day deep =
    let (d, h, _) =
      closest_divisor_total frames (interval_in_units (sum_intervals members))
        (unit_of members).unit (get_context_pos (sum_intervals members)).0
        (interval_in_units-le (sum_intervals members) day)
        (omega (arith, get_context_unit-le (sum_intervals members))) in
    (
      tuned members s d,
      init_interval-found frames s members d e h,
      IsTuned-tuned frames s members d h,
    )

-- Above a day the search for a divisor of 24 hours never ends, and the stack overflows.
pub init_interval_overflow :
    (frames : ℕ) (s : Scheduler) (members : List ClusterMember)
    → s.cluster_members ≡ some members
    → milliseconds_in_a_day < sum_intervals members
    → init_interval frames s ≡ throws range_error
init_interval_overflow frames s members e long = init_interval-lost frames s members e (
    closest_divisor_diverges frames _ _ (get_context_pos (sum_intervals members)).0
      (interval_in_units-lt (sum_intervals members) long))

pub init_interval_unconfigured :
    (frames : ℕ) (s : Scheduler)
    → s.cluster_members ≡ none
    → init_interval frames s ≡ throws type_error
unfolding init_interval get_interval_context
init_interval_unconfigured frames s e = rw (e, get_interval_context)

-- A call that returns has tuned the scheduler.
pub init_interval-IsTuned :
    (frames : ℕ) (s : Scheduler) (members : List ClusterMember) {t : Scheduler}
    → s.cluster_members ≡ some members
    → init_interval frames s ≡ returns t
    → IsTuned members s t
init_interval-IsTuned frames s members {t} e h = elim (Option-cases (turn frames members)) [
  | inl lost ↦ absurd (returns≢throws (sym h ∙ init_interval-lost frames s members e lost))
  | inr (d, found) ↦
      subst (IsTuned members s)
        (returns-injective (sym (init_interval-found frames s members d e found) ∙ h))
        (IsTuned-tuned frames s members d found)
]

-- A call that returns found a number of units, and leaves the scheduler that goes with it.
pub init_interval-turn :
    (frames : ℕ) (s : Scheduler) (members : List ClusterMember) {t : Scheduler}
    → s.cluster_members ≡ some members
    → init_interval frames s ≡ returns t
    → (d : ℕ) × (turn frames members ≡ some d) × (t ≡ tuned members s d)
init_interval-turn frames s members {t} e h = elim (Option-cases (turn frames members)) [
  | inl lost ↦ absurd (returns≢throws (sym h ∙ init_interval-lost frames s members e lost))
  | inr (d, found) ↦
      (d, found, returns-injective (sym h ∙ init_interval-found frames s members d e found))
]

-- Replicas whose member lists have one total and one length compute one distance and one turn.
pub init_interval_agrees :
    (frames : ℕ) (s s' : Scheduler) (ms ms' : List ClusterMember) {t t' : Scheduler}
    → s.cluster_members ≡ some ms
    → s'.cluster_members ≡ some ms'
    → sum_intervals ms ≡ sum_intervals ms'
    → length ms ≡ length ms'
    → init_interval frames s ≡ returns t
    → init_interval frames s' ≡ returns t'
    → (t.intra_cluster_distance ≡ t'.intra_cluster_distance)
      × (t.precise_normalized_interval ≡ t'.precise_normalized_interval)
init_interval_agrees frames s s' ms ms' e e' total count h h' =
    let (d, found, x) = init_interval-turn frames s ms e h in
    let (d', found', x') = init_interval-turn frames s' ms' e' h' in
    let same : some d ≡ some d' =
      sym found
      ∙ ap (λ n. closest_divisor frames (interval_in_units n) (get_context n).unit) total
      ∙ found' in
    let same_turn : d ≡ d' = cc same in rw (x, x', same_turn, total, count) (refl, refl)
