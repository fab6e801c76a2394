-- ===== src/Scheduling/Historical/Progress.antt =====
-- That a schedule of RestrictedHistoricalScheduler.js can be resolved from every state in which it ticks.
use wolfram_price_feed_infra.Base.{
  ℕ, ◌+◌, ◌≤◌, ◌≡◌, refl, sym, ap, arith, true, false, Option, some, none, List, length, All, subst,
  none≢some, some-injective, leb, if◌then◌else◌, Bool,
}
use wolfram_price_feed_infra.Scheduling.Historical.{
  Historical, Bounds, Cycle, reload, new, update_interval_bounds, run_operations, call_operations,
  operations_ended, backoff_cycles, cycle_bounds, is_past, is_final_cycle, calculate_total_cycles,
  round_date_to_minute,
}
use wolfram_price_feed_infra.Scheduling.Historical.Life.{
  Run, begin, tick, call, end, reloaded, All-without,
}

-- A life that goes on and ends with the schedule resolved, after at most `n` more runs of the operations.
abbrev pub CanResolve : Historical → List (Option Bounds) → ℕ → Type 0
CanResolve begins log n =
    (h : Historical) × (log' : List (Option Bounds)) × (Run begins h log')
    × (h.resolved ≡ true)
    × (length log' ≤ length log + n)

-- With an operation limit of 0 no run of the operations is the last.
abbrev NeverEnds : Historical → Type 0
NeverEnds h =
    (h.total_cycles ≡ none)
    × ((c : Cycle) → h.armed ≡ some c → c.is_last_cycle ≡ false)
    × All (λ (c : Cycle). c.is_last_cycle ≡ false) h.under_way
    × (h.resolved ≡ false)

tick-NeverEnds : (h : Historical) → NeverEnds h → NeverEnds (run_operations h)
unfolding run_operations update_interval_bounds
tick-NeverEnds h (counted, armed, called, open_) =
    let ahead : is_past h.total_cycles h.cycle_counter ≡ false =
      ap (λ o. is_past o h.cycle_counter) counted in
    let goes_on : is_final_cycle h.total_cycles h.cycle_counter ≡ false =
      ap (λ o. is_final_cycle o h.cycle_counter) counted in
    let runs : run_operations h ≡ unlimited = rw (ahead, goes_on, run_operations) refl in
    subst NeverEnds (sym runs) (
      counted,
      λ c taken. ap (λ (d : Cycle). d.is_last_cycle) (sym (some-injective taken)),
      called,
      open_,
    )
  where
    unlimited : Historical
    unlimited = record h {
      interval_bounds = some (cycle_bounds h);
      cycle_counter = h.cycle_counter + 1;
      armed = some (record { bounds = some (cycle_bounds h); is_last_cycle = false });
    }

run-NeverEnds :
    {begins h : Historical} {log : List (Option Bounds)}
    → NeverEnds begins
    → Run begins h log
    → NeverEnds h
unfolding call_operations operations_ended reload backoff_cycles
run-NeverEnds never begin = never
run-NeverEnds never (tick {h} run ticks idle) = tick-NeverEnds h (run-NeverEnds never run)
run-NeverEnds never (call c run armed) =
    let (counted, final, called, open_) = run-NeverEnds never run in
    (counted, λ d taken. absurd (none≢some taken), (final c armed, called), open_)
run-NeverEnds never (end c before after run parts) =
    let (counted, final, called, open_) = run-NeverEnds never run in
    let (mine, rest) =
      All-without (λ (d : Cycle). d.is_last_cycle ≡ false) before after c
        (subst (All (λ (d : Cycle). d.is_last_cycle ≡ false)) parts called) in
    (counted, final, rest, rw mine open_)
run-NeverEnds never (reloaded run) =
    let (counted, final, called, open_) = run-NeverEnds never run in
    (counted, λ d taken. absurd (none≢some taken), called, open_)

-- With an operation limit of 0, and a range that does not end before it starts, no schedule is ever resolved,
-- whatever runs and reloads there are.
pub no_limit_unresolved :
    (s e : ℕ) (counter backoff : Option ℕ) {h : Historical} {log : List (Option Bounds)}
    → s ≤ e
    → Run (new s e (some 0) counter backoff) h log
    → h.resolved ≡ false
unfolding new calculate_total_cycles round_date_to_minute
no_limit_unresolved s e counter backoff le run =
    (run-NeverEnds
      (
        endless (some 0) (leb (round_date_to_minute s) (round_date_to_minute e)) (ground arith),
        λ c taken. absurd (none≢some taken),
        tt,
        refl,
      )
      run).3
  where
    endless : (o : Option ℕ) (b : Bool) → b ≡ true → (if b then none else o) ≡ none
    endless o b h = rw h refl
