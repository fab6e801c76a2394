-- ===== src/Scheduling/Historical/Life.antt =====
-- The life of a schedule of RestrictedHistoricalScheduler.js: its ticks, its operations and its reloads.
use wolfram_price_feed_infra.Base.{
  ℕ, All, ◌+◌, ◌-◌, ◌≤◌, ◌<◌, ◌≡◌, ap, ◌∙◌, arith, ◌⊎◌, inl, inr, true, false, Option, some, none,
  List, [], ◌∷◌, ◌++◌, Bool-cases, leb,
}
use wolfram_price_feed_infra.Scheduling.Historical.{
  Historical, Bounds, Cycle, reload, update_interval_bounds, run_operations, call_operations,
  operations_ended, cycle_bounds, is_past, is_final_cycle,
}

-- A schedule's life, with the bounds of the runs whose operations were all called, the latest first. The cron
-- task ticks when it is not stopped and the timeouts of its last run have fired; operations end in any order,
-- or never; a reload comes at any time.
pub data Run (begins : Historical) : Historical → List (Option Bounds) → Type 0 where
  begin : Run begins begins []
  tick :
      {h : Historical} {log : List (Option Bounds)}
      → Run begins h log
      → h.cron_stopped ≡ false
      → h.armed ≡ none
      → Run begins (run_operations h) log
  call :
      {h : Historical} {log : List (Option Bounds)} (c : Cycle)
      → Run begins h log
      → h.armed ≡ some c
      → Run begins (call_operations c h) (c.bounds ∷ log)
  end :
      {h : Historical} {log : List (Option Bounds)} (c : Cycle) (before after : List Cycle)
      → Run begins h log
      → h.under_way ≡ before ++ c ∷ after
      → Run begins (operations_ended c (before ++ after) h) log
  reloaded :
      {h : Historical} {log : List (Option Bounds)} → Run begins h log → Run begins (reload h) log

-- The operations of some run were called with bounds that enclose `x`.
abbrev pub Covers : List (Option Bounds) → ℕ → Type 0
Covers [] x = ⊥
Covers (none ∷ log) x = Covers log x
Covers (some b ∷ log) x = ((b.interval_start ≤ x) × (x < b.interval_end)) ⊎ Covers log x

-- A tick past the end, the last cycle, and any other.
pub data AfterTick (h : Historical) (total : ℕ) : Historical → Type 0 where
  past :
      total ≤ h.cycle_counter
      → AfterTick h total (record h {
        cron_stopped = true;
        armed = some (record { bounds = h.interval_bounds; is_last_cycle = true });
      })
  last :
      h.cycle_counter + 1 ≡ total
      → AfterTick h total (record h {
        interval_bounds = some (cycle_bounds h);
        cycle_counter = h.cycle_counter + 1;
        cron_stopped = true;
        armed = some (record { bounds = some (cycle_bounds h); is_last_cycle = true });
      })
  more :
      h.cycle_counter + 1 < total
      → AfterTick h total (record h {
        interval_bounds = some (cycle_bounds h);
        cycle_counter = h.cycle_counter + 1;
        armed = some (record { bounds = some (cycle_bounds h); is_last_cycle = false });
      })

pub run_operations-AfterTick :
    (h : Historical) (total : ℕ)
    → h.total_cycles ≡ some total
    → AfterTick h total (run_operations h)
unfolding run_operations update_interval_bounds
run_operations-AfterTick h total e = elim (Bool-cases (leb total h.cycle_counter)) [
  | inl done ↦
      let passed : is_past h.total_cycles h.cycle_counter ≡ true =
        ap (λ o. is_past o h.cycle_counter) e ∙ done in
      rw passed (past (ground arith))
  | inr going ↦
      let ahead : is_past h.total_cycles h.cycle_counter ≡ false =
        ap (λ o. is_past o h.cycle_counter) e ∙ going in
      elim (Bool-cases (leb (total - 1) h.cycle_counter)) [
        | inl final ↦
            let ends : is_final_cycle h.total_cycles h.cycle_counter ≡ true =
              ap (λ o. is_final_cycle o h.cycle_counter) e ∙ final in
            rw (ahead, ends) (last (ground arith))
        | inr not_final ↦
            let goes_on : is_final_cycle h.total_cycles h.cycle_counter ≡ false =
              ap (λ o. is_final_cycle o h.cycle_counter) e ∙ not_final in
            rw (ahead, goes_on) (more (ground arith))
      ]
]

abbrev pub Within : Bounds → ℕ → Type 0
Within b x = (b.interval_start ≤ x) × (x < b.interval_end)

pub Covers-here :
    (o : Option Bounds) (log : List (Option Bounds)) (x : ℕ) {b : Bounds}
    → o ≡ some b
    → Within b x
    → Covers (o ∷ log) x
Covers-here o log x e w = rw e (inl w)

pub Covers-later :
    (o : Option Bounds) (log : List (Option Bounds)) (x : ℕ) → Covers log x → Covers (o ∷ log) x
Covers-later none log x c = c
Covers-later (some b) log x c = inr c

-- Where one element of a list is taken out.
pub All-without {κ} :
    (P : Cycle → Type κ) (before after : List Cycle) (c : Cycle)
    → All P (before ++ c ∷ after)
    → P c × All P (before ++ after)
All-without P [] after c h = h
All-without P (b ∷ bs) after c h =
    let (here, rest) = All-without P bs after c h.1 in (here, (h.0, rest))

pub All-weaken {κ π} :
    (P : Cycle → Type κ) (Q : Cycle → Type π) (l : List Cycle)
    → ((c : Cycle) → P c → Q c)
    → All P l
    → All Q l
All-weaken P Q [] f h = tt
All-weaken P Q (c ∷ cs) f h = (f c h.0, All-weaken P Q cs f h.1)
