-- ===== src/Scheduling/Historical.antt =====
-- RestrictedHistoricalScheduler.js, with lib/utils/roundDateToMinute.js: a range of dates is
-- collected in cycles of a limited number of minutes. Dates are milliseconds since the epoch.
-- What the class inherits is in `Scheduler` and `Delays`; here is the state that it adds.
pub mod Tiles
pub mod Life
pub mod Coverage
pub mod Progress
use wolfram_price_feed_infra.Base.{
  ℕ, suc, ◌+◌, ◌-◌, ◌*◌, ◌/◌, ◌%◌, min, Bool, true, false, Option, none, some, List, [], ◌∷◌, leb,
  ◌==◌, if◌then◌else◌, get_or,
}
use wolfram_price_feed_infra.Scheduling.Units.{ceil_div, milliseconds_in_a_minute}

-- `setSeconds(0, 0)`, in a time zone whose offset is whole minutes.
unfoldable pub round_date_to_minute : ℕ → ℕ
round_date_to_minute date = date - date % milliseconds_in_a_minute

pub record Bounds : Type 0 where
  pub interval_start : ℕ
  pub interval_end : ℕ

-- A run of the operations between its call and its end: the bounds that the operations read, and whether it
-- is the last cycle's.
pub record Cycle : Type 0 where
  pub bounds : Option Bounds
  pub is_last_cycle : Bool

-- `interval_bounds` is `none` until the first cycle sets both. `total_cycles` is `none` where the source has
-- `Infinity`, or `NaN`, which no counter reaches either. `cron_stopped` and `resolved` record the calls of
-- `cronTask.stop` and of `resolveSchedule`. `armed` is the run whose operations' timeouts have not all fired,
-- and `under_way` are the runs that wait for their operations to end.
pub record Historical : Type 0 where
  pub collection_start_date : ℕ
  pub collection_end_date : ℕ
  pub operation_limit : ℕ
  pub cycle_counter : ℕ
  pub reload_cycles_backoff : ℕ
  pub total_cycles : Option ℕ
  pub last_cycle_limit : ℕ
  pub interval_bounds : Option Bounds
  pub cron_stopped : Bool
  pub resolved : Bool
  pub armed : Option Cycle
  pub under_way : List Cycle

-- Both dates are whole minutes, so the division is exact. Where the end is before the start the
-- source has a negative number, and this is 0: in both cases there is no cycle to run.
abbrev pub total_minutes : ℕ → ℕ → ℕ
total_minutes start end = (end - start) / milliseconds_in_a_minute

-- A limit of 0 makes infinitely many cycles, except where the end is before the start.
unfoldable pub calculate_total_cycles : ℕ → ℕ → ℕ → Option ℕ
calculate_total_cycles start end limit =
    if limit == 0
    then (if leb start end then none else some 0)
    else some (ceil_div (total_minutes start end) limit)

-- The remainder by 0 is `NaN`, which is as false as 0.
unfoldable pub calculate_last_cycle_limit : ℕ → ℕ → ℕ → ℕ
calculate_last_cycle_limit start end limit =
    let remaining_minutes = total_minutes start end % limit in
    if limit == 0 then limit else (if remaining_minutes == 0 then limit else remaining_minutes)

unfoldable pub new : ℕ → ℕ → Option ℕ → Option ℕ → Option ℕ → Historical
unfolding round_date_to_minute calculate_total_cycles calculate_last_cycle_limit
new schedule_start_date schedule_end_date operation_limit cycle_counter reload_cycles_backoff =
    let start = round_date_to_minute schedule_start_date in
    let end = round_date_to_minute schedule_end_date in
    let limit = get_or operation_limit 500 in
    record {
      collection_start_date = start;
      collection_end_date = end;
      operation_limit = limit;
      cycle_counter = get_or cycle_counter 0;
      reload_cycles_backoff = get_or reload_cycles_backoff 5;
      total_cycles = calculate_total_cycles start end limit;
      last_cycle_limit = calculate_last_cycle_limit start end limit;
      interval_bounds = none;
      cron_stopped = false;
      resolved = false;
      armed = none;
      under_way = [];
    }

-- `cycleCounter >= totalCycles`.
abbrev pub is_past : Option ℕ → ℕ → Bool
is_past none counter = false
is_past (some total) counter = leb total counter

-- `cycleCounter >= totalCycles - 1`, which is tested where the counter is below the total.
abbrev pub is_final_cycle : Option ℕ → ℕ → Bool
is_final_cycle none counter = false
is_final_cycle (some total) counter = leb (total - 1) counter

-- The bounds of the cycle at the counter.
unfoldable pub cycle_bounds : Historical → Bounds
cycle_bounds h =
    let final = is_final_cycle h.total_cycles h.cycle_counter in
    let cycle_limit = if final then h.last_cycle_limit else h.operation_limit in
    let interval_start_offset = h.cycle_counter * h.operation_limit * milliseconds_in_a_minute in
    let interval_end_offset = interval_start_offset + cycle_limit * milliseconds_in_a_minute in
    record {
      interval_start = h.collection_start_date + interval_start_offset;
      interval_end = h.collection_start_date + interval_end_offset;
    }

unfoldable pub update_interval_bounds : Historical → Historical × Bool
update_interval_bounds h = if is_past h.total_cycles h.cycle_counter then (h, true) else (
  record h { interval_bounds = some (cycle_bounds h); cycle_counter = h.cycle_counter + 1 },
  is_final_cycle h.total_cycles h.cycle_counter,
)

-- Up to the `await`: the last cycle stops the cron task, and the operations' timeouts are set.
unfoldable pub run_operations : Historical → Historical
unfolding update_interval_bounds
run_operations h =
    let (h', is_last_cycle) = update_interval_bounds h in
    record h' {
      cron_stopped = if is_last_cycle then true else h'.cron_stopped;
      armed = some (record { bounds = h'.interval_bounds; is_last_cycle = is_last_cycle });
    }

-- The timeouts of a run have all fired: its operations are called, and no reload can take them back.
unfoldable pub call_operations : Cycle → Historical → Historical
call_operations c h = record h { armed = none; under_way = c ∷ h.under_way }

-- After the `await`, where the operations of a run have ended and `others` are still under way.
unfoldable pub operations_ended : Cycle → List Cycle → Historical → Historical
operations_ended c others h = record h {
  under_way = others;
  resolved = if c.is_last_cycle then true else h.resolved;
}

unfoldable pub backoff_cycles : Historical → Historical
backoff_cycles h =
    let backoff_size = min h.cycle_counter h.reload_cycles_backoff in
    record h { cycle_counter = h.cycle_counter - backoff_size }

-- `destroyScheduler` clears the timeouts that have not fired, `handleReloadSleep` goes back, and the start makes
-- a new cron task.
unfoldable pub reload : Historical → Historical
unfolding backoff_cycles
reload h = record (backoff_cycles (record h { armed = none })) { cron_stopped = false }
