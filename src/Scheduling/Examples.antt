-- ===== src/Scheduling/Examples.antt =====
-- The theorems of this part at concrete inputs: a cluster of two exchanges with two replicas each.
use wolfram_price_feed_infra.Base.{
  ℕ, ◌+◌, ◌≡◌, refl, true, false, Option, some, none, List, [], ◌∷◌, returns, throws, range_error,
  arith,
}
use wolfram_price_feed_infra.Base.Ratio.{Le}
use wolfram_price_feed_infra.Base.Ratio
use wolfram_price_feed_infra.Scheduling.Units.{get_context, closest_divisor, ceil_div}
use wolfram_price_feed_infra.Scheduling.Scheduler.{
  ClusterMember, self, external, Options, Scheduler, init_interval, is_self, get_interval_size,
  add_intervals, get_interval_context, base_rate,
}
use wolfram_price_feed_infra.Scheduling.Scheduler
use wolfram_price_feed_infra.Scheduling.Delays.{start_in_turn}
use wolfram_price_feed_infra.Scheduling.Interval.{
  init_interval_total, init_interval_overflow, IsTuned,
}
use wolfram_price_feed_infra.Scheduling.Slots.{InRange}
use wolfram_price_feed_infra.Scheduling.Cluster.{TakesTurns}
use wolfram_price_feed_infra.Scheduling.Turns.{members_apart, turn_within_interval}
use wolfram_price_feed_infra.Scheduling.Historical.{Historical, Cycle}
use wolfram_price_feed_infra.Scheduling.Historical
use wolfram_price_feed_infra.Scheduling.Historical.Life.{
  Run, begin, tick, call, end, reloaded, Covers,
}
use wolfram_price_feed_infra.Scheduling.Historical.Coverage.{resolved_schedule-Covers}
use wolfram_price_feed_infra.Scheduling.Historical.Progress.{no_limit_unresolved}

-- Five markets, three collectors, two replicas, 100 ms and a margin of 10: 3300 ms of each replica.
abbrev first_exchange : ClusterMember
first_exchange = record { interval = 3300 + 3300; type = self }

abbrev second_exchange : ClusterMember
second_exchange = record { interval = 6600; type = external }

abbrev options : ℕ → ℕ → List ClusterMember → Options
options queue_position instance_position members = record {
  base_rate_limit = 100;
  rate_limit_margin = 10;
  rate_limit_multiplier = none;
  queue_position = queue_position;
  queue_size = 10;
  replica_size = some 2;
  instance_position = some instance_position;
  base_sleep_reload_time = none;
  operations = some (1 ∷ 2 ∷ 3 ∷ []);
  cluster_members = some members;
}

abbrev first_sees : List ClusterMember
first_sees = first_exchange ∷ second_exchange ∷ []

abbrev second_sees : List ClusterMember
second_sees =
    record { interval = 6600; type = external } ∷ record { interval = 6600; type = self } ∷ []

abbrev first : Scheduler
first = Scheduler.new (options 3 1 first_sees)

abbrev second : Scheduler
second = Scheduler.new (options 0 0 second_sees)

abbrev set_up : Scheduler → Scheduler
set_up s = record s {
  normalized_interval = 15;
  precise_normalized_interval = 15000;
  cron_string = "* * * * *";
  intra_cluster_distance = record { num = 1800; den = 2 };
  intra_interval_distance = record { num = 1800; den = 120 };
}

first-set_up : init_interval 62 first ≡ returns (set_up first)
unfolding Scheduler.new init_interval get_interval_context get_context closest_divisor ceil_div
    Ratio.div Ratio.of_ℕ
first-set_up = refl

second-set_up : init_interval 62 second ≡ returns (set_up second)
unfolding Scheduler.new init_interval get_interval_context get_context closest_divisor ceil_div
    Ratio.div Ratio.of_ℕ
second-set_up = refl

init_interval_total_example :
    (t : Scheduler) × (init_interval 62 first ≡ returns t) × IsTuned first_sees first t
unfolding Scheduler.new
init_interval_total_example =
    init_interval_total 62 first first_sees refl (omega arith) (omega arith)

abbrev two_days : List ClusterMember
two_days = record { interval = 172800000; type = self } ∷ []

init_interval_overflow_example :
    init_interval 10000 (Scheduler.new (options 0 0 two_days)) ≡ throws range_error
unfolding Scheduler.new
init_interval_overflow_example =
    init_interval_overflow 10000 (Scheduler.new (options 0 0 two_days)) two_days refl (omega arith)

first-InRange : InRange first 2
unfolding Scheduler.new
first-InRange = record { queued = omega arith; placed = omega arith; listed = omega arith }

second-InRange : InRange second 0
unfolding Scheduler.new
second-InRange = record { queued = omega arith; placed = omega arith; listed = omega arith }

first_then_second : TakesTurns first second
unfolding Scheduler.new is_self
first_then_second = record {
  before = [];
  after = second_exchange ∷ [];
  before' = record { interval = 6600; type = external } ∷ [];
  after' = [];
  mine = first_exchange;
  mine' = record { interval = 6600; type = self };
  between = [];
  members = refl;
  members' = refl;
  external = tt;
  external' = (refl, tt);
  is_mine = refl;
  is_mine' = refl;
  earlier = refl;
  same_cluster = refl;
}

members_apart_example :
    Le
      (Ratio.add (start_in_turn (set_up first) 2) (Ratio.of_ℕ (base_rate (set_up first))))
      (start_in_turn (set_up second) 0)
unfolding Scheduler.new get_interval_size first_then_second
members_apart_example =
    members_apart 62 first second 2 0 first_then_second refl first-set_up second-set_up
      first-InRange second-InRange

turn_within_interval_example :
    Le
      (Ratio.add (start_in_turn (set_up first) 2) (Ratio.of_ℕ (base_rate (set_up first))))
      (Ratio.add (Ratio.of_ℕ 15000) (Ratio.div (set_up first).intra_cluster_distance 2))
unfolding Scheduler.new get_interval_size is_self
turn_within_interval_example =
    turn_within_interval 62 first [] (second_exchange ∷ []) first_exchange 2 refl tt refl refl
      first-set_up first-InRange

-- Two and a half cycles of two minutes from an hour after the epoch. A reload clears the timeouts of the second
-- run, and goes back one cycle.
abbrev schedule : Historical
schedule = Historical.new 3600007 3900000 (some 2) none (some 1)

abbrev no_cycle : Cycle
no_cycle = record { bounds = none; is_last_cycle = false }

abbrev armed_cycle : Historical → Cycle
armed_cycle h = elim h.armed [ none ↦ no_cycle | some c ↦ c ]

abbrev called : Historical → Historical
called h = Historical.call_operations (armed_cycle h) h

abbrev first_run : Historical
first_run = called (Historical.run_operations schedule)

abbrev interrupted : Historical
interrupted = Historical.reload (Historical.run_operations first_run)

abbrev second_run : Historical
second_run = called (Historical.run_operations interrupted)

abbrev last_tick : Historical
last_tick = Historical.run_operations second_run

abbrev last_run : Historical
last_run = called last_tick

abbrev resolved : Historical
resolved = Historical.operations_ended (armed_cycle last_tick) second_run.under_way last_run

abbrev collected : List (Option Historical.Bounds)
collected =
    (armed_cycle last_tick).bounds
    ∷ (armed_cycle (Historical.run_operations interrupted)).bounds
    ∷ (armed_cycle (Historical.run_operations schedule)).bounds
    ∷ []

second_run-Run : Run schedule second_run (
    (armed_cycle (Historical.run_operations interrupted)).bounds
    ∷ (armed_cycle (Historical.run_operations schedule)).bounds
    ∷ [])
unfolding Historical.new Historical.run_operations Historical.call_operations Historical.reload
    Historical.update_interval_bounds ceil_div
second_run-Run =
    call (armed_cycle (Historical.run_operations interrupted))
      (tick
        (reloaded (
          tick (call (armed_cycle (Historical.run_operations schedule)) (tick begin refl refl) refl)
            refl refl))
        refl refl)
      refl

resolved-Run : Run schedule resolved collected
unfolding Historical.new Historical.run_operations Historical.call_operations Historical.reload
    Historical.update_interval_bounds ceil_div
resolved-Run =
    end (armed_cycle last_tick) [] second_run.under_way
      (call (armed_cycle last_tick) (tick second_run-Run refl refl) refl) refl

resolved-done : resolved.resolved ≡ true
unfolding Historical.new Historical.run_operations Historical.call_operations Historical.reload
    Historical.update_interval_bounds Historical.operations_ended ceil_div
resolved-done = refl

resolved_schedule-Covers_example : Covers collected 3860000
unfolding Historical.round_date_to_minute
resolved_schedule-Covers_example =
    resolved_schedule-Covers 3600007 3900000 2 1 3860000 (omega arith) (omega arith) (omega arith)
      resolved-Run resolved-done (omega arith) (omega arith)

-- A schedule without a limit, after one run.
abbrev endless : Historical
endless = Historical.new 3600007 3900000 (some 0) none none

abbrev endless_tick : Historical
endless_tick = Historical.run_operations endless

abbrev endless_run : Historical
endless_run = Historical.operations_ended (armed_cycle endless_tick) [] (called endless_tick)

endless_run-Run : Run endless endless_run ((armed_cycle endless_tick).bounds ∷ [])
unfolding Historical.new Historical.run_operations Historical.call_operations
    Historical.update_interval_bounds Historical.calculate_total_cycles
endless_run-Run =
    end (armed_cycle endless_tick) [] []
      (call (armed_cycle endless_tick) (tick begin refl refl) refl) refl

no_limit_unresolved_example : endless_run.resolved ≡ false
no_limit_unresolved_example =
    no_limit_unresolved 3600007 3900000 none none (omega arith) endless_run-Run
