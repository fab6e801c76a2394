-- ===== src/Scheduling/Lifecycle/Examples.antt =====
-- The theorems on a scheduler's life at a concrete one: it is started, ticks, and arms three operations.
use wolfram_price_feed_infra.Base.{
  ◌≡◌, refl, ◌≢◌, true, false, none, some, [], ◌∷◌, returns, none≢some,
}
use mathlib.Core.Path.{sym}
use wolfram_price_feed_infra.Base.Ratio
use wolfram_price_feed_infra.Scheduling.Units.{get_context, closest_divisor, ceil_div}
use wolfram_price_feed_infra.Scheduling.Scheduler.{
  self, Options, DynamicConfig, no_config, init_interval, set_dynamic_config, assign, add_intervals,
  get_interval_context,
}
use wolfram_price_feed_infra.Scheduling.Scheduler
use wolfram_price_feed_infra.Scheduling.Lifecycle.{
  Timeout, Task, create, configure, configure_task, start, stop, fire, run_job, run_operations,
  arm_operations, initialize_scheduler, initialize_cluster_delay, initialize_batch, batch_job,
}
use wolfram_price_feed_infra.Scheduling.Lifecycle.Phases.{
  Reachable, created, ticked, fired, started, stop_leaves_nothing,
}

abbrev options : Options
options = record {
  base_rate_limit = 100;
  rate_limit_margin = 10;
  rate_limit_multiplier = none;
  queue_position = 1;
  queue_size = 5;
  replica_size = none;
  instance_position = none;
  base_sleep_reload_time = none;
  operations = some (1 ∷ 2 ∷ 3 ∷ []);
  cluster_members = some (record { interval = 1650; type = self } ∷ []);
}

abbrev initial : Task
initial = create options

abbrev running : Task
running = (start 62 no_config initial).0

abbrev waiting : Task
waiting = initialize_cluster_delay running

abbrev head_or : Timeout → Task → Timeout
head_or x t = elim t.armed [ [] ↦ x | y ∷ _ ↦ y ]

abbrev cluster_timer : Timeout
cluster_timer = record { id = 0; job = batch_job; delay = Ratio.of_ℕ 0 }

abbrev in_batch : Task
in_batch = fire (head_or cluster_timer waiting) waiting

abbrev in_operations : Task
in_operations = fire (head_or cluster_timer in_batch) in_batch

running-Reachable : Reachable 62 running
unfolding create
running-Reachable = started no_config (created options) (λ h. none≢some h)

running-ticks : running.cron_task ≡ some true
unfolding create start configure_task configure set_dynamic_config init_interval assign
    initialize_scheduler get_interval_context get_context closest_divisor ceil_div Scheduler.new
running-ticks = refl

running-idle : running.armed ≡ []
unfolding create start configure_task configure set_dynamic_config init_interval assign
    initialize_scheduler get_interval_context get_context closest_divisor ceil_div Scheduler.new
running-idle = refl

in_operations-Reachable : Reachable 62 in_operations
unfolding create start configure_task configure set_dynamic_config init_interval assign
    initialize_scheduler get_interval_context get_context closest_divisor ceil_div Scheduler.new
    initialize_cluster_delay fire run_job initialize_batch
in_operations-Reachable =
    fired [] [] (head_or cluster_timer in_batch)
      (fired [] [] (head_or cluster_timer waiting)
        (ticked running-Reachable running-ticks running-idle) refl)
      refl

in_operations-ticks : in_operations.cron_task ≢ none
unfolding create start configure_task configure set_dynamic_config init_interval assign
    initialize_scheduler get_interval_context get_context closest_divisor ceil_div Scheduler.new
    initialize_cluster_delay fire run_job initialize_batch run_operations arm_operations
in_operations-ticks h = none≢some (sym h)

stop_leaves_nothing_example :
    ((stop in_operations).1 ≡ returns tt)
    × ((stop in_operations).0.cron_task ≡ some false)
    × ((stop in_operations).0.left_behind ≡ 0)
    × ((stop in_operations).0.armed ≡ [])
stop_leaves_nothing_example =
    stop_leaves_nothing in_operations in_operations-Reachable in_operations-ticks
