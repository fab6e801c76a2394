-- ===== src/Scheduling/Scheduler.antt =====
-- The state of a scheduler and how it derives its interval: BaseScheduler.js and
-- RestrictedRealtimeScheduler.js, with lib/domain-collectors/utils/ClusterMember.js.
-- Rates and intervals are whole milliseconds; what the program divides is a `Ratio`.
use Prim.Native.String.{String}
use wolfram_price_feed_infra.Base.{
  ℕ, ◌+◌, ◌-◌, ◌*◌, Bool, true, false, Option, none, some, List, [], ◌∷◌, length, get_or,
  Completion, returns, throws, ◌>>=◌, type_error, range_error,
}
use wolfram_price_feed_infra.Base.Ratio.{Ratio}
use wolfram_price_feed_infra.Base.Ratio
use wolfram_price_feed_infra.Scheduling.Units.{
  ScheduleUnit, get_context, closest_divisor, ceil_div, milliseconds_in_a_minute,
}

pub data MemberType : Type 0 where
  self external : MemberType

pub record ClusterMember : Type 0 where
  pub interval : ℕ
  pub type : MemberType

unfoldable pub is_self : ClusterMember → Bool
is_self m = elim m.type [ self ↦ true | external ↦ false ]

-- `operations` are named by numbers; `cluster_members` is `undefined` until it is configured.
pub record Scheduler : Type 0 where
  pub base_rate_limit : ℕ
  pub rate_limit_margin : ℕ
  pub rate_limit_multiplier : ℕ
  pub queue_position : ℕ
  pub queue_size : ℕ
  pub replica_size : ℕ
  pub instance_position : ℕ
  pub base_sleep_reload_time : ℕ
  pub operations : List ℕ
  pub cluster_members : Option (List ClusterMember)
  pub intra_cluster_distance : Ratio
  pub intra_interval_distance : Ratio
  pub normalized_interval : ℕ
  pub precise_normalized_interval : ℕ
  pub cron_string : String

-- The arguments of the constructor; those that it has defaults for may be missing.
pub record Options : Type 0 where
  pub base_rate_limit : ℕ
  pub rate_limit_margin : ℕ
  pub rate_limit_multiplier : Option ℕ
  pub queue_position : ℕ
  pub queue_size : ℕ
  pub replica_size : Option ℕ
  pub instance_position : Option ℕ
  pub base_sleep_reload_time : Option ℕ
  pub operations : Option (List ℕ)
  pub cluster_members : Option (List ClusterMember)

abbrev pub default_base_reload_sleep : ℕ
default_base_reload_sleep = milliseconds_in_a_minute * 30

unfoldable pub new : Options → Scheduler
new o = record {
  base_rate_limit = o.base_rate_limit;
  rate_limit_margin = o.rate_limit_margin;
  rate_limit_multiplier = get_or o.rate_limit_multiplier 1;
  queue_position = o.queue_position;
  queue_size = o.queue_size;
  replica_size = get_or o.replica_size 1;
  instance_position = get_or o.instance_position 0;
  base_sleep_reload_time = get_or o.base_sleep_reload_time default_base_reload_sleep;
  operations = get_or o.operations [];
  cluster_members = o.cluster_members;
  intra_cluster_distance = Ratio.of_ℕ 0;
  intra_interval_distance = Ratio.of_ℕ 0;
  normalized_interval = 0;
  precise_normalized_interval = 0;
  cron_string = "";
}

-- What `Object.assign` writes: the properties that are present.
pub record DynamicConfig : Type 0 where
  pub rate_limit_multiplier : Option ℕ
  pub queue_position : Option ℕ
  pub queue_size : Option ℕ
  pub replica_size : Option ℕ
  pub instance_position : Option ℕ
  pub operations : Option (List ℕ)
  pub cluster_members : Option (List ClusterMember)

abbrev pub no_config : DynamicConfig
no_config = record {
  rate_limit_multiplier = none;
  queue_position = none;
  queue_size = none;
  replica_size = none;
  instance_position = none;
  operations = none;
  cluster_members = none;
}

-- A property that is absent leaves the field as it was.
abbrev pub or_else {ℓ} : {A : Type ℓ} → Option A → Option A → Option A
or_else none o = o
or_else (some a) o = some a

unfoldable pub assign : Scheduler → DynamicConfig → Scheduler
assign s c = record s {
  rate_limit_multiplier = get_or c.rate_limit_multiplier s.rate_limit_multiplier;
  queue_position = get_or c.queue_position s.queue_position;
  queue_size = get_or c.queue_size s.queue_size;
  replica_size = get_or c.replica_size s.replica_size;
  instance_position = get_or c.instance_position s.instance_position;
  operations = get_or c.operations s.operations;
  cluster_members = or_else c.cluster_members s.cluster_members;
}

-- The getter of the base class, in whole milliseconds.
unfoldable pub base_rate : Scheduler → ℕ
base_rate s = (s.base_rate_limit + s.rate_limit_margin) * s.rate_limit_multiplier

-- The getter that overrides it.
unfoldable pub rate_limit : Scheduler → Ratio
unfolding base_rate
rate_limit s = Ratio.add (Ratio.of_ℕ (base_rate s)) s.intra_interval_distance

abbrev pub sum_intervals : List ClusterMember → ℕ
sum_intervals [] = 0
sum_intervals (m ∷ ms) = m.interval + sum_intervals ms

-- A `reduce` with an accumulator.
unfoldable pub add_intervals : ℕ → List ClusterMember → ℕ
add_intervals acc [] = acc
add_intervals acc (m ∷ ms) = add_intervals (acc + m.interval) ms

pub record IntervalContext : Type 0 where
  pub cluster_interval_in_milliseconds : ℕ
  pub schedule_unit : ScheduleUnit

unfoldable pub get_interval_context : Scheduler → Completion IntervalContext
unfolding add_intervals
get_interval_context s = elim s.cluster_members [
  | none ↦ throws type_error
  | some members ↦
      let total = add_intervals 0 members in
      returns
        (record { cluster_interval_in_milliseconds = total; schedule_unit = get_context total })
]

-- A `RangeError` where the search for a divisor uses up the stack.
abbrev pub or_range_error {ℓ} : {A : Type ℓ} → Option A → Completion A
or_range_error none = throws range_error
or_range_error (some a) = returns a

abbrev pub member_count : Scheduler → ℕ
member_count s = elim s.cluster_members [ none ↦ 0 | some members ↦ length members ]

-- `frames` is the depth of the stack. The precise interval is never below the cluster's, so the
-- difference of natural numbers is the source's.
unfoldable pub setup_interval : ℕ → Scheduler → IntervalContext → Completion Scheduler
setup_interval frames s c = do
  let unit = c.schedule_unit
  let interval_in_units = ceil_div c.cluster_interval_in_milliseconds unit.time_unit_divisor
  normalized ← or_range_error (closest_divisor frames interval_in_units unit.unit)
  let precise = normalized * unit.time_unit_divisor
  returns (record s {
    normalized_interval = normalized;
    precise_normalized_interval = precise;
    intra_cluster_distance =
        Ratio.div (Ratio.of_ℕ (precise - c.cluster_interval_in_milliseconds)) (member_count s);
    cron_string = unit.cron_string;
  })

unfoldable pub setup_intra_interval_distance : Scheduler → Scheduler
setup_intra_interval_distance s = record s {
  intra_interval_distance =
      Ratio.div s.intra_cluster_distance (s.queue_size * length s.operations * s.replica_size);
}

unfoldable pub init_interval : ℕ → Scheduler → Completion Scheduler
unfolding setup_interval setup_intra_interval_distance
init_interval frames s = do
  context ← get_interval_context s
  t ← setup_interval frames s context
  returns (setup_intra_interval_distance t)

unfoldable pub set_dynamic_config : ℕ → Scheduler → DynamicConfig → Completion Scheduler
unfolding assign init_interval
set_dynamic_config frames s c = init_interval frames (assign s c)

unfoldable pub get_interval_size : Scheduler → ℕ
unfolding base_rate
get_interval_size s = base_rate s * s.queue_size * length s.operations

unfoldable pub get_multiplier_backoff : Scheduler → ℕ
get_multiplier_backoff s = s.rate_limit_multiplier + 1

unfoldable pub get_reload_sleep_time : Scheduler → ℕ
get_reload_sleep_time s = s.rate_limit_multiplier * s.base_sleep_reload_time

unfoldable pub get_dynamic_config : Scheduler → DynamicConfig
get_dynamic_config s = record {
  rate_limit_multiplier = some s.rate_limit_multiplier;
  queue_position = none;
  queue_size = some s.queue_size;
  replica_size = some s.replica_size;
  instance_position = some s.instance_position;
  operations = none;
  cluster_members = s.cluster_members;
}
