-- ===== src/Scheduling/Lifecycle.antt =====
-- How a scheduler starts, stops and reloads: the cron task and the timeouts of
-- BaseScheduler.js and RestrictedRealtimeScheduler.js. The platform's timeouts that are still to fire
-- are part of the state, as the program only holds their descriptors.
pub mod Phases
mod Examples
use wolfram_price_feed_infra.Base.{
  ℕ, suc, Bool, true, false, not, Option, none, some, List, [], ◌∷◌, ◌++◌, filter, get_or, ◌==◌,
  if◌then◌else◌, Attempt, ◌and_then◌, rethrow, returns, throws, type_error,
}
use wolfram_price_feed_infra.Base.Ratio.{Ratio}
use wolfram_price_feed_infra.Base.Ratio
use wolfram_price_feed_infra.Scheduling.Scheduler.{
  Scheduler, DynamicConfig, Options, new, or_else, assign, set_dynamic_config,
}
use wolfram_price_feed_infra.Scheduling.Delays.{
  get_operation_delay, get_operations_batch_delay, get_operations_cluster_delay,
}

-- What a timeout calls.
pub data Job : Type 0 where
  batch_job operations_job : Job
  operation_job : ℕ → Job

pub record Timeout : Type 0 where
  pub id : ℕ
  pub job : Job
  pub delay : Ratio

-- `cron_task` is `null`, stopped or running; `left_behind` counts the Crons that still tick although
-- the scheduler no longer holds them; `armed` are the timeouts that will fire.
pub record Task : Type 0 where
  pub scheduler : Scheduler
  pub cron_task : Option Bool
  pub left_behind : ℕ
  pub cluster_timeout : Option ℕ
  pub batch_timeout : Option ℕ
  pub operation_timeouts : List ℕ
  pub armed : List Timeout
  pub next_id : ℕ

unfoldable pub create : Options → Task
unfolding new
create o = record {
  scheduler = new o;
  cron_task = none;
  left_behind = 0;
  cluster_timeout = none;
  batch_timeout = none;
  operation_timeouts = [];
  armed = [];
  next_id = 0;
}

-- `setTimeout` and `clearTimeout` of the platform; the descriptor of a new timeout is `next_id`.
abbrev pub set_timeout : Job → Ratio → Task → Task
set_timeout job delay t = record t {
  armed = record { id = t.next_id; job = job; delay = delay } ∷ t.armed;
  next_id = suc t.next_id;
}

abbrev pub remove : ℕ → List Timeout → List Timeout
remove id l = filter (λ x. not (x.id == id)) l

abbrev pub remove_all : List ℕ → List Timeout → List Timeout
remove_all [] l = l
remove_all (id ∷ ids) l = remove_all ids (remove id l)

-- A descriptor that is `null` clears nothing.
abbrev pub listed : Option ℕ → List ℕ
listed none = []
listed (some id) = id ∷ []

unfoldable pub initialize_cluster_delay : Task → Task
initialize_cluster_delay t =
    let delay = get_or (get_operations_cluster_delay t.scheduler) (Ratio.of_ℕ 0) in
    record (set_timeout batch_job delay t) { cluster_timeout = some t.next_id }

unfoldable pub initialize_batch : Task → Task
initialize_batch t =
    let delay = get_operations_batch_delay t.scheduler in
    record (set_timeout operations_job delay t) { batch_timeout = some t.next_id }

unfoldable pub arm_operations : ℕ → List ℕ → Task → Task
arm_operations index [] t = t
arm_operations index (operation ∷ rest) t =
    let delay = get_operation_delay t.scheduler index in
    arm_operations (suc index) rest (record (set_timeout (operation_job operation) delay t) {
      operation_timeouts = t.operation_timeouts ++ t.next_id ∷ [];
    })

unfoldable pub run_operations : Task → Task
unfolding arm_operations
run_operations t = arm_operations 0 t.scheduler.operations (record t { operation_timeouts = [] })

-- `runOperations` is what the base class's `initializeScheduler` does when the batch timeout fires.
unfoldable pub run_job : Job → Task → Task
unfolding initialize_batch run_operations
run_job batch_job t = initialize_batch t
run_job operations_job t = run_operations t
run_job (operation_job operation) t = t

-- A timeout fires: the platform forgets it and calls its job.
unfoldable pub fire : Timeout → Task → Task
unfolding run_job
fire x t = run_job x.job (record t { armed = remove x.id t.armed })

-- What happens to the Crons when the field is overwritten: one that runs goes on ticking.
abbrev pub overwritten : Option Bool → ℕ → ℕ
overwritten (some true) n = suc n
overwritten (some false) n = n
overwritten none n = n

unfoldable pub initialize_scheduler : Task → Task
initialize_scheduler t = record t {
  cron_task = some true;
  left_behind = overwritten t.cron_task t.left_behind;
}

-- `destroyScheduler` of both classes.
unfoldable pub destroy_scheduler : Task → Attempt Task
destroy_scheduler t = elim t.cron_task [
  | none ↦ (t, throws type_error)
  | some _ ↦ (
    record t {
      cron_task = some false;
      operation_timeouts = [];
      armed =
          remove_all t.operation_timeouts
            (remove_all (listed t.batch_timeout) (remove_all (listed t.cluster_timeout) t.armed));
    },
    returns tt,
  )
]

-- `setDynamicConfig` on the shared object: the assignment stays when the interval's set-up throws.
unfoldable pub configure : ℕ → DynamicConfig → Scheduler → Attempt Scheduler
unfolding set_dynamic_config
configure frames c s = elim (set_dynamic_config frames s c) [
  | returns t ↦ (t, returns tt)
  | throws e ↦ (assign s c, throws e)
]

unfoldable pub configure_task : ℕ → DynamicConfig → Task → Attempt Task
unfolding configure
configure_task frames c t =
    let (s, ended) = configure frames c t.scheduler in (record t { scheduler = s }, ended)

unfoldable pub start : ℕ → DynamicConfig → Task → Attempt Task
unfolding configure_task initialize_scheduler
start frames c t =
    rethrow (configure_task frames c t and_then λ u. (initialize_scheduler u, returns tt))

unfoldable pub stop : Task → Attempt Task
unfolding destroy_scheduler
stop t = rethrow (destroy_scheduler t)

-- The sleep between the two only takes time. Operations that the configuration lacks stay.
unfoldable pub reload : ℕ → DynamicConfig → Task → Attempt Task
unfolding stop start
reload frames c t = stop t and_then λ u.
    start frames (record c { operations = or_else c.operations (some u.scheduler.operations) }) u
