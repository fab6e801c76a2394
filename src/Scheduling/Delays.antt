-- ===== src/Scheduling/Delays.antt =====
-- The delays at which a scheduler's operations run within one turn of the cron task.
use wolfram_price_feed_infra.Base.{
  ℕ, suc, Option, none, some, List, [], ◌∷◌, length, get_or, if◌then◌else◌,
}
use wolfram_price_feed_infra.Base.Ratio.{Ratio}
use wolfram_price_feed_infra.Base.Ratio
use wolfram_price_feed_infra.Scheduling.Scheduler.{ClusterMember, is_self, Scheduler, rate_limit}

-- BaseScheduler's `getOperationDelay`, which reads the overridden `rateLimit`.
unfoldable pub get_operation_delay : Scheduler → ℕ → Ratio
unfolding rate_limit
get_operation_delay s operation_position =
    Ratio.add (Ratio.scale (rate_limit s) operation_position)
      (Ratio.scale (Ratio.scale (rate_limit s) s.instance_position) (length s.operations))

unfoldable pub get_operations_batch_delay : Scheduler → Ratio
unfolding rate_limit
get_operations_batch_delay s =
    Ratio.scale (Ratio.scale (Ratio.scale (rate_limit s) s.queue_position) (length s.operations))
      s.replica_size

-- The loop over the members, with the delay so far; `none` is the `undefined` of a loop that
-- meets no member of type `SELF`.
unfoldable pub cluster_delay : Ratio → Ratio → List ClusterMember → Option Ratio
unfolding is_self
cluster_delay distance acc [] = none
cluster_delay distance acc (m ∷ ms) =
    let rest =
      cluster_delay distance (Ratio.add acc (Ratio.add (Ratio.of_ℕ m.interval) distance)) ms in
    if is_self m then some (Ratio.add acc (Ratio.div distance 2)) else rest

unfoldable pub get_operations_cluster_delay : Scheduler → Option Ratio
unfolding cluster_delay
get_operations_cluster_delay s =
    cluster_delay s.intra_cluster_distance (Ratio.of_ℕ 0) (get_or s.cluster_members [])

-- One operation and the delay of its timer.
pub record Timer : Type 0 where
  pub delay : Ratio
  pub operation : ℕ

unfoldable pub timers_from : Scheduler → ℕ → List ℕ → List Timer
unfolding get_operation_delay
timers_from s index [] = []
timers_from s index (operation ∷ rest) =
    record { delay = get_operation_delay s index; operation = operation }
    ∷ timers_from s (suc index) rest

-- The timers that `runOperations` sets.
unfoldable pub run_operations : Scheduler → List Timer
unfolding timers_from
run_operations s = timers_from s 0 s.operations

-- The batch timer is set when the cluster timer fires, and the operations' timers when the batch
-- timer fires: an operation starts at the sum of the delays. This is the part after the cluster's.
unfoldable pub start_in_window : Scheduler → ℕ → Ratio
start_in_window s operation_position =
    Ratio.add (get_operations_batch_delay s) (get_operation_delay s operation_position)

-- `setTimeout` takes an `undefined` delay for 0.
unfoldable pub start_in_turn : Scheduler → ℕ → Ratio
unfolding get_operations_cluster_delay
start_in_turn s operation_position =
    Ratio.add (get_or (get_operations_cluster_delay s) (Ratio.of_ℕ 0))
      (start_in_window s operation_position)
