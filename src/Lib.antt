-- ===== src/Lib.antt =====
-- Verification of the price feed: when the collectors of many markets, exchanges and replicas call the
-- exchanges, how the replicas agree on it, and how the candle sticks that they collect are aggregated.
--
-- Parts
--   Base: Boolean tests, lists, a stable sort (`sort_by` is `Array.prototype.sort`), the ways a call
--   ends (`Completion`), strings as lists of code units (`Text`), and quotients of whole numbers
--   (`Ratio`, for what the program computes with `/`).
--
--   Scheduling: lib/domain-collectors/infrastructure/schedulers, with lib/utils/closestDivisor.js,
--   lib/utils/roundDateToMinute.js and lib/domain-collectors/utils. `Scheduler` is the state of a
--   RestrictedRealtimeScheduler: `init_interval` derives the cron interval of the cluster from the
--   members' intervals, and `Delays` has the three delays after which an operation starts, at
--   `start_in_turn`. `Historical` is a RestrictedHistoricalScheduler: `run_operations` is its part before the
--   `await`, `operations_ended` the one after, `reload` goes back some cycles, and `Run` is any sequence of them.
--
--   `Lifecycle` is what happens to a scheduler over time: the cron task, and the timeouts that its runs arm.
--
--   Markets: lib/domain-collectors/CollectorsManager.js (`Collectors`) and MarketsManager.js (`Manager`).
--   The collectors managers are objects in a store, which the array and the map refer to. `Shared`,
--   `Resolve` and `Load` are about which markets have a manager, `Single`, `Started`, `Each`, `Running` and
--   `Quiet` about which schedulers run, and `Backoff` is
--   BackoffPolicy.js over the markets. `Lifetime` is MarketsAMQPManager.js, around the markets and the policies.
--
--   Sync: lib/domain-collectors/utils/TimeoutMutex.js, the mutex under which the managers and the phases of
--   the replicas run, and MessageBuffer.js, which gathers the messages of a phase.
--
--   Allocation: lib/domain-collectors/utils/ProcessAllocator.cjs, which process collects from which exchanges.
--
--   Replica: lib/domain-collectors/infrastructure/amqp-policies/lifecycle-policy. `Members`, `RateLimit`
--   and `Cluster` are the three reducers, `Manager` is ReplicaStateManager.js over them, and
--   `handle_share_message` and `handle_close_message` are the phases of ReplicaDiscoveryPolicy.js on the
--   messages of their buffers. `Protocol` is the policy as a whole: each kind of message, and the status phase
--   that starts the markets. The cluster members that `Cluster.normalize_state` makes are what the
--   schedulers are given; `TakesTurns` is what the schedulers need of them.
--
--   Aggregation: lib/use-cases/market-records/candle-sticks/DiscreteAggregation.js and
--   lib/utils/median.js. `Charts` groups and aggregates the charts of one timeframe, `Frames` is
--   `processBatch`, and `Batches` the loop over the pages of the database. `Range` is
--   lib/use-cases/market-records/candle-sticks/Aggregate.js, which makes one aggregate of a whole range.
--
--   Gaps: lib/use-cases/testing/CheckCryptoMarketsGapsUseCase.js. `process_data_in_steps` is the loop over
--   the pages, and `count_gaps` the count within one batch.
--
--   Network: lib/domain-collectors/infrastructure/amqp-networks/BaseAMQPNetwork.js, the consumer of a
--   queue and the retries of a message that fails.
--
--   Workers: lib/workers/amqp. `Worker` is how a worker ends a message, `Writer` puts the records of the markets
--   into the database, and `Aggregator` runs the aggregations that clients asked for as tasks.
--
-- Numbers
--   Times are whole milliseconds, and prices and volumes whole multiples of a small unit; JavaScript's
--   numbers are exact up to 2 ^ 53, and their rounding beyond is not modelled. `closest_divisor` recurses
--   on the depth of the call stack, where the search throws a RangeError when the depth is used up; 62
--   calls are enough for any cluster whose intervals add up to at most a day. The loop over the batches
--   recurses on fuel, of which one more than the number of rows is enough, and the deliveries of a message on
--   one more than the limit of the retries.
--
-- Parameters
--   The mutex of the package async-mutex, with the behaviour it documents, the number of processors, the
--   comparison of the platform's locale (`localeCompare`), the searches of the database, whether a
--   collector connects, how the calls of the policies, the clients and the database end, and what a network
--   or a worker does with a message are arguments of the definitions that use them.
--
-- Not modelled
--   The waiting for a mutex: the managers' operations run one at a time here; the broker, the database and the
--   exchanges, which are other programs; the REST and WebSocket interfaces, the command line
--   and the configurations, which only wire the parts together.
mod Base
pub mod Scheduling
pub mod Replica
pub mod Aggregation
pub mod Gaps
pub mod Network
pub mod Markets
pub mod Sync
pub mod Allocation
pub mod Workers
