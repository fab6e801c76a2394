-- ===== src/Workers/Aggregator.antt =====
-- lib/workers/amqp/aggregator/CandlesDiscreteAggregator.js: an aggregation that a client asked for runs as a
-- task, whose status the database keeps. The use case and the database's answers are parameters.
use wolfram_price_feed_infra.Base.{
  ℕ, suc, ◌+◌, Bool, Option, none, some, List, [], ◌∷◌, ◌++◌, map, filter, Text, text_eq, ◌==◌,
  if◌then◌else◌, any, Completion, Exception, returns, throws, other_error, Attempt, ◌and_then◌,
}

-- AggregationTask.STATUS.
pub data Status : Type 0 where
  pending processing completed error : Status

-- `error` is the dump of what was thrown.
pub record Task : Type 0 where
  pub id : ℕ
  pub status : Status
  pub error : Option Exception

pub record Exchange : Type 0 where
  pub id : ℕ
  pub name : Text

-- A pair's result of the use case; `candles` stands for the aggregates.
pub record PairResult : Type 0 where
  pub symbol : Text
  pub processed_count : ℕ
  pub count : ℕ
  pub candles : List ℕ

pub record Params : Type 0 where
  pub range_date_start : ℕ
  pub range_date_end : ℕ
  pub timeframe_minutes : ℕ
  pub exchange_names : List Text

-- A row of DiscreteAggregationResult.
pub record ResultRow : Type 0 where
  pub id : ℕ
  pub pair : PairResult
  pub range_date_start : ℕ
  pub range_date_end : ℕ
  pub timeframe_minutes : ℕ
  pub task_id : ℕ

-- A row of DiscreteAggregationExchange.
pub record JoinRow : Type 0 where
  pub discrete_aggregation_result_id : ℕ
  pub exchange_id : ℕ

pub record Database : Type 0 where
  pub tasks : List Task
  pub exchanges : List Exchange
  pub results : List ResultRow
  pub joins : List JoinRow
  pub next_result_id : ℕ

-- How the calls end that are not the worker's own; the updates are those of the task's three statuses.
pub record Calls : Type 0 where
  pub use_case : Params → Completion (List PairResult)
  pub create_results : Completion {0} Unit
  pub find_exchanges : Completion {0} Unit
  pub create_joins : Completion {0} Unit
  pub update_processing : Completion {0} Unit
  pub update_completed : Completion {0} Unit
  pub update_error : Completion {0} Unit

abbrev pub find_task : ℕ → List Task → Option Task
find_task id [] = none
find_task id (t ∷ ts) = if t.id == id then some t else find_task id ts

abbrev pub write_task : Task → List Task → List Task
write_task t [] = []
write_task t (u ∷ us) = (if u.id == t.id then t else u) ∷ write_task t us

abbrev pub update_task : Task → Database → Database
update_task t db = record db { tasks = write_task t db.tasks }

-- `findOneOrFail` and the update.
abbrev pub set_processing : Calls → Database → Option Task → Database × Completion Task
set_processing calls db none = (db, throws other_error)
set_processing calls db (some t) = elim calls.update_processing [
  | throws e ↦ (db, throws e)
  | returns _ ↦ (
    update_task (record t { status = processing }) db,
    returns (record t { status = processing }),
  )
]

unfoldable pub initiate_task_status : Calls → ℕ → Database → Database × Completion Task
initiate_task_status calls id db = set_processing calls db (find_task id db.tasks)

-- The rows that `bulkCreate` returns.
unfoldable pub format_results : ℕ → ℕ → Params → List PairResult → List ResultRow
format_results id task_id params [] = []
format_results id task_id params (pair ∷ pairs) =
    record {
      id = id;
      pair = pair;
      range_date_start = params.range_date_start;
      range_date_end = params.range_date_end;
      timeframe_minutes = params.timeframe_minutes;
      task_id = task_id;
    }
    ∷ format_results (suc id) task_id params pairs

abbrev pub named_in : List Text → Exchange → Bool
named_in names e = any (λ n. text_eq n e.name) names

-- The `reduce` over the exchanges.
unfoldable pub join_table_data : List ResultRow → List Exchange → List JoinRow → List JoinRow
join_table_data rows [] acc = acc
join_table_data rows (e ∷ es) acc = join_table_data rows es (
    acc
    ++ map (λ (r : ResultRow). record { discrete_aggregation_result_id = r.id; exchange_id = e.id })
        rows)

unfoldable pub set_results_associations :
    Calls → List ResultRow → List Text → Database → Attempt Database
unfolding join_table_data
set_results_associations calls rows names db = elim calls.find_exchanges [
  | throws e ↦ (db, throws e)
  | returns _ ↦ elim calls.create_joins [
    | throws e ↦ (db, throws e)
    | returns _ ↦
        let found = filter (named_in names) db.exchanges in
        (record db { joins = db.joins ++ join_table_data rows found [] }, returns tt)
  ]
]

abbrev pub length_of : List PairResult → ℕ
length_of [] = 0
length_of (p ∷ ps) = suc (length_of ps)

unfoldable pub save_task_results :
    Calls → Task → Params → List PairResult → Database → Attempt Database
unfolding format_results set_results_associations
save_task_results calls task params pairs db = elim calls.create_results [
  | throws e ↦ (db, throws e)
  | returns _ ↦
      let rows = format_results db.next_result_id task.id params pairs in
      set_results_associations calls rows params.exchange_names (record db {
        results = db.results ++ rows;
        next_result_id = db.next_result_id + length_of pairs;
      })
]

-- The `try`, from what the use case returned.
abbrev pub save_results :
    Calls → Task → Params → Database → Completion (List PairResult) → Attempt Database
save_results calls task params db (throws e) = (db, throws e)
save_results calls task params db (returns pairs) = save_task_results calls task params pairs db

-- A throw here is in the `try`, after the results and the associations were written.
abbrev pub set_completed : Calls → Task → Database → Attempt Database
set_completed calls task db = elim calls.update_completed [
  | throws e ↦ (db, throws e)
  | returns _ ↦ (update_task (record task { status = completed }) db, returns tt)
]

unfoldable pub run_task : Calls → Task → Params → Database → Attempt Database
run_task calls task params db =
    save_results calls task params db (calls.use_case params) and_then set_completed calls task

-- The `catch`, whose own update may throw.
abbrev pub or_error : Calls → Task → Attempt Database → Attempt Database
or_error calls task (db, returns _) = (db, returns tt)
or_error calls task (db, throws e) = elim calls.update_error [
  | throws e' ↦ (db, throws e')
  | returns _ ↦ (update_task (record task { status = error; error = some e }) db, returns tt)
]

-- What throws before the `try`, as for a task that is not there, throws.
abbrev pub run_started : Calls → Params → Database × Completion Task → Attempt Database
run_started calls params (db, throws e) = (db, throws e)
run_started calls params (db, returns task) = or_error calls task (run_task calls task params db)

unfoldable pub execute : Calls → ℕ → Params → Database → Attempt Database
unfolding initiate_task_status
execute calls task_id params db = run_started calls params (initiate_task_status calls task_id db)
