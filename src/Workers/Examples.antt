-- ===== src/Workers/Examples.antt =====
-- The theorems of this part at concrete inputs: a record that is delivered twice, and a task of one pair
-- whose last update throws.
use wolfram_price_feed_infra.Base.{
  ℕ, ◌≡◌, refl, true, none, [], ◌∷◌, List, map, any, returns, throws, other_error,
}
use wolfram_price_feed_infra.Workers.Writer.{
  Payload, Data, Writer, announcement, same_key, execute_all,
}
use wolfram_price_feed_infra.Workers.Writer
use wolfram_price_feed_infra.Workers.Once.{new_deliveries, delivered_once}
use wolfram_price_feed_infra.Workers.Aggregator.{
  Task, pending, Calls, Params, Database, PairResult, find_task,
}
use wolfram_price_feed_infra.Workers.Aggregator
use wolfram_price_feed_infra.Workers.Tasks.{IsEnded, task_ends}

abbrev data_of : ℕ → Data
data_of market_id = record {
  exchange = 98 ∷ [];
  symbol = 115 ∷ [];
  payload = record {
    interval_start = 60000;
    interval_end = 120000;
    market_id = market_id;
    content = 49 ∷ [];
  };
  collector_trace_id = 116 ∷ [];
}

abbrev writer : Writer
writer = record { type = 99 ∷ []; rows = []; announced = [] }

abbrev deliveries : List Data
deliveries = data_of 1 ∷ data_of 2 ∷ data_of 1 ∷ []

abbrev once : List Data
once = data_of 1 ∷ data_of 2 ∷ []

delivered_once_example :
    ((execute_all deliveries writer).rows ≡ map (λ (e : Data). e.payload) once)
    × ((execute_all deliveries writer).announced ≡ map (announcement (99 ∷ [])) once)
    × (any (same_key (data_of 2).payload) (execute_all deliveries writer).rows ≡ true)
    × (Writer.execute (data_of 2) (execute_all deliveries writer) ≡ execute_all deliveries writer)
unfolding new_deliveries
delivered_once_example = delivered_once writer (data_of 1 ∷ []) (data_of 1 ∷ []) (data_of 2)

abbrev task : Task
task = record { id = 4; status = pending; error = none }

abbrev pair : PairResult
pair = record { symbol = 115 ∷ []; processed_count = 9; count = 2; candles = 1 ∷ 2 ∷ [] }

abbrev calls : Calls
calls = record {
  use_case = λ params. returns (pair ∷ []);
  create_results = returns tt;
  find_exchanges = returns tt;
  create_joins = returns tt;
  update_processing = returns tt;
  update_completed = throws other_error;
  update_error = returns tt;
}

abbrev params : Params
params = record {
  range_date_start = 0;
  range_date_end = 86400000;
  timeframe_minutes = 30;
  exchange_names = (98 ∷ []) ∷ (107 ∷ []) ∷ [];
}

abbrev database : Database
database = record {
  tasks = task ∷ [];
  exchanges = (record { id = 1; name = 98 ∷ [] }) ∷ (record { id = 2; name = 107 ∷ [] }) ∷ [];
  results = [];
  joins = [];
  next_result_id = 1;
}

task_ends_example : IsEnded calls params task database (Aggregator.execute calls 4 params database)
task_ends_example = task_ends calls params task database refl
