-- ===== src/Markets/Collectors.antt =====
-- lib/domain-collectors/CollectorsManager.js: the collectors of one market and their scheduler.
-- The query for the market and the collectors' connections are parameters.
use wolfram_price_feed_infra.Base.{
  ℕ, Option, none, some, List, [], ◌∷◌, Text, map, Completion, returns, throws, type_error, rethrow,
  Attempt, ◌and_then◌,
}
use wolfram_price_feed_infra.Scheduling.Scheduler.{
  DynamicConfig, or_else, get_multiplier_backoff, no_config,
}
use wolfram_price_feed_infra.Scheduling.Lifecycle.{Task}
use wolfram_price_feed_infra.Scheduling.Lifecycle

pub record Market : Type 0 where
  pub id : ℕ
  pub external_exchange_id : Text
  pub symbol : Text
  pub pair : Text
  pub task_name : Text

-- `market` is `{}` at first; a market that the query does not find is `null`.
pub data Context : Type 0 where
  unloaded missing : Context
  loaded : Market → Context

-- A collector is its class, one of `models`, for one market.
pub record Collector : Type 0 where
  pub model : ℕ
  pub market : Option Market

pub record CollectorsManager : Type 0 where
  pub market_id : ℕ
  pub models : List ℕ
  pub market : Context
  pub collectors : List Collector
  pub collectors_scheduler : Task

unfoldable pub create : ℕ → List ℕ → Task → CollectorsManager
create market_id models collectors_scheduler = record {
  market_id = market_id;
  models = models;
  market = unloaded;
  collectors = [];
  collectors_scheduler = collectors_scheduler;
}

-- What the other programs do for a collectors manager: the query, and whether a collector connects.
pub record Services : Type 0 where
  pub get_market_context : ℕ → Completion (Option Market)
  pub init_amqp_connection : Collector → Completion {0} Unit

-- The `try` of each operation: it ends with a log entry, and its `catch` makes an exception of its own;
-- both read the market for `getLogContext`.
abbrev pub guard_on : Context → Attempt CollectorsManager → Attempt CollectorsManager
guard_on missing a = (a.0, throws type_error)
guard_on unloaded a = rethrow a
guard_on (loaded _) a = rethrow a

unfoldable pub guard : Attempt CollectorsManager → Attempt CollectorsManager
guard a = guard_on a.0.market a

unfoldable pub load_market_context : Services → CollectorsManager → Attempt CollectorsManager
load_market_context services m = elim (services.get_market_context m.market_id) [
  | throws e ↦ (m, throws e)
  | returns none ↦ (record m { market = missing }, returns tt)
  | returns (some market) ↦ (record m { market = loaded market }, returns tt)
]

abbrev pub collect : Option Market → List ℕ → List Collector
collect market [] = []
collect market (model ∷ models) = record { model = model; market = market } ∷ collect market models

unfoldable pub init_collectors : CollectorsManager → Attempt CollectorsManager
init_collectors m = elim m.market [
  | loaded market ↦ (record m { collectors = collect (some market) m.models }, returns tt)
  | unloaded ↦ (record m { collectors = collect none m.models }, returns tt)
  | missing ↦ elim m.models [
    | [] ↦ (record m { collectors = [] }, returns tt)
    | _ ∷ _ ↦ (m, throws type_error)
  ]
]

-- `Promise.all`: the first connection that fails.
abbrev pub connect_all : Services → List Collector → Completion {0} Unit
connect_all services [] = returns tt
connect_all services (c ∷ cs) = elim (services.init_amqp_connection c) [
  | returns _ ↦ connect_all services cs
  | throws e ↦ throws e
]

unfoldable pub connect_collectors : Services → CollectorsManager → Attempt CollectorsManager
unfolding init_collectors
connect_collectors services m =
    init_collectors m and_then λ u. (u, connect_all services u.collectors)

-- What a call of the scheduler does to the manager that owns it.
abbrev pub on_scheduler : CollectorsManager → Attempt Task → Attempt CollectorsManager
on_scheduler m a = (record m { collectors_scheduler = a.0 }, a.1)

-- One operation for each collector, unless the configuration brings operations of its own.
abbrev pub start_options : DynamicConfig → CollectorsManager → DynamicConfig
start_options c m = record c {
  operations = or_else c.operations (some (map (λ (k : Collector). k.model) m.collectors));
}

-- The name of the task is read of the market.
unfoldable pub start_scheduler : ℕ → DynamicConfig → CollectorsManager → Attempt CollectorsManager
start_scheduler frames c m = elim m.market [
  | missing ↦ (m, throws type_error)
  | unloaded ↦ on_scheduler m (Lifecycle.start frames (start_options c m) m.collectors_scheduler)
  | loaded _ ↦ on_scheduler m (Lifecycle.start frames (start_options c m) m.collectors_scheduler)
]

unfoldable pub start : Services → ℕ → DynamicConfig → CollectorsManager → Attempt CollectorsManager
unfolding guard load_market_context connect_collectors start_scheduler
start services frames c m = guard (
    load_market_context services m
    and_then connect_collectors services
    and_then start_scheduler frames c)

unfoldable pub stop : CollectorsManager → Attempt CollectorsManager
unfolding guard
stop m = guard (on_scheduler m (Lifecycle.stop m.collectors_scheduler))

unfoldable pub reload : Services → ℕ → CollectorsManager → Attempt CollectorsManager
unfolding guard stop start
reload services frames m = guard (stop m and_then start services frames no_config)

unfoldable pub reload_active : ℕ → DynamicConfig → CollectorsManager → Attempt CollectorsManager
unfolding guard
reload_active frames c m = guard (on_scheduler m (Lifecycle.reload frames c m.collectors_scheduler))

unfoldable pub set_dynamic_config :
    ℕ → DynamicConfig → CollectorsManager → Attempt CollectorsManager
set_dynamic_config frames c m =
    on_scheduler m (Lifecycle.configure_task frames c m.collectors_scheduler)

-- How a collector ends its start: it returns, hits the limit of the exchange's rate, or fails.
pub data Outcome : Type 0 where
  finished rate_limit_exceeded failed : Outcome

-- The multiplier that goes with the event RATE_LIMIT_EXCEEDED, where it is emitted.
unfoldable pub start_collector : Outcome → CollectorsManager → Option ℕ
unfolding get_multiplier_backoff
start_collector finished m = none
start_collector failed m = none
start_collector rate_limit_exceeded m =
    some (get_multiplier_backoff m.collectors_scheduler.scheduler)
