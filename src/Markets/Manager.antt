-- ===== src/Markets/Manager.antt =====
-- lib/domain-collectors/MarketsManager.js: the markets of one exchange. The collectors managers are
-- objects that the array and the map share, so they stand in a store and both hold references.
-- What the database counts and lists is a parameter, and the operations run one at a time.
use wolfram_price_feed_infra.Base.{
  ℕ, suc, Option, none, some, List, [], ◌∷◌, ◌++◌, map, filter, if◌then◌else◌, includes, put,
  Completion, returns, throws, Attempt, ◌and_then◌, rethrow,
}
use wolfram_price_feed_infra.Scheduling.Scheduler.{
  Scheduler, Options, new, DynamicConfig, get_dynamic_config, get_reload_sleep_time,
}
use wolfram_price_feed_infra.Scheduling.Lifecycle.{configure}
use wolfram_price_feed_infra.Scheduling.Lifecycle
use wolfram_price_feed_infra.Markets.Collectors.{CollectorsManager, Services}
use wolfram_price_feed_infra.Markets.Collectors

-- What the two factories have by default: the options of a scheduler and the collectors' classes.
pub record Factories : Type 0 where
  pub default_options : Options
  pub models : List ℕ

-- `object` is the store; references from `next` on are not in use.
pub record MarketsManager : Type 0 where
  pub factories : Factories
  pub object : ℕ → CollectorsManager
  pub next : ℕ
  pub collectors_managers : List ℕ
  pub collectors_managers_map : ℕ → Option ℕ
  pub internal_scheduler : Scheduler

-- The constructor, and `init` with the number of markets that the database counts.
unfoldable pub init : Factories → ℕ → MarketsManager
unfolding new
init f queue_size = record {
  factories = f;
  object = λ _. Collectors.create 0 [] (Lifecycle.create f.default_options);
  next = 0;
  collectors_managers = [];
  collectors_managers_map = λ _. none;
  internal_scheduler =
      new (record f.default_options { queue_size = queue_size; operations = some f.models });
}

-- The default options under the position and the spread of `getDynamicConfig`.
unfoldable pub scheduler_options : MarketsManager → ℕ → Options
scheduler_options s queue_position =
    let i = s.internal_scheduler in
    record s.factories.default_options {
      queue_position = queue_position;
      rate_limit_multiplier = some i.rate_limit_multiplier;
      queue_size = i.queue_size;
      replica_size = some i.replica_size;
      instance_position = some i.instance_position;
      cluster_members = i.cluster_members;
    }

unfoldable pub init_market : ℕ → ℕ → MarketsManager → MarketsManager
unfolding scheduler_options
init_market market_id queue_position s =
    let scheduler = Lifecycle.create (scheduler_options s queue_position) in
    record s {
      object = put s.object s.next (Collectors.create market_id s.factories.models scheduler);
      next = suc s.next;
      collectors_managers = s.collectors_managers ++ s.next ∷ [];
      collectors_managers_map = put s.collectors_managers_map market_id (some s.next);
    }

unfoldable pub market_config : Scheduler → ℕ → DynamicConfig
unfolding get_dynamic_config
market_config internal queue_position = record (get_dynamic_config internal) {
  queue_position = some queue_position;
  queue_size = some internal.queue_size;
}

-- A call of the collectors manager behind a reference.
abbrev pub on_object :
    (CollectorsManager → Attempt CollectorsManager) → ℕ → MarketsManager → Attempt MarketsManager
on_object call r s =
    let (m, ended) = call (s.object r) in (record s { object = put s.object r m }, ended)

unfoldable pub update_market : ℕ → ℕ → ℕ → MarketsManager → Attempt MarketsManager
unfolding market_config
update_market frames r queue_position s =
    on_object
      (Collectors.set_dynamic_config frames (market_config s.internal_scheduler queue_position)) r s

unfoldable pub resolve_market : ℕ → ℕ → ℕ → MarketsManager → Attempt MarketsManager
unfolding init_market update_market
resolve_market frames market_id queue_position s = elim (s.collectors_managers_map market_id) [
  | none ↦ (init_market market_id queue_position s, returns tt)
  | some r ↦ update_market frames r queue_position s
]

-- `forEach` from a position on.
unfoldable pub resolve_markets : ℕ → ℕ → List ℕ → MarketsManager → Attempt MarketsManager
unfolding resolve_market
resolve_markets frames queue_position [] s = (s, returns tt)
resolve_markets frames queue_position (id ∷ ids) s =
    resolve_market frames id queue_position s
    and_then resolve_markets frames (suc queue_position) ids

-- What the filter's callback deletes of the map.
unfoldable pub forget_disabled :
    List ℕ → (ℕ → CollectorsManager) → List ℕ → (ℕ → Option ℕ) → ℕ → Option ℕ
forget_disabled market_ids object [] f = f
forget_disabled market_ids object (r ∷ rs) f =
    let id = (object r).market_id in
    forget_disabled market_ids object rs (if includes market_ids id then f else put f id none)

unfoldable pub clear_disabled_markets : List ℕ → MarketsManager → MarketsManager
unfolding forget_disabled
clear_disabled_markets market_ids s = record s {
  collectors_managers =
      filter (λ r. includes market_ids (s.object r).market_id) s.collectors_managers;
  collectors_managers_map =
      forget_disabled market_ids s.object s.collectors_managers s.collectors_managers_map;
}

unfoldable pub set_queue_size : ℕ → MarketsManager → MarketsManager
set_queue_size queue_size s = record s {
  internal_scheduler = record s.internal_scheduler { queue_size = queue_size };
}

unfoldable pub load_markets : ℕ → ℕ → List ℕ → MarketsManager → Attempt MarketsManager
unfolding resolve_markets clear_disabled_markets set_queue_size
load_markets frames queue_size market_ids s =
    resolve_markets frames 0 market_ids (set_queue_size queue_size s) and_then λ t.
    (clear_disabled_markets market_ids t, returns tt)

-- `Promise.all` over the collectors managers: every call is made, and the first failure counts.
abbrev pub first_failure : Completion {0} Unit → Completion {0} Unit → Completion {0} Unit
first_failure (returns _) later = later
first_failure (throws e) later = throws e

abbrev pub on_each :
    (CollectorsManager → Attempt CollectorsManager)
    → List ℕ
    → MarketsManager
    → Attempt MarketsManager
on_each call [] s = (s, returns tt)
on_each call (r ∷ rs) s =
    let (t, ended) = on_object call r s in
    let (u, rest) = on_each call rs t in (u, first_failure ended rest)

abbrev pub on_all :
    (CollectorsManager → Attempt CollectorsManager) → MarketsManager → Attempt MarketsManager
on_all call s = on_each call s.collectors_managers s

unfoldable pub configure_internal : ℕ → DynamicConfig → MarketsManager → Attempt MarketsManager
unfolding configure
configure_internal frames c s =
    let (internal, ended) = configure frames c s.internal_scheduler in
    (record s { internal_scheduler = internal }, ended)

-- What the database holds for the exchange when it is asked.
pub record Listing : Type 0 where
  pub queue_size : ℕ
  pub market_ids : List ℕ

unfoldable pub start :
    Services → ℕ → DynamicConfig → Listing → MarketsManager → Attempt MarketsManager
unfolding configure_internal load_markets
start services frames c l s = rethrow (
    configure_internal frames c s
    and_then load_markets frames l.queue_size l.market_ids
    and_then on_all (Collectors.start services frames c))

unfoldable pub stop : MarketsManager → Attempt MarketsManager
stop s = rethrow (on_all Collectors.stop s)

unfoldable pub reload :
    Services → ℕ → DynamicConfig → Listing → MarketsManager → Attempt MarketsManager
unfolding stop start
reload services frames c l s = rethrow (stop s and_then start services frames c l)

unfoldable pub reload_active : ℕ → DynamicConfig → MarketsManager → Attempt MarketsManager
unfolding configure_internal
reload_active frames c s =
    rethrow (configure_internal frames c s and_then on_all (Collectors.reload_active frames c))

-- `undefined` for an id without a manager.
unfoldable pub get_collector_managers : Option (List ℕ) → MarketsManager → List (Option ℕ)
get_collector_managers none s = map some s.collectors_managers
get_collector_managers (some market_ids) s = map s.collectors_managers_map market_ids

unfoldable pub get_reload_time : MarketsManager → ℕ
unfolding get_reload_sleep_time
get_reload_time s = get_reload_sleep_time s.internal_scheduler
