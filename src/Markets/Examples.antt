-- ===== src/Markets/Examples.antt =====
-- The theorems of this part at a concrete input: an exchange of two markets with three collectors each.
use wolfram_price_feed_infra.Base.{
  ℕ, ◌+◌, ◌≤◌, ◌≡◌, refl, none, some, List, [], ◌∷◌, returns, throws, other_error, none≢some,
  Completion, ◌++◌,
}
use mathlib.Core.Bool.{false≢true}
use wolfram_price_feed_infra.Scheduling.Units.{get_context, closest_divisor, ceil_div}
use wolfram_price_feed_infra.Scheduling.Scheduler.{no_config, self, ClusterMember, assign, new}
use wolfram_price_feed_infra.Scheduling.Lifecycle.{create}
use wolfram_price_feed_infra.Markets.Collectors.{Market, Services, CollectorsManager}
use wolfram_price_feed_infra.Markets.Collectors
use wolfram_price_feed_infra.Markets.Manager.{
  Factories, MarketsManager, Listing, init, init_market, start, load_markets, scheduler_options,
}
use wolfram_price_feed_infra.Markets.Shared.{IsWellFormed}
use wolfram_price_feed_infra.Markets.Load.{IsLoaded, load_markets-IsLoaded}
use wolfram_price_feed_infra.Markets.Quiet.{IsOwned}
use wolfram_price_feed_infra.Markets.Reload.{WereStarted}
use wolfram_price_feed_infra.Markets.Lifetime.{
  Classes, Call, close_events, Calls, MarketsAmqpManager,
}
use wolfram_price_feed_infra.Markets.Lifetime
use wolfram_price_feed_infra.Markets.Lifetime.Order.{
  start_order, stop_order, classes_of, perform, called_in_order,
}
use wolfram_price_feed_infra.Markets.Backoff.{Backoff, multiplier_of, process_all}
use wolfram_price_feed_infra.Markets.Multiplier.{largest, process_all-largest}

abbrev members : List ClusterMember
members = record { interval = 1650; type = self } ∷ []

abbrev factories : Factories
factories = record {
  default_options = record {
    base_rate_limit = 100;
    rate_limit_margin = 10;
    rate_limit_multiplier = none;
    queue_position = 0;
    queue_size = 0;
    replica_size = none;
    instance_position = none;
    base_sleep_reload_time = none;
    operations = none;
    cluster_members = some members;
  };
  models = 1 ∷ 2 ∷ 3 ∷ [];
}

abbrev market : ℕ → Market
market id = record {
  id = id;
  external_exchange_id = 98 ∷ [];
  symbol = id ∷ [];
  pair = id ∷ [];
  task_name = 116 ∷ id ∷ [];
}

abbrev services : Services
services = record {
  get_market_context = λ id. returns (some (market id));
  init_amqp_connection = λ k. returns tt;
}

abbrev first_listing : Listing
first_listing = record { queue_size = 2; market_ids = 7 ∷ 8 ∷ [] }

-- Market 7 is disabled, and 9 comes before 8.
abbrev second_listing : Listing
second_listing = record { queue_size = 2; market_ids = 9 ∷ 8 ∷ [] }

abbrev initial : MarketsManager
initial = init factories 0

initial-IsWellFormed : IsWellFormed initial
unfolding init
initial-IsWellFormed = record {
  distinct = tt;
  fresh = λ r h. absurd (false≢true h);
  keyed = λ r h. absurd (false≢true h);
  mapped = λ id r h. absurd (none≢some h);
}

initial-IsOwned : IsOwned initial
unfolding init Collectors.create create
initial-IsOwned r h = absurd (none≢some h)

initial-WereStarted : WereStarted initial
unfolding init
initial-WereStarted r h = absurd (false≢true h)

abbrev running : MarketsManager
running = (start services 62 no_config first_listing initial).0

load_markets-IsLoaded_example :
    ((load_markets 62 2 (7 ∷ 8 ∷ []) initial).1 ≡ returns tt)
    × IsLoaded initial.internal_scheduler 2 (7 ∷ 8 ∷ []) (load_markets 62 2 (7 ∷ 8 ∷ []) initial).0
unfolding init assign new get_context closest_divisor ceil_div
load_markets-IsLoaded_example =
    load_markets-IsLoaded 62 2 (7 ∷ 8 ∷ []) initial (refl, (refl, tt)) initial-IsWellFormed
      (record { members = members; units = 2; listed = refl; found = refl })

-- Two markets run, and a third is there whose manager has not started.
abbrev unstarted : MarketsManager
unstarted = init_market 9 2 running

abbrev latecomer : CollectorsManager
latecomer = Collectors.create 9 running.factories.models (create (scheduler_options running 2))

-- Two collectors hit the limit one after the other, and a message without a multiplier comes between.
abbrev backoff : Backoff
backoff = record { markets = running; reloads = 0; cluster_events = 0 }

process_all-largest_example :
    (multiplier_of (process_all 62 (some 2 ∷ none ∷ some 3 ∷ []) backoff).markets
      ≡ largest (multiplier_of running) (some 2 ∷ none ∷ some 3 ∷ []))
    × ((process_all 62 (some 2 ∷ none ∷ some 3 ∷ []) backoff).reloads + multiplier_of running
        ≤ 0 + multiplier_of (process_all 62 (some 2 ∷ none ∷ some 3 ∷ []) backoff).markets)
process_all-largest_example = process_all-largest 62 (some 2 ∷ none ∷ some 3 ∷ []) backoff

-- Two outer policies and an inner one.
abbrev classes : Classes
classes = record { outer = 1 ∷ 2 ∷ []; main = 3; inner = 4 ∷ [] }

-- The close of the events throws.
abbrev stuck : Call → Completion {0} Unit
stuck close_events = throws other_error
stuck _ = returns tt

abbrev client_calls : Calls
client_calls = record { ended = stuck; group = 103 ∷ [] }

abbrev manager : MarketsAmqpManager
manager = (Lifetime.start client_calls (Lifetime.create classes)).0

manager-main : manager.lifecycle_policy ≡ some 3
unfolding Lifetime.start Lifetime.init Lifetime.create Lifetime.setup_amqp_client
    Lifetime.load_rabbit_group Lifetime.init_market_event_manager Lifetime.init_market_manager
    Lifetime.init_amqp_policies Lifetime.start_policies
manager-main = refl

called_in_order_example :
    (manager.called ≡ (perform client_calls (start_order classes)).0)
    × ((Lifetime.start client_calls (Lifetime.create classes)).1 ≡ returns tt)
    × (Lifetime.stop client_calls manager ≡ (
      record manager {
        called = manager.called ++ (perform client_calls (stop_order (classes_of manager 3))).0;
      },
      (perform client_calls (stop_order (classes_of manager 3))).1,
    ))
called_in_order_example = called_in_order client_calls classes manager 3 manager-main
