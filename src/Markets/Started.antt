-- ===== src/Markets/Started.antt =====
-- The start of one collectors manager whose market is found and whose collectors connect.
use wolfram_price_feed_infra.Base.{
  ℕ, ◌≡◌, refl, sym, ap, ◌∙◌, true, none, some, List, [], ◌∷◌, Attempt, Completion, returns,
  ◌and_then◌, get_or,
}
use wolfram_price_feed_infra.Scheduling.Scheduler.{Scheduler, DynamicConfig, assign, or_else}
use wolfram_price_feed_infra.Scheduling.Interval.{tuned}
use wolfram_price_feed_infra.Scheduling.Lifecycle.{
  Task, overwritten, configure, configure_task, initialize_scheduler,
}
use wolfram_price_feed_infra.Scheduling.Lifecycle
use wolfram_price_feed_infra.Markets.Collectors.{
  Market, loaded, missing, Collector, CollectorsManager, Services, guard, load_market_context,
  connect_collectors, connect_all, init_collectors, collect, start_scheduler, start_options,
  on_scheduler,
}
use wolfram_price_feed_infra.Markets.Collectors
use wolfram_price_feed_infra.Markets.Shared.{IsConfigured, Follows}
use wolfram_price_feed_infra.Markets.Resolve.{configure-found}

-- Every market is found, and every collector connects.
pub record IsAvailable (services : Services) : Type 0 where
  pub market_of : ℕ → Market
  pub found : (id : ℕ) → services.get_market_context id ≡ returns (some (market_of id))
  pub connects : (k : Collector) → services.init_amqp_connection k ≡ returns tt

-- The scheduler has what the configuration says, and the configuration leaves the queue to the manager.
pub record Has (c : DynamicConfig) (i : Scheduler) : Type 0 where
  pub no_position : c.queue_position ≡ none
  pub no_size : c.queue_size ≡ none
  pub scaled : get_or c.rate_limit_multiplier i.rate_limit_multiplier ≡ i.rate_limit_multiplier
  pub replicas : get_or c.replica_size i.replica_size ≡ i.replica_size
  pub instance_ : get_or c.instance_position i.instance_position ≡ i.instance_position
  pub clustered : or_else c.cluster_members i.cluster_members ≡ i.cluster_members

connect_all-returns :
    (services : Services) (w : IsAvailable services) (cs : List Collector)
    → connect_all services cs ≡ returns tt
connect_all-returns services w [] = refl
connect_all-returns services w (c ∷ cs) =
    rw (w.connects c, connect_all) (connect_all-returns services w cs)

module _ (frames : ℕ) (services : Services) (c : DynamicConfig) (internal : Scheduler)
    (up : IsAvailable services) (has : Has c internal) (configured : IsConfigured frames internal)
    (m : CollectorsManager) (queue_position : ℕ)
    (follows : Follows internal queue_position m.collectors_scheduler.scheduler) where
  abbrev market : Market
  market = up.market_of m.market_id

  abbrev connected : CollectorsManager
  connected = record m { market = loaded market; collectors = collect (some market) m.models }

  abbrev scheduler : Scheduler
  scheduler =
      tuned configured.members (assign m.collectors_scheduler.scheduler (start_options c connected))
        configured.units

  abbrev pub started : CollectorsManager
  started = record connected {
    collectors_scheduler = record m.collectors_scheduler {
      scheduler = scheduler;
      cron_task = some true;
      left_behind = overwritten m.collectors_scheduler.cron_task m.collectors_scheduler.left_behind;
    };
  }

  members-listed :
      (assign m.collectors_scheduler.scheduler (start_options c connected)).cluster_members
      ≡ some configured.members
  unfolding assign
  members-listed =
      ap (or_else c.cluster_members) follows.clustered ∙ has.clustered ∙ configured.listed

  start_scheduler-started : start_scheduler frames c connected ≡ (started, returns tt)
  unfolding start_scheduler Lifecycle.start configure_task initialize_scheduler
  start_scheduler-started =
      rw
        (configure-found frames configured.units (start_options c connected)
          m.collectors_scheduler.scheduler configured.members members-listed configured.found)
        refl

  load_market_context-loaded :
      load_market_context services m ≡ (record m { market = loaded market }, returns tt)
  unfolding load_market_context
  load_market_context-loaded = rw (up.found m.market_id, load_market_context) refl

  connect_collectors-connected :
      connect_collectors services (record m { market = loaded market }) ≡ (connected, returns tt)
  unfolding connect_collectors init_collectors
  connect_collectors-connected =
      ap (λ (ended : Completion {0} Unit). (connected, ended))
        (connect_all-returns services up (collect (some market) m.models))

  pub start-started : Collectors.start services frames c m ≡ (started, returns tt)
  unfolding Collectors.start guard
  start-started = ap guard (
      ap
        (λ (a : Attempt CollectorsManager).
          a and_then connect_collectors services and_then start_scheduler frames c)
        load_market_context-loaded
      ∙ ap (λ (a : Attempt CollectorsManager). a and_then start_scheduler frames c)
          connect_collectors-connected
      ∙ start_scheduler-started)

  pub started-Follows : Follows internal queue_position started.collectors_scheduler.scheduler
  unfolding assign
  started-Follows = record {
    placed = rw has.no_position follows.placed;
    sized = rw has.no_size follows.sized;
    scaled = ap (get_or c.rate_limit_multiplier) follows.scaled ∙ has.scaled;
    replicas = ap (get_or c.replica_size) follows.replicas ∙ has.replicas;
    instance_ = ap (get_or c.instance_position) follows.instance_ ∙ has.instance_;
    clustered = members-listed ∙ sym configured.listed;
  }
