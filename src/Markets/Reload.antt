-- ===== src/Markets/Reload.antt =====
-- Starting and reloading the markets: afterwards the schedulers that run are those of the listed markets.
use wolfram_price_feed_infra.Base.{
  ℕ, ◌≡◌, ◌≢◌, refl, sym, ◌∙◌, true, Option, none, some, none≢some, includes, Distinct, returns,
  rethrow-returned, ◌and_then◌, and_then-returned, get_or,
}
use wolfram_price_feed_infra.Scheduling.Scheduler.{Scheduler, DynamicConfig, assign, or_else}
use wolfram_price_feed_infra.Scheduling.Interval.{tuned}
use wolfram_price_feed_infra.Markets.Collectors.{CollectorsManager, Services, missing}
use wolfram_price_feed_infra.Markets.Collectors
use wolfram_price_feed_infra.Markets.Manager.{
  MarketsManager, Listing, configure_internal, load_markets, on_all, start,
}
use wolfram_price_feed_infra.Markets.Shared.{IsWellFormed, IsConfigured}
use wolfram_price_feed_infra.Markets.Resolve.{configure-found}
use wolfram_price_feed_infra.Markets.Load.{load_markets-IsLoaded}
use wolfram_price_feed_infra.Markets.Started.{IsAvailable, Has}
use wolfram_price_feed_infra.Markets.Single.{cron_of}
use wolfram_price_feed_infra.Markets.Running.{IsRunning, start_all-IsRunning}

get_or_twice {ℓ} : {A : Type ℓ} (o : Option A) (a : A) → get_or o (get_or o a) ≡ get_or o a
get_or_twice none a = refl
get_or_twice (some b) a = refl

or_else_twice {ℓ} : {A : Type ℓ} (o p : Option A) → or_else o (or_else o p) ≡ or_else o p
or_else_twice none p = refl
or_else_twice (some b) p = refl

-- A configuration that leaves the queue alone, and a cluster whose interval can be set up.
pub record IsAccepted (frames : ℕ) (c : DynamicConfig) (i : Scheduler) : Type 0 where
  pub no_position : c.queue_position ≡ none
  pub no_size : c.queue_size ≡ none
  pub configured : IsConfigured frames (assign i c)

IsAccepted-Has :
    (frames : ℕ) (c : DynamicConfig) (i : Scheduler) (a : IsAccepted frames c i)
    → Has c (tuned a.configured.members (assign i c) a.configured.units)
unfolding assign
IsAccepted-Has frames c i a = record {
  no_position = a.no_position;
  no_size = a.no_size;
  scaled = get_or_twice c.rate_limit_multiplier i.rate_limit_multiplier;
  replicas = get_or_twice c.replica_size i.replica_size;
  instance_ = get_or_twice c.instance_position i.instance_position;
  clustered = or_else_twice c.cluster_members i.cluster_members;
}

-- The internal scheduler once it is configured.
abbrev pub configured_by :
    (frames : ℕ) (c : DynamicConfig) (i : Scheduler) → IsAccepted frames c i → Scheduler
configured_by frames c i a = tuned a.configured.members (assign i c) a.configured.units

-- A start, of markets whose objects are in whatever state, returns: the listed markets are loaded, each at
-- its position and with the configuration, and their schedulers run.
pub start-IsRunning :
    (frames : ℕ) (services : Services) (c : DynamicConfig) (l : Listing) (s : MarketsManager)
    (a : IsAccepted frames c s.internal_scheduler)
    → IsAvailable services
    → Distinct l.market_ids
    → IsWellFormed s
    → ((start services frames c l s).1 ≡ returns tt)
      × IsRunning (configured_by frames c s.internal_scheduler a) l (start services frames c l s).0
unfolding start configure_internal
start-IsRunning frames services c l s a up distinct w =
    let i = configured_by frames c s.internal_scheduler a in
    let configured : IsConfigured frames i = record {
      members = a.configured.members;
      units = a.configured.units;
      listed = a.configured.listed;
      found = a.configured.found;
    } in
    let t = record s { internal_scheduler = i } in
    let (loads, loaded_) =
      load_markets-IsLoaded frames l.queue_size l.market_ids t distinct
        (record { distinct = w.distinct; fresh = w.fresh; keyed = w.keyed; mapped = w.mapped })
        configured in
    let load = load_markets frames l.queue_size l.market_ids t in
    let (starts, running) =
      start_all-IsRunning frames services c i l up (IsAccepted-Has frames c s.internal_scheduler a)
        configured load.0 loaded_ in
    let call = on_all (Collectors.start services frames c) in
    let sequence : (load and_then call) ≡ call load.0 = and_then-returned load call loads in
    rw
      (
        configure-found frames a.configured.units c s.internal_scheduler a.configured.members
            a.configured.listed a.configured.found,
        sequence,
        rethrow-returned (call load.0) starts,
      )
      (starts, running)

-- Every listed manager was started, with a market that was found.
abbrev pub WereStarted : MarketsManager → Type 0
WereStarted s =
    (r : ℕ)
    → includes s.collectors_managers r ≡ true
    → (cron_of (s.object r) ≢ none) × ((s.object r).market ≢ missing)

-- After a start or a reload they all were, so that the next reload returns as well.
pub IsRunning-WereStarted :
    (i : Scheduler) (l : Listing) (s : MarketsManager) → IsRunning i l s → WereStarted s
IsRunning-WereStarted i l s h r listed =
    (λ e. none≢some (sym e ∙ h.running r listed), h.known r listed)
