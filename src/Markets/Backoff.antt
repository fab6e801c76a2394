-- ===== src/Markets/Backoff.antt =====
-- lib/domain-collectors/infrastructure/amqp-policies/stateless-policies/BackoffPolicy.js over the markets of one
-- exchange: every replica slows down when one of them has hit the limit of the exchange's rate.
use wolfram_price_feed_infra.Base.{
  ℕ, suc, Bool, false, Option, none, some, List, [], ◌∷◌, ltb, if◌then◌else◌, returns, throws,
  Attempt,
}
use wolfram_price_feed_infra.Scheduling.Scheduler.{DynamicConfig, no_config}
use wolfram_price_feed_infra.Markets.Manager.{MarketsManager, reload_active}

-- The markets, how often they were reloaded, and how often the event RELOAD_CLUSTER was emitted.
pub record Backoff : Type 0 where
  pub markets : MarketsManager
  pub reloads : ℕ
  pub cluster_events : ℕ

abbrev pub multiplier_of : MarketsManager → ℕ
multiplier_of s = s.internal_scheduler.rate_limit_multiplier

-- A message without a multiplier is dropped, as is one that is not above the current.
unfoldable pub should_reload : Option ℕ → MarketsManager → Bool
should_reload none s = false
should_reload (some m) s = ltb (multiplier_of s) m

abbrev pub backoff_config : Option ℕ → DynamicConfig
backoff_config o = record no_config { rate_limit_multiplier = o }

-- The event follows a reload that returns.
abbrev pub reloaded : Backoff → Attempt MarketsManager → Backoff
reloaded b (s, returns _) = record {
  markets = s;
  reloads = suc b.reloads;
  cluster_events = suc b.cluster_events;
}
reloaded b (s, throws _) = record b { markets = s; reloads = suc b.reloads }

unfoldable pub process : ℕ → Option ℕ → Backoff → Backoff
unfolding should_reload
process frames o b =
    if should_reload o b.markets
    then reloaded b (reload_active frames (backoff_config o) b.markets)
    else b

-- The messages come one at a time.
abbrev pub process_all : ℕ → List (Option ℕ) → Backoff → Backoff
process_all frames [] b = b
process_all frames (o ∷ os) b = process_all frames os (process frames o b)
