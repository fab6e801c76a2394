-- ===== src/Markets/Single.antt =====
-- The stop and the start of one collectors manager, lib/domain-collectors/CollectorsManager.js.
use wolfram_price_feed_infra.Base.{
  ◌≡◌, ◌≢◌, refl, sym, ap, ◌∙◌, ◌⊎◌, inl, inr, Bool, true, false, Option, none, some, Option-cases,
  none≢some, some-injective, Attempt, Exception, returns, throws, rethrow, rethrow_state,
  rethrow-returned, rethrow-thrown, other_error, type_error,
}
use mathlib.Core.Bool.{false≢true}
use wolfram_price_feed_infra.Scheduling.Lifecycle.{
  Task, configure, configure_task, destroy_scheduler, initialize_scheduler,
}
use wolfram_price_feed_infra.Scheduling.Lifecycle
use wolfram_price_feed_infra.Scheduling.Lifecycle.Phases.{destroy-unstarted}
use wolfram_price_feed_infra.Markets.Collectors.{
  Market, Context, unloaded, missing, loaded, Collector, CollectorsManager, Services, guard_on,
  guard, load_market_context, connect_collectors, connect_all, init_collectors, collect,
  start_scheduler, start_options, on_scheduler,
}
use wolfram_price_feed_infra.Markets.Collectors

guard_on_state : (k : Context) (a : Attempt CollectorsManager) → (guard_on k a).0 ≡ a.0
guard_on_state missing a = refl
guard_on_state unloaded a = rethrow_state a
guard_on_state (loaded _) a = rethrow_state a

guard_on_returns :
    (k : Context) (a : Attempt CollectorsManager)
    → k ≢ missing
    → a.1 ≡ returns tt
    → guard_on k a ≡ a
guard_on_returns missing a found h = absurd (found refl)
guard_on_returns unloaded a found h = rethrow-returned a h
guard_on_returns (loaded _) a found h = rethrow-returned a h

guard_on_throws :
    (k : Context) (a : Attempt CollectorsManager) (e : Exception)
    → a.1 ≡ throws e
    → (e' : Exception) × ((guard_on k a).1 ≡ throws e')
guard_on_throws missing a e h = (type_error, refl)
guard_on_throws unloaded a e h = (other_error, rethrow-thrown a h)
guard_on_throws (loaded _) a e h = (other_error, rethrow-thrown a h)

-- Whether a manager's cron task runs.
abbrev pub cron_of : CollectorsManager → Option Bool
cron_of m = m.collectors_scheduler.cron_task

task_stopped :
    (t : Task) (b : Bool)
    → t.cron_task ≡ some b
    → ((Lifecycle.stop t).1 ≡ returns tt) × ((Lifecycle.stop t).0.cron_task ≡ some false)
unfolding Lifecycle.stop destroy_scheduler
task_stopped t b e = rw (e, destroy_scheduler) (refl, refl)

task_unstarted : (t : Task) → t.cron_task ≡ none → Lifecycle.stop t ≡ (t, throws other_error)
unfolding Lifecycle.stop
task_unstarted t e = ap rethrow (destroy-unstarted t e)

-- After a stop the cron task does not run, whether or not the stop threw.
pub stop_quiet : (m : CollectorsManager) → cron_of (Collectors.stop m).0 ≢ some true
unfolding Collectors.stop guard
stop_quiet m h = by_cron (Option-cases (cron_of m))
  where
    ended : cron_of (Collectors.stop m).0 ≡ (Lifecycle.stop m.collectors_scheduler).0.cron_task
    ended =
        ap cron_of
          (guard_on_state m.market (on_scheduler m (Lifecycle.stop m.collectors_scheduler)))

    by_cron : ((cron_of m ≡ none) ⊎ ((b : Bool) × (cron_of m ≡ some b))) → ⊥
    by_cron (inl e) = none≢some (
        sym e
        ∙ sym (ap (λ (a : Attempt Task). a.0.cron_task) (task_unstarted m.collectors_scheduler e))
        ∙ sym ended
        ∙ h)
    by_cron (inr (b, e)) =
        false≢true
          (some-injective (sym (task_stopped m.collectors_scheduler b e).1 ∙ sym ended ∙ h))

pub stop-market_id : (m : CollectorsManager) → (Collectors.stop m).0.market_id ≡ m.market_id
unfolding Collectors.stop guard
stop-market_id m =
    ap (λ (k : CollectorsManager). k.market_id)
      (guard_on_state m.market (on_scheduler m (Lifecycle.stop m.collectors_scheduler)))

pub stop_returns :
    (m : CollectorsManager)
    → cron_of m ≢ none
    → m.market ≢ missing
    → (Collectors.stop m).1 ≡ returns tt
unfolding Collectors.stop guard
stop_returns m has found = elim (Option-cases (cron_of m)) [
  | inl e ↦ absurd (has e)
  | inr (b, e) ↦
      let stopped = (task_stopped m.collectors_scheduler b e).0 in
      ap (λ (a : Attempt CollectorsManager). a.1)
        (guard_on_returns m.market (on_scheduler m (Lifecycle.stop m.collectors_scheduler)) found
          stopped)
      ∙ stopped
]

pub stop_unstarted :
    (m : CollectorsManager)
    → cron_of m ≡ none
    → (e : Exception) × ((Collectors.stop m).1 ≡ throws e)
unfolding Collectors.stop guard
stop_unstarted m e =
    guard_on_throws m.market (on_scheduler m (Lifecycle.stop m.collectors_scheduler)) other_error
      (ap (λ (a : Attempt Task). a.1) (task_unstarted m.collectors_scheduler e))
