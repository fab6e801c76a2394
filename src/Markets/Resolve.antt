-- ===== src/Markets/Resolve.antt =====
-- What resolving the listed markets does: each has a manager whose scheduler is placed and configured.
use wolfram_price_feed_infra.Base.{
  ℕ, suc, ◌≡◌, refl, sym, ap, ◌∙◌, inl, inr, false, none, some, List, [], ◌∷◌, Option-cases,
  includes, Distinct, put_same, Attempt, returns, throws, and_then-returned, absent-head,
}
use wolfram_price_feed_infra.Scheduling.Scheduler.{
  ClusterMember, Scheduler, DynamicConfig, set_dynamic_config, get_dynamic_config, assign, new,
}
use wolfram_price_feed_infra.Scheduling.Interval.{turn, tuned, init_interval-found}
use wolfram_price_feed_infra.Scheduling.Lifecycle.{Task, configure, configure_task}
use wolfram_price_feed_infra.Scheduling.Lifecycle
use wolfram_price_feed_infra.Markets.Collectors.{CollectorsManager}
use wolfram_price_feed_infra.Markets.Collectors
use wolfram_price_feed_infra.Markets.Manager.{
  MarketsManager, scheduler_options, init_market, market_config, update_market, resolve_market,
  resolve_markets,
}
use wolfram_price_feed_infra.Markets.Shared.{
  IsWellFormed, IsConfigured, Follows, IsPlaced, Keeps, Keeps-refl, Keeps-trans, Keeps-IsPlaced,
  IsResolved, added-IsWellFormed, added-Keeps, written-IsWellFormed, written-Keeps,
}

-- With a cluster whose interval can be set up, a configuration returns.
pub configure-found :
    (frames units : ℕ) (c : DynamicConfig) (s : Scheduler) (members : List ClusterMember)
    → (assign s c).cluster_members ≡ some members
    → turn frames members ≡ some units
    → configure frames c s ≡ (tuned members (assign s c) units, returns tt)
unfolding configure set_dynamic_config
configure-found frames units c s members listed found =
    ap
      (λ o. elim o as (λ _. Attempt Scheduler) [
        | returns t ↦ (t, returns tt)
        | throws e ↦ (assign s c, throws e)
      ])
      (init_interval-found frames (assign s c) members units listed found)

init_market-IsResolved :
    (id queue_position : ℕ) (s : MarketsManager)
    → s.collectors_managers_map id ≡ none
    → IsWellFormed s
    → IsResolved s id queue_position (init_market id queue_position s, returns tt)
unfolding init_market Collectors.create Lifecycle.create scheduler_options new
init_market-IsResolved id queue_position s absent w =
    let scheduler = Lifecycle.create (scheduler_options s queue_position) in
    let m = Collectors.create id s.factories.models scheduler in
    record {
      returned = refl;
      well_formed = added-IsWellFormed id m s refl absent w;
      internal = refl;
      placed = (
        s.next,
        put_same s.collectors_managers_map id (some s.next),
        rw (put_same s.object s.next m) (record {
          placed = refl;
          sized = refl;
          scaled = refl;
          replicas = refl;
          instance_ = refl;
          clustered = refl;
        }),
      );
      others = added-Keeps id m s refl absent w;
    }

-- A market's configuration, with the cluster that it sets.
market_config-members :
    (i s : Scheduler) (queue_position : ℕ) (members : List ClusterMember)
    → i.cluster_members ≡ some members
    → (assign s (market_config i queue_position)).cluster_members ≡ some members
unfolding market_config get_dynamic_config assign
market_config-members i s queue_position members listed = rw listed refl

market_config-Follows :
    (i s : Scheduler) (queue_position units : ℕ) (members : List ClusterMember)
    → i.cluster_members ≡ some members
    → Follows i queue_position (tuned members (assign s (market_config i queue_position)) units)
unfolding market_config get_dynamic_config assign
market_config-Follows i s queue_position units members listed = record {
  placed = refl;
  sized = refl;
  scaled = refl;
  replicas = refl;
  instance_ = refl;
  clustered = market_config-members i s queue_position members listed ∙ sym listed;
}

update_market-IsResolved :
    (frames id r queue_position : ℕ) (s : MarketsManager)
    → s.collectors_managers_map id ≡ some r
    → IsWellFormed s
    → IsConfigured frames s.internal_scheduler
    → IsResolved s id queue_position (update_market frames r queue_position s)
unfolding update_market Collectors.set_dynamic_config configure_task
update_market-IsResolved frames id r queue_position s found w c =
    let i = s.internal_scheduler in
    let old = (s.object r).collectors_scheduler.scheduler in
    let config = market_config i queue_position in
    let listed = market_config-members i old queue_position c.members c.listed in
    let ended = configure-found frames c.units config old c.members listed c.found in
    let scheduler = tuned c.members (assign old config) c.units in
    let m = record (s.object r) {
      collectors_scheduler = record (s.object r).collectors_scheduler { scheduler = scheduler };
    } in
    rw ended (record {
      returned = refl;
      well_formed = written-IsWellFormed r m s refl w;
      internal = refl;
      placed = (
        r,
        found,
        rw (put_same s.object r m)
            (market_config-Follows i old queue_position c.units c.members c.listed),
      );
      others = λ id' h. written-Keeps r m s refl w id' (λ e. h (e ∙ (w.mapped id r found).0));
    })

resolve_market-IsResolved :
    (frames id queue_position : ℕ) (s : MarketsManager)
    → IsWellFormed s
    → IsConfigured frames s.internal_scheduler
    → IsResolved s id queue_position (resolve_market frames id queue_position s)
unfolding resolve_market
resolve_market-IsResolved frames id queue_position s w c =
    elim (Option-cases (s.collectors_managers_map id)) [
      | inl absent ↦
          rw (absent, resolve_market) (init_market-IsResolved id queue_position s absent w)
      | inr (r, found) ↦
          rw (found, resolve_market)
            (update_market-IsResolved frames id r queue_position s found w c)
    ]

abbrev pub ArePlaced : MarketsManager → ℕ → List ℕ → Type 0
ArePlaced s queue_position [] = Unit
ArePlaced s queue_position (id ∷ ids) =
    IsPlaced s id queue_position × ArePlaced s (suc queue_position) ids

-- A loop that returns, keeps the invariant, and has placed every market of the list in its order.
pub record AreResolved (s : MarketsManager) (queue_position : ℕ) (ids : List ℕ)
    (a : Attempt MarketsManager) : Type 0 where
  pub returned : a.1 ≡ returns tt
  pub well_formed : IsWellFormed a.0
  pub internal : a.0.internal_scheduler ≡ s.internal_scheduler
  pub placed : ArePlaced a.0 queue_position ids
  pub others : (id : ℕ) → includes ids id ≡ false → Keeps id s a.0

pub resolve_markets-AreResolved :
    (frames queue_position : ℕ) (ids : List ℕ) (s : MarketsManager)
    → Distinct ids
    → IsWellFormed s
    → IsConfigured frames s.internal_scheduler
    → AreResolved s queue_position ids (resolve_markets frames queue_position ids s)
unfolding resolve_markets
resolve_markets-AreResolved frames queue_position [] s _ w c = record {
  returned = refl;
  well_formed = w;
  internal = refl;
  placed = tt;
  others = λ id h. Keeps-refl id s;
}
resolve_markets-AreResolved frames queue_position (id ∷ ids) s distinct w c =
    let first = resolve_market frames id queue_position s in
    let one = resolve_market-IsResolved frames id queue_position s w c in
    let rest =
      resolve_markets-AreResolved frames (suc queue_position) ids first.0 distinct.1 one.well_formed
        (rw one.internal c) in
    let sequence =
      and_then-returned first (resolve_markets frames (suc queue_position) ids) one.returned in
    rw sequence (record {
      returned = rest.returned;
      well_formed = rest.well_formed;
      internal = rest.internal ∙ one.internal;
      placed = (Keeps-IsPlaced (rest.others id distinct.0) rest.internal one.placed, rest.placed);
      others = λ id' h.
          Keeps-trans (one.others id' (absent-head id id' ids h).0)
            (rest.others id' (absent-head id id' ids h).1);
    })
