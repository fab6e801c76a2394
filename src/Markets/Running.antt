-- ===== src/Markets/Running.antt =====
-- Starting all managers of the loaded markets: each start returns, and leaves a running scheduler.
use wolfram_price_feed_infra.Base.{
  ℕ, suc, ◌≡◌, ◌≢◌, subst, refl, sym, ap, ◌∙◌, inl, inr, true, some, List, [], ◌∷◌, Bool-cases,
  some-injective, ◌==◌, ==_iff, includes, Attempt, returns, get_elem?,
}
use mathlib.Core.Bool.{false≢true}
use wolfram_price_feed_infra.Scheduling.Scheduler.{Scheduler, DynamicConfig}
use wolfram_price_feed_infra.Markets.Collectors.{CollectorsManager, Services, missing}
use wolfram_price_feed_infra.Markets.Collectors
use wolfram_price_feed_infra.Markets.Manager.{MarketsManager, Listing, on_all}
use wolfram_price_feed_infra.Markets.Shared.{IsWellFormed, IsConfigured, Follows}
use wolfram_price_feed_infra.Markets.Load.{IsLoaded}
use wolfram_price_feed_infra.Markets.Each.{on_each-objects, on_each-listed, on_each-returns}
use wolfram_price_feed_infra.Markets.Started.{
  IsAvailable, Has, started, start-started, started-Follows,
}
use wolfram_price_feed_infra.Markets.Single.{cron_of}

-- The invariant holds of other objects with the same market ids.
pub objects-IsWellFormed :
    (s : MarketsManager) (f : ℕ → CollectorsManager)
    → ((r : ℕ) → includes s.collectors_managers r ≡ true → (f r).market_id ≡ (s.object r).market_id)
    → IsWellFormed s
    → IsWellFormed (record s { object = f })
objects-IsWellFormed s f same w = record {
  distinct = w.distinct;
  fresh = w.fresh;
  keyed = λ r h. ap s.collectors_managers_map (same r h) ∙ w.keyed r h;
  mapped = λ id r h. let (its, listed) = w.mapped id r h in (same r listed ∙ its, listed);
}

position_of_listed :
    (ids : List ℕ) (id : ℕ) → includes ids id ≡ true → (i : ℕ) × (get_elem? ids i ≡ some id)
position_of_listed [] id h = absurd (false≢true h)
position_of_listed (x ∷ xs) id h = elim (Bool-cases (x == id)) [
  | inl e ↦ (0, ap some ((==_iff x id).0 e))
  | inr e ↦ let (i, found) = position_of_listed xs id (rw e at h) in (suc i, found)
]

-- The listed markets are loaded, and each of their schedulers runs.
pub record IsRunning (i : Scheduler) (l : Listing) (s : MarketsManager) : Type 0 where
  pub loaded_ : IsLoaded i l.queue_size l.market_ids s
  pub running : (r : ℕ) → includes s.collectors_managers r ≡ true → cron_of (s.object r) ≡ some true
  pub known : (r : ℕ) → includes s.collectors_managers r ≡ true → (s.object r).market ≢ missing

module _ (frames : ℕ) (services : Services) (c : DynamicConfig) (i : Scheduler) (l : Listing)
    (up : IsAvailable services) (has : Has c i) (configured : IsConfigured frames i)
    (s : MarketsManager) (w : IsLoaded i l.queue_size l.market_ids s) where
  abbrev call : CollectorsManager → Attempt CollectorsManager
  call = Collectors.start services frames c

  abbrev sized : Scheduler
  sized = record i { queue_size = l.queue_size }

  sized-Has : Has c sized
  sized-Has = record {
    no_position = has.no_position;
    no_size = has.no_size;
    scaled = has.scaled;
    replicas = has.replicas;
    instance_ = has.instance_;
    clustered = has.clustered;
  }

  sized-IsConfigured : IsConfigured frames sized
  sized-IsConfigured = record {
    members = configured.members;
    units = configured.units;
    listed = configured.listed;
    found = configured.found;
  }

  -- A listed manager's scheduler follows at the position of its market.
  listed-Follows :
      (r : ℕ)
      → includes s.collectors_managers r ≡ true
      → (k : ℕ) × Follows sized k (s.object r).collectors_scheduler.scheduler
  listed-Follows r h =
      let id = (s.object r).market_id in
      let (k, e) = position_of_listed l.market_ids id (w.only r h) in
      let (r', found, follows) = w.placed k id e in
      let same : r' ≡ r = some-injective (sym found ∙ w.well_formed.keyed r h) in
      (
        k,
        subst (λ n. Follows sized k (s.object n).collectors_scheduler.scheduler) same
            (subst (λ j. Follows j k (s.object r').collectors_scheduler.scheduler) w.internal
              follows),
      )

  -- What the start of a manager that follows at a position leaves.
  abbrev StartsAt : ℕ → CollectorsManager → Type 0
  StartsAt k old =
      (m : CollectorsManager) × (call old ≡ (m, returns tt))
      × (cron_of m ≡ some true)
      × (m.market_id ≡ old.market_id)
      × (m.market ≢ missing)
      × Follows sized k m.collectors_scheduler.scheduler

  following_starts :
      (k : ℕ) (m : CollectorsManager)
      → Follows sized k m.collectors_scheduler.scheduler
      → StartsAt k m
  following_starts k m follows = (
    started frames services c sized up sized-Has sized-IsConfigured m k follows,
    start-started frames services c sized up sized-Has sized-IsConfigured m k follows,
    refl,
    refl,
    (λ e. cc),
    started-Follows frames services c sized up sized-Has sized-IsConfigured m k follows,
  )

  abbrev ended : Attempt MarketsManager
  ended = on_all call s

  listed_started :
      (r : ℕ)
      → includes s.collectors_managers r ≡ true
      → ((ended.0.object r).market_id ≡ (s.object r).market_id)
        × (cron_of (ended.0.object r) ≡ some true)
        × ((call (s.object r)).1 ≡ returns tt)
        × ((ended.0.object r).market ≢ missing)
  listed_started r h =
      let (k, follows) = listed-Follows r h in
      let (m, e, runs, its, known, _) = following_starts k (s.object r) follows in
      let here : ended.0.object r ≡ m =
        on_each-listed call s.collectors_managers s r w.well_formed.distinct h
        ∙ ap (λ (a : Attempt CollectorsManager). a.0) e in
      (
        ap (λ (j : CollectorsManager). j.market_id) here ∙ its,
        ap cron_of here ∙ runs,
        ap (λ (a : Attempt CollectorsManager). a.1) e,
        (λ k. known (ap (λ (j : CollectorsManager). j.market) (sym here) ∙ k)),
      )

  started_at :
      (k id : ℕ)
      → get_elem? l.market_ids k ≡ some id
      → (r : ℕ) × (s.collectors_managers_map id ≡ some r)
        × Follows sized k (ended.0.object r).collectors_scheduler.scheduler
  started_at k id e =
      let (r, found, follows) = w.placed k id e in
      let (m, e', _, _, _, then_follows) =
        following_starts k (s.object r) (
          subst (λ j. Follows j k (s.object r).collectors_scheduler.scheduler) w.internal
            follows) in
      let here : ended.0.object r ≡ m =
        on_each-listed call s.collectors_managers s r w.well_formed.distinct
          (w.well_formed.mapped id r found).1
        ∙ ap (λ (a : Attempt CollectorsManager). a.0) e' in
      (
        r,
        found,
        subst (λ (j : CollectorsManager). Follows sized k j.collectors_scheduler.scheduler)
            (sym here) then_follows,
      )

  abbrev after_start : MarketsManager
  after_start = record s { object = ended.0.object }

  after_start-IsRunning : IsRunning i l after_start
  after_start-IsRunning = record {
    loaded_ = record {
      well_formed =
          objects-IsWellFormed s ended.0.object (λ r h. (listed_started r h).0) w.well_formed;
      internal = w.internal;
      placed = λ k id e.
          let (r, found, follows) = started_at k id e in
          (
            r,
            found,
            subst (λ j. Follows j k (ended.0.object r).collectors_scheduler.scheduler)
                (sym w.internal) follows,
          );
      only = λ r h. ap (includes l.market_ids) (listed_started r h).0 ∙ w.only r h;
      gone = w.gone;
    };
    running = λ r h. (listed_started r h).1;
    known = λ r h. (listed_started r h).3;
  }

  pub start_all-IsRunning : (ended.1 ≡ returns tt) × IsRunning i l ended.0
  start_all-IsRunning = (
    on_each-returns call s.collectors_managers s w.well_formed.distinct
        (λ r h. (listed_started r h).2),
    subst (IsRunning i l) (sym (on_each-objects call s.collectors_managers s))
        after_start-IsRunning,
  )
