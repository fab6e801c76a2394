-- ===== src/Markets/Quiet.antt =====
-- Which schedulers run after each operation: only those of listed managers, and none after a stop.
use wolfram_price_feed_infra.Base.{
  ℕ, suc, and_then_reaches, ◌≡◌, ◌≢◌, subst, sym, ap, ◌∙◌, inl, inr, true, some, List, [], ◌∷◌,
  Bool-cases, Option-cases, none≢some, ◌==◌, includes, put, Attempt, returns, rethrow_keeps,
  ◌and_then◌, and_then_keeps,
}
use mathlib.Core.Bool.{false≢true}
use wolfram_price_feed_infra.Scheduling.Scheduler.{DynamicConfig}
use wolfram_price_feed_infra.Scheduling.Lifecycle.{configure_task, create}
use wolfram_price_feed_infra.Markets.Collectors.{CollectorsManager, Services, missing}
use wolfram_price_feed_infra.Markets.Collectors
use wolfram_price_feed_infra.Markets.Manager.{
  MarketsManager, Listing, configure_internal, set_queue_size, resolve_markets, resolve_market,
  init_market, update_market, clear_disabled_markets, load_markets, on_all, start,
}
use wolfram_price_feed_infra.Markets.Shared.{IsWellFormed}
use wolfram_price_feed_infra.Markets.Each.{on_each-objects, on_each-unlisted, on_each-listed}
use wolfram_price_feed_infra.Markets.Single.{cron_of, stop_quiet, stop-market_id}
use wolfram_price_feed_infra.Markets.Running.{objects-IsWellFormed}

-- No scheduler runs, of the managers that are listed or that were.
abbrev pub IsQuiet : MarketsManager → Type 0
IsQuiet s = (r : ℕ) → cron_of (s.object r) ≢ some true

pub put-IsQuiet :
    (f : ℕ → CollectorsManager) (r : ℕ) (m : CollectorsManager)
    → ((i : ℕ) → cron_of (f i) ≢ some true)
    → cron_of m ≢ some true
    → (i : ℕ) → cron_of (put f r m i) ≢ some true
put-IsQuiet f r m h k i = elim (Bool-cases (i == r)) [ inl e ↦ rw e k | inr e ↦ rw e (h i) ]

resolve_market-IsQuiet :
    (frames id queue_position : ℕ) (s : MarketsManager)
    → IsQuiet s
    → IsQuiet (resolve_market frames id queue_position s).0
unfolding resolve_market init_market update_market Collectors.create create
    Collectors.set_dynamic_config configure_task
resolve_market-IsQuiet frames id queue_position s h =
    elim (Option-cases (s.collectors_managers_map id)) [
      | inl absent ↦
          rw (absent, resolve_market) (put-IsQuiet s.object s.next _ h (λ e. none≢some e))
      | inr (r, found) ↦ rw (found, resolve_market) (put-IsQuiet s.object r _ h (h r))
    ]

resolve_markets-IsQuiet :
    (frames queue_position : ℕ) (ids : List ℕ) (s : MarketsManager)
    → IsQuiet s
    → IsQuiet (resolve_markets frames queue_position ids s).0
unfolding resolve_markets
resolve_markets-IsQuiet frames queue_position [] s h = h
resolve_markets-IsQuiet frames queue_position (id ∷ ids) s h =
    and_then_keeps IsQuiet (resolve_market frames id queue_position s)
      (resolve_markets frames (suc queue_position) ids)
      (resolve_market-IsQuiet frames id queue_position s h)
      (λ t k. resolve_markets-IsQuiet frames (suc queue_position) ids t k)

-- What a start leaves of the schedulers that do not run: only listed managers are started.
abbrev pub IsOwned : MarketsManager → Type 0
IsOwned s = (r : ℕ) → cron_of (s.object r) ≡ some true → includes s.collectors_managers r ≡ true

on_all-IsOwned :
    (call : CollectorsManager → Attempt CollectorsManager) (s : MarketsManager)
    → IsQuiet s
    → IsOwned (on_all call s).0
on_all-IsOwned call s h =
    subst IsOwned (sym (on_each-objects call s.collectors_managers s)) (λ r runs.
      elim (Bool-cases (includes s.collectors_managers r)) [
        | inl listed ↦ listed
        | inr absent ↦
            absurd (
              h r
                (ap cron_of (sym (on_each-unlisted call s.collectors_managers s r absent)) ∙ runs))
      ])

quiet-IsOwned : (s : MarketsManager) → IsQuiet s → IsOwned s
quiet-IsOwned s h r runs = absurd (h r runs)

load_markets-IsQuiet :
    (frames queue_size : ℕ) (ids : List ℕ) (s : MarketsManager)
    → IsQuiet s
    → IsQuiet (load_markets frames queue_size ids s).0
unfolding load_markets set_queue_size clear_disabled_markets
load_markets-IsQuiet frames queue_size ids s h =
    and_then_keeps IsQuiet (resolve_markets frames 0 ids (set_queue_size queue_size s))
      (λ t. (clear_disabled_markets ids t, returns tt))
      (resolve_markets-IsQuiet frames 0 ids (set_queue_size queue_size s) h) (λ t k. k)

pub start-IsOwned :
    (frames : ℕ) (services : Services) (c : DynamicConfig) (l : Listing) (s : MarketsManager)
    → IsQuiet s
    → IsOwned (start services frames c l s).0
unfolding start configure_internal
start-IsOwned frames services c l s h =
    let load = load_markets frames l.queue_size l.market_ids in
    let each = on_all (Collectors.start services frames c) in
    let set_up = configure_internal frames c s in
    rethrow_keeps IsOwned (set_up and_then load and_then each) (
      and_then_reaches IsQuiet IsOwned (set_up and_then load) each
        (and_then_keeps IsQuiet set_up load h
          (load_markets-IsQuiet frames l.queue_size l.market_ids))
        quiet-IsOwned (on_all-IsOwned (Collectors.start services frames c)))

-- A stop changes no market's id and leaves no scheduler running.
pub stop-IsWellFormed :
    (s : MarketsManager) → IsWellFormed s → IsWellFormed (on_all Collectors.stop s).0
stop-IsWellFormed s w =
    subst IsWellFormed (sym (on_each-objects Collectors.stop s.collectors_managers s)) (
      objects-IsWellFormed s (on_all Collectors.stop s).0.object
        (λ r h.
          ap (λ (m : CollectorsManager). m.market_id)
            (on_each-listed Collectors.stop s.collectors_managers s r w.distinct h)
          ∙ stop-market_id (s.object r))
        w)

pub stop-IsQuiet :
    (s : MarketsManager) → IsWellFormed s → IsOwned s → IsQuiet (on_all Collectors.stop s).0
stop-IsQuiet s w owned r runs = elim (Bool-cases (includes s.collectors_managers r)) [
  | inl listed ↦ stop_quiet (s.object r) (
      ap cron_of (sym (on_each-listed Collectors.stop s.collectors_managers s r w.distinct listed))
      ∙ runs)
  | inr absent ↦ false≢true (
      sym absent
      ∙ owned r (
          ap cron_of (sym (on_each-unlisted Collectors.stop s.collectors_managers s r absent))
          ∙ runs))
]
