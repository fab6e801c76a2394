-- ===== src/Markets/Multiplier.antt =====
-- The multiplier of the rate limit after any messages of the backoff policy.
use wolfram_price_feed_infra.Base.{
  ℕ, suc, ◌+◌, ◌≤◌, max, ◌≡◌, refl, sym, ap, ◌∙◌, inl, inr, false, Option, none, some, List, [],
  ◌∷◌, ltb, ltb→lt, Bool-cases, Option-cases, Completion-cases, Completion, returns, throws,
  returns≢throws, Attempt, rethrow_keeps, ◌and_then◌, and_then_keeps, arith,
}
use wolfram_price_feed_infra.Scheduling.Scheduler.{
  Scheduler, DynamicConfig, assign, init_interval, set_dynamic_config,
}
use wolfram_price_feed_infra.Scheduling.Interval.{init_interval-turn, init_interval_unconfigured}
use wolfram_price_feed_infra.Scheduling.Lifecycle.{configure}
use wolfram_price_feed_infra.Markets.Collectors.{CollectorsManager}
use wolfram_price_feed_infra.Markets.Collectors
use wolfram_price_feed_infra.Markets.Manager.{
  MarketsManager, configure_internal, on_all, reload_active,
}
use wolfram_price_feed_infra.Markets.Each.{on_each-objects}
use wolfram_price_feed_infra.Markets.Backoff.{
  Backoff, multiplier_of, should_reload, backoff_config, reloaded, process, process_all,
}

-- The set-up of the interval leaves the multiplier alone.
init_interval-multiplier :
    (frames : ℕ) (s t : Scheduler)
    → init_interval frames s ≡ returns t
    → t.rate_limit_multiplier ≡ s.rate_limit_multiplier
init_interval-multiplier frames s t h = elim (Option-cases s.cluster_members) [
  | inl absent ↦ absurd (returns≢throws (sym h ∙ init_interval_unconfigured frames s absent))
  | inr (members, listed) ↦
      let (d, _, same) = init_interval-turn frames s members listed h in
      ap (λ (u : Scheduler). u.rate_limit_multiplier) same
]

-- What a configuration makes of how the set-up ends.
abbrev after : Scheduler → Completion Scheduler → Attempt Scheduler
after s (returns t) = (t, returns tt)
after s (throws e) = (s, throws e)

configure-after :
    (frames : ℕ) (c : DynamicConfig) (s : Scheduler)
    → configure frames c s ≡ after (assign s c) (init_interval frames (assign s c))
unfolding configure set_dynamic_config
configure-after frames c s = elim (Completion-cases (init_interval frames (assign s c))) [
  | inl (t, e) ↦
      ap
        (λ o. elim o as (λ _. Attempt Scheduler) [
          | returns t ↦ (t, returns tt)
          | throws e ↦ (assign s c, throws e)
        ])
        e
      ∙ sym (ap (after (assign s c)) e)
  | inr (x, e) ↦
      ap
        (λ o. elim o as (λ _. Attempt Scheduler) [
          | returns t ↦ (t, returns tt)
          | throws e ↦ (assign s c, throws e)
        ])
        e
      ∙ sym (ap (after (assign s c)) e)
]

after-multiplier :
    (frames m : ℕ) (s : Scheduler) (o : Completion Scheduler)
    → init_interval frames (assign s (backoff_config (some m))) ≡ o
    → (after (assign s (backoff_config (some m))) o).0.rate_limit_multiplier ≡ m
unfolding assign
after-multiplier frames m s (returns t) h =
    init_interval-multiplier frames (assign s (backoff_config (some m))) t h
after-multiplier frames m s (throws e) h = refl

configure-multiplier :
    (frames m : ℕ) (s : Scheduler)
    → (configure frames (backoff_config (some m)) s).0.rate_limit_multiplier ≡ m
configure-multiplier frames m s =
    ap (λ (a : Attempt Scheduler). a.0.rate_limit_multiplier)
      (configure-after frames (backoff_config (some m)) s)
    ∙ after-multiplier frames m s (init_interval frames (assign s (backoff_config (some m)))) refl

-- A reload of the active markets leaves the multiplier of the message, whether or not it throws.
reload_active-multiplier :
    (frames m : ℕ) (s : MarketsManager)
    → multiplier_of (reload_active frames (backoff_config (some m)) s).0 ≡ m
unfolding reload_active configure_internal
reload_active-multiplier frames m s =
    let c = backoff_config (some m) in
    let call = Collectors.reload_active frames c in
    let keeps : MarketsManager → Type 0 = λ t. multiplier_of t ≡ m in
    rethrow_keeps keeps (configure_internal frames c s and_then on_all call) (
      and_then_keeps keeps (configure_internal frames c s) (on_all call)
        (configure-multiplier frames m s.internal_scheduler)
        (λ t h. ap multiplier_of (on_each-objects call t.collectors_managers t) ∙ h))

reloaded-markets :
    (b : Backoff) (a : Attempt MarketsManager)
    → ((reloaded b a).markets ≡ a.0) × ((reloaded b a).reloads ≡ suc b.reloads)
reloaded-markets b (s, returns _) = (refl, refl)
reloaded-markets b (s, throws e) = (refl, refl)

-- The largest multiplier of the messages, from one on.
abbrev pub largest : ℕ → List (Option ℕ) → ℕ
largest n [] = n
largest n (none ∷ os) = largest n os
largest n (some m ∷ os) = largest (max n m) os

not_ltb : (a b : ℕ) → ltb a b ≡ false → b ≤ a
not_ltb a b e = ground arith

-- One message: the larger multiplier, and a reload exactly where it grows.
process-multiplier :
    (frames m : ℕ) (b : Backoff)
    → (multiplier_of (process frames (some m) b).markets ≡ max (multiplier_of b.markets) m)
      × ((process frames (some m) b).reloads + multiplier_of b.markets
          ≤ b.reloads + multiplier_of (process frames (some m) b).markets)
unfolding process should_reload
process-multiplier frames m b = elim (Bool-cases (ltb (multiplier_of b.markets) m)) [
  | inl above ↦
      let a = reload_active frames (backoff_config (some m)) b.markets in
      let (markets, reloads) = reloaded-markets b a in
      let grown = ap multiplier_of markets ∙ reload_active-multiplier frames m b.markets in
      let less = ltb→lt (multiplier_of b.markets) m above in
      rw above (omega (arith, grown, less), omega (arith, grown, less, reloads))
  | inr below ↦
      let at_least = not_ltb (multiplier_of b.markets) m below in
      rw below (omega (arith, at_least), omega arith)
]

-- After any messages the exchange has the largest multiplier of its own and theirs, whether or not the reloads
-- threw, and the number of reloads is at most what the multiplier has grown by.
pub process_all-largest :
    (frames : ℕ) (messages : List (Option ℕ)) (b : Backoff)
    → (multiplier_of (process_all frames messages b).markets
        ≡ largest (multiplier_of b.markets) messages)
      × ((process_all frames messages b).reloads + multiplier_of b.markets
          ≤ b.reloads + multiplier_of (process_all frames messages b).markets)
unfolding process should_reload
process_all-largest frames [] b = (refl, omega arith)
process_all-largest frames (none ∷ os) b = process_all-largest frames os b
process_all-largest frames (some m ∷ os) b =
    let next = process frames (some m) b in
    let (one, few) = process-multiplier frames m b in
    let (rest, more) = process_all-largest frames os next in
    (rest ∙ ap (λ n. largest n os) one, omega (arith, few, more))
