-- ===== src/Markets/Load.antt =====
-- Loading the markets: afterwards the managers are those of the listed markets and no others.
use wolfram_price_feed_infra.Base.{
  ℕ, zero, suc, includes-head, includes-tail, ◌+◌, ◌≡◌, subst, refl, sym, ap, ◌∙◌, inl, inr, Bool,
  true, false, Option, none, some, List, [], ◌∷◌, Option-cases, Bool-cases, none≢some,
  some-injective, ◌==◌, ==_iff, includes, filter-includes, includes-filter, Distinct,
  Distinct-filter, put, put_same, put_other, returns, get_elem?, arith, and_then-returned,
}
use mathlib.Core.Bool.{false≢true}
use wolfram_price_feed_infra.Scheduling.Scheduler.{Scheduler}
use wolfram_price_feed_infra.Markets.Collectors.{CollectorsManager}
use wolfram_price_feed_infra.Markets.Manager.{
  MarketsManager, forget_disabled, clear_disabled_markets, set_queue_size, load_markets,
  resolve_markets,
}
use wolfram_price_feed_infra.Markets.Shared.{IsWellFormed, IsConfigured, IsPlaced}
use wolfram_price_feed_infra.Markets.Resolve.{ArePlaced, resolve_markets-AreResolved}

module _ (ids : List ℕ) (object : ℕ → CollectorsManager) where
  forget_disabled-listed :
      (rs : List ℕ) (f : ℕ → Option ℕ) (id : ℕ)
      → includes ids id ≡ true
      → forget_disabled ids object rs f id ≡ f id
  unfolding forget_disabled
  forget_disabled-listed [] f id h = refl
  forget_disabled-listed (r ∷ rs) f id h = elim (Bool-cases (includes ids (object r).market_id)) [
    | inl kept ↦ rw kept (forget_disabled-listed rs f id h)
    | inr gone ↦ rw gone (
        forget_disabled-listed rs (put f (object r).market_id none) id h
        ∙ put_other f (object r).market_id none id
            (λ e. false≢true (sym gone ∙ ap (includes ids) (sym e) ∙ h)))
  ]

  forget_disabled-none :
      (rs : List ℕ) (f : ℕ → Option ℕ) (id : ℕ)
      → f id ≡ none
      → forget_disabled ids object rs f id ≡ none
  unfolding forget_disabled
  forget_disabled-none [] f id h = h
  forget_disabled-none (r ∷ rs) f id h = elim (Bool-cases (includes ids (object r).market_id)) [
    | inl kept ↦ rw kept (forget_disabled-none rs f id h)
    | inr gone ↦ rw gone (
        forget_disabled-none rs (put f (object r).market_id none) id
          (elim (Bool-cases (id == (object r).market_id)) [ inl e ↦ rw e refl | inr e ↦ rw e h ]))
  ]

  forget_disabled-unlisted :
      (rs : List ℕ) (f : ℕ → Option ℕ) (r : ℕ)
      → includes rs r ≡ true
      → includes ids (object r).market_id ≡ false
      → forget_disabled ids object rs f (object r).market_id ≡ none
  unfolding forget_disabled
  forget_disabled-unlisted [] f r h k = absurd (false≢true h)
  forget_disabled-unlisted (x ∷ rs) f r h k = elim (Bool-cases (x == r)) [
    | inl e ↦
        let same = (==_iff x r).0 e in
        let gone = ap (λ n. includes ids (object n).market_id) same ∙ k in
        let cleared = put f (object x).market_id none in
        rw gone (
          forget_disabled-none rs cleared (object r).market_id (
            ap (λ n. cleared (object n).market_id) (sym same)
            ∙ put_same f (object x).market_id none))
    | inr e ↦ elim (Bool-cases (includes ids (object x).market_id)) [
      | inl kept ↦ rw kept (forget_disabled-unlisted rs f r (rw e at h) k)
      | inr gone ↦
          rw gone (forget_disabled-unlisted rs (put f (object x).market_id none) r (rw e at h) k)
    ]
  ]

module _ (ids : List ℕ) (s : MarketsManager) (w : IsWellFormed s) where
  abbrev stays : ℕ → Bool
  stays r = includes ids (s.object r).market_id

  abbrev left_map : ℕ → Option ℕ
  left_map = forget_disabled ids s.object s.collectors_managers s.collectors_managers_map

  unchanged : (id : ℕ) → includes ids id ≡ true → left_map id ≡ s.collectors_managers_map id
  unchanged = forget_disabled-listed ids s.object s.collectors_managers s.collectors_managers_map

  removed : (id : ℕ) → includes ids id ≡ false → left_map id ≡ none
  removed id disabled = elim (Option-cases (s.collectors_managers_map id)) [
    | inl absent ↦
        forget_disabled-none ids s.object s.collectors_managers s.collectors_managers_map id absent
    | inr (r, found) ↦
        let (its, has) = w.mapped id r found in
        subst (λ n. left_map n ≡ none) its
          (forget_disabled-unlisted ids s.object s.collectors_managers s.collectors_managers_map r
            has (ap (includes ids) its ∙ disabled))
  ]

  pub clear_disabled_markets-IsWellFormed : IsWellFormed (clear_disabled_markets ids s)
  unfolding clear_disabled_markets
  clear_disabled_markets-IsWellFormed = record {
    distinct = Distinct-filter stays s.collectors_managers w.distinct;
    fresh = λ r h. w.fresh r (includes-filter stays s.collectors_managers r h).0;
    keyed = λ r h.
        let (has, enabled) = includes-filter stays s.collectors_managers r h in
        unchanged (s.object r).market_id enabled ∙ w.keyed r has;
    mapped = λ id r h. elim (Bool-cases (includes ids id)) [
      | inl enabled ↦
          let (its, has) = w.mapped id r (sym (unchanged id enabled) ∙ h) in
          (its, filter-includes stays s.collectors_managers r has (ap (includes ids) its ∙ enabled))
      | inr disabled ↦ absurd (none≢some (sym (removed id disabled) ∙ h))
    ];
  }

  clear_disabled_markets-IsPlaced :
      (id queue_position : ℕ)
      → includes ids id ≡ true
      → IsPlaced s id queue_position
      → IsPlaced (clear_disabled_markets ids s) id queue_position
  unfolding clear_disabled_markets
  clear_disabled_markets-IsPlaced id queue_position enabled (r, found, follows) =
      (r, unchanged id enabled ∙ found, follows)

-- The managers after a load: the map has one for each listed market, placed by the order of the list, and
-- the array holds those managers and no others.
pub record IsLoaded (i : Scheduler) (queue_size : ℕ) (ids : List ℕ) (s : MarketsManager)
    : Type 0 where
  pub well_formed : IsWellFormed s
  pub internal : s.internal_scheduler ≡ record i { queue_size = queue_size }
  pub placed : (i id : ℕ) → get_elem? ids i ≡ some id → IsPlaced s id i
  pub only :
      (r : ℕ) → includes s.collectors_managers r ≡ true → includes ids (s.object r).market_id ≡ true
  pub gone : (id : ℕ) → includes ids id ≡ false → s.collectors_managers_map id ≡ none

IsPlaced-at :
    (s : MarketsManager) (n : ℕ) (ids : List ℕ)
    → ArePlaced s n ids
    → (i id : ℕ) → get_elem? ids i ≡ some id
    → IsPlaced s id (n + i) × (includes ids id ≡ true)
IsPlaced-at s n [] h i id e = absurd (none≢some e)
IsPlaced-at s n (x ∷ xs) h zero id e =
    let same = some-injective e in
    (
      subst (λ k. IsPlaced s k (n + 0)) same (subst (IsPlaced s x) (omega arith) h.0),
      rw same (includes-head id xs),
    )
IsPlaced-at s n (x ∷ xs) h (suc i) id e =
    let (p, k) = IsPlaced-at s (suc n) xs h.1 i id e in
    (subst (IsPlaced s id) (omega arith) p, includes-tail x id xs k)

cleared :
    (i : Scheduler) (queue_size : ℕ) (ids : List ℕ) (s : MarketsManager)
    → IsWellFormed s
    → s.internal_scheduler ≡ record i { queue_size = queue_size }
    → ArePlaced s 0 ids
    → IsLoaded i queue_size ids (clear_disabled_markets ids s)
unfolding clear_disabled_markets
cleared i queue_size ids s w internal placed = record {
  well_formed = clear_disabled_markets-IsWellFormed ids s w;
  internal = internal;
  placed = λ k id e.
      let (p, enabled) = IsPlaced-at s 0 ids placed k id e in
      clear_disabled_markets-IsPlaced ids s w id k enabled (subst (IsPlaced s id) (omega arith) p);
  only = λ r h. (includes-filter (stays ids s w) s.collectors_managers r h).1;
  gone = removed ids s w;
}

-- The managers after a load, whatever they were: each listed market has one manager, with its position in
-- the list, the new queue size and the internal scheduler's configuration, and no other market has one.
-- The load returns where the ids differ and the interval of the cluster can be set up.
pub load_markets-IsLoaded :
    (frames queue_size : ℕ) (ids : List ℕ) (s : MarketsManager)
    → Distinct ids
    → IsWellFormed s
    → IsConfigured frames s.internal_scheduler
    → ((load_markets frames queue_size ids s).1 ≡ returns tt)
      × IsLoaded s.internal_scheduler queue_size ids (load_markets frames queue_size ids s).0
unfolding load_markets set_queue_size
load_markets-IsLoaded frames queue_size ids s distinct w c =
    let sized = set_queue_size queue_size s in
    let r =
      resolve_markets-AreResolved frames 0 ids sized distinct
        (record { distinct = w.distinct; fresh = w.fresh; keyed = w.keyed; mapped = w.mapped })
        (record { members = c.members; units = c.units; listed = c.listed; found = c.found }) in
    let resolved = resolve_markets frames 0 ids sized in
    rw (and_then-returned resolved (λ t. (clear_disabled_markets ids t, returns tt)) r.returned) (
      refl,
      cleared s.internal_scheduler queue_size ids resolved.0 r.well_formed r.internal r.placed,
    )
