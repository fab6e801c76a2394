-- ===== src/Markets/Shared.antt =====
-- The managers of lib/domain-collectors/MarketsManager.js as shared objects: what the array, the map and
-- the store have in common, and what adding a manager or changing one does to it.
use wolfram_price_feed_infra.Base.{
  ℕ, suc, ◌<◌, ◌≡◌, ◌≢◌, refl, sym, ap, ◌∙◌, inl, inr, true, none, some, List, [], ◌∷◌, ◌++◌, arith,
  Bool-cases, none≢some, some-injective, ◌==◌, ==_iff, includes, includes-last,
  includes-append_left, includes-append_one, not_includes, Distinct-append_one, Distinct, put,
  put_same, put_other, Attempt, returns,
}
use wolfram_price_feed_infra.Scheduling.Scheduler.{ClusterMember, Scheduler}
use wolfram_price_feed_infra.Scheduling.Interval.{turn}
use wolfram_price_feed_infra.Markets.Collectors.{CollectorsManager}
use wolfram_price_feed_infra.Markets.Manager.{MarketsManager}

-- Every listed reference is in use and the map has it under its market's id, and the map has no other.
pub record IsWellFormed (s : MarketsManager) : Type 0 where
  pub distinct : Distinct s.collectors_managers
  pub fresh : (r : ℕ) → includes s.collectors_managers r ≡ true → r < s.next
  pub keyed :
      (r : ℕ)
      → includes s.collectors_managers r ≡ true
      → s.collectors_managers_map (s.object r).market_id ≡ some r
  pub mapped :
      (id r : ℕ)
      → s.collectors_managers_map id ≡ some r
      → ((s.object r).market_id ≡ id) × (includes s.collectors_managers r ≡ true)

-- The interval of the internal scheduler's cluster can be set up.
pub record IsConfigured (frames : ℕ) (i : Scheduler) : Type 0 where
  pub members : List ClusterMember
  pub units : ℕ
  pub listed : i.cluster_members ≡ some members
  pub found : turn frames members ≡ some units

-- A market's scheduler has the queue position and the internal scheduler's configuration.
pub record Follows (internal : Scheduler) (queue_position : ℕ) (s : Scheduler) : Type 0 where
  pub placed : s.queue_position ≡ queue_position
  pub sized : s.queue_size ≡ internal.queue_size
  pub scaled : s.rate_limit_multiplier ≡ internal.rate_limit_multiplier
  pub replicas : s.replica_size ≡ internal.replica_size
  pub instance_ : s.instance_position ≡ internal.instance_position
  pub clustered : s.cluster_members ≡ internal.cluster_members

-- The map has a manager for the market, and that manager's scheduler follows.
abbrev pub IsPlaced : MarketsManager → ℕ → ℕ → Type 0
IsPlaced s id queue_position =
    (r : ℕ) × (s.collectors_managers_map id ≡ some r)
    × Follows s.internal_scheduler queue_position (s.object r).collectors_scheduler.scheduler

-- What a step for another market leaves alone.
pub record Keeps (id : ℕ) (s t : MarketsManager) : Type 0 where
  pub same_key : t.collectors_managers_map id ≡ s.collectors_managers_map id
  pub same_object : (r : ℕ) → s.collectors_managers_map id ≡ some r → t.object r ≡ s.object r

pub Keeps-refl : (id : ℕ) (s : MarketsManager) → Keeps id s s
Keeps-refl id s = record { same_key = refl; same_object = λ r h. refl }

pub Keeps-trans : {id : ℕ} {s t u : MarketsManager} → Keeps id s t → Keeps id t u → Keeps id s u
Keeps-trans k l = record {
  same_key = l.same_key ∙ k.same_key;
  same_object = λ r h. l.same_object r (k.same_key ∙ h) ∙ k.same_object r h;
}

pub Keeps-IsPlaced :
    {id queue_position : ℕ} {s t : MarketsManager}
    → Keeps id s t
    → t.internal_scheduler ≡ s.internal_scheduler
    → IsPlaced s id queue_position
    → IsPlaced t id queue_position
Keeps-IsPlaced k same (r, found, follows) =
    (r, k.same_key ∙ found, rw (same, k.same_object r found) follows)

-- A step that returns, keeps the invariant and the internal scheduler, places one market, and leaves
-- the managers of the others alone.
pub record IsResolved (s : MarketsManager) (id queue_position : ℕ) (a : Attempt MarketsManager)
    : Type 0 where
  pub returned : a.1 ≡ returns tt
  pub well_formed : IsWellFormed a.0
  pub internal : a.0.internal_scheduler ≡ s.internal_scheduler
  pub placed : IsPlaced a.0 id queue_position
  pub others : (id' : ℕ) → id' ≢ id → Keeps id' s a.0

-- A new manager at a fresh reference, for a market that the map lacks.
module _ (id : ℕ) (m : CollectorsManager) (s : MarketsManager) (own : m.market_id ≡ id)
    (absent : s.collectors_managers_map id ≡ none) (w : IsWellFormed s) where
  abbrev pub added : MarketsManager
  added = record s {
    object = put s.object s.next m;
    next = suc s.next;
    collectors_managers = s.collectors_managers ++ s.next ∷ [];
    collectors_managers_map = put s.collectors_managers_map id (some s.next);
  }

  old_object : (r : ℕ) → includes s.collectors_managers r ≡ true → added.object r ≡ s.object r
  old_object r h = put_other s.object s.next m r (λ e. omega (arith, e, w.fresh r h))

  old_key : (id' : ℕ) → id' ≢ id → added.collectors_managers_map id' ≡ s.collectors_managers_map id'
  old_key = put_other s.collectors_managers_map id (some s.next)

  key_apart : (r : ℕ) → includes s.collectors_managers r ≡ true → (s.object r).market_id ≢ id
  key_apart r h e = none≢some (sym absent ∙ ap s.collectors_managers_map (sym e) ∙ w.keyed r h)

  added-fresh : (r : ℕ) → includes added.collectors_managers r ≡ true → r < added.next
  added-fresh r h = elim (includes-append_one s.collectors_managers s.next r h) [
    | inl e ↦ omega (arith, e)
    | inr old ↦ omega (arith, w.fresh r old)
  ]

  added-keyed :
      (r : ℕ)
      → includes added.collectors_managers r ≡ true
      → added.collectors_managers_map (added.object r).market_id ≡ some r
  added-keyed r h = elim (includes-append_one s.collectors_managers s.next r h) [
    | inl e ↦
        ap (λ (k : CollectorsManager). added.collectors_managers_map k.market_id)
          (ap added.object e ∙ put_same s.object s.next m)
        ∙ ap added.collectors_managers_map own
        ∙ put_same s.collectors_managers_map id (some s.next)
        ∙ ap some (sym e)
    | inr old ↦
        ap (λ (k : CollectorsManager). added.collectors_managers_map k.market_id) (old_object r old)
        ∙ old_key (s.object r).market_id (key_apart r old)
        ∙ w.keyed r old
  ]

  added-mapped :
      (id' r : ℕ)
      → added.collectors_managers_map id' ≡ some r
      → ((added.object r).market_id ≡ id') × (includes added.collectors_managers r ≡ true)
  added-mapped id' r h = elim (Bool-cases (id' == id)) [
    | inl e ↦
        let same = (==_iff id' id).0 e in
        let here : s.next ≡ r = some-injective (
          sym (
            ap added.collectors_managers_map same
            ∙ put_same s.collectors_managers_map id (some s.next))
          ∙ h) in
        (
          ap (λ (k : CollectorsManager). k.market_id)
                (ap added.object (sym here) ∙ put_same s.object s.next m)
              ∙ own
              ∙ sym same,
          ap (includes added.collectors_managers) (sym here)
              ∙ includes-last s.collectors_managers s.next,
        )
    | inr e ↦
        let (its, listed) = w.mapped id' r (sym (rw e refl) ∙ h) in
        (
          ap (λ (k : CollectorsManager). k.market_id) (old_object r listed) ∙ its,
          includes-append_left s.collectors_managers (s.next ∷ []) r listed,
        )
  ]

  pub added-IsWellFormed : IsWellFormed added
  added-IsWellFormed = record {
    distinct =
        Distinct-append_one s.collectors_managers s.next w.distinct
          (not_includes s.collectors_managers s.next (λ h. omega (arith, w.fresh s.next h)));
    fresh = added-fresh;
    keyed = added-keyed;
    mapped = added-mapped;
  }

  pub added-Keeps : (id' : ℕ) → id' ≢ id → Keeps id' s added
  added-Keeps id' h = record {
    same_key = old_key id' h;
    same_object = λ r found. old_object r (w.mapped id' r found).1;
  }

-- A manager that the map has, changed in place.
module _ (r : ℕ) (m : CollectorsManager) (s : MarketsManager)
    (own : m.market_id ≡ (s.object r).market_id) (w : IsWellFormed s) where
  abbrev pub written : MarketsManager
  written = record s { object = put s.object r m }

  same_id : (i : ℕ) → (written.object i).market_id ≡ (s.object i).market_id
  same_id i = elim (Bool-cases (i == r)) [
    | inl e ↦ rw e (own ∙ ap (λ n. (s.object n).market_id) (sym ((==_iff i r).0 e)))
    | inr e ↦ rw e refl
  ]

  pub written-IsWellFormed : IsWellFormed written
  written-IsWellFormed = record {
    distinct = w.distinct;
    fresh = w.fresh;
    keyed = λ i h. ap s.collectors_managers_map (same_id i) ∙ w.keyed i h;
    mapped = λ id i h. let (its, listed) = w.mapped id i h in (same_id i ∙ its, listed);
  }

  pub written-Keeps : (id : ℕ) → id ≢ (s.object r).market_id → Keeps id s written
  written-Keeps id h = record {
    same_key = refl;
    same_object = λ i found.
        put_other s.object r m i
          (λ e. h (sym (w.mapped id i found).0 ∙ ap (λ n. (s.object n).market_id) e));
  }
