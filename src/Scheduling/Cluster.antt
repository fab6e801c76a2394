-- ===== src/Scheduling/Cluster.antt =====
-- The exchanges of a cluster share one source, and take turns within the precise interval.
use wolfram_price_feed_infra.Base.{
  ℕ, ◌+◌, ◌*◌, ◌≤◌, ◌<◌, ◌≡◌, refl, subst, true, false, some, List, [], ◌∷◌, ◌++◌, length, map, All,
  length-map, arith,
}
use wolfram_price_feed_infra.Base.Ratio.{Ratio, Measures, Le}
use wolfram_price_feed_infra.Base.Ratio
use wolfram_price_feed_infra.Scheduling.Scheduler.{
  ClusterMember, Scheduler, is_self, base_rate, sum_intervals,
}
use wolfram_price_feed_infra.Scheduling.Delays.{
  cluster_delay, get_operations_cluster_delay, start_in_window,
}
use wolfram_price_feed_infra.Scheduling.Slots.{
  InRange, slot_count, exchange_interval, operations_within_window,
}

abbrev pub intervals : List ClusterMember → List ℕ
intervals = map (λ (m : ClusterMember). m.interval)

abbrev pub sum : List ℕ → ℕ
sum [] = 0
sum (n ∷ ns) = n + sum ns

-- The time up to a member's turn, in units of `1 / n`: the earlier members' intervals, and as
-- many distances `v`.
abbrev pub span : ℕ → ℕ → List ℕ → ℕ
span n v [] = 0
span n v (k ∷ ks) = k * n + v + span n v ks

pub span-append : (n v : ℕ) (ks ls : List ℕ) → span n v (ks ++ ls) ≡ span n v ks + span n v ls
span-append n v [] ls = omega arith
span-append n v (k ∷ ks) ls = omega (arith, span-append n v ks ls)

pub span-sum : (n v : ℕ) (ks : List ℕ) → span n v ks ≡ sum ks * n + length ks * v
span-sum n v [] = omega arith
span-sum n v (k ∷ ks) = omega (arith, span-sum n v ks)

abbrev pub IsExternal : ClusterMember → Type 0
IsExternal m = is_self m ≡ false

-- The loop's result: half a distance, and the spans of the members before the first of type `SELF`.
cluster_delay-Measures :
    (n v h a : ℕ) (d acc : Ratio) (before after : List ClusterMember) (self_ : ClusterMember)
    → All IsExternal before
    → is_self self_ ≡ true
    → h * 2 ≡ v
    → Measures n v d
    → Measures n a acc
    → (c : Ratio) × (cluster_delay d acc (before ++ self_ ∷ after) ≡ some c)
      × Measures n (a + span n v (intervals before) + h) c
unfolding cluster_delay
cluster_delay-Measures n v h a d acc [] after self_ _ mine half md ma = (
  Ratio.add acc (Ratio.div d 2),
  rw mine,
  subst (λ w. Measures n w (Ratio.add acc (Ratio.div d 2))) (omega arith)
      (Ratio.add-Measures n _ _ _ _ ma (Ratio.div-Measures n v h 2 d (omega arith) half md)),
)
cluster_delay-Measures n v h a d acc (m ∷ before) after self_ external mine half md ma =
    let step =
      Ratio.add-Measures n _ _ _ _ ma
        (Ratio.add-Measures n _ _ _ _ (Ratio.of_ℕ-Measures n m.interval) md) in
    let (c, e, mc) =
      cluster_delay-Measures n v h (a + (m.interval * n + v)) d
        (Ratio.add acc (Ratio.add (Ratio.of_ℕ m.interval) d)) before after self_ external.1 mine
        half md step in
    (c, rw external.0 e, subst (λ w. Measures n w c) (omega arith) mc)

-- Two schedulers of one cluster, whose member lists have the same intervals, each with its own
-- exchange of type `SELF`: that of `s` comes earlier than that of `t`.
pub record TakesTurns (s t : Scheduler) : Type 0 where
  pub before : List ClusterMember
  pub after : List ClusterMember
  pub before' : List ClusterMember
  pub after' : List ClusterMember
  pub mine : ClusterMember
  pub mine' : ClusterMember
  pub between : List ℕ
  pub members : s.cluster_members ≡ some (before ++ mine ∷ after)
  pub members' : t.cluster_members ≡ some (before' ++ mine' ∷ after')
  pub external : All IsExternal before
  pub external' : All IsExternal before'
  pub is_mine : is_self mine ≡ true
  pub is_mine' : is_self mine' ≡ true
  pub earlier : intervals before' ≡ intervals before ++ mine.interval ∷ between
  pub same_cluster : intervals (before ++ mine ∷ after) ≡ intervals (before' ++ mine' ∷ after')

pub sum_intervals-sum : (ms : List ClusterMember) → sum_intervals ms ≡ sum (intervals ms)
sum_intervals-sum [] = refl
sum_intervals-sum (m ∷ ms) = omega (arith, sum_intervals-sum ms)

pub length-intervals : (ms : List ClusterMember) → length (intervals ms) ≡ length ms
length-intervals ms = length-map ms (λ m. m.interval)

pub twice-Measures : (d : Ratio) → 0 < d.den → Measures (d.den * 2) (d.num * 2) d
twice-Measures d h = record { finite = h; exact = omega arith }

-- A member that is found is met after the spans of those before it and half a distance.
pub start_of_turn :
    (s : Scheduler) (d : Ratio) (before after : List ClusterMember) (mine : ClusterMember)
    → s.intra_cluster_distance ≡ d
    → s.cluster_members ≡ some (before ++ mine ∷ after)
    → All IsExternal before
    → is_self mine ≡ true
    → 0 < d.den
    → (c : Ratio) × (get_operations_cluster_delay s ≡ some c)
      × Measures (d.den * 2) (span (d.den * 2) (d.num * 2) (intervals before) + d.num) c
unfolding get_operations_cluster_delay
start_of_turn s d before after mine same e external is_mine finite =
    let n = d.den * 2 in
    let (c, found, m) =
      cluster_delay-Measures n (d.num * 2) d.num (0 * n) d (Ratio.of_ℕ 0) before after mine external
        is_mine refl (twice-Measures d finite) (Ratio.of_ℕ-Measures n 0) in
    (c, simp (e, same, found), subst (λ w. Measures n w c) (omega arith) m)

-- The part of the turn that one exchange takes up is over when the next begins.
pub turns_follow :
    (n v : ℕ) (xs ys zs : List ℕ) (k : ℕ)
    → ys ≡ xs ++ k ∷ zs
    → span n v xs + (k * n + v) ≤ span n v ys
turns_follow n v xs ys zs k e = rw e (omega (arith, span-append n v xs (k ∷ zs)))

-- The start of an operation and its base rate, against the start of the turn and what it lasts.
pub turn_lasts :
    (s : Scheduler) (i : ℕ) (c : Ratio)
    → InRange s i
    → 0 < s.intra_interval_distance.den
    → s.intra_interval_distance ≡ Ratio.div s.intra_cluster_distance (slot_count s)
    → Le
        (Ratio.add (Ratio.add c (start_in_window s i)) (Ratio.of_ℕ (base_rate s)))
        (Ratio.add c (Ratio.add (Ratio.of_ℕ (exchange_interval s)) s.intra_cluster_distance))
turn_lasts s i c u finite split =
    rw Ratio.add_assoc (Ratio.Le_add_left c _ _ (operations_within_window s i u finite split))
