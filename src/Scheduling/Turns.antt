-- ===== src/Scheduling/Turns.antt =====
-- The turns of the exchanges of a cluster neither overlap nor run past the precise interval.
use mathlib.Core.List.{map-append}
use wolfram_price_feed_infra.Base.{
  ℕ, ◌+◌, ◌-◌, ◌*◌, ◌≤◌, ◌<◌, ◌≡◌, refl, sym, ap, subst, ◌∙◌, true, some, List, ◌∷◌, ◌++◌, length,
  All, length-append, returns, arith,
}
use wolfram_price_feed_infra.Base.Ratio.{Ratio, Measures, Le}
use wolfram_price_feed_infra.Base.Ratio
use wolfram_price_feed_infra.Scheduling.Scheduler.{
  ClusterMember, Scheduler, is_self, base_rate, sum_intervals, init_interval, get_interval_size,
}
use wolfram_price_feed_infra.Scheduling.Delays.{
  get_operations_cluster_delay, start_in_window, start_in_turn,
}
use wolfram_price_feed_infra.Scheduling.Slots.{InRange, slot_count, exchange_interval}
use wolfram_price_feed_infra.Scheduling.Interval.{
  tuned, init_interval-turn, init_interval-IsTuned, init_interval_agrees,
}
use wolfram_price_feed_infra.Scheduling.Cluster.{
  intervals, sum, span, span-append, span-sum, IsExternal, TakesTurns, sum_intervals-sum,
  length-intervals, twice-Measures, start_of_turn, turns_follow, turn_lasts,
}

-- A scheduler that was set up has an exact distance, split over its slots, and keeps the rest.
record SetUp (ms : List ClusterMember) (s t : Scheduler) (i : ℕ) : Type 0 where
  in_range : InRange t i
  cluster_finite : 0 < t.intra_cluster_distance.den
  interval_finite : 0 < t.intra_interval_distance.den
  split : t.intra_interval_distance ≡ Ratio.div t.intra_cluster_distance (slot_count t)
  interval : exchange_interval t ≡ exchange_interval s
  members : t.cluster_members ≡ s.cluster_members
  surplus : t.intra_cluster_distance.num ≡ t.precise_normalized_interval - sum_intervals ms
  shared : t.intra_cluster_distance.den ≡ length ms

slot_count-pos : (s : Scheduler) (i : ℕ) → InRange s i → 0 < slot_count s
slot_count-pos s i u =
    Ratio.mul-pos (s.queue_size * length s.operations) s.replica_size
      (Ratio.mul-pos s.queue_size (length s.operations) (omega (arith, u.queued))
        (omega (arith, u.listed)))
      (omega (arith, u.placed))

tuned-SetUp :
    (ms : List ClusterMember) (s : Scheduler) (d i : ℕ)
    → InRange s i
    → 0 < length ms
    → SetUp ms s (tuned ms s d) i
unfolding Ratio.div Ratio.of_ℕ get_interval_size
tuned-SetUp ms s d i u some_ = record {
  in_range = record { queued = u.queued; placed = u.placed; listed = u.listed };
  cluster_finite = Ratio.mul-pos 1 (length ms) (omega arith) some_;
  interval_finite =
      Ratio.mul-pos (1 * length ms) (slot_count s) (Ratio.mul-pos 1 (length ms) (omega arith) some_)
        (slot_count-pos s i u);
  split = refl;
  interval = refl;
  members = refl;
  surplus = refl;
  shared = omega arith;
}

init_interval-SetUp :
    (frames : ℕ) (s : Scheduler) (ms : List ClusterMember) (i : ℕ) {t : Scheduler}
    → s.cluster_members ≡ some ms
    → init_interval frames s ≡ returns t
    → InRange s i
    → 0 < length ms
    → SetUp ms s t i
init_interval-SetUp frames s ms i {t} e h u some_ =
    let (d, _, x) = init_interval-turn frames s ms e h in
    subst (λ t. SetUp ms s t i) (sym x) (tuned-SetUp ms s d i u some_)

length-pos : (xs ys : List ClusterMember) (m : ClusterMember) → 0 < length (xs ++ m ∷ ys)
length-pos xs ys m = omega (arith, length-append {0} xs (m ∷ ys))

start_in_turn-some :
    (s : Scheduler) (i : ℕ) {c : Ratio}
    → get_operations_cluster_delay s ≡ some c
    → start_in_turn s i ≡ Ratio.add c (start_in_window s i)
unfolding start_in_turn
start_in_turn-some s i e = rw e

same_distance :
    (frames : ℕ) (s t : Scheduler) {s' t' : Scheduler} (turns : TakesTurns s t)
    → init_interval frames s ≡ returns s'
    → init_interval frames t ≡ returns t'
    → s'.intra_cluster_distance ≡ t'.intra_cluster_distance
same_distance frames s t turns hs ht =
    (init_interval_agrees frames s t _ _ turns.members turns.members'
      (sum_intervals-sum _ ∙ ap sum turns.same_cluster ∙ sym (sum_intervals-sum _))
      (sym (length-intervals _) ∙ ap length turns.same_cluster ∙ length-intervals _) hs ht).0

-- The next turn begins when the interval and the distance of an earlier one are over.
turn_end :
    (d : Ratio) (xs ys zs : List ℕ) (k : ℕ) (c c' : Ratio)
    → 0 < d.den
    → ys ≡ xs ++ k ∷ zs
    → Measures (d.den * 2) (span (d.den * 2) (d.num * 2) xs + d.num) c
    → Measures (d.den * 2) (span (d.den * 2) (d.num * 2) ys + d.num) c'
    → (0 < (Ratio.add c (Ratio.add (Ratio.of_ℕ k) d)).den)
      × Le (Ratio.add c (Ratio.add (Ratio.of_ℕ k) d)) c'
turn_end d xs ys zs k c c' finite e m m' =
    let n = d.den * 2 in
    let whole =
      Ratio.add-Measures n _ _ _ _ m
        (Ratio.add-Measures n _ _ _ _ (Ratio.of_ℕ-Measures n k) (twice-Measures d finite)) in
    (
      whole.finite,
      Ratio.Le_of_Measures n _ _ _ _ (omega arith) whole m'
          (omega (arith, turns_follow n (d.num * 2) xs ys zs k e)),
    )

-- Where two exchanges of one cluster have agreed on the order of their turns, the set-ups of both intervals have
-- returned, both operations are in range, and the interval that the cluster has for the earlier exchange is the
-- one that this exchange has now, each operation of the earlier starts at least its base rate limit before any
-- operation of the later. A backoff changes the interval of an exchange without that of the cluster.
pub members_apart :
    (frames : ℕ) (s t : Scheduler) {s' t' : Scheduler} (i j : ℕ) (turns : TakesTurns s t)
    → exchange_interval s ≡ turns.mine.interval
    → init_interval frames s ≡ returns s'
    → init_interval frames t ≡ returns t'
    → InRange s i
    → InRange t j
    → Le (Ratio.add (start_in_turn s' i) (Ratio.of_ℕ (base_rate s'))) (start_in_turn t' j)
members_apart frames s t {s'} {t'} i j turns reported hs ht u w =
    let open_s =
      init_interval-SetUp frames s _ i turns.members hs u
        (length-pos turns.before turns.after turns.mine) in
    let open_t =
      init_interval-SetUp frames t _ j turns.members' ht w
        (length-pos turns.before' turns.after' turns.mine') in
    let d = s'.intra_cluster_distance in
    let same = (same_distance frames s t turns hs ht) in
    let (c, found, m) =
      start_of_turn s' d turns.before turns.after turns.mine refl (open_s.members ∙ turns.members)
        turns.external turns.is_mine open_s.cluster_finite in
    let (c', found', m') =
      start_of_turn t' d turns.before' turns.after' turns.mine' (sym same)
        (open_t.members ∙ turns.members') turns.external' turns.is_mine' open_s.cluster_finite in
    let (finite, ends) =
      turn_end d _ _ turns.between (exchange_interval s') c c' open_s.cluster_finite
        (turns.earlier
          ∙ ap (λ k. intervals turns.before ++ k ∷ turns.between)
              (sym (open_s.interval ∙ reported)))
        m m' in
    rw (start_in_turn-some s' i found, start_in_turn-some t' j found')
      (Ratio.Le_trans _ _ _ finite
        (turn_lasts s' i c open_s.in_range open_s.interval_finite open_s.split)
        (Ratio.Le_trans _ c' _ m'.finite ends (Ratio.Le_add_self c' (start_in_window t' j))))

whole_turn : (a p d v : ℕ) → v ≡ p - a → a ≤ p → a * (d * 2) + d * (v * 2) ≡ p * (d * 2)
whole_turn a p d v e h = omega (arith, ap (λ t. t * (d * 2)) total)
  where
    total : a + v ≡ p
    total = omega arith

last_turn_room :
    (a n d v p x k y : ℕ)
    → x + (k * n + v * 2 + y) ≡ a * n + d * (v * 2)
    → a * n + d * (v * 2) ≡ p * n
    → x + v + (k * n + v * 2) ≤ p * n + v
last_turn_room a n d v p x k y e f = omega arith

last_turn_ends :
    (d : Ratio) (xs ys : List ℕ) (k p : ℕ) (c : Ratio)
    → 0 < d.den
    → d.num ≡ p - sum (xs ++ k ∷ ys)
    → d.den ≡ length (xs ++ k ∷ ys)
    → sum (xs ++ k ∷ ys) ≤ p
    → Measures (d.den * 2) (span (d.den * 2) (d.num * 2) xs + d.num) c
    → (0 < (Ratio.add c (Ratio.add (Ratio.of_ℕ k) d)).den)
      × Le (Ratio.add c (Ratio.add (Ratio.of_ℕ k) d)) (Ratio.add (Ratio.of_ℕ p) (Ratio.div d 2))
last_turn_ends d xs ys k p c finite num den fits m =
    let n = d.den * 2 in
    let whole =
      Ratio.add-Measures n _ _ _ _ m
        (Ratio.add-Measures n _ _ _ _ (Ratio.of_ℕ-Measures n k) (twice-Measures d finite)) in
    let end =
      Ratio.add-Measures n _ _ _ _ (Ratio.of_ℕ-Measures n p)
        (Ratio.div-Measures n _ d.num 2 d (omega arith) refl (twice-Measures d finite)) in
    (
      whole.finite,
      Ratio.Le_of_Measures n _ _ _ _ (omega arith) whole end (
          last_turn_room (sum (xs ++ k ∷ ys)) n d.den d.num p _ k (span n (d.num * 2) ys)
            (sym (span-append n (d.num * 2) xs (k ∷ ys))
              ∙ span-sum n (d.num * 2) (xs ++ k ∷ ys)
              ∙ ap (λ l. sum (xs ++ k ∷ ys) * n + l * (d.num * 2)) (sym den))
            (whole_turn (sum (xs ++ k ∷ ys)) p d.den d.num num fits)),
    )

-- Where the set-up of the interval has returned, the operation is in range, and the interval that the cluster has
-- for this exchange, its own member in the list, is the one that it has now, one run of the cron task does not
-- reach into the next: an operation's start and its base rate come to no more than the precise interval and half
-- a distance, at which the first exchange of the cluster starts in the next run.
pub turn_within_interval :
    (frames : ℕ) (s : Scheduler) {t : Scheduler} (before after : List ClusterMember)
    (mine : ClusterMember) (i : ℕ)
    → s.cluster_members ≡ some (before ++ mine ∷ after)
    → All IsExternal before
    → is_self mine ≡ true
    → exchange_interval s ≡ mine.interval
    → init_interval frames s ≡ returns t
    → InRange s i
    → Le (Ratio.add (start_in_turn t i) (Ratio.of_ℕ (base_rate t))) (
        Ratio.add (Ratio.of_ℕ t.precise_normalized_interval) (Ratio.div t.intra_cluster_distance 2))
turn_within_interval frames s {t} before after mine i members external is_mine reported h u =
    let members_ = before ++ mine ∷ after in
    let open_t = init_interval-SetUp frames s _ i members h u (length-pos before after mine) in
    let d = t.intra_cluster_distance in
    let tuned_ = init_interval-IsTuned frames s _ members h in
    let (c, found, m) =
      start_of_turn t d before after mine refl (open_t.members ∙ members) external is_mine
        open_t.cluster_finite in
    let whole =
      map-append (λ (m : ClusterMember). m.interval) before (mine ∷ after)
      ∙ ap (λ k. intervals before ++ k ∷ intervals after) (sym (open_t.interval ∙ reported)) in
    let total = sum_intervals-sum members_ ∙ ap sum whole in
    let (finite, ends) =
      last_turn_ends d (intervals before) (intervals after) (exchange_interval t)
        t.precise_normalized_interval c open_t.cluster_finite
        (open_t.surplus ∙ ap (λ n. t.precise_normalized_interval - n) total)
        (open_t.shared ∙ sym (length-intervals members_) ∙ ap length whole)
        (subst (λ n. n ≤ t.precise_normalized_interval) total tuned_.fits) m in
    rw (start_in_turn-some t i found) (
      Ratio.Le_trans _ _ _ finite
        (turn_lasts t i c open_t.in_range open_t.interval_finite open_t.split) ends)
