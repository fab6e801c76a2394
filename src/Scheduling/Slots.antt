-- ===== src/Scheduling/Slots.antt =====
-- The operations of one exchange, over its markets and replicas, run in numbered slots that are a
-- rate limit apart.
use native.Mathlib.Decide.{dec_lt}
use wolfram_price_feed_infra.Base.{
  ℕ, ◌+◌, ◌*◌, ◌≤◌, ◌<◌, ◌≡◌, refl, ◌≢◌, length, arith, sym, subst, ap, ap₂, ◌∙◌, ℕ_discrete,
}
use wolfram_price_feed_infra.Base.Ratio.{Ratio, Measures, Le}
use wolfram_price_feed_infra.Base.Ratio
use wolfram_price_feed_infra.Scheduling.Scheduler.{
  Scheduler, base_rate, rate_limit, get_interval_size,
}
use wolfram_price_feed_infra.Scheduling.Delays.{
  get_operation_delay, get_operations_batch_delay, start_in_window,
}

-- The number of slots, and the slot of an operation by its position in the market's list.
abbrev pub slot_count : Scheduler → ℕ
slot_count s = s.queue_size * length s.operations * s.replica_size

abbrev pub slot : Scheduler → ℕ → ℕ
slot s i =
    s.queue_position * length s.operations * s.replica_size
    + (i + s.instance_position * length s.operations)

-- The first start, and a whole base rate after it, are no later than the second.
abbrev pub Precedes : Scheduler → ℕ → Scheduler → ℕ → Type 0
Precedes s i t j =
    Le (Ratio.add (start_in_window s i) (Ratio.of_ℕ (base_rate s))) (start_in_window t j)

pub record InRange (s : Scheduler) (i : ℕ) : Type 0 where
  pub queued : s.queue_position < s.queue_size
  pub placed : s.instance_position < s.replica_size
  pub listed : i < length s.operations

-- Two schedulers of one exchange, on one replica or two, with the same configuration.
pub record SameExchange (s t : Scheduler) : Type 0 where
  pub rate : base_rate s ≡ base_rate t
  pub distance : s.intra_interval_distance ≡ t.intra_interval_distance
  pub operation_count : length s.operations ≡ length t.operations
  pub replicas : s.replica_size ≡ t.replica_size

rate_limit-Measures :
    (n v : ℕ) (s : Scheduler)
    → Measures n v s.intra_interval_distance
    → Measures n (base_rate s * n + v) (rate_limit s)
unfolding rate_limit
rate_limit-Measures n v s h = Ratio.add-Measures n _ v _ _ (Ratio.of_ℕ-Measures n (base_rate s)) h

slot_value : (r q k m i p : ℕ) → r * q * k * m + (r * i + r * p * k) ≡ r * (q * k * m + (i + p * k))
slot_value r q k m i p = omega arith

-- An operation starts a multiple of the rate limit into the window.
pub start_in_window-Measures :
    (n v : ℕ) (s : Scheduler) (i : ℕ)
    → Measures n v s.intra_interval_distance
    → Measures n ((base_rate s * n + v) * slot s i) (start_in_window s i)
unfolding start_in_window get_operation_delay get_operations_batch_delay
start_in_window-Measures n v s i h =
    let r = base_rate s * n + v in
    let rate = rate_limit-Measures n v s h in
    let k = length s.operations in
    let batch =
      Ratio.scale-Measures n _ s.replica_size _
        (Ratio.scale-Measures n _ k _ (Ratio.scale-Measures n r s.queue_position _ rate)) in
    let operation =
      Ratio.add-Measures n _ _ _ _ (Ratio.scale-Measures n r i _ rate)
        (Ratio.scale-Measures n _ k _ (Ratio.scale-Measures n r s.instance_position _ rate)) in
    subst (λ w. Measures n w (start_in_window s i))
      (slot_value r s.queue_position k s.replica_size i s.instance_position)
      (Ratio.add-Measures n _ _ _ _ batch operation)

-- A quotient measures itself in units of its own denominator.
own-Measures : (r : Ratio) → 0 < r.den → Measures r.den r.num r
own-Measures r h = record { finite = h; exact = refl }

digit_lt : (m a b x y : ℕ) → x < m → a < b → a * m + x < b * m + y
digit_lt m a b x y h k = omega (arith, grow (a + 1) b (omega arith))
  where
    grow : (a b : ℕ) → a ≤ b → a * m ≤ b * m
    grow a b h = grind arith

-- A number has one representation by a digit below the base.
digits_unique : (m a b x y : ℕ) → x < m → y < m → a * m + x ≡ b * m + y → (a ≡ b) × (x ≡ y)
digits_unique m a b x y h k e = elim (ℕ_discrete a b) [
  | yes same ↦ (same, omega (arith, ap (λ (t : ℕ). t * m) same))
  | no other ↦ absurd (elim (dec_lt a b) [
    | yes lt ↦ omega (arith, digit_lt m a b x y h lt)
    | no ge ↦ omega (arith, digit_lt m b a y x k (omega arith))
  ])
]

inner_lt : (k m p i : ℕ) → i < k → p < m → i + p * k < k * m
inner_lt k m p i h l = omega (arith, digit_lt k p m i 0 h l)

-- A slot's number determines the market, the replica and the place.
slots_unique :
    (k m q p i q' p' j : ℕ)
    → i < k
    → p < m
    → j < k
    → p' < m
    → q * k * m + (i + p * k) ≡ q' * k * m + (j + p' * k)
    → (q ≡ q') × (p ≡ p') × (i ≡ j)
slots_unique k m q p i q' p' j hi hp hj hp' e =
    let (queue, inner) =
      digits_unique (k * m) q q' (i + p * k) (j + p' * k) (inner_lt k m p i hi hp)
        (inner_lt k m p' j hj hp') (omega arith) in
    let inner_ : i + p * k ≡ j + p' * k = inner in
    let (place, operation) = digits_unique k p p' i j hi hj (omega arith) in
    (queue, place, operation)

room : (b v x y : ℕ) → x < y → (b + v) * x + b ≤ (b + v) * y
room b v x y h = omega (arith, grow (x + 1) y (b + v) (omega arith))
  where
    grow : (a b m : ℕ) → a ≤ b → m * a ≤ m * b
    grow a b m h = grind arith

module _ {s t : Scheduler} (same : SameExchange s t) where
  -- Operations of different markets, replicas or places have different slots.
  pub slot_ne :
      {i j : ℕ}
      → InRange s i
      → InRange t j
      → ¬ (
          (s.queue_position ≡ t.queue_position)
          × (s.instance_position ≡ t.instance_position)
          × (i ≡ j))
      → slot s i ≢ slot t j
  slot_ne {i} {j} u v differ e = differ (
      slots_unique (length s.operations) s.replica_size s.queue_position s.instance_position i
        t.queue_position t.instance_position j u.listed u.placed
        (rw (same.operation_count) v.listed) (rw (same.replicas) v.placed)
        (e
          ∙ ap₂ (λ (k m : ℕ). t.queue_position * k * m + (j + t.instance_position * k))
              (sym same.operation_count) (sym same.replicas)))

  -- An operation in an earlier slot is over by the base rate before a later one starts.
  pub apart_of_slot_lt :
      (i j : ℕ) → 0 < s.intra_interval_distance.den → slot s i < slot t j → Precedes s i t j
  apart_of_slot_lt i j finite lt =
      let d = s.intra_interval_distance in
      let own = own-Measures d finite in
      let own' = subst (Measures d.den d.num) same.distance own in
      Ratio.Le_of_Measures d.den _ _ _ _ finite
        (Ratio.add-Measures d.den _ _ _ _ (start_in_window-Measures d.den d.num s i own)
          (Ratio.of_ℕ-Measures d.den (base_rate s)))
        (start_in_window-Measures d.den d.num t j own')
        (rw (← same.rate) (room (base_rate s * d.den) d.num (slot s i) (slot t j) lt))

slot-lt-slot_count : (s : Scheduler) (i : ℕ) → InRange s i → slot s i < slot_count s
slot-lt-slot_count s i u = omega (
  arith,
  digit_lt (length s.operations * s.replica_size) s.queue_position s.queue_size
      (i + s.instance_position * length s.operations) 0
      (inner_lt (length s.operations) s.replica_size s.instance_position i u.listed u.placed)
      u.queued,
)

-- The interval that the replicas of an exchange take together, as each of them reports its own.
abbrev pub exchange_interval : Scheduler → ℕ
exchange_interval s = s.replica_size * get_interval_size s

window_room :
    (b n v q k m x : ℕ)
    → x < q * k * m
    → (b * n + v) * x + b * n ≤ m * (b * q * k) * n + v * (q * k * m)
window_room b n v q k m x h = omega (arith, room (b * n) v x (q * k * m) h)

pub operations_within_window :
    (s : Scheduler) (i : ℕ)
    → InRange s i
    → 0 < s.intra_interval_distance.den
    → s.intra_interval_distance ≡ Ratio.div s.intra_cluster_distance (slot_count s)
    → Le
        (Ratio.add (start_in_window s i) (Ratio.of_ℕ (base_rate s)))
        (Ratio.add (Ratio.of_ℕ (exchange_interval s)) s.intra_cluster_distance)
unfolding get_interval_size
operations_within_window s i u finite split =
    let own = own-Measures s.intra_interval_distance finite in
    let n = s.intra_interval_distance.den in
    let v = s.intra_interval_distance.num in
    Ratio.Le_of_Measures n _ _ _ _ finite
      (Ratio.add-Measures n _ _ _ _ (start_in_window-Measures n v s i own)
        (Ratio.of_ℕ-Measures n (base_rate s)))
      (Ratio.add-Measures n _ (v * slot_count s) _ _ (Ratio.of_ℕ-Measures n (exchange_interval s)) (
        Ratio.div-undo s.intra_cluster_distance s.intra_interval_distance (slot_count s) finite
          split))
      (window_room (base_rate s) n v s.queue_size (length s.operations) s.replica_size (slot s i)
        (slot-lt-slot_count s i u))
