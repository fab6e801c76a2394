-- ===== src/Network/Retries.antt =====
-- How often a message is processed, and that each delivery is acknowledged once.
use wolfram_price_feed_infra.Base.{
  ℕ, zero, suc, ◌+◌, ◌-◌, ◌≤◌, ◌<◌, ◌≡◌, refl, ap, ◌∙◌, inl, inr, Bool, true, false, none, some,
  leb, leb→le, ◌==◌, if◌then◌else◌, arith, Bool-cases,
}
use wolfram_price_feed_infra.Network.{Message, count_of, handle_retry, consumer, deliveries}

again : Message → Message
again m = record m { retry_count = some (count_of m + 1) }

count_of-again : (m : Message) → count_of (again m) ≡ count_of m + 1
unfolding count_of again
count_of-again m = positive (count_of m)
  where
    positive : (n : ℕ) → (if n + 1 == 0 then 1 else n + 1) ≡ n + 1
    positive n = ground arith

republished_failed :
    (limit : ℕ) (process : Message → Bool) (m : Message)
    → process m ≡ false
    → (consumer limit process m).republished
      ≡ (if leb (count_of m) limit then some (again m) else none)
unfolding consumer handle_retry again
republished_failed limit process m h = rw h (elim (Bool-cases (leb (count_of m) limit)) [
  | inl more ↦ rw more refl
  | inr last ↦ rw last refl
])

republished_done :
    (limit : ℕ) (process : Message → Bool) (m : Message)
    → process m ≡ true
    → (consumer limit process m).republished ≡ none
unfolding consumer
republished_done limit process m h = rw h refl

not_leb : (a b : ℕ) → leb a b ≡ false → b < a
not_leb a b e = ground arith

failed_from :
    (fuel limit : ℕ) (process : Message → Bool) (m : Message)
    → ((m : Message) → process m ≡ false)
    → 0 < fuel
    → limit + 1 < count_of m + fuel
    → deliveries fuel limit process m ≡ some (limit + 1 - count_of m + 1)
unfolding deliveries
failed_from zero limit process m h pos k = absurd (omega (arith, pos))
failed_from (suc fuel) limit process m h pos k =
    rw (republished_failed limit process m (h m), deliveries)
      (elim (Bool-cases (leb (count_of m) limit)) [
        | inl more ↦
            let below = leb→le (count_of m) limit more in
            rw
              (
                more,
                failed_from fuel limit process (again m) h (omega (arith, k, below))
                    (omega (arith, k, count_of-again m)),
              )
              (ap some (omega (arith, below, count_of-again m)))
        | inr last ↦ rw last (ap some (omega (arith, not_leb (count_of m) limit last)))
      ])

delivered_from :
    (fuel limit : ℕ) (process : Message → Bool) (m : Message)
    → 0 < fuel
    → limit + 1 < count_of m + fuel
    → (n : ℕ) × (deliveries fuel limit process m ≡ some n) × (n ≤ limit + 1 - count_of m + 1)
unfolding deliveries
delivered_from zero limit process m pos k = absurd (omega (arith, pos))
delivered_from (suc fuel) limit process m pos k = elim (Bool-cases (process m)) [
  | inl done ↦ rw (republished_done limit process m done, deliveries) (1, refl, omega arith)
  | inr failed ↦ elim (Bool-cases (leb (count_of m) limit)) [
    | inl more ↦
        let below = leb→le (count_of m) limit more in
        let (n, e, bound) =
          delivered_from fuel limit process (again m) (omega (arith, k, below))
            (omega (arith, k, count_of-again m)) in
        rw (republished_failed limit process m failed, more, deliveries)
          (rw e (suc n, refl, omega (arith, bound, below, count_of-again m)))
    | inr last ↦
        rw (republished_failed limit process m failed, last, deliveries) (1, refl, omega arith)
  ]
]

-- A new message is delivered at most once more than the limit of the retries, whatever becomes of each
-- delivery; that many units of fuel are enough.
pub deliveries_bounded :
    (limit : ℕ) (process : Message → Bool) (m : Message)
    → count_of m ≡ 1
    → (n : ℕ) × (deliveries (limit + 1) limit process m ≡ some n) × (n ≤ limit + 1)
deliveries_bounded limit process m new =
    let (n, e, bound) =
      delivered_from (limit + 1) limit process m (omega arith) (omega (arith, new)) in
    (n, e, omega (arith, bound, new))

-- A new message that always fails is delivered exactly once more than the limit of the retries.
pub deliveries_exhausted :
    (limit : ℕ) (process : Message → Bool) (m : Message)
    → count_of m ≡ 1
    → ((m : Message) → process m ≡ false)
    → deliveries (limit + 1) limit process m ≡ some (limit + 1)
deliveries_exhausted limit process m new h =
    failed_from (limit + 1) limit process m h (omega arith) (omega (arith, new))
    ∙ ap some (omega (arith, new))
