-- ===== src/Workers/Worker.antt =====
-- lib/workers/amqp/BaseAMQPWorker.js: a worker and its retries. What a worker does with a message's data is a
-- parameter: how it ends. A content that is no JSON text throws as well.
use wolfram_price_feed_infra.Base.{
  ℕ, ◌+◌, ◌≡◌, refl, inl, inr, Bool, true, false, none, some, leb, if◌then◌else◌, Completion,
  returns, throws, Completion-cases, Text,
}
use wolfram_price_feed_infra.Network.{Message, Handled, count_of, consumer, deliveries}
use wolfram_price_feed_infra.Network

-- The messages are those of Network, with their content and the header `retryCount`.
unfoldable pub handle_retry : ℕ → Message → Handled
handle_retry retry_limit m =
    let retry_count = count_of m in
    if leb retry_count retry_limit
    then (record {
      republished = some (record m { retry_count = some (retry_count + 1) });
      discarded = false;
      acks = 1;
    })
    else (record { republished = none; discarded = true; acks = 1 })

unfoldable pub process : ℕ → (Text → Completion {0} Unit) → Message → Handled
unfolding handle_retry
process retry_limit execute m = elim (execute m.content) [
  | returns _ ↦ record { republished = none; discarded = false; acks = 1 }
  | throws _ ↦ handle_retry retry_limit m
]

abbrev pub succeeded : Completion {0} Unit → Bool
succeeded (returns _) = true
succeeded (throws _) = false

-- A worker treats a message as a network does, so that what Network shows of the deliveries holds of it.
pub process-consumer :
    (retry_limit : ℕ) (execute : Text → Completion {0} Unit) (m : Message)
    → process retry_limit execute m ≡ consumer retry_limit (λ k. succeeded (execute k.content)) m
unfolding process handle_retry consumer Network.handle_retry
process-consumer retry_limit execute m = elim (Completion-cases (execute m.content)) [
  | inl (_, done) ↦ rw (done, process) refl
  | inr (e, thrown) ↦ rw (thrown, process) refl
]
