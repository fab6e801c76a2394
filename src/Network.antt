-- ===== src/Network.antt =====
-- lib/domain-collectors/infrastructure/amqp-networks/BaseAMQPNetwork.js: the consumer of a queue and its
-- retries. What a network does with a message is a parameter: whether it ends without an error. The
-- broker is one too: a message that is published to the retry queue comes back to the consumer after
-- its time to live, as its dead letter exchange and routing key say.
mod Examples
pub mod Retries
use wolfram_price_feed_infra.Base.{
  ℕ, zero, suc, ◌+◌, Bool, true, false, Option, none, some, List, [], ◌∷◌, Text, leb, ◌==◌,
  if◌then◌else◌,
}

-- The content, and the header `retryCount`, which a new message lacks.
pub record Message : Type 0 where
  pub content : Text
  pub retry_count : Option ℕ

-- What the consumer did with a message: what it published to the retry queue, whether it logged that
-- the message is discarded, and how often it acknowledged the message.
pub record Handled : Type 0 where
  pub republished : Option Message
  pub discarded : Bool
  pub acks : ℕ

-- `headers.retryCount || 1`.
unfoldable pub count_of : Message → ℕ
count_of m = elim m.retry_count [ none ↦ 1 | some n ↦ if n == 0 then 1 else n ]

unfoldable pub handle_retry : ℕ → Message → Handled
handle_retry retry_limit m =
    let retry_count = count_of m in
    if leb retry_count retry_limit
    then (record {
      republished = some (record m { retry_count = some (retry_count + 1) });
      discarded = false;
      acks = 1;
    })
    else (record { republished = none; discarded = true; acks = 1 })

unfoldable pub consumer : ℕ → (Message → Bool) → Message → Handled
consumer retry_limit process m =
    if process m
    then (record { republished = none; discarded = false; acks = 1 })
    else handle_retry retry_limit m

-- How often a message is delivered until it is not published again; `none` where the fuel ends first.
unfoldable pub deliveries : ℕ → ℕ → (Message → Bool) → Message → Option ℕ
deliveries zero retry_limit process m = none
deliveries (suc fuel) retry_limit process m = elim (consumer retry_limit process m).republished [
  | none ↦ some 1
  | some again ↦ elim (deliveries fuel retry_limit process again) [
    | none ↦ none
    | some n ↦ some (suc n)
  ]
]
