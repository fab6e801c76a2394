-- ===== src/Network/Examples.antt =====
-- The theorems of this part at a concrete input: a new message and a limit of three retries.
use wolfram_price_feed_infra.Base.{ℕ, ◌≤◌, ◌≡◌, refl, Bool, none, some, [], ◌∷◌, ◌==◌}
use wolfram_price_feed_infra.Network.{Message, count_of, deliveries}
use wolfram_price_feed_infra.Network.Retries.{deliveries_bounded}

abbrev message : Message
message = record { content = 120 ∷ []; retry_count = none }

message-new : count_of message ≡ 1
unfolding count_of
message-new = refl

-- The second delivery succeeds.
abbrev second_time : Message → Bool
second_time m = count_of m == 2

deliveries_bounded_example : (n : ℕ) × (deliveries 4 3 second_time message ≡ some n) × (n ≤ 4)
deliveries_bounded_example = deliveries_bounded 3 second_time message message-new
