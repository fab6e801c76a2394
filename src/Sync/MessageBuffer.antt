-- ===== src/Sync/MessageBuffer.antt =====
-- lib/domain-collectors/utils/MessageBuffer.js: messages gather until none has come for a while, and are
-- then handled together. The timer of `debounce` is part of the state.
use wolfram_price_feed_infra.Base.{Bool, true, false, List, [], ◌∷◌, ◌++◌}

pub record MessageBuffer (A : Type 0) : Type 0 where
  pub message_buffer : List A
  pub armed : Bool

module _ {A : Type 0} where
  unfoldable pub create : MessageBuffer A
  create = record { message_buffer = []; armed = false }

  -- The function that `debounce` returns: the timer starts anew.
  unfoldable pub process_buffer : MessageBuffer A → MessageBuffer A
  process_buffer b = record b { armed = true }

  unfoldable pub add_message : A → MessageBuffer A → MessageBuffer A
  unfolding process_buffer
  add_message m b = process_buffer (record b { message_buffer = b.message_buffer ++ m ∷ [] })

  unfoldable pub clean_buffer : MessageBuffer A → MessageBuffer A
  clean_buffer b = record b { message_buffer = [] }

  unfoldable pub use_buffer : MessageBuffer A → MessageBuffer A × List A
  unfolding clean_buffer
  use_buffer b = (clean_buffer b, b.message_buffer)
