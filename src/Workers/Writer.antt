-- ===== src/Workers/Writer.antt =====
-- lib/workers/amqp/database-writer/BaseMarketRecordWriter.js: records of the markets go to the database once,
-- and to the clients as they are new. `findOrCreate` of the database is part of the state's operations.
use wolfram_price_feed_infra.Base.{
  ℕ, Bool, true, false, List, [], ◌∷◌, ◌++◌, Text, ◌==◌, if◌then◌else◌, any,
}

-- `content` is the rest of the payload.
pub record Payload : Type 0 where
  pub interval_start : ℕ
  pub interval_end : ℕ
  pub market_id : ℕ
  pub content : Text

pub record Data : Type 0 where
  pub exchange : Text
  pub symbol : Text
  pub payload : Payload
  pub collector_trace_id : Text

-- What goes to the queue of the clients.
pub record Announcement : Type 0 where
  pub exchange : Text
  pub symbol : Text
  pub payload : Payload
  pub type : Text
  pub collector_trace_id : Text

pub record Writer : Type 0 where
  pub type : Text
  pub rows : List Payload
  pub announced : List Announcement

-- The condition `where`: the interval and the market.
abbrev pub same_key : Payload → Payload → Bool
same_key p q =
    if p.interval_start == q.interval_start
    then (if p.interval_end == q.interval_end then p.market_id == q.market_id else false)
    else false

-- The rows after `findOrCreate`, and whether it created one.
unfoldable pub find_or_create : Payload → List Payload → List Payload × Bool
find_or_create p rows = if any (same_key p) rows then (rows, false) else (rows ++ p ∷ [], true)

abbrev pub announcement : Text → Data → Announcement
announcement type d = record {
  exchange = d.exchange;
  symbol = d.symbol;
  payload = d.payload;
  type = type;
  collector_trace_id = d.collector_trace_id;
}

-- What follows, on the rows and on whether one was created.
abbrev pub taken : Data → Writer → List Payload × Bool → Writer
taken d w (rows, created) =
    if created
    then (record w { rows = rows; announced = w.announced ++ announcement w.type d ∷ [] })
    else (record w { rows = rows })

unfoldable pub execute : Data → Writer → Writer
unfolding find_or_create
execute d w = taken d w (find_or_create d.payload w.rows)

-- A sequence of deliveries.
abbrev pub execute_all : List Data → Writer → Writer
execute_all [] w = w
execute_all (d ∷ ds) w = execute_all ds (execute d w)
