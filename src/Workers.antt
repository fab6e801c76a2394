-- ===== src/Workers.antt =====
-- lib/workers/amqp: the workers that take messages from the queues.
pub mod Worker
pub mod Writer
pub mod Once
pub mod Aggregator
pub mod Tasks
mod Examples
