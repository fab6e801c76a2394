-- ===== src/Markets.antt =====
-- The markets of one exchange: lib/domain-collectors/MarketsManager.js and CollectorsManager.js.
pub mod Collectors
pub mod Manager
pub mod Shared
pub mod Resolve
pub mod Load
pub mod Each
pub mod Single
pub mod Started
pub mod Running
pub mod Quiet
pub mod Reload
pub mod Lifetime
pub mod Backoff
pub mod Multiplier
mod Examples
