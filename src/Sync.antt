-- ===== src/Sync.antt =====
-- lib/domain-collectors/utils: the mutex that guards the managers and the phases, and the buffer of messages.
pub mod TimeoutMutex
pub mod Exclusion
pub mod MessageBuffer
pub mod Handled
mod Examples
