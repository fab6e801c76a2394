-- ===== src/Scheduling.antt =====
-- When the collectors of an exchange run: lib/domain-collectors/infrastructure/schedulers.
pub mod Units
pub mod Scheduler
pub mod Interval
pub mod Delays
pub mod Lifecycle
pub mod Slots
pub mod Cluster
pub mod Turns
pub mod Historical
mod Examples
