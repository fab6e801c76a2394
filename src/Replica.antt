-- ===== src/Replica.antt =====
-- How the replicas of the collectors agree on who runs what:
-- lib/domain-collectors/infrastructure/amqp-policies/lifecycle-policy.
pub mod Protocol
mod Examples
pub mod Messages
pub mod Members
pub mod RateLimit
pub mod Cluster
pub mod Manager
