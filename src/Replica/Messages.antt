-- ===== src/Replica/Messages.antt =====
-- The messages of ReplicaDiscoveryPolicy.js, and the states that they carry. A property that may be
-- absent is an `Option`; a rate limit multiplier of `none` is also the `-Infinity` of an empty
-- `Math.max`, which every reader drops as it drops an absent one.
use wolfram_price_feed_infra.Base.{ℕ, Option, List, Text}

pub record Sender : Type 0 where
  pub address : Text
  pub identity : Text

-- An entry of `clusterMembers` before it is normalised.
pub record Entry : Type 0 where
  pub address : Text
  pub identity : Text
  pub interval : ℕ

-- What `getCurrentState` puts in a STATUS message.
pub record StatusData : Type 0 where
  pub rate_limit_multiplier : ℕ
  pub cluster_member_interval : ℕ

pub record StatusMessage : Type 0 where
  pub data_ : StatusData
  pub from : Sender

-- The aggregated state that a SHARE message carries.
pub record ReplicaState : Type 0 where
  pub replica_members : Option (List Text)
  pub rate_limit_multiplier : Option ℕ
  pub cluster_members : Option (List Entry)

pub record ShareMessage : Type 0 where
  pub data_ : ReplicaState
  pub from : Sender

pub record CloseMessage : Type 0 where
  pub from : Sender
