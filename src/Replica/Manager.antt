-- ===== src/Replica/Manager.antt =====
-- ReplicaStateManager.js over its three reducers, and the share and close phases of
-- ReplicaDiscoveryPolicy.js. The objects of the reducers have different properties, so the spread of
-- one over the other is the record of all.
pub mod Repeats
pub mod Shares
use wolfram_price_feed_infra.Base.{
  ℕ, Bool, true, false, ◌||◌, Option, none, some, List, Text, get_or, if◌then◌else◌, Completion,
  returns, throws, ◌>>=◌, type_error,
}
use wolfram_price_feed_infra.Scheduling.Scheduler.{ClusterMember, Scheduler, get_interval_size}
use wolfram_price_feed_infra.Replica.Messages.{
  Entry, StatusData, StatusMessage, ReplicaState, ShareMessage, CloseMessage,
}
use wolfram_price_feed_infra.Replica.Members.{Members, Placement}
use wolfram_price_feed_infra.Replica.Members
use wolfram_price_feed_infra.Replica.RateLimit
use wolfram_price_feed_infra.Replica.Cluster.{Cluster}
use wolfram_price_feed_infra.Replica.Cluster

-- The reducers of one replica, and the multiplier of its internal scheduler.
pub record Replica : Type 0 where
  pub members : Members
  pub cluster : Cluster
  pub rate_limit_multiplier : ℕ

-- What `marketsManager.start` and `reloadActive` are given.
pub record NormalizedState : Type 0 where
  pub placement : Option Placement
  pub rate_limit_multiplier : Option ℕ
  pub cluster_members : List ClusterMember

unfoldable pub get_current_state : Scheduler → StatusData
get_current_state s = record {
  rate_limit_multiplier = s.rate_limit_multiplier;
  cluster_member_interval = get_interval_size s;
}

module _ (locale_leb : Text → Text → Bool) where
  unfoldable pub aggregate_state : Replica → List StatusMessage → Replica × ReplicaState
  aggregate_state r messages =
      let (members, addresses) = Members.aggregate_state r.members messages in
      let (cluster, entries) = Cluster.aggregate_state locale_leb r.cluster messages in
      (
        record r { members = members; cluster = cluster },
        record {
          replica_members = some addresses;
          rate_limit_multiplier = RateLimit.aggregate_state messages;
          cluster_members = some entries;
        },
      )

  -- The cluster's reducer reads `clusterMembers` without a test, and throws where it is absent.
  unfoldable pub normalize_state : Replica → ReplicaState → Completion NormalizedState
  normalize_state r state = elim state.cluster_members [
    | none ↦ throws type_error
    | some entries ↦ returns (record {
      placement = Members.normalize_state r.members state.replica_members;
      rate_limit_multiplier = RateLimit.normalize_state state.rate_limit_multiplier;
      cluster_members = Cluster.normalize_state locale_leb r.cluster entries;
    })
  ]

  -- The cluster's reducer throws where a share has no `clusterMembers`.
  unfoldable pub aggregate_share_state : Replica → List ShareMessage → Completion ReplicaState
  aggregate_share_state r messages =
      Cluster.aggregate_share_state locale_leb messages >>= λ entries. returns (record {
        replica_members =
            Members.sanitize_share_state r.members
              (Members.aggregate_share_state r.members messages);
        rate_limit_multiplier =
            RateLimit.sanitize_share_state r.rate_limit_multiplier
              (RateLimit.aggregate_share_state messages);
        cluster_members = Cluster.sanitize_share_state r.cluster entries;
      })

-- `some` over the votes of the reducers.
unfoldable pub should_reload : Replica → ReplicaState → Bool
should_reload r state =
    Members.should_reload r.members state.replica_members
    || (RateLimit.should_reload r.rate_limit_multiplier state.rate_limit_multiplier
        || Cluster.should_reload r.cluster state.cluster_members)

unfoldable pub update_state : Replica → ReplicaState → Replica
update_state r state = record r {
  members = Members.update_state r.members state.replica_members;
  cluster = Cluster.update_state r.cluster state.cluster_members;
}

-- The reload hands the multiplier to the internal scheduler.
unfoldable pub reload_active : Replica → NormalizedState → Replica
reload_active r n = record r {
  rate_limit_multiplier = get_or n.rate_limit_multiplier r.rate_limit_multiplier;
}

-- `none` where `null.filter` throws; the state is then as the first reducer left it.
unfoldable pub aggregate_close_state : Replica → List CloseMessage → Option (Replica × ReplicaState)
aggregate_close_state r messages = elim (Members.aggregate_close_state r.members messages) [
  | none ↦ none
  | some (members, addresses) ↦ elim (Cluster.aggregate_close_state r.cluster messages) [
    | none ↦ none
    | some (cluster, entries) ↦ some (
      record r { members = members; cluster = cluster },
      record {
        replica_members = some addresses;
        rate_limit_multiplier = none;
        cluster_members = some entries;
      },
    )
  ]
]

-- The replica after a phase, and what it was reloaded with, or what the phase threw.
pub record Outcome : Type 0 where
  pub replica : Replica
  pub reload : Completion (Option NormalizedState)

abbrev pub reloaded : Replica → Completion NormalizedState → Outcome
reloaded r (returns n) = record { replica = reload_active r n; reload = returns (some n) }
reloaded r (throws e) = record { replica = r; reload = throws e }

module _ (locale_leb : Text → Text → Bool) where
  -- What follows the aggregation of the shares.
  abbrev pub take_in : Replica → Completion ReplicaState → Outcome
  take_in r (throws e) = record { replica = r; reload = throws e }
  take_in r (returns state) =
      let updated = update_state r state in
      if should_reload r state
      then reloaded updated (normalize_state locale_leb updated state)
      else (record { replica = r; reload = returns none })

  -- The body between the acquisition and the release of the mutex, on the messages of the buffer.
  unfoldable pub handle_share_message : Replica → List ShareMessage → Outcome
  handle_share_message r messages = take_in r (aggregate_share_state locale_leb r messages)

  unfoldable pub handle_close_message : Replica → List CloseMessage → Outcome
  handle_close_message r messages = elim (aggregate_close_state r messages) [
    | none ↦ record { replica = r; reload = throws type_error }
    | some (updated, state) ↦ reloaded updated (normalize_state locale_leb updated state)
  ]
