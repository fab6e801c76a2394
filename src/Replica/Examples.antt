-- ===== src/Replica/Examples.antt =====
-- The theorems of this part at concrete inputs: two replicas of one exchange and one of another.
use mathlib.Core.List.{Permᴰ}
use mathlib.Core.Bool.{false≢true}
use wolfram_price_feed_infra.Base.{
  ℕ, ◌<◌, ◌≡◌, ◌≢◌, refl, sym, ap, ◌⊎◌, some, none, List, [], ◌∷◌, Text, text_eq, text_leb, returns,
  throws, type_error, arith,
}
use wolfram_price_feed_infra.Scheduling.Scheduler.{Options, Scheduler}
use wolfram_price_feed_infra.Scheduling.Scheduler
use wolfram_price_feed_infra.Scheduling.Cluster.{TakesTurns}
use wolfram_price_feed_infra.Replica.Messages.{Entry, StatusMessage, ShareMessage}
use wolfram_price_feed_infra.Replica.Members.{Members, Placement}
use wolfram_price_feed_infra.Replica.Members
use wolfram_price_feed_infra.Replica.Members.Positions.{
  instance_positions_differ, aggregate_state-perm,
}
use wolfram_price_feed_infra.Replica.Cluster.{Cluster}
use wolfram_price_feed_infra.Replica.Cluster
use wolfram_price_feed_infra.Replica.Cluster.Turns.{normalized-TakesTurns}
use wolfram_price_feed_infra.Replica.RateLimit
use wolfram_price_feed_infra.Replica.Manager.{Replica, handle_share_message}
use wolfram_price_feed_infra.Replica.Manager.Shares.{Named, share_adopted}
use wolfram_price_feed_infra.Replica.Manager.Repeats.{share_twice, share_without_cluster}

abbrev exchange : Text
exchange = 120 ∷ []

abbrev other_exchange : Text
other_exchange = 121 ∷ []

abbrev left : Text
left = 97 ∷ []

abbrev right : Text
right = 98 ∷ []

abbrev far : Text
far = 99 ∷ []

left≢right : left ≢ right
left≢right e = absurd (false≢true (sym (ap (λ t. text_eq t left) e)))

exchange≢other : exchange ≢ other_exchange
exchange≢other e = absurd (false≢true (sym (ap (λ t. text_eq t exchange) e)))

abbrev members : Text → Members
members address = record { identity = exchange; address = address; replica_members = none }

instance_positions_differ_example :
    (i : ℕ) × (j : ℕ) × (Members.normalize_state (members left) (some (left ∷ right ∷ []))
      ≡ some (record { replica_size = 2; instance_position = some i }))
    × (Members.normalize_state (members right) (some (left ∷ right ∷ []))
        ≡ some (record { replica_size = 2; instance_position = some j }))
    × (i < 2)
    × (j < 2)
    × (i ≢ j)
instance_positions_differ_example =
    instance_positions_differ (members left) (members right) (left ∷ right ∷ []) refl refl
      left≢right

abbrev status : Text → StatusMessage
status address = record {
  data_ = record { rate_limit_multiplier = 1; cluster_member_interval = 3300 };
  from = record { address = address; identity = exchange };
}

aggregate_state-perm_example :
    Members.aggregate_state (members left) (status left ∷ status right ∷ [])
    ≡ Members.aggregate_state (members left) (status right ∷ status left ∷ [])
aggregate_state-perm_example =
    aggregate_state-perm (members left) (status left ∷ status right ∷ [])
      (status right ∷ status left ∷ []) ∣ Permᴰ.swap refl refl ∣₁

abbrev entries : List Entry
entries =
    (record { address = left; identity = exchange; interval = 3300 })
    ∷ (record { address = right; identity = exchange; interval = 3300 })
    ∷ (record { address = far; identity = other_exchange; interval = 6600 })
    ∷ []

abbrev cluster : Text → Text → Cluster
cluster identity address = record { identity = identity; address = address; cluster_members = none }

abbrev scheduler : Cluster → Scheduler
scheduler c = Scheduler.new (record {
  base_rate_limit = 100;
  rate_limit_margin = 10;
  rate_limit_multiplier = none;
  queue_position = 0;
  queue_size = 5;
  replica_size = none;
  instance_position = none;
  base_sleep_reload_time = none;
  operations = none;
  cluster_members = some (Cluster.normalize_state text_leb c entries);
})

normalized-TakesTurns_example :
    TakesTurns (scheduler (cluster exchange left)) (scheduler (cluster other_exchange far))
    ⊎ TakesTurns (scheduler (cluster other_exchange far)) (scheduler (cluster exchange left))
unfolding Scheduler.new
normalized-TakesTurns_example =
    normalized-TakesTurns text_leb (cluster exchange left) (cluster other_exchange far) entries
      (scheduler (cluster exchange left)) (scheduler (cluster other_exchange far)) exchange≢other
      refl refl refl refl

abbrev replica : Replica
replica = record {
  members = members left;
  cluster = cluster exchange left;
  rate_limit_multiplier = 1;
}

abbrev shares : List ShareMessage
shares =
    (record {
      data_ = record {
        replica_members = some (left ∷ right ∷ []);
        rate_limit_multiplier = some 4;
        cluster_members = some entries;
      };
      from = record { address = right; identity = exchange };
    })
    ∷ []

replica-Named : Named text_leb replica shares (left ∷ right ∷ []) entries 4
unfolding Members.aggregate_share_state Cluster.aggregate_share_state
    RateLimit.aggregate_share_state
replica-Named = record {
  addresses = refl;
  listed = refl;
  entries = refl;
  entered = refl;
  multiplier = refl;
}

share_adopted_example :
    let r' = (handle_share_message text_leb replica shares).replica in
    (r'.members.replica_members ≡ some (left ∷ right ∷ []))
    × (r'.cluster.cluster_members ≡ some entries)
    × (r'.rate_limit_multiplier ≡ 4)
share_adopted_example =
    share_adopted text_leb replica shares (left ∷ right ∷ []) entries 4 replica-Named

share_twice_example :
    let r' = (handle_share_message text_leb replica shares).replica in
    handle_share_message text_leb r' shares ≡ record { replica = r'; reload = returns none }
share_twice_example =
    share_twice text_leb replica shares (left ∷ right ∷ []) entries 4 replica-Named

-- A replica of a third address, which the shares do not know yet.
abbrev newcomer : Replica
newcomer = record {
  members = members far;
  cluster = cluster exchange (100 ∷ []);
  rate_limit_multiplier = 1;
}

share_without_cluster_example :
    ((handle_share_message text_leb newcomer shares).reload ≡ throws type_error)
    × ((handle_share_message text_leb newcomer shares).replica.rate_limit_multiplier ≡ 1)
unfolding Cluster.aggregate_share_state RateLimit.aggregate_share_state
share_without_cluster_example =
    share_without_cluster text_leb newcomer shares entries 4 refl refl refl (omega arith)
