-- ===== src/Replica/Protocol/Examples.antt =====
-- The theorems on the starts of the markets at a concrete input: a replica that hears its own status.
use wolfram_price_feed_infra.Base.{
  suc, ◌+◌, ◌≤◌, ◌≡◌, refl, true, false, none, some, [], ◌∷◌, length, Text, text_leb, if◌then◌else◌,
  inr,
}
use wolfram_price_feed_infra.Scheduling.Scheduler.{Scheduler, new}
use wolfram_price_feed_infra.Sync.MessageBuffer.{add_message, process_buffer}
use wolfram_price_feed_infra.Replica.Messages.{Sender, StatusMessage}
use wolfram_price_feed_infra.Replica.Manager.{Replica}
use wolfram_price_feed_infra.Replica.Protocol.{
  Policy, status, init_policy, process, handle_status_message, broadcast_hello,
}
use wolfram_price_feed_infra.Replica.Protocol.Starts.{
  Run, begin, receive, greet, status_phase, started_once, started_again,
}

abbrev exchange : Text
exchange = 120 ∷ []

abbrev own : Sender
own = record { address = 97 ∷ []; identity = exchange }

abbrev replica : Replica
replica = record {
  members = record { identity = exchange; address = 97 ∷ []; replica_members = none };
  cluster = record { identity = exchange; address = 97 ∷ []; cluster_members = none };
  rate_limit_multiplier = 1;
}

abbrev scheduler : Scheduler
scheduler = new (record {
  base_rate_limit = 100;
  rate_limit_margin = 10;
  rate_limit_multiplier = none;
  queue_position = 0;
  queue_size = 5;
  replica_size = none;
  instance_position = none;
  base_sleep_reload_time = none;
  operations = some (1 ∷ 2 ∷ 3 ∷ []);
  cluster_members = none;
})

abbrev own_status : StatusMessage
own_status = record {
  data_ = record { rate_limit_multiplier = 1; cluster_member_interval = 1650 };
  from = own;
}

abbrev greeted : Policy
greeted = broadcast_hello (init_policy replica own)

abbrev heard : Policy
heard = process scheduler (status own_status) greeted

abbrev starting : Policy
starting = handle_status_message text_leb heard

heard-armed : heard.status_message_buffer.armed ≡ true
unfolding process init_policy broadcast_hello add_message process_buffer
heard-armed = refl

heard-idle : heard.starting ≡ []
unfolding process init_policy broadcast_hello
heard-idle = refl

starting-Run : Run text_leb false starting
starting-Run =
    status_phase (receive scheduler (status own_status) (greet (begin replica own))) heard-armed
      (inr heard-idle)

started_once_example :
    (length starting.starting + (if starting.has_started then 1 else 0) ≤ 1)
    × (starting.starts
        ≡ starting.failed_starts
          + (length starting.starting + (if starting.has_started then 1 else 0)))
started_once_example = started_once starting starting-Run

heard-unstarted : heard.has_started ≡ false
unfolding process init_policy broadcast_hello
heard-unstarted = refl

heard-Run : Run text_leb true heard
heard-Run = receive scheduler (status own_status) (greet (begin replica own))

abbrev late : Policy
late = process scheduler (status own_status) starting

started_again_example :
    Run text_leb true (handle_status_message text_leb late)
    × ((handle_status_message text_leb late).starts ≡ suc (suc heard.starts))
    × (length (handle_status_message text_leb late).starting ≡ suc (suc (length heard.starting)))
started_again_example =
    started_again scheduler own_status heard heard-Run heard-armed heard-unstarted
