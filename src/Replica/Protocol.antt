-- ===== src/Replica/Protocol.antt =====
-- The phases of lib/domain-collectors/infrastructure/amqp-policies/lifecycle-policy/ReplicaDiscoveryPolicy.js:
-- what a replica does with each kind of message, and how its status phase starts the markets. A start of the
-- markets takes time, in which other messages come, so that its return is a step of its own.
pub mod Starts
mod Examples
use wolfram_price_feed_infra.Base.{
  ℕ, zero, suc, ◌+◌, Bool, true, false, List, [], ◌∷◌, ◌++◌, Text, if◌then◌else◌,
}
use wolfram_price_feed_infra.Scheduling.Scheduler.{Scheduler}
use wolfram_price_feed_infra.Sync.MessageBuffer.{MessageBuffer, add_message, use_buffer}
use wolfram_price_feed_infra.Sync.MessageBuffer
use wolfram_price_feed_infra.Replica.Messages.{
  Sender, StatusData, StatusMessage, ReplicaState, ShareMessage, CloseMessage,
}
use wolfram_price_feed_infra.Replica.Manager.{Replica, get_current_state, aggregate_state}

pub data Incoming : Type 0 where
  hello : Sender → Incoming
  status : StatusMessage → Incoming
  share : ShareMessage → Incoming
  close : CloseMessage → Incoming

-- A status goes to the private queue of one replica, and the others to all of them.
pub data Outgoing : Type 0 where
  status_to : Text → StatusData → Sender → Outgoing
  hello_to_all : Sender → Outgoing
  share_to_all : ReplicaState → Sender → Outgoing
  close_to_all : Sender → Outgoing

-- `starting` are the states of the status phases that wait for their start of the markets to return, and
-- `starts` is the number of those calls so far, of which `failed_starts` have thrown.
pub record Policy : Type 0 where
  pub status_message_buffer : MessageBuffer StatusMessage
  pub share_message_buffer : MessageBuffer ShareMessage
  pub close_message_buffer : MessageBuffer CloseMessage
  pub replica : Replica
  pub credentials : Sender
  pub has_started : Bool
  pub start_resolved : Bool
  pub starting : List ReplicaState
  pub starts : ℕ
  pub failed_starts : ℕ
  pub sent : List Outgoing

-- `initConfig`, `initPhaseControl` and `initStateManager`.
unfoldable pub init_policy : Replica → Sender → Policy
init_policy r credentials = record {
  status_message_buffer = MessageBuffer.create;
  share_message_buffer = MessageBuffer.create;
  close_message_buffer = MessageBuffer.create;
  replica = r;
  credentials = credentials;
  has_started = false;
  start_resolved = false;
  starting = [];
  starts = 0;
  failed_starts = 0;
  sent = [];
}

abbrev pub send : Outgoing → Policy → Policy
send m p = record p { sent = p.sent ++ m ∷ [] }

unfoldable pub broadcast_hello : Policy → Policy
broadcast_hello p = send (hello_to_all p.credentials) p

unfoldable pub broadcast_share : ReplicaState → Policy → Policy
broadcast_share state p = send (share_to_all state p.credentials) p

unfoldable pub broadcast_close : Policy → Policy
broadcast_close p = send (close_to_all p.credentials) p

-- The answer carries the state of the internal scheduler.
unfoldable pub handle_hello_message : Scheduler → Sender → Policy → Policy
handle_hello_message s from p = send (status_to from.address (get_current_state s) p.credentials) p

unfoldable pub process : Scheduler → Incoming → Policy → Policy
unfolding handle_hello_message
process s (hello from) p = handle_hello_message s from p
process s (status m) p = record p { status_message_buffer = add_message m p.status_message_buffer }
process s (share m) p = record p { share_message_buffer = add_message m p.share_message_buffer }
process s (close m) p = record p { close_message_buffer = add_message m p.close_message_buffer }

-- Up to the call of the start, which a policy that has started leaves out.
unfoldable pub handle_target_start : ReplicaState → Policy → Policy
unfolding broadcast_share
handle_target_start state p =
    if p.has_started
    then broadcast_share state p
    else (record p { starting = p.starting ++ state ∷ []; starts = suc p.starts })

module _ (locale_leb : Text → Text → Bool) where
  -- The timer of the buffer fires.
  unfoldable pub handle_status_message : Policy → Policy
  unfolding handle_target_start
  handle_status_message p =
      let (buffer, messages) = use_buffer p.status_message_buffer in
      let (replica, state) = aggregate_state locale_leb p.replica messages in
      handle_target_start state
        (record p { status_message_buffer = record buffer { armed = false }; replica = replica })

-- The start of the markets returns, and the rest of the phase runs.
unfoldable pub start_returned : ReplicaState → List ReplicaState → Policy → Policy
unfolding broadcast_share
start_returned state others p =
    broadcast_share state
      (record p { starting = others; start_resolved = true; has_started = true })

-- The start of the markets throws, and the phase with it: the policy is not marked, and shares nothing.
unfoldable pub start_failed : List ReplicaState → Policy → Policy
start_failed others p = record p { starting = others; failed_starts = suc p.failed_starts }
