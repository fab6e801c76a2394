-- ===== src/Markets/Lifetime.antt =====
-- lib/domain-collectors/MarketsAMQPManager.js: what one process runs for an exchange, from the connection to the
-- policies. Policies are named by numbers, and how their calls and those of the clients end is a parameter.
pub mod Order
use wolfram_price_feed_infra.Base.{
  ℕ, Bool, true, false, not, Option, none, some, List, [], ◌∷◌, ◌++◌, filter, Text, ◌==◌,
  if◌then◌else◌, Completion, returns, throws, type_error, Attempt, ◌and_then◌,
}

-- The classes that the factories were given, which are what the policies are made of.
pub record Classes : Type 0 where
  pub outer : List ℕ
  pub main : ℕ
  pub inner : List ℕ

-- The calls that the manager waits for, of its clients and its policies.
pub data Call : Type 0 where
  init_connection get_data_source init_events init_markets_manager : Call
  start_policy stop_policy : ℕ → Call
  close_events close_connection : Call

-- `called` are the calls made so far, in their order.
pub record MarketsAmqpManager : Type 0 where
  pub classes : Classes
  pub rabbit_group_name : Option Text
  pub outer_lifecycle_policies : List ℕ
  pub lifecycle_policy : Option ℕ
  pub inner_lifecycle_policies : List ℕ
  pub called : List Call

-- How each call ends, and the group that the database names.
pub record Calls : Type 0 where
  pub ended : Call → Completion {0} Unit
  pub group : Text

unfoldable pub create : Classes → MarketsAmqpManager
create classes = record {
  classes = classes;
  rabbit_group_name = none;
  outer_lifecycle_policies = [];
  lifecycle_policy = none;
  inner_lifecycle_policies = [];
  called = [];
}

-- A call is made, and the manager waits for its end.
abbrev pub await_call : Calls → Call → MarketsAmqpManager → Attempt MarketsAmqpManager
await_call calls call m = (record m { called = m.called ++ call ∷ [] }, calls.ended call)

unfoldable pub setup_amqp_client : Calls → MarketsAmqpManager → Attempt MarketsAmqpManager
setup_amqp_client calls m = await_call calls init_connection m

unfoldable pub load_rabbit_group : Calls → MarketsAmqpManager → Attempt MarketsAmqpManager
load_rabbit_group calls m = await_call calls get_data_source m and_then λ u.
    (record u { rabbit_group_name = some calls.group }, returns tt)

unfoldable pub init_market_event_manager : Calls → MarketsAmqpManager → Attempt MarketsAmqpManager
init_market_event_manager calls m = await_call calls init_events m

unfoldable pub init_market_manager : Calls → MarketsAmqpManager → Attempt MarketsAmqpManager
init_market_manager calls m = await_call calls init_markets_manager m

unfoldable pub init_amqp_policies : MarketsAmqpManager → MarketsAmqpManager
init_amqp_policies m = record m {
  outer_lifecycle_policies = m.classes.outer;
  inner_lifecycle_policies = m.classes.inner;
  lifecycle_policy = some m.classes.main;
}

unfoldable pub init : Calls → MarketsAmqpManager → Attempt MarketsAmqpManager
unfolding setup_amqp_client load_rabbit_group init_market_event_manager init_market_manager
    init_amqp_policies
init calls m =
    setup_amqp_client calls m
    and_then load_rabbit_group calls
    and_then init_market_event_manager calls
    and_then init_market_manager calls
    and_then λ u. (init_amqp_policies u, returns tt)

abbrev pub start_one : Calls → ℕ → MarketsAmqpManager → Attempt MarketsAmqpManager
start_one calls p m = await_call calls (start_policy p) m

abbrev pub stop_one : Calls → ℕ → MarketsAmqpManager → Attempt MarketsAmqpManager
stop_one calls p m = await_call calls (stop_policy p) m

-- The loops wait for each policy before the next.
abbrev pub each :
    (ℕ → MarketsAmqpManager → Attempt MarketsAmqpManager)
    → List ℕ
    → MarketsAmqpManager
    → Attempt MarketsAmqpManager
each call [] m = (m, returns tt)
each call (p ∷ ps) m = call p m and_then each call ps

-- A policy that is `null` has no methods.
abbrev pub on_policy :
    (ℕ → MarketsAmqpManager → Attempt MarketsAmqpManager)
    → Option ℕ
    → MarketsAmqpManager
    → Attempt MarketsAmqpManager
on_policy call none m = (m, throws type_error)
on_policy call (some p) m = call p m

unfoldable pub start_policies : Calls → MarketsAmqpManager → Attempt MarketsAmqpManager
start_policies calls m =
    each (start_one calls) m.outer_lifecycle_policies m
    and_then on_policy (start_one calls) m.lifecycle_policy
    and_then each (start_one calls) m.inner_lifecycle_policies

unfoldable pub stop_policies : Calls → MarketsAmqpManager → Attempt MarketsAmqpManager
stop_policies calls m =
    each (stop_one calls) m.inner_lifecycle_policies m
    and_then on_policy (stop_one calls) m.lifecycle_policy
    and_then each (stop_one calls) m.outer_lifecycle_policies

unfoldable pub cleanup : Calls → MarketsAmqpManager → Attempt MarketsAmqpManager
cleanup calls m = await_call calls close_events m and_then await_call calls close_connection

unfoldable pub start : Calls → MarketsAmqpManager → Attempt MarketsAmqpManager
unfolding init start_policies
start calls m = init calls m and_then start_policies calls

unfoldable pub stop : Calls → MarketsAmqpManager → Attempt MarketsAmqpManager
unfolding stop_policies cleanup
stop calls m = stop_policies calls m and_then cleanup calls

-- The first policy of a class, in the order of the search.
abbrev pub find_policy : ℕ → List ℕ → Option ℕ
find_policy p [] = none
find_policy p (q ∷ qs) = if q == p then some q else find_policy p qs

unfoldable pub get_policy : ℕ → MarketsAmqpManager → Option ℕ
get_policy p m = elim m.lifecycle_policy [
  | none ↦ find_policy p (m.inner_lifecycle_policies ++ m.outer_lifecycle_policies)
  | some q ↦ find_policy p ((m.inner_lifecycle_policies ++ m.outer_lifecycle_policies) ++ q ∷ [])
]
