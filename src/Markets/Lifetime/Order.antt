-- ===== src/Markets/Lifetime/Order.antt =====
-- Which calls a start and a stop of MarketsAMQPManager.js make, in which order, however each of them ends.
use wolfram_price_feed_infra.Base.{
  ℕ, ◌≡◌, refl, sym, ap, ◌∙◌, fun_ext, some, List, [], ◌∷◌, ◌++◌, map, returns, throws, Completion,
  Attempt, ◌and_then◌,
}
use mathlib.Core.List.{append_assoc, append-nil}
use wolfram_price_feed_infra.Markets.Lifetime.{
  Classes, Call, init_connection, get_data_source, init_events, init_markets_manager, start_policy,
  stop_policy, close_events, close_connection, MarketsAmqpManager, Calls, create, await_call,
  setup_amqp_client, load_rabbit_group, init_market_event_manager, init_market_manager,
  init_amqp_policies, init, stop_one, each, on_policy, start_policies, stop_policies, cleanup,
  start, stop,
}

-- The order that is meant: the clients, then the policies from the outer to the inner.
abbrev pub start_order : Classes → List Call
start_order c =
    init_connection
    ∷ get_data_source
    ∷ init_events
    ∷ init_markets_manager
    ∷ map start_policy (c.outer ++ c.main ∷ c.inner)

-- The policies from the inner to the outer, then the events and the connection.
abbrev pub stop_order : Classes → List Call
stop_order c = map stop_policy (c.inner ++ c.main ∷ c.outer) ++ close_events ∷ close_connection ∷ []

-- The classes of the policies that a manager has.
abbrev pub classes_of : MarketsAmqpManager → ℕ → Classes
classes_of m main = record {
  outer = m.outer_lifecycle_policies;
  main = main;
  inner = m.inner_lifecycle_policies;
}

-- What a call and the rest of the list come to: nothing follows a call that throws.
abbrev pub go_on :
    Call → Completion {0} Unit → List Call × Completion {0} Unit → List Call × Completion {0} Unit
go_on call (returns _) rest = (call ∷ rest.0, rest.1)
go_on call (throws e) rest = (call ∷ [], throws e)

-- The calls of a list up to the first that throws, and how they end.
abbrev pub perform : Calls → List Call → List Call × Completion {0} Unit
perform calls [] = ([], returns tt)
perform calls (call ∷ rest) = go_on call (calls.ended call) (perform calls rest)

map-middle :
    (f : ℕ → Call) (xs : List ℕ) (y : ℕ) (ys : List ℕ)
    → (map f xs ++ f y ∷ []) ++ map f ys ≡ map f (xs ++ y ∷ ys)
map-middle f [] y ys = refl
map-middle f (x ∷ xs) y ys = ap (◌∷◌ (f x)) (map-middle f xs y ys)

module _ (calls : Calls) where
  abbrev perform_on : List Call → MarketsAmqpManager → Attempt MarketsAmqpManager
  perform_on l m = (record m { called = m.called ++ (perform calls l).0 }, (perform calls l).1)

  -- One call, and one call before a list of them.
  perform_on-one :
      (call : Call) (m : MarketsAmqpManager) → await_call calls call m ≡ perform_on (call ∷ []) m
  perform_on-one call m = by_end (calls.ended call)
    where
      by_end :
          (o : Completion {0} Unit)
          → ◌≡◌ {A = Attempt MarketsAmqpManager}
              (record m { called = m.called ++ call ∷ [] }, o)
              (
                record m { called = m.called ++ (go_on call o ([], returns tt)).0 },
                (go_on call o ([], returns tt)).1,
              )
      by_end (returns _) = refl
      by_end (throws e) = refl

  perform_on-first :
      (call : Call) (l : List Call) (m : MarketsAmqpManager)
      → (await_call calls call m and_then perform_on l) ≡ perform_on (call ∷ l) m
  perform_on-first call l m = by_end (calls.ended call)
    where
      by_end :
          (o : Completion {0} Unit)
          → ((record m { called = m.called ++ call ∷ [] }, o) and_then perform_on l) ≡ (
            record m { called = m.called ++ (go_on call o (perform calls l)).0 },
            (go_on call o (perform calls l)).1,
          )
      by_end (returns _) =
          ap (λ k. (record m { called = k }, (perform calls l).1))
            (append_assoc m.called (call ∷ []) (perform calls l).0)
      by_end (throws e) = refl

  and_then_assoc :
      (a : Attempt MarketsAmqpManager) (f g : MarketsAmqpManager → Attempt MarketsAmqpManager)
      → (a and_then f and_then g) ≡ (a and_then λ u. f u and_then g)
  and_then_assoc (s, returns _) f g = refl
  and_then_assoc (s, throws e) f g = refl

  -- One list after another is their concatenation.
  perform_on-append :
      (l l' : List Call) (m : MarketsAmqpManager)
      → (perform_on l m and_then perform_on l') ≡ perform_on (l ++ l') m
  perform_on-append [] l' m =
      ap (λ k. perform_on l' (record m { called = k })) (append-nil m.called)
  perform_on-append (call ∷ l) l' m =
      ap (λ (a : Attempt MarketsAmqpManager). a and_then perform_on l')
        (sym (perform_on-first call l m))
      ∙ and_then_assoc (await_call calls call m) (perform_on l) (perform_on l')
      ∙ ap (λ g. await_call calls call m and_then g) (fun_ext (perform_on-append l l'))
      ∙ perform_on-first call (l ++ l') m

  each-perform_on :
      (f : ℕ → Call) (ps : List ℕ) (m : MarketsAmqpManager)
      → each (λ p. await_call calls (f p)) ps m ≡ perform_on (map f ps) m
  each-perform_on f [] m =
      ap (λ k. (record m { called = k }, returns tt)) (sym (append-nil m.called))
  each-perform_on f (p ∷ ps) m =
      ap (λ g. await_call calls (f p) m and_then g) (fun_ext (each-perform_on f ps))
      ∙ perform_on-first (f p) (map f ps) m

  -- The policies of the three kinds, one kind after the other.
  policies-perform_on :
      (f : ℕ → Call) (xs : List ℕ) (y : ℕ) (ys : List ℕ) (m : MarketsAmqpManager)
      → (each (λ p. await_call calls (f p)) xs m
          and_then await_call calls (f y)
          and_then each (λ p. await_call calls (f p)) ys)
        ≡ perform_on (map f (xs ++ y ∷ ys)) m
  policies-perform_on f xs y ys m =
      let last = each (λ p. await_call calls (f p)) ys in
      ap (λ (a : Attempt MarketsAmqpManager). a and_then await_call calls (f y) and_then last)
        (each-perform_on f xs m)
      ∙ ap (λ g. perform_on (map f xs) m and_then g and_then last) (fun_ext (perform_on-one (f y)))
      ∙ ap (λ g. perform_on (map f xs) m and_then perform_on (f y ∷ []) and_then g)
          (fun_ext (each-perform_on f ys))
      ∙ ap (λ (a : Attempt MarketsAmqpManager). a and_then perform_on (map f ys))
          (perform_on-append (map f xs) (f y ∷ []) m)
      ∙ perform_on-append (map f xs ++ f y ∷ []) (map f ys) m
      ∙ ap (λ l. perform_on l m) (map-middle f xs y ys)

  cleanup-perform_on :
      (m : MarketsAmqpManager)
      → cleanup calls m ≡ perform_on (close_events ∷ close_connection ∷ []) m
  unfolding cleanup
  cleanup-perform_on m =
      ap (λ g. await_call calls close_events m and_then g)
        (fun_ext (perform_on-one close_connection))
      ∙ perform_on-first close_events (close_connection ∷ []) m

  stop-perform_on :
      (m : MarketsAmqpManager) (main : ℕ)
      → m.lifecycle_policy ≡ some main
      → stop calls m
        ≡ perform_on
            (stop_order (record {
              outer = m.outer_lifecycle_policies;
              main = main;
              inner = m.inner_lifecycle_policies;
            }))
            m
  unfolding stop stop_policies
  stop-perform_on m main e =
      let outer = each (stop_one calls) m.outer_lifecycle_policies in
      ap
        (λ o.
          each (stop_one calls) m.inner_lifecycle_policies m
          and_then on_policy (stop_one calls) o
          and_then outer
          and_then cleanup calls)
        e
      ∙ ap (λ (a : Attempt MarketsAmqpManager). a and_then cleanup calls)
          (policies-perform_on stop_policy m.inner_lifecycle_policies main
            m.outer_lifecycle_policies m)
      ∙ ap
          (λ g.
            perform_on
              (map stop_policy (m.inner_lifecycle_policies ++ main ∷ m.outer_lifecycle_policies)) m
            and_then g)
          (fun_ext cleanup-perform_on)
      ∙ perform_on-append
          (map stop_policy (m.inner_lifecycle_policies ++ main ∷ m.outer_lifecycle_policies))
          (close_events ∷ close_connection ∷ []) m

  abbrev initialised : Classes → MarketsAmqpManager
  initialised c = record {
    classes = c;
    rabbit_group_name = some calls.group;
    outer_lifecycle_policies = c.outer;
    lifecycle_policy = some c.main;
    inner_lifecycle_policies = c.inner;
    called = init_connection ∷ get_data_source ∷ init_events ∷ init_markets_manager ∷ [];
  }

  -- A start whose first four calls end as given.
  abbrev ended_with :
      Completion {0} Unit
      → Completion {0} Unit
      → Completion {0} Unit
      → Completion {0} Unit
      → Classes
      → Attempt MarketsAmqpManager
  ended_with connects finds listens manages c =
      waits init_connection connects (create c)
      and_then (λ u. waits get_data_source finds u and_then with_group)
      and_then waits init_events listens
      and_then waits init_markets_manager manages
      and_then (λ u. (init_amqp_policies u, returns tt))
      and_then start_policies calls
    where
      waits : Call → Completion {0} Unit → MarketsAmqpManager → Attempt MarketsAmqpManager
      waits call o m = (record m { called = m.called ++ call ∷ [] }, o)

      with_group : MarketsAmqpManager → Attempt MarketsAmqpManager
      with_group u = (record u { rabbit_group_name = some calls.group }, returns tt)

  -- What the order comes to, with the first four calls ending as given.
  abbrev performed_with :
      Completion {0} Unit
      → Completion {0} Unit
      → Completion {0} Unit
      → Completion {0} Unit
      → Classes
      → List Call × Completion {0} Unit
  performed_with connects finds listens manages c = go_on init_connection connects (
      go_on get_data_source finds (
        go_on init_events listens (
          go_on init_markets_manager manages
            (perform calls (map start_policy (c.outer ++ c.main ∷ c.inner))))))

  ended_with-performed :
      (connects finds listens manages : Completion {0} Unit) (c : Classes)
      → ((ended_with connects finds listens manages c).0.called
          ≡ (performed_with connects finds listens manages c).0)
        × ((ended_with connects finds listens manages c).1
            ≡ (performed_with connects finds listens manages c).1)
  unfolding create init_amqp_policies start_policies
  ended_with-performed (throws e) finds listens manages c = (refl, refl)
  ended_with-performed (returns _) (throws e) listens manages c = (refl, refl)
  ended_with-performed (returns _) (returns _) (throws e) manages c = (refl, refl)
  ended_with-performed (returns _) (returns _) (returns _) (throws e) c = (refl, refl)
  ended_with-performed (returns _) (returns _) (returns _) (returns _) c =
      let runs = policies-perform_on start_policy c.outer c.main c.inner (initialised c) in
      (
        ap (λ (a : Attempt MarketsAmqpManager). a.0.called) runs,
        ap (λ (a : Attempt MarketsAmqpManager). a.1) runs,
      )

  start-performs :
      (c : Classes)
      → ((start calls (create c)).0.called ≡ (perform calls (start_order c)).0)
        × ((start calls (create c)).1 ≡ (perform calls (start_order c)).1)
  unfolding start init setup_amqp_client load_rabbit_group init_market_event_manager
      init_market_manager
  start-performs c =
      ended_with-performed (calls.ended init_connection) (calls.ended get_data_source)
        (calls.ended init_events) (calls.ended init_markets_manager) c

-- However its calls end, a start calls the connection, the database, the events and the markets' manager, and then
-- starts the policies from the outer to the inner, up to the first call that throws, and ends as that call does;
-- and a stop of a manager that has its main policy stops the policies from the inner to the outer, and then closes
-- the events and the connection, up to the first call that throws, and ends as that call does.
pub called_in_order :
    (calls : Calls) (c : Classes) (m : MarketsAmqpManager) (main : ℕ)
    → m.lifecycle_policy ≡ some main
    → ((start calls (create c)).0.called ≡ (perform calls (start_order c)).0)
      × ((start calls (create c)).1 ≡ (perform calls (start_order c)).1)
      × (stop calls m ≡ (
        record m { called = m.called ++ (perform calls (stop_order (classes_of m main))).0 },
        (perform calls (stop_order (classes_of m main))).1,
      ))
called_in_order calls c m main e =
    let (calls_made, ended) = start-performs calls c in
    (calls_made, ended, stop-perform_on calls m main e)
