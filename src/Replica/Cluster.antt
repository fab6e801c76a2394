-- ===== src/Replica/Cluster.antt =====
-- ClusterMembersStateManagerReducer.js: the exchanges that share a source, and how long each takes.
-- `localeCompare` is the comparison of the platform's locale, a parameter of the sorts.
pub mod Turns
use wolfram_price_feed_infra.Base.{
  ℕ, ◌+◌, Bool, true, false, not, ◌||◌, Option, none, some, List, [], ◌∷◌, ◌++◌, map, Text, text_eq,
  sort_by, filter, if◌then◌else◌, ◌==◌, Completion, returns, throws, type_error, ◌>>=◌,
}
use wolfram_price_feed_infra.Replica.Messages.{
  Sender, Entry, StatusMessage, ShareMessage, CloseMessage, ReplicaState,
}
use wolfram_price_feed_infra.Scheduling.Scheduler.{ClusterMember, MemberType, self, external}

-- `clusterMembers` is `null` until the first status or share is taken in.
pub record Cluster : Type 0 where
  pub identity : Text
  pub address : Text
  pub cluster_members : Option (List Entry)

abbrev pub entry_of : StatusMessage → Entry
entry_of m = record {
  address = m.from.address;
  identity = m.from.identity;
  interval = m.data_.cluster_member_interval;
}

-- One exchange with the intervals of its replicas added up, before its type is known.
pub record Share : Type 0 where
  pub identity : Text
  pub interval : ℕ

-- An entry of the map of identities.
pub record DryMember : Type 0 where
  pub identity : Text
  pub type : MemberType
  pub interval : ℕ

abbrev pub entry_address : Entry → Text
entry_address e = e.address

abbrev pub dry_identity : DryMember → Text
dry_identity d = d.identity

-- `map.get(identity).interval += interval`, or `map.set` at the end of the map.
unfoldable pub add_to_identity_map : Text → List DryMember → Entry → List DryMember
add_to_identity_map own [] e =
    record {
      identity = e.identity;
      type = if text_eq e.identity own then self else external;
      interval = e.interval;
    }
    ∷ []
add_to_identity_map own (d ∷ ds) e =
    if text_eq d.identity e.identity
    then record d { interval = d.interval + e.interval } ∷ ds
    else d ∷ add_to_identity_map own ds e

-- The `reduce` over the entries.
unfoldable pub get_identity_map : Text → List DryMember → List Entry → List DryMember
unfolding add_to_identity_map
get_identity_map own acc [] = acc
get_identity_map own acc (e ∷ es) = get_identity_map own (add_to_identity_map own acc e) es

unfoldable pub hydrate_list : List DryMember → List ClusterMember
hydrate_list = map (λ (d : DryMember). record { interval = d.interval; type = d.type })

-- A map of entries by address: `set` keeps the place of a key that is there.
abbrev pub get_entry : List Entry → Text → Option Entry
get_entry [] a = none
get_entry (e ∷ es) a = if text_eq e.address a then some e else get_entry es a

abbrev pub set_entry : List Entry → Entry → List Entry
set_entry [] e = e ∷ []
set_entry (x ∷ xs) e = if text_eq x.address e.address then e ∷ xs else x ∷ set_entry xs e

-- A member is taken if its address is new, or if its own replica sent it.
unfoldable pub merge_member : Text → List Entry → Entry → List Entry
merge_member from_address unique member = elim (get_entry unique member.address) [
  | none ↦ set_entry unique member
  | some existing ↦ if text_eq from_address member.address then set_entry unique member else unique
]

unfoldable pub merge_members : Text → List Entry → List Entry → List Entry
unfolding merge_member
merge_members from_address unique [] = unique
merge_members from_address unique (m ∷ ms) =
    merge_members from_address (merge_member from_address unique m) ms

-- The members of one message; a message without them has no `forEach` to call.
abbrev pub merge_message : ShareMessage → List Entry → Completion (List Entry)
merge_message m unique = elim m.data_.cluster_members [
  | none ↦ throws type_error
  | some members ↦ returns (merge_members m.from.address unique members)
]

-- The messages from the last to the first: the call on the rest comes first.
unfoldable pub merge_messages : List ShareMessage → Completion (List Entry)
unfolding merge_members
merge_messages [] = returns []
merge_messages (m ∷ ms) = merge_messages ms >>= merge_message m

module _ (locale_leb : Text → Text → Bool) where
  unfoldable pub aggregate_state : Cluster → List StatusMessage → Cluster × List Entry
  aggregate_state s messages =
      let members = sort_by locale_leb entry_address (map entry_of messages) in
      (
        record s {
          cluster_members = elim s.cluster_members [ none ↦ some members | some old ↦ some old ];
        },
        members,
      )

  unfoldable pub normalize_state : Cluster → List Entry → List ClusterMember
  unfolding get_identity_map hydrate_list
  normalize_state s members =
      hydrate_list (sort_by locale_leb dry_identity (get_identity_map s.identity [] members))

  unfoldable pub aggregate_share_state : List ShareMessage → Completion (List Entry)
  unfolding merge_messages
  aggregate_share_state messages =
      merge_messages messages >>= λ members. returns (sort_by locale_leb entry_address members)

abbrev pub has_address : List Entry → Text → Bool
has_address [] a = false
has_address (e ∷ es) a = if text_eq e.address a then true else has_address es a

unfoldable pub sanitize_share_state : Cluster → List Entry → Option (List Entry)
sanitize_share_state s members = if has_address members s.address then some members else none

abbrev pub same_entry : Entry → Entry → Bool
same_entry a b =
    if text_eq a.address b.address
    then (if text_eq a.identity b.identity then a.interval == b.interval else false)
    else false

-- Equality of the JSON texts.
abbrev pub same_entries : List Entry → List Entry → Bool
same_entries [] [] = true
same_entries [] (y ∷ ys) = false
same_entries (x ∷ xs) [] = false
same_entries (x ∷ xs) (y ∷ ys) = if same_entry x y then same_entries xs ys else false

unfoldable pub should_reload : Cluster → Option (List Entry) → Bool
should_reload s none = false
should_reload s (some members) = elim s.cluster_members [
  | none ↦ true
  | some current ↦ not (same_entries members current)
]

unfoldable pub update_state : Cluster → Option (List Entry) → Cluster
update_state s none = s
update_state s (some members) = record s { cluster_members = some members }

abbrev pub closed_by : List CloseMessage → Text → Bool
closed_by [] a = false
closed_by (m ∷ ms) a = if text_eq m.from.address a then true else closed_by ms a

-- `none` where `null.filter` throws.
unfoldable pub aggregate_close_state : Cluster → List CloseMessage → Option (Cluster × List Entry)
aggregate_close_state s messages = elim s.cluster_members [
  | none ↦ none
  | some members ↦
      let left = filter (λ (e : Entry). not (closed_by messages e.address)) members in
      some (record s { cluster_members = some left }, left)
]
