-- ===== src/Replica/Members.antt =====
-- ReplicaMembersStateManagerReducer.js: the replicas of one exchange and their positions.
pub mod Positions
use wolfram_price_feed_infra.Base.{
  ℕ, suc, ◌≡◌, Bool, true, false, not, Option, none, some, List, [], ◌∷◌, map, Text, text_eq,
  text_leb, sort_by, length, filter, if◌then◌else◌,
}
use wolfram_price_feed_infra.Replica.Messages.{Sender, StatusMessage, ShareMessage, CloseMessage}

-- `replicaMembers` is `null` until the first status or share is taken in.
pub record Members : Type 0 where
  pub identity : Text
  pub address : Text
  pub replica_members : Option (List Text)

pub record Placement : Type 0 where
  pub replica_size : ℕ
  pub instance_position : Option ℕ

abbrev pub contains : List Text → Text → Bool
contains [] a = false
contains (x ∷ xs) a = if text_eq x a then true else contains xs a

-- `indexOf`; `none` is -1.
unfoldable pub index_of : List Text → Text → Option ℕ
index_of [] a = none
index_of (x ∷ xs) a =
    if text_eq x a then some 0 else (elim (index_of xs a) [ none ↦ none | some i ↦ some (suc i) ])

abbrev pub status_addresses : Text → List StatusMessage → List Text
status_addresses identity messages =
    map (λ (m : StatusMessage). m.from.address)
      (filter (λ m. text_eq m.from.identity identity) messages)

-- The addresses, and the state in which they are kept if there were none.
unfoldable pub aggregate_state : Members → List StatusMessage → Members × List Text
aggregate_state s messages =
    let members = sort_by text_leb (λ t. t) (status_addresses s.identity messages) in
    (
      record s {
        replica_members = elim s.replica_members [ none ↦ some members | some old ↦ some old ];
      },
      members,
    )

unfoldable pub normalize_state : Members → Option (List Text) → Option Placement
unfolding index_of
normalize_state s none = none
normalize_state s (some members) =
    some (record { replica_size = length members; instance_position = index_of members s.address })

-- `filter` and `at(-1)`.
unfoldable pub last_of : Text → List ShareMessage → Option ShareMessage
last_of identity [] = none
last_of identity (m ∷ ms) = elim (last_of identity ms) [
  | some later ↦ some later
  | none ↦ if text_eq m.from.identity identity then some m else none
]

unfoldable pub aggregate_share_state : Members → List ShareMessage → Option (List Text)
unfolding last_of
aggregate_share_state s messages = elim (last_of s.identity messages) [
  | none ↦ none
  | some m ↦ m.data_.replica_members
]

-- A list that is empty or lacks this replica's address is dropped.
unfoldable pub sanitize_share_state : Members → Option (List Text) → Option (List Text)
sanitize_share_state s none = none
sanitize_share_state s (some members) = if contains members s.address then some members else none

-- Equality of the JSON texts, where `null` differs from every list.
abbrev pub same_texts : List Text → List Text → Bool
same_texts [] [] = true
same_texts [] (y ∷ ys) = false
same_texts (x ∷ xs) [] = false
same_texts (x ∷ xs) (y ∷ ys) = if text_eq x y then same_texts xs ys else false

unfoldable pub should_reload : Members → Option (List Text) → Bool
should_reload s none = false
should_reload s (some members) = elim s.replica_members [
  | none ↦ true
  | some current ↦ not (same_texts members current)
]

unfoldable pub update_state : Members → Option (List Text) → Members
update_state s none = s
update_state s (some members) = record s { replica_members = some members }

abbrev pub close_addresses : Text → List CloseMessage → List Text
close_addresses identity messages =
    map (λ (m : CloseMessage). m.from.address)
      (filter (λ m. text_eq m.from.identity identity) messages)

-- `none` where `null.filter` throws.
unfoldable pub aggregate_close_state : Members → List CloseMessage → Option (Members × List Text)
aggregate_close_state s messages = elim s.replica_members [
  | none ↦ none
  | some members ↦
      let left = filter (λ a. not (contains (close_addresses s.identity messages) a)) members in
      some (record s { replica_members = some left }, left)
]
