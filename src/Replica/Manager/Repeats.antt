-- ===== src/Replica/Manager/Repeats.antt =====
-- Share phases that change nothing, and the share phase that throws.
use wolfram_price_feed_infra.Base.{
  ℕ, ◌≤◌, ◌<◌, ◌≡◌, refl, sym, subst, inl, inr, Bool, true, false, ◌||◌, none, some, List, Text,
  returns, throws, type_error, arith, Bool-cases, max,
}
use wolfram_price_feed_infra.Replica.Messages.{Entry, ShareMessage}
use wolfram_price_feed_infra.Replica.Members.{contains, same_texts}
use wolfram_price_feed_infra.Replica.Members
use wolfram_price_feed_infra.Replica.RateLimit
use wolfram_price_feed_infra.Replica.Cluster.{has_address, same_entries}
use wolfram_price_feed_infra.Replica.Cluster
use wolfram_price_feed_infra.Replica.Manager.{
  Replica, normalize_state, aggregate_share_state, should_reload, update_state, reload_active,
  reloaded, handle_share_message,
}
use wolfram_price_feed_infra.Replica.Manager.Shares.{
  Named, same_texts_refl, same_entries_refl, shared_state, shared, share_adopted,
}

-- The multiplier does not vote for a value that is not above it.
settled_rate :
    (current n : ℕ)
    → n ≤ current
    → RateLimit.should_reload current (RateLimit.sanitize_share_state current (some n)) ≡ false
unfolding RateLimit.should_reload RateLimit.sanitize_share_state
settled_rate current n h = ground arith

n≤max : (m n : ℕ) → n ≤ max m n
n≤max m n = ground arith

or_true : (a c : Bool) → a || (true || c) ≡ true
or_true a c = ground arith

voted_rate :
    (current n : ℕ)
    → current < n
    → RateLimit.should_reload current (RateLimit.sanitize_share_state current (some n)) ≡ true
unfolding RateLimit.should_reload RateLimit.sanitize_share_state
voted_rate current n h = ground arith

module _ (locale_leb : Text → Text → Bool) (r : Replica) (messages : List ShareMessage)
    (l : List Text) (es : List Entry) (n : ℕ) where
  settled :
      r.members.replica_members ≡ some l
      → r.cluster.cluster_members ≡ some es
      → n ≤ r.rate_limit_multiplier
      → should_reload r (shared locale_leb r messages l es n) ≡ false
  unfolding should_reload Members.should_reload Cluster.should_reload
  settled hl he hn =
      rw (hl, he)
        (rw (same_texts_refl l, same_entries_refl es)
          (rw (settled_rate r.rate_limit_multiplier n hn) refl))

  -- A replica that already has the members and the cluster of the shares that name it, and a
  -- multiplier that is at least theirs, is not reloaded by them and keeps its state.
  pub settled_share :
      Named locale_leb r messages l es n
      → r.members.replica_members ≡ some l
      → r.cluster.cluster_members ≡ some es
      → n ≤ r.rate_limit_multiplier
      → handle_share_message locale_leb r messages ≡ record { replica = r; reload = returns none }
  unfolding handle_share_message
  settled_share h hl he hn =
      rw (shared_state locale_leb r messages l es n h) (rw (settled hl he hn) refl)

  abbrev after_reload : Replica
  after_reload =
      (reloaded (update_state r (shared locale_leb r messages l es n)) (
        normalize_state locale_leb (update_state r (shared locale_leb r messages l es n))
          (shared locale_leb r messages l es n))).replica

  -- A reload changes neither the exchange nor the address of the replica.
  Named-after_reload :
      Named locale_leb r messages l es n → Named locale_leb after_reload messages l es n
  unfolding update_state normalize_state reload_active Members.update_state Cluster.update_state
      Members.aggregate_share_state
  Named-after_reload h = record {
    addresses = h.addresses;
    listed = h.listed;
    entries = h.entries;
    entered = h.entered;
    multiplier = h.multiplier;
  }

  Named-handle_share_message :
      Named locale_leb r messages l es n
      → Named locale_leb (handle_share_message locale_leb r messages).replica messages l es n
  unfolding handle_share_message
  Named-handle_share_message h =
      rw (shared_state locale_leb r messages l es n h)
        (elim (Bool-cases (should_reload r (shared locale_leb r messages l es n))) [
          | inl reloads ↦ rw reloads (Named-after_reload h)
          | inr stays ↦ rw stays h
        ])

-- Once a replica has taken in shares that name it, taking in the same shares again, as the resends of
-- the discovery do, neither reloads it nor changes its state.
pub share_twice :
    (locale_leb : Text → Text → Bool) (r : Replica) (messages : List ShareMessage) (l : List Text)
    (es : List Entry) (n : ℕ)
    → Named locale_leb r messages l es n
    → let r' = (handle_share_message locale_leb r messages).replica in
      handle_share_message locale_leb r' messages ≡ record { replica = r'; reload = returns none }
share_twice locale_leb r messages l es n h =
    let r' = (handle_share_message locale_leb r messages).replica in
    let (hl, he, hn) = share_adopted locale_leb r messages l es n h in
    settled_share locale_leb r' messages l es n
      (Named-handle_share_message locale_leb r messages l es n h) hl he
      (subst (λ k. n ≤ k) (sym hn) (n≤max r.rate_limit_multiplier n))

module _ (locale_leb : Text → Text → Bool) (r : Replica) (messages : List ShareMessage)
    (es : List Entry) (n : ℕ) where
  -- Where every share has its cluster members, a larger multiplier in shares whose cluster lacks this replica
  -- is a vote for a reload without a cluster to reload with: the phase throws a type error, and the multiplier is not adopted.
  pub share_without_cluster :
      Cluster.aggregate_share_state locale_leb messages ≡ returns es
      → has_address es r.cluster.address ≡ false
      → RateLimit.aggregate_share_state messages ≡ some n
      → r.rate_limit_multiplier < n
      → let o = handle_share_message locale_leb r messages in
        (o.reload ≡ throws type_error) × (o.replica.rate_limit_multiplier ≡ r.rate_limit_multiplier)
  unfolding handle_share_message aggregate_share_state Cluster.sanitize_share_state should_reload
      normalize_state update_state
  share_without_cluster merged absent largest above =
      rw (merged, largest, absent)
        (rw (voted_rate r.rate_limit_multiplier n above) (
          rw
            (or_true
              (Members.should_reload r.members (
                Members.sanitize_share_state r.members
                  (Members.aggregate_share_state r.members messages)))
              (Cluster.should_reload r.cluster none))
            (refl, refl)))
