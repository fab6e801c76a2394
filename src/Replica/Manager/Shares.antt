-- ===== src/Replica/Manager/Shares.antt =====
-- What a replica makes of a buffer of SHARE messages.
use wolfram_price_feed_infra.Base.{
  ℕ, ◌≡◌, refl, sym, ap, ap₂, inl, inr, Bool, true, false, not, ◌||◌, Option, none, some, List, [],
  ◌∷◌, Text, text_eq, text_eq_refl, text_eq_sound, get_or, arith, Bool-cases, max, returns,
}
use mathlib.Core.Bool.{false≢true}
use wolfram_price_feed_infra.Replica.Messages.{Entry, ReplicaState, ShareMessage}
use wolfram_price_feed_infra.Replica.Members.{Members, contains, same_texts}
use wolfram_price_feed_infra.Replica.Members
use wolfram_price_feed_infra.Replica.RateLimit
use wolfram_price_feed_infra.Replica.Cluster.{Cluster, has_address, same_entry, same_entries}
use wolfram_price_feed_infra.Replica.Cluster
use wolfram_price_feed_infra.Replica.Manager.{
  Replica, normalize_state, aggregate_share_state, should_reload, update_state, reload_active,
  reloaded, handle_share_message,
}

same_texts_sound : (xs ys : List Text) → same_texts xs ys ≡ true → xs ≡ ys
same_texts_sound [] [] h = refl
same_texts_sound [] (y ∷ ys) h = cc
same_texts_sound (x ∷ xs) [] h = cc
same_texts_sound (x ∷ xs) (y ∷ ys) h = elim (Bool-cases (text_eq x y)) [
  | inl same ↦ ap₂ ◌∷◌ (text_eq_sound x y same) (same_texts_sound xs ys (rw same at h))
  | inr other ↦ absurd (false≢true (rw other at h))
]

pub same_texts_refl : (xs : List Text) → same_texts xs xs ≡ true
same_texts_refl [] = refl
same_texts_refl (x ∷ xs) = rw (text_eq_refl x) (same_texts_refl xs)

same_entry_sound : (a b : Entry) → same_entry a b ≡ true → a ≡ b
same_entry_sound a b h =
    ground (arith, text_eq_sound a.address b.address, text_eq_sound a.identity b.identity)

same_entries_sound : (xs ys : List Entry) → same_entries xs ys ≡ true → xs ≡ ys
same_entries_sound [] [] h = refl
same_entries_sound [] (y ∷ ys) h = cc
same_entries_sound (x ∷ xs) [] h = cc
same_entries_sound (x ∷ xs) (y ∷ ys) h = elim (Bool-cases (same_entry x y)) [
  | inl same ↦ ap₂ ◌∷◌ (same_entry_sound x y same) (same_entries_sound xs ys (rw same at h))
  | inr other ↦ absurd (false≢true (rw other at h))
]

same_entry_refl : (a : Entry) → same_entry a a ≡ true
same_entry_refl a = ground (arith, text_eq_refl a.address, text_eq_refl a.identity)

pub same_entries_refl : (xs : List Entry) → same_entries xs xs ≡ true
same_entries_refl [] = refl
same_entries_refl (x ∷ xs) = rw (same_entry_refl x) (same_entries_refl xs)

kept_texts :
    (o : Option (List Text)) (l : List Text)
    → (elim o [ none ↦ true | some current ↦ not (same_texts l current) ]) ≡ false
    → o ≡ some l
kept_texts none l h = cc
kept_texts (some current) l h = elim (Bool-cases (same_texts l current)) [
  | inl same ↦ ap some (sym (same_texts_sound l current same))
  | inr other ↦ absurd (false≢true (sym (rw other at h)))
]

kept_entries :
    (o : Option (List Entry)) (l : List Entry)
    → (elim o [ none ↦ true | some current ↦ not (same_entries l current) ]) ≡ false
    → o ≡ some l
kept_entries none l h = cc
kept_entries (some current) l h = elim (Bool-cases (same_entries l current)) [
  | inl same ↦ ap some (sym (same_entries_sound l current same))
  | inr other ↦ absurd (false≢true (sym (rw other at h)))
]

-- A list that is not voted for is the list that the replica has.
members_kept :
    (m : Members) (l : List Text)
    → Members.should_reload m (some l) ≡ false
    → m.replica_members ≡ some l
unfolding Members.should_reload
members_kept m l h = kept_texts m.replica_members l h

cluster_kept :
    (c : Cluster) (l : List Entry)
    → Cluster.should_reload c (some l) ≡ false
    → c.cluster_members ≡ some l
unfolding Cluster.should_reload
cluster_kept c l h = kept_entries c.cluster_members l h

rate_adopted :
    (current n : ℕ)
    → get_or (RateLimit.normalize_state (RateLimit.sanitize_share_state current (some n))) current
      ≡ max current n
unfolding RateLimit.normalize_state RateLimit.sanitize_share_state
rate_adopted current n = ground arith

rate_kept :
    (current n : ℕ)
    → RateLimit.should_reload current (RateLimit.sanitize_share_state current (some n)) ≡ false
    → current ≡ max current n
unfolding RateLimit.should_reload RateLimit.sanitize_share_state
rate_kept current n h = ground arith

or_false : (a b c : Bool) → a || (b || c) ≡ false → (a ≡ false) × (b ≡ false) × (c ≡ false)
or_false a b c h = ground arith

-- The shares name this replica, and say what every replica that they name adopts.
pub record Named (locale_leb : Text → Text → Bool) (r : Replica) (messages : List ShareMessage)
    (l : List Text) (es : List Entry) (n : ℕ) : Type 0 where
  pub addresses : Members.aggregate_share_state r.members messages ≡ some l
  pub listed : contains l r.members.address ≡ true
  pub entries : Cluster.aggregate_share_state locale_leb messages ≡ returns es
  pub entered : has_address es r.cluster.address ≡ true
  pub multiplier : RateLimit.aggregate_share_state messages ≡ some n

module _ (locale_leb : Text → Text → Bool) (r : Replica) (messages : List ShareMessage)
    (l : List Text) (es : List Entry) (n : ℕ) where
  abbrev pub shared : ReplicaState
  shared = record {
    replica_members = some l;
    rate_limit_multiplier = RateLimit.sanitize_share_state r.rate_limit_multiplier (some n);
    cluster_members = some es;
  }

  pub shared_state :
      Named locale_leb r messages l es n
      → aggregate_share_state locale_leb r messages ≡ returns shared
  unfolding aggregate_share_state Members.sanitize_share_state Cluster.sanitize_share_state
  shared_state h = rw (h.addresses, h.multiplier, h.entries) (rw (h.listed, h.entered))

  pub adopted_by_reload :
      let r' =
        (reloaded
          (update_state r shared)
          (normalize_state locale_leb (update_state r shared) shared)).replica in
      (r'.members.replica_members ≡ some l)
      × (r'.cluster.cluster_members ≡ some es)
      × (r'.rate_limit_multiplier ≡ max r.rate_limit_multiplier n)
  unfolding update_state normalize_state reload_active Members.update_state Cluster.update_state
  adopted_by_reload = (refl, refl, rate_adopted r.rate_limit_multiplier n)

  pub kept_without_reload :
      should_reload r shared ≡ false
      → (r.members.replica_members ≡ some l)
        × (r.cluster.cluster_members ≡ some es)
        × (r.rate_limit_multiplier ≡ max r.rate_limit_multiplier n)
  unfolding should_reload
  kept_without_reload h =
      let (a, b, c) =
        or_false (Members.should_reload r.members (some l))
          (RateLimit.should_reload r.rate_limit_multiplier shared.rate_limit_multiplier)
          (Cluster.should_reload r.cluster (some es)) h in
      (
        members_kept r.members l a,
        cluster_kept r.cluster es c,
        rate_kept r.rate_limit_multiplier n b,
      )

  -- A replica that the shares name has their members and their cluster after the phase, and the larger
  -- of its own multiplier and theirs, whether or not it was reloaded.
  pub share_adopted :
      Named locale_leb r messages l es n
      → let r' = (handle_share_message locale_leb r messages).replica in
        (r'.members.replica_members ≡ some l)
        × (r'.cluster.cluster_members ≡ some es)
        × (r'.rate_limit_multiplier ≡ max r.rate_limit_multiplier n)
  unfolding handle_share_message
  share_adopted h = rw (shared_state h) (elim (Bool-cases (should_reload r shared)) [
    | inl reloads ↦ rw reloads adopted_by_reload
    | inr stays ↦ rw stays (kept_without_reload stays)
  ])
