-- ===== src/Replica/Cluster/Turns.antt =====
-- Replicas of different exchanges that normalise one list of cluster members take turns.
use mathlib.Core.List.{map-append, append_assoc}
use wolfram_price_feed_infra.Base.{
  ◌+◌, ◌≡◌, ◌≢◌, refl, sym, ap, ◌∙◌, subst, ◌⊎◌, inl, inr, Bool, true, false, some, List, [], ◌∷◌,
  ◌++◌, map, Text, text_eq, text_eq_sound, sort_by, sort_by-map, any-sort_by, any, FirstHit,
  first_hit, All, All-of-not-any, All-append, if◌then◌else◌, Bool-cases, arith,
}
use wolfram_price_feed_infra.Scheduling.Scheduler.{
  ClusterMember, MemberType, self, external, is_self, Scheduler,
}
use wolfram_price_feed_infra.Scheduling.Cluster.{intervals, IsExternal, TakesTurns}
use wolfram_price_feed_infra.Replica.Messages.{Entry}
use wolfram_price_feed_infra.Replica.Cluster.{
  Cluster, Share, DryMember, dry_identity, add_to_identity_map, get_identity_map, hydrate_list,
  normalize_state,
}

abbrev share_identity : Share → Text
share_identity s = s.identity

-- The map of identities with the types left out.
add_share : List Share → Entry → List Share
add_share [] e = record { identity = e.identity; interval = e.interval } ∷ []
add_share (s ∷ ss) e =
    if text_eq s.identity e.identity
    then record s { interval = s.interval + e.interval } ∷ ss
    else s ∷ add_share ss e

shares_from : List Share → List Entry → List Share
unfolding add_share
shares_from acc [] = acc
shares_from acc (e ∷ es) = shares_from (add_share acc e) es

abbrev type_for : Text → Text → MemberType
type_for own identity = if text_eq identity own then self else external

abbrev stamp : Text → Share → DryMember
stamp own s = record {
  identity = s.identity;
  type = type_for own s.identity;
  interval = s.interval;
}

abbrev member : Text → Share → ClusterMember
member own s = record { interval = s.interval; type = type_for own s.identity }

add_to_identity_map-stamp :
    (own : Text) (ss : List Share) (e : Entry)
    → add_to_identity_map own (map (stamp own) ss) e ≡ map (stamp own) (add_share ss e)
unfolding add_to_identity_map add_share
add_to_identity_map-stamp own [] e = refl
add_to_identity_map-stamp own (s ∷ ss) e = elim (Bool-cases (text_eq s.identity e.identity)) [
  | inl same ↦ rw same
  | inr other ↦ rw other (ap (◌∷◌ (stamp own s)) (add_to_identity_map-stamp own ss e))
]

get_identity_map-stamp :
    (own : Text) (ss : List Share) (es : List Entry)
    → get_identity_map own (map (stamp own) ss) es ≡ map (stamp own) (shares_from ss es)
unfolding get_identity_map shares_from
get_identity_map-stamp own ss [] = refl
get_identity_map-stamp own ss (e ∷ es) =
    ap (λ ds. get_identity_map own ds es) (add_to_identity_map-stamp own ss e)
    ∙ get_identity_map-stamp own (add_share ss e) es

abbrev is_share_of : Text → Share → Bool
is_share_of k s = text_eq s.identity k

-- Whether an entry of the list belongs to the exchange.
abbrev pub names : Text → List Entry → Bool
names k = any (λ e. text_eq e.identity k)

any-add_share :
    (k : Text) (ss : List Share) (e : Entry)
    → any (is_share_of k) (add_share ss e)
      ≡ (if any (is_share_of k) ss then true else text_eq e.identity k)
unfolding add_share
any-add_share k [] e = ground arith
any-add_share k (s ∷ ss) e =
    ground (arith, any-add_share k ss e, text_eq_sound s.identity e.identity)

any-shares_from :
    (k : Text) (ss : List Share) (es : List Entry)
    → any (is_share_of k) (shares_from ss es)
      ≡ (if any (is_share_of k) ss then true else names k es)
unfolding shares_from
any-shares_from k ss [] = ground arith
any-shares_from k ss (e ∷ es) =
    ground (arith, any-shares_from k (add_share ss e) es, any-add_share k ss e)

module _ (locale_leb : Text → Text → Bool) where
  -- The exchanges of the entries in the order of the turns.
  abbrev order_of_turns : List Entry → List Share
  order_of_turns es = sort_by locale_leb share_identity (shares_from [] es)

  normalize_state-member :
      (s : Cluster) (es : List Entry)
      → normalize_state locale_leb s es ≡ map (member s.identity) (order_of_turns es)
  unfolding normalize_state hydrate_list
  normalize_state-member s es =
      rw
        (
          get_identity_map-stamp s.identity [] es,
          sort_by-map locale_leb (stamp s.identity) share_identity dry_identity (λ a. refl)
              (shares_from [] es),
        )
        (map_map (order_of_turns es))
    where
      map_map :
          (ss : List Share)
          → map
              (λ (d : DryMember). record { interval = d.interval; type = d.type })
              (map (stamp s.identity) ss)
            ≡ map (member s.identity) ss
      map_map [] = refl
      map_map (x ∷ xs) = ap (◌∷◌ (member s.identity x)) (map_map xs)

  named :
      (k : Text) (es : List Entry)
      → names k es ≡ true
      → any (is_share_of k) (order_of_turns es) ≡ true
  named k es h =
      any-sort_by locale_leb share_identity (is_share_of k) (shares_from [] es)
      ∙ any-shares_from k [] es
      ∙ h

member-IsExternal :
    (own : Text) (s : Share) → text_eq s.identity own ≡ false → IsExternal (member own s)
unfolding is_self
member-IsExternal own s h = rw h

member-is_self :
    (own : Text) (s : Share) → text_eq s.identity own ≡ true → is_self (member own s) ≡ true
unfolding is_self
member-is_self own s h = rw h

members-IsExternal :
    (own : Text) (ss : List Share)
    → All (λ s. is_share_of own s ≡ false) ss
    → All IsExternal (map (member own) ss)
members-IsExternal own [] h = tt
members-IsExternal own (s ∷ ss) h = (member-IsExternal own s h.0, members-IsExternal own ss h.1)

intervals-member :
    (own own' : Text) (ss : List Share)
    → intervals (map (member own) ss) ≡ intervals (map (member own') ss)
intervals-member own own' [] = refl
intervals-member own own' (s ∷ ss) = ap (◌∷◌ s.interval) (intervals-member own own' ss)

module _ (xs ys zs : List Share) (a b : Share) where
  -- The turns with two exchanges of interest.
  abbrev turns : List Share
  turns = (xs ++ a ∷ ys) ++ b ∷ zs

  split_first :
      (k : Text)
      → map (member k) turns ≡ map (member k) xs ++ member k a ∷ map (member k) (ys ++ b ∷ zs)
  split_first k =
      ap (map (member k)) (append_assoc xs (a ∷ ys) (b ∷ zs))
      ∙ map-append (member k) xs (a ∷ (ys ++ b ∷ zs))

  split_second :
      (k : Text)
      → map (member k) turns ≡ map (member k) (xs ++ a ∷ ys) ++ member k b ∷ map (member k) zs
  split_second k = map-append (member k) (xs ++ a ∷ ys) (b ∷ zs)

  -- The exchange `k` comes before the exchange `k'`.
  turns_in_order :
      (k k' : Text) (s t : Scheduler)
      → All (λ x. is_share_of k x ≡ false) xs
      → All (λ x. is_share_of k' x ≡ false) (xs ++ a ∷ ys)
      → is_share_of k a ≡ true
      → is_share_of k' b ≡ true
      → s.cluster_members ≡ some (map (member k) turns)
      → t.cluster_members ≡ some (map (member k') turns)
      → TakesTurns s t
  turns_in_order k k' s t mx my ha hb hs ht = record {
    before = map (member k) xs;
    after = map (member k) (ys ++ b ∷ zs);
    before' = map (member k') (xs ++ a ∷ ys);
    after' = map (member k') zs;
    mine = member k a;
    mine' = member k' b;
    between = intervals (map (member k) ys);
    members = hs ∙ ap some (split_first k);
    members' = ht ∙ ap some (split_second k');
    external = members-IsExternal k xs mx;
    external' = members-IsExternal k' (xs ++ a ∷ ys) my;
    is_mine = member-is_self k a ha;
    is_mine' = member-is_self k' b hb;
    earlier =
        intervals-member k' k (xs ++ a ∷ ys)
        ∙ ap intervals (map-append (member k) xs (a ∷ ys))
        ∙ map-append (λ (m : ClusterMember). m.interval) (map (member k) xs)
            (member k a ∷ map (member k) ys);
    same_cluster =
        ap intervals (sym (split_first k))
        ∙ intervals-member k k' turns
        ∙ ap intervals (split_second k');
  }

other_share : (k k' : Text) (s : Share) → k ≢ k' → is_share_of k s ≡ true → is_share_of k' s ≡ false
other_share k k' s differ h = elim (Bool-cases (is_share_of k' s)) [
  | inl both ↦
      absurd (differ (sym (text_eq_sound s.identity k h) ∙ text_eq_sound s.identity k' both))
  | inr other ↦ other
]

any-append :
    (p : Share → Bool) (xs ys : List Share)
    → any p (xs ++ ys) ≡ (if any p xs then true else any p ys)
any-append p [] ys = refl
any-append p (x ∷ xs) ys = ground (arith, any-append p xs ys)

-- Of two exchanges one is met first.
either_first :
    (k k' : Text) (l : List Share) (s t : Scheduler)
    → k ≢ k'
    → any (is_share_of k) l ≡ true
    → any (is_share_of k') l ≡ true
    → s.cluster_members ≡ some (map (member k) l)
    → t.cluster_members ≡ some (map (member k') l)
    → TakesTurns s t ⊎ TakesTurns t s
either_first k k' l s t differ hk hk' hs ht =
    let f = first_hit (is_share_of k) l hk in
    elim (Bool-cases (any (is_share_of k') f.before)) [
      | inl earlier ↦
          let g = first_hit (is_share_of k') f.before earlier in
          let whole = f.parts ∙ ap (λ xs. xs ++ f.hit ∷ f.after) g.parts in
          inr (
            turns_in_order g.before g.after f.after g.hit f.hit k' k t s g.missed
              (subst (All (λ x. is_share_of k x ≡ false)) g.parts f.missed) g.passed f.passed
              (ht ∙ ap (λ xs. some (map (member k') xs)) whole)
              (hs ∙ ap (λ xs. some (map (member k) xs)) whole))
      | inr absent ↦
          let g = first_hit (is_share_of k') f.after (later f absent) in
          let whole =
            f.parts
            ∙ ap (λ xs. f.before ++ f.hit ∷ xs) g.parts
            ∙ sym (append_assoc f.before (f.hit ∷ g.before) (g.hit ∷ g.after)) in
          inl (
            turns_in_order f.before g.before g.after f.hit g.hit k k' s t f.missed
              (All-append _ f.before (f.hit ∷ g.before)
                (All-of-not-any (is_share_of k') f.before absent)
                (other_share k k' f.hit differ f.passed, g.missed))
              f.passed g.passed (hs ∙ ap (λ xs. some (map (member k) xs)) whole)
              (ht ∙ ap (λ xs. some (map (member k') xs)) whole))
    ]
  where
    later :
        (f : FirstHit (is_share_of k) l)
        → any (is_share_of k') f.before ≡ false
        → any (is_share_of k') f.after ≡ true
    later f absent =
        let other = other_share k k' f.hit differ f.passed in
        let h = ap (any (is_share_of k')) (sym f.parts) ∙ hk' in
        let e = any-append (is_share_of k') f.before (f.hit ∷ f.after) in
        rw (absent, other) at (sym e ∙ h)

-- Two replicas of different exchanges that normalise one list of cluster members, which names both,
-- give their schedulers members of which one exchange has its turn before the other: the condition
-- under which their operations stay a base rate limit apart.
pub normalized-TakesTurns :
    (locale_leb : Text → Text → Bool) (s t : Cluster) (es : List Entry) (u v : Scheduler)
    → s.identity ≢ t.identity
    → names s.identity es ≡ true
    → names t.identity es ≡ true
    → u.cluster_members ≡ some (normalize_state locale_leb s es)
    → v.cluster_members ≡ some (normalize_state locale_leb t es)
    → TakesTurns u v ⊎ TakesTurns v u
normalized-TakesTurns locale_leb s t es u v differ hs ht hu hv =
    either_first s.identity t.identity (order_of_turns locale_leb es) u v differ
      (named locale_leb s.identity es hs) (named locale_leb t.identity es ht)
      (hu ∙ ap some (normalize_state-member locale_leb s es))
      (hv ∙ ap some (normalize_state-member locale_leb t es))
