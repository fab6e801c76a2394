-- ===== src/Replica/Members/Positions.antt =====
-- Replicas that agree on the list of members take different positions in it.
use mathlib.Core.List.{Perm, Permᴰ}
use mathlib.Core.List.Permᴰ
use mathlib.Core.Logic.{∥∥₁_map}
use wolfram_price_feed_infra.Base.{
  ℕ, suc, ◌<◌, ◌≡◌, ◌≢◌, refl, sym, ap, ap₂, ◌∙◌, subst, inl, inr, true, none, some, List, [], ◌∷◌,
  Text, text_eq, text_eq_sound, text_leb, text_order, sort_by-perm, length, get_elem?, arith,
  Bool-cases, Option-cases, some-injective, none≢some,
}
use wolfram_price_feed_infra.Replica.Messages.{StatusMessage}
use wolfram_price_feed_infra.Replica.Members.{
  Members, contains, index_of, status_addresses, aggregate_state, normalize_state,
}

-- What is found at the position is what was looked for.
index_of_sound :
    (xs : List Text) (a : Text) (i : ℕ) → index_of xs a ≡ some i → get_elem? xs i ≡ some a
unfolding index_of
index_of_sound [] a i h = cc
index_of_sound (x ∷ xs) a i h = elim (Bool-cases (text_eq x a)) [
  | inl here ↦
      let first : 0 ≡ i = some-injective (rw here at h) in
      subst (λ k. get_elem? (x ∷ xs) k ≡ some a) first (ap some (text_eq_sound x a here))
  | inr there ↦ elim (Option-cases (index_of xs a)) [
    | inl lost ↦ absurd (none≢some (rw (there, lost) at h))
    | inr (j, found) ↦
        let later : suc j ≡ i = some-injective (rw (there, found) at h) in
        subst (λ k. get_elem? (x ∷ xs) k ≡ some a) later (index_of_sound xs a j found)
  ]
]

index_of_total :
    (xs : List Text) (a : Text)
    → contains xs a ≡ true
    → (i : ℕ) × (index_of xs a ≡ some i) × (i < length xs)
unfolding index_of
index_of_total [] a h = cc
index_of_total (x ∷ xs) a h = elim (Bool-cases (text_eq x a)) [
  | inl here ↦ (0, rw here, omega arith)
  | inr there ↦
      let (i, found, below) = index_of_total xs a (rw there at h) in
      (suc i, rw (there, found), omega arith)
]

-- Replicas with different addresses that normalise one list of members, which names both, get
-- different positions, each below the number of replicas.
pub instance_positions_differ :
    (s t : Members) (members : List Text)
    → contains members s.address ≡ true
    → contains members t.address ≡ true
    → s.address ≢ t.address
    → (i : ℕ) × (j : ℕ) × (normalize_state s (some members)
        ≡ some (record { replica_size = length members; instance_position = some i }))
      × (normalize_state t (some members)
          ≡ some (record { replica_size = length members; instance_position = some j }))
      × (i < length members)
      × (j < length members)
      × (i ≢ j)
unfolding normalize_state
instance_positions_differ s t members hs ht differ =
    let (i, found, below) = index_of_total members s.address hs in
    let (j, found', below') = index_of_total members t.address ht in
    (
      i,
      j,
      rw found,
      rw found',
      below,
      below',
      λ same. differ (
          some-injective (
            sym (index_of_sound members s.address i found)
            ∙ ap (get_elem? members) same
            ∙ index_of_sound members t.address j found')),
    )

status_addresses_swap :
    (identity : Text) (a b : StatusMessage) (l : List StatusMessage)
    → Permᴰ (status_addresses identity (a ∷ b ∷ l)) (status_addresses identity (b ∷ a ∷ l))
status_addresses_swap identity a b l = elim (Bool-cases (text_eq a.from.identity identity)) [
  | inl own ↦ elim (Bool-cases (text_eq b.from.identity identity)) [
    | inl own' ↦ rw (own, own') (Permᴰ.swap refl refl)
    | inr foreign ↦ rw (own, foreign) (Permᴰ.refl _)
  ]
  | inr foreign ↦ elim (Bool-cases (text_eq b.from.identity identity)) [
    | inl own' ↦ rw (foreign, own') (Permᴰ.refl _)
    | inr foreign' ↦ rw (foreign, foreign') (Permᴰ.refl _)
  ]
]

status_addressesᴰ :
    (identity : Text) {ms ms' : List StatusMessage}
    → Permᴰ ms ms'
    → Permᴰ (status_addresses identity ms) (status_addresses identity ms')
status_addressesᴰ identity Permᴰ.nil = Permᴰ.nil
status_addressesᴰ identity (Permᴰ.cons {a} {b} {l₁} {l₂} e p) =
    subst (λ m. Permᴰ (status_addresses identity (a ∷ l₁)) (status_addresses identity (m ∷ l₂))) e
      (elim (Bool-cases (text_eq a.from.identity identity)) [
        | inl own ↦ rw own (Permᴰ.cons refl (status_addressesᴰ identity p))
        | inr foreign ↦ rw foreign (status_addressesᴰ identity p)
      ])
status_addressesᴰ identity (Permᴰ.swap {a} {b} {l = l} e f) =
    subst (Permᴰ (status_addresses identity (a ∷ b ∷ l)))
      (ap₂ (λ u v. status_addresses identity (u ∷ v ∷ l)) f e)
      (status_addresses_swap identity a b l)
status_addressesᴰ identity (Permᴰ.trans p q) =
    Permᴰ.trans (status_addressesᴰ identity p) (status_addressesᴰ identity q)

-- The members that a replica adopts from the statuses do not depend on the order in which those
-- arrive: every replica of the exchange that hears the same statuses computes the same list.
pub aggregate_state-perm :
    (s : Members) (ms ms' : List StatusMessage)
    → Perm ms ms'
    → aggregate_state s ms ≡ aggregate_state s ms'
unfolding aggregate_state
aggregate_state-perm s ms ms' p =
    ap {A = List Text}
      (λ members. (
        record s {
          replica_members = elim s.replica_members [ none ↦ some members | some old ↦ some old ];
        },
        members,
      ))
      (sort_by-perm text_leb (λ (t : Text). t) text_order (λ a b e. e) (hlevel)
        (∥∥₁_map p (status_addressesᴰ s.identity)))
