-- ===== src/Markets/Each.antt =====
-- A call of every collectors manager: `Promise.all` over the array of lib/domain-collectors/MarketsManager.js.
use wolfram_price_feed_infra.Base.{
  ℕ, ◌≡◌, ◌≢◌, refl, sym, ap, ◌∙◌, inl, inr, true, false, List, [], ◌∷◌, Bool-cases, ◌==◌, ==_iff,
  includes, includes-head, includes-tail, Distinct, absent-head, put, put_same, put_other, Attempt,
  Completion, Exception, returns, throws,
}
use mathlib.Core.Bool.{false≢true}
use wolfram_price_feed_infra.Markets.Collectors.{CollectorsManager}
use wolfram_price_feed_infra.Markets.Manager.{MarketsManager, on_object, on_each, first_failure}

first_failure-returns :
    (a b : Completion {0} Unit) → a ≡ returns tt → b ≡ returns tt → first_failure a b ≡ returns tt
first_failure-returns a b h k = rw (h, k) refl

first_failure-left :
    (a b : Completion {0} Unit) (e : Exception)
    → a ≡ throws e
    → (e' : Exception) × (first_failure a b ≡ throws e')
first_failure-left a b e h = (e, rw h refl)

first_failure-right :
    (a b : Completion {0} Unit) (e : Exception)
    → b ≡ throws e
    → (e' : Exception) × (first_failure a b ≡ throws e')
first_failure-right (returns _) b e h = (e, h)
first_failure-right (throws e') b e h = (e', refl)

apart_of : (r i : ℕ) → (r == i) ≡ false → i ≢ r
apart_of r i e h = false≢true (sym e ∙ (==_iff r i).1 (sym h))

module _ (call : CollectorsManager → Attempt CollectorsManager) where
  -- The calls change objects only.
  pub on_each-objects :
      (rs : List ℕ) (s : MarketsManager)
      → (on_each call rs s).0 ≡ record s { object = (on_each call rs s).0.object }
  on_each-objects [] s = refl
  on_each-objects (r ∷ rs) s = on_each-objects rs (on_object call r s).0

  pub on_each-unlisted :
      (rs : List ℕ) (s : MarketsManager) (i : ℕ)
      → includes rs i ≡ false
      → (on_each call rs s).0.object i ≡ s.object i
  on_each-unlisted [] s i h = refl
  on_each-unlisted (r ∷ rs) s i h =
      let (apart, absent) = absent-head r i rs h in
      on_each-unlisted rs (on_object call r s).0 i absent
      ∙ put_other s.object r (call (s.object r)).0 i apart

  pub on_each-listed :
      (rs : List ℕ) (s : MarketsManager) (i : ℕ)
      → Distinct rs
      → includes rs i ≡ true
      → (on_each call rs s).0.object i ≡ (call (s.object i)).0
  on_each-listed [] s i d h = absurd (false≢true h)
  on_each-listed (r ∷ rs) s i d h = elim (Bool-cases (r == i)) [
    | inl e ↦
        let same = (==_iff r i).0 e in
        on_each-unlisted rs (on_object call r s).0 i (ap (includes rs) (sym same) ∙ d.0)
        ∙ ap (put s.object r (call (s.object r)).0) (sym same)
        ∙ put_same s.object r (call (s.object r)).0
        ∙ ap (λ n. (call (s.object n)).0) same
    | inr e ↦
        on_each-listed rs (on_object call r s).0 i d.1 (rw e at h)
        ∙ ap (λ m. (call m).0) (put_other s.object r (call (s.object r)).0 i (apart_of r i e))
  ]

  after_head :
      (r : ℕ) (rs : List ℕ) (s : MarketsManager) (i : ℕ)
      → includes rs r ≡ false
      → includes rs i ≡ true
      → (on_object call r s).0.object i ≡ s.object i
  after_head r rs s i d h =
      put_other s.object r (call (s.object r)).0 i
        (λ e. false≢true (sym d ∙ ap (includes rs) (sym e) ∙ h))

  pub on_each-returns :
      (rs : List ℕ) (s : MarketsManager)
      → Distinct rs
      → ((i : ℕ) → includes rs i ≡ true → (call (s.object i)).1 ≡ returns tt)
      → (on_each call rs s).1 ≡ returns tt
  on_each-returns [] s d h = refl
  on_each-returns (r ∷ rs) s d h =
      first_failure-returns (call (s.object r)).1 (on_each call rs (on_object call r s).0).1
        (h r (includes-head r rs))
        (on_each-returns rs (on_object call r s).0 d.1
          (λ i k. ap (λ m. (call m).1) (after_head r rs s i d.0 k) ∙ h i (includes-tail r i rs k)))

  pub on_each-throws :
      (rs : List ℕ) (s : MarketsManager) (i : ℕ) (e : Exception)
      → Distinct rs
      → includes rs i ≡ true
      → (call (s.object i)).1 ≡ throws e
      → (e' : Exception) × ((on_each call rs s).1 ≡ throws e')
  on_each-throws [] s i e d h k = absurd (false≢true h)
  on_each-throws (r ∷ rs) s i e d h k = elim (Bool-cases (r == i)) [
    | inl same ↦
        first_failure-left (call (s.object r)).1 (on_each call rs (on_object call r s).0).1 e
          (ap (λ n. (call (s.object n)).1) ((==_iff r i).0 same) ∙ k)
    | inr apart ↦
        let listed : includes rs i ≡ true = rw apart at h in
        let (e', later) =
          on_each-throws rs (on_object call r s).0 i e d.1 listed
            (ap (λ m. (call m).1) (after_head r rs s i d.0 listed) ∙ k) in
        first_failure-right (call (s.object r)).1 (on_each call rs (on_object call r s).0).1 e'
          later
  ]
