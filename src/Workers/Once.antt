-- ===== src/Workers/Once.antt =====
-- A record that is delivered again, as after a retry, is neither written nor announced again.
use wolfram_price_feed_infra.Base.{
  ◌≡◌, refl, subst, sym, ap, ◌∙◌, inl, inr, Bool, true, false, List, [], ◌∷◌, ◌++◌, map, ==_self,
  any, Bool-cases,
}
use mathlib.Core.Bool.{false≢true}
use mathlib.Core.List.{append_assoc, append-nil}
use wolfram_price_feed_infra.Workers.Writer.{
  Payload, Data, Writer, same_key, find_or_create, announcement, taken, execute, execute_all,
}

abbrev knows : Writer → Data → Bool
knows w d = any (same_key d.payload) w.rows

same_key_self : (p : Payload) → same_key p p ≡ true
same_key_self p = rw (==_self p.interval_start, ==_self p.interval_end, ==_self p.market_id) refl

any-append_left {ℓ} :
    {A : Type ℓ} (f : A → Bool) (xs ys : List A) → any f xs ≡ true → any f (xs ++ ys) ≡ true
any-append_left f [] ys h = absurd (false≢true h)
any-append_left f (x ∷ xs) ys h = elim (Bool-cases (f x)) [
  | inl e ↦ rw e refl
  | inr e ↦ rw e (any-append_left f xs ys (rw e at h))
]

any-last {ℓ} :
    {A : Type ℓ} (f : A → Bool) (xs : List A) (y : A) → f y ≡ true → any f (xs ++ y ∷ []) ≡ true
any-last f [] y h = rw h refl
any-last f (x ∷ xs) y h = elim (Bool-cases (f x)) [
  | inl e ↦ rw e refl
  | inr e ↦ rw e (any-last f xs y h)
]

find-known :
    (p : Payload) (rows : List Payload)
    → any (same_key p) rows ≡ true
    → find_or_create p rows ≡ (rows, false)
unfolding find_or_create
find-known p rows h = rw (h, find_or_create) refl

find-new :
    (p : Payload) (rows : List Payload)
    → any (same_key p) rows ≡ false
    → find_or_create p rows ≡ (rows ++ p ∷ [], true)
unfolding find_or_create
find-new p rows h = rw (h, find_or_create) refl

execute-known : (d : Data) (w : Writer) → knows w d ≡ true → execute d w ≡ w
unfolding execute
execute-known d w h = ap (taken d w) (find-known d.payload w.rows h)

abbrev with_new : Data → Writer → Writer
with_new d w = record w {
  rows = w.rows ++ d.payload ∷ [];
  announced = w.announced ++ announcement w.type d ∷ [];
}

execute-new : (d : Data) (w : Writer) → knows w d ≡ false → execute d w ≡ with_new d w
unfolding execute
execute-new d w h = ap (taken d w) (find-new d.payload w.rows h)

-- A delivery makes its record known, and every known record stays so.
execute-knows : (d : Data) (w : Writer) → knows (execute d w) d ≡ true
execute-knows d w = elim (Bool-cases (knows w d)) [
  | inl known ↦ ap (λ v. knows v d) (execute-known d w known) ∙ known
  | inr new_ ↦
      ap (λ v. knows v d) (execute-new d w new_)
      ∙ any-last (same_key d.payload) w.rows d.payload (same_key_self d.payload)
]

execute-keeps : (d e : Data) (w : Writer) → knows w e ≡ true → knows (execute d w) e ≡ true
execute-keeps d e w h = elim (Bool-cases (knows w d)) [
  | inl known ↦ ap (λ v. knows v e) (execute-known d w known) ∙ h
  | inr new_ ↦
      ap (λ v. knows v e) (execute-new d w new_)
      ∙ any-append_left (same_key e.payload) w.rows (d.payload ∷ []) h
]

execute_all-keeps :
    (ds : List Data) (e : Data) (w : Writer) → knows w e ≡ true → knows (execute_all ds w) e ≡ true
execute_all-keeps [] e w h = h
execute_all-keeps (d ∷ ds) e w h = execute_all-keeps ds e (execute d w) (execute-keeps d e w h)

execute_all-knows :
    (before after : List Data) (d : Data) (w : Writer)
    → knows (execute_all (before ++ d ∷ after) w) d ≡ true
execute_all-knows [] after d w = execute_all-keeps after d (execute d w) (execute-knows d w)
execute_all-knows (b ∷ before) after d w = execute_all-knows before after d (execute b w)

-- The deliveries that are new, in their order: those whose interval and market neither a known record nor an
-- earlier delivery has.
unfoldable pub new_deliveries : List Payload → List Data → List Data
new_deliveries known [] = []
new_deliveries known (d ∷ ds) = elim (any (same_key d.payload) known) [
  | true ↦ new_deliveries known ds
  | false ↦ d ∷ new_deliveries (known ++ d.payload ∷ []) ds
]

abbrev payloads : List Data → List Payload
payloads ds = map (λ (d : Data). d.payload) ds

-- What is added is `news`.
abbrev Adds : Writer → List Data → Writer → Type 0
Adds w news v =
    (v.rows ≡ w.rows ++ payloads news)
    × (v.announced ≡ w.announced ++ map (announcement w.type) news)

execute_all-Adds :
    (ds : List Data) (w : Writer) → Adds w (new_deliveries w.rows ds) (execute_all ds w)
unfolding new_deliveries
execute_all-Adds [] w = (sym (append-nil w.rows), sym (append-nil w.announced))
execute_all-Adds (d ∷ ds) w = elim (Bool-cases (knows w d)) [
  | inl known ↦
      rw (known, new_deliveries)
        (subst (λ v. Adds w (new_deliveries w.rows ds) (execute_all ds v))
          (sym (execute-known d w known)) (execute_all-Adds ds w))
  | inr new_ ↦
      let news = new_deliveries (w.rows ++ d.payload ∷ []) ds in
      let (rows, announced) = execute_all-Adds ds (with_new d w) in
      rw (new_, new_deliveries)
        (subst (λ v. Adds w (d ∷ news) (execute_all ds v)) (sym (execute-new d w new_))
          (
            rows ∙ append_assoc w.rows (d.payload ∷ []) (payloads news),
            announced
                ∙ append_assoc w.announced (announcement w.type d ∷ [])
                    (map (announcement w.type) news),
          ))
]

-- Whatever is delivered, the rows that are added are those of the deliveries that are new, and each of these is
-- announced, once and in the same order; every delivered record then has a row with its interval and market, and
-- its delivery again changes nothing.
pub delivered_once :
    (w : Writer) (before after : List Data) (d : Data)
    → let deliveries = before ++ d ∷ after in
      ((execute_all deliveries w).rows ≡ w.rows ++ payloads (new_deliveries w.rows deliveries))
      × ((execute_all deliveries w).announced
          ≡ w.announced ++ map (announcement w.type) (new_deliveries w.rows deliveries))
      × (any (same_key d.payload) (execute_all deliveries w).rows ≡ true)
      × (execute d (execute_all deliveries w) ≡ execute_all deliveries w)
delivered_once w before after d =
    let deliveries = before ++ d ∷ after in
    let (rows, announced) = execute_all-Adds deliveries w in
    let known = execute_all-knows before after d w in
    (rows, announced, known, execute-known d (execute_all deliveries w) known)
