-- ===== src/Sync/Handled.antt =====
-- No message of a buffer of lib/domain-collectors/utils/MessageBuffer.js is lost, or handled twice.
use wolfram_price_feed_infra.Base.{
  ℕ, suc, ◌<◌, ◌≡◌, refl, sym, ap, ◌∙◌, ◌⊎◌, inl, inr, true, false, List, [], ◌∷◌, ◌++◌, arith,
}
use mathlib.Core.Bool.{false≢true}
use mathlib.Core.List.{append_assoc, append-nil}
use wolfram_price_feed_infra.Sync.MessageBuffer.{
  MessageBuffer, create, process_buffer, add_message, clean_buffer, use_buffer,
}

abbrev pub concat {ℓ} : {A : Type ℓ} → List (List A) → List A
concat [] = []
concat (l ∷ ls) = l ++ concat ls

concat-append_one {ℓ} :
    {A : Type ℓ} (ls : List (List A)) (l : List A) → concat (ls ++ l ∷ []) ≡ concat ls ++ l
concat-append_one [] l = append-nil l
concat-append_one (k ∷ ks) l =
    ap (k ++◌) (concat-append_one ks l) ∙ sym (append_assoc k (concat ks) l)

-- The buffer with its history: the messages that came, the batches that were handled, and the handlers that
-- the timer has called and that have still to take the buffer, as they wait for the mutex first.
pub record History (A : Type 0) : Type 0 where
  pub buffer : MessageBuffer A
  pub waiting : ℕ
  pub added : List A
  pub batches : List (List A)

pub data Run {A : Type 0} : History A → Type 0 where
  begin : Run (record { buffer = create; waiting = 0; added = []; batches = [] })
  add :
      {h : History A} (m : A)
      → Run h
      → Run (record h { buffer = add_message m h.buffer; added = h.added ++ m ∷ [] })
  fire :
      {h : History A}
      → Run h
      → h.buffer.armed ≡ true
      → Run (record h { buffer = record h.buffer { armed = false }; waiting = suc h.waiting })
  handle :
      {h : History A} (left : ℕ)
      → Run h
      → h.waiting ≡ suc left
      → Run (record h {
        buffer = (use_buffer h.buffer).0;
        waiting = left;
        batches = h.batches ++ (use_buffer h.buffer).1 ∷ [];
      })

module _ {A : Type 0} where
  kept_in_order : {h : History A} → Run h → concat h.batches ++ h.buffer.message_buffer ≡ h.added
  unfolding create add_message process_buffer use_buffer clean_buffer
  kept_in_order begin = refl
  kept_in_order (add {h} m run) =
      sym (append_assoc (concat h.batches) h.buffer.message_buffer (m ∷ []))
      ∙ ap (◌++ (m ∷ [])) (kept_in_order run)
  kept_in_order (fire run armed) = kept_in_order run
  kept_in_order (handle {h} left run some_wait) =
      append-nil (concat (h.batches ++ h.buffer.message_buffer ∷ []))
      ∙ concat-append_one h.batches h.buffer.message_buffer
      ∙ kept_in_order run

  -- While a message is in the buffer, the timer is armed or a handler is to come.
  attended :
      {h : History A}
      → Run h
      → (h.buffer.message_buffer ≡ []) ⊎ ((h.buffer.armed ≡ true) ⊎ (0 < h.waiting))
  unfolding create add_message process_buffer use_buffer clean_buffer
  attended begin = inl refl
  attended (add m run) = inr (inl refl)
  attended (fire run armed) = inr (inr (omega arith))
  attended (handle left run some_wait) = inl refl

-- When the timer is not armed and no called handler is to come, every message has been handled exactly once,
-- in the order in which they came.
pub all_handled :
    {A : Type 0} (h : History A)
    → Run h
    → h.buffer.armed ≡ false
    → h.waiting ≡ 0
    → concat h.batches ≡ h.added
all_handled h run idle done = elim (attended run) [
  | inl empty ↦
      sym (append-nil (concat h.batches))
      ∙ ap (concat h.batches ++◌) (sym empty)
      ∙ kept_in_order run
  | inr (inl armed) ↦ absurd (false≢true (sym idle ∙ armed))
  | inr (inr some_wait) ↦ absurd (omega (arith, done, some_wait))
]
