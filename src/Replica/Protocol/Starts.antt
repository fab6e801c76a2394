-- ===== src/Replica/Protocol/Starts.antt =====
-- How often the status phase of ReplicaDiscoveryPolicy.js starts the markets.
use wolfram_price_feed_infra.Base.{
  suc, ◌+◌, ◌≤◌, ◌≡◌, refl, sym, ap, ◌∙◌, ◌⊎◌, inl, inr, Bool, true, false, List, [], ◌∷◌, ◌++◌,
  length, Text, if◌then◌else◌, arith,
}
use mathlib.Core.Bool.{false≢true}
use wolfram_price_feed_infra.Scheduling.Scheduler.{Scheduler}
use wolfram_price_feed_infra.Sync.MessageBuffer.{use_buffer, add_message, process_buffer}
use wolfram_price_feed_infra.Replica.Messages.{Sender, StatusMessage, ReplicaState}
use wolfram_price_feed_infra.Replica.Manager.{Replica, aggregate_state}
use wolfram_price_feed_infra.Replica.Protocol.{
  Incoming, hello, status, share, close, Policy, init_policy, process, handle_hello_message,
  handle_target_start, handle_status_message, start_returned, start_failed, broadcast_share,
  broadcast_hello,
}

-- A policy's life: messages come, the timer of the status buffer fires, and starts of the markets return
-- or throw.
-- `Overlaps` says whether the timer may fire while a start has not returned.
pub data Run (locale_leb : Text → Text → Bool) (overlaps : Bool) : Policy → Type 0 where
  begin : (r : Replica) (credentials : Sender) → Run locale_leb overlaps (init_policy r credentials)
  receive :
      {p : Policy} (s : Scheduler) (m : Incoming)
      → Run locale_leb overlaps p
      → Run locale_leb overlaps (process s m p)
  greet : {p : Policy} → Run locale_leb overlaps p → Run locale_leb overlaps (broadcast_hello p)
  status_phase :
      {p : Policy}
      → Run locale_leb overlaps p
      → p.status_message_buffer.armed ≡ true
      → (overlaps ≡ true) ⊎ (p.starting ≡ [])
      → Run locale_leb overlaps (handle_status_message locale_leb p)
  start_returns :
      {p : Policy} (state : ReplicaState) (before after : List ReplicaState)
      → Run locale_leb overlaps p
      → p.starting ≡ before ++ state ∷ after
      → Run locale_leb overlaps (start_returned state (before ++ after) p)
  start_fails :
      {p : Policy} (state : ReplicaState) (before after : List ReplicaState)
      → Run locale_leb overlaps p
      → p.starting ≡ before ++ state ∷ after
      → Run locale_leb overlaps (start_failed (before ++ after) p)

-- All starts so far have thrown, or all but one, which is under way or has returned.
abbrev StartsOnce : Policy → Type 0
StartsOnce p =
    ((p.starts ≡ p.failed_starts) × (p.starting ≡ []) × (p.has_started ≡ false))
    ⊎ (((p.starts ≡ suc p.failed_starts) × (length p.starting ≡ 1) × (p.has_started ≡ false))
        ⊎ ((p.starts ≡ suc p.failed_starts) × (p.starting ≡ []) × (p.has_started ≡ true)))

abbrev SameStarts : Policy → Policy → Type 0
SameStarts p q =
    (q.starts ≡ p.starts)
    × (q.starting ≡ p.starting)
    × (q.has_started ≡ p.has_started)
    × (q.failed_starts ≡ p.failed_starts)

process-SameStarts : (s : Scheduler) (m : Incoming) (p : Policy) → SameStarts p (process s m p)
unfolding process handle_hello_message
process-SameStarts s (hello from) p = (refl, refl, refl, refl)
process-SameStarts s (status m) p = (refl, refl, refl, refl)
process-SameStarts s (share m) p = (refl, refl, refl, refl)
process-SameStarts s (close m) p = (refl, refl, refl, refl)

SameStarts-StartsOnce : (p q : Policy) → SameStarts p q → StartsOnce p → StartsOnce q
SameStarts-StartsOnce p q (n, l, b, f) (inl (e, k, g)) = inl (n ∙ e ∙ sym f, l ∙ k, b ∙ g)
SameStarts-StartsOnce p q (n, l, b, f) (inr (inl (e, k, g))) =
    inr (inl (n ∙ e ∙ ap suc (sym f), ap length l ∙ k, b ∙ g))
SameStarts-StartsOnce p q (n, l, b, f) (inr (inr (e, k, g))) =
    inr (inr (n ∙ e ∙ ap suc (sym f), l ∙ k, b ∙ g))

-- What the status phase does to the starts.
handle_target_start-first :
    (state : ReplicaState) (p : Policy)
    → p.has_started ≡ false
    → ((handle_target_start state p).starts ≡ suc p.starts)
      × ((handle_target_start state p).starting ≡ p.starting ++ state ∷ [])
      × ((handle_target_start state p).has_started ≡ false)
      × ((handle_target_start state p).failed_starts ≡ p.failed_starts)
unfolding handle_target_start
handle_target_start-first state p h = (
  ap (λ (q : Policy). q.starts) taken,
  ap (λ (q : Policy). q.starting) taken,
  ap (λ (q : Policy). q.has_started) taken ∙ h,
  ap (λ (q : Policy). q.failed_starts) taken,
)
  where
    called : Policy
    called = record p { starting = p.starting ++ state ∷ []; starts = suc p.starts }

    taken : handle_target_start state p ≡ called
    taken = ap (λ b. if b then broadcast_share state p else called) h

handle_target_start-later :
    (state : ReplicaState) (p : Policy)
    → p.has_started ≡ true
    → SameStarts p (handle_target_start state p)
unfolding handle_target_start broadcast_share
handle_target_start-later state p h = rw (h, handle_target_start) (refl, refl, refl, refl)

-- A status phase that begins while no start is under way.
handle_target_start-StartsOnce :
    (state : ReplicaState) (p : Policy)
    → p.starting ≡ []
    → StartsOnce p
    → StartsOnce (handle_target_start state p)
handle_target_start-StartsOnce state p idle (inl (none_yet, empty, not_started)) =
    let (n, l, b, f) = handle_target_start-first state p not_started in
    inr (inl (n ∙ ap suc (none_yet ∙ sym f), ap length (l ∙ ap (◌++ (state ∷ [])) empty), b))
handle_target_start-StartsOnce state p idle (inr (inl (_, waits, _))) =
    absurd (omega (arith, waits, ap length idle))
handle_target_start-StartsOnce state p idle (inr (inr (once, empty, started))) =
    SameStarts-StartsOnce p (handle_target_start state p)
      (handle_target_start-later state p started) (inr (inr (once, empty, started)))

-- A list of one element is that element.
nothing_else :
    (before after : List ReplicaState) (state : ReplicaState)
    → length (before ++ state ∷ after) ≡ 1
    → before ++ after ≡ []
nothing_else [] [] state h = refl
nothing_else [] (a ∷ others) state h = absurd (omega (arith, h))
nothing_else (b ∷ []) after state h = absurd (omega (arith, h))
nothing_else (b ∷ c ∷ bs) after state h = absurd (omega (arith, h))

not_empty :
    (before after : List ReplicaState) (state : ReplicaState) → ¬ (before ++ state ∷ after ≡ [])
not_empty [] after state h = absurd (omega (arith, ap length h))
not_empty (b ∷ bs) after state h = absurd (omega (arith, ap length h))

-- A start that ends was under way, and it was the only one.
under_way :
    (p : Policy) (state : ReplicaState) (before after : List ReplicaState)
    → p.starting ≡ before ++ state ∷ after
    → StartsOnce p
    → (p.starts ≡ suc p.failed_starts) × (before ++ after ≡ []) × (p.has_started ≡ false)
under_way p state before after waits (inl (_, empty, _)) =
    absurd (not_empty before after state (sym waits ∙ empty))
under_way p state before after waits (inr (inl (once, one, b))) =
    (once, nothing_else before after state (ap length (sym waits) ∙ one), b)
under_way p state before after waits (inr (inr (_, empty, _))) =
    absurd (not_empty before after state (sym waits ∙ empty))

no_overlap : (l : List ReplicaState) → (false ≡ true) ⊎ (l ≡ []) → l ≡ []
no_overlap l (inl e) = absurd (false≢true e)
no_overlap l (inr e) = e

run-StartsOnce :
    {locale_leb : Text → Text → Bool} {p : Policy} → Run locale_leb false p → StartsOnce p
unfolding init_policy broadcast_hello handle_status_message start_returned broadcast_share
    start_failed
run-StartsOnce (begin r credentials) = inl (refl, refl, refl)
run-StartsOnce (receive {p} s m run) =
    SameStarts-StartsOnce p (process s m p) (process-SameStarts s m p) (run-StartsOnce run)
run-StartsOnce (greet run) = run-StartsOnce run
run-StartsOnce {locale_leb} (status_phase {p} run armed apart) =
    let messages = (use_buffer p.status_message_buffer).1 in
    let aggregated = aggregate_state locale_leb p.replica messages in
    handle_target_start-StartsOnce aggregated.1 _ (no_overlap p.starting apart) (run-StartsOnce run)
run-StartsOnce (start_returns {p} state before after run waits) =
    let (once, rest, _) = under_way p state before after waits (run-StartsOnce run) in
    inr (inr (once, rest, refl))
run-StartsOnce (start_fails {p} state before after run waits) =
    let (once, rest, b) = under_way p state before after waits (run-StartsOnce run) in
    inl (once, rest, b)

length-last : (l : List ReplicaState) (x : ReplicaState) → length (l ++ x ∷ []) ≡ suc (length l)
length-last [] x = refl
length-last (y ∷ ys) x = ap suc (length-last ys x)

-- A status phase of a policy that has not started.
first_phase :
    (locale_leb : Text → Text → Bool) (p : Policy)
    → p.has_started ≡ false
    → ((handle_status_message locale_leb p).starts ≡ suc p.starts)
      × (length (handle_status_message locale_leb p).starting ≡ suc (length p.starting))
      × ((handle_status_message locale_leb p).has_started ≡ false)
unfolding handle_status_message
first_phase locale_leb p h =
    let (n, l, b, _) = handle_target_start-first _ _ h in
    (n, ap length l ∙ length-last p.starting _, b)

-- A status arms the timer of its buffer.
status-armed :
    (s : Scheduler) (m : StatusMessage) (p : Policy)
    → (process s (status m) p).status_message_buffer.armed ≡ true
unfolding process add_message process_buffer
status-armed s m p = refl

-- As long as no status phase begins while a start of the markets is under way, at most one start is under way or
-- has returned, which is also when the policy is marked as started, and every other start has thrown.
pub started_once :
    {locale_leb : Text → Text → Bool} (p : Policy)
    → Run locale_leb false p
    → (length p.starting + (if p.has_started then 1 else 0) ≤ 1)
      × (p.starts ≡ p.failed_starts + (length p.starting + (if p.has_started then 1 else 0)))
started_once p run = elim (run-StartsOnce run) [
  | inl (n, l, b) ↦ rw (b, l) (omega arith, omega (arith, n))
  | inr (inl (n, l, b)) ↦ rw b (omega (arith, l), omega (arith, n, l))
  | inr (inr (n, l, b)) ↦ rw (b, l) (omega arith, omega (arith, n))
]

-- When a status comes while the first start is under way, the timer fires again, and the second status phase,
-- which a run reaches, starts the markets again beside the first, as the policy is marked as started only when a
-- start has returned.
pub started_again :
    {locale_leb : Text → Text → Bool} (s : Scheduler) (m : StatusMessage) (p : Policy)
    → Run locale_leb true p
    → p.status_message_buffer.armed ≡ true
    → p.has_started ≡ false
    → let late = process s (status m) (handle_status_message locale_leb p) in
      Run locale_leb true (handle_status_message locale_leb late)
      × ((handle_status_message locale_leb late).starts ≡ suc (suc p.starts))
      × (length (handle_status_message locale_leb late).starting ≡ suc (suc (length p.starting)))
started_again {locale_leb} s m p run armed h =
    let during = handle_status_message locale_leb p in
    let (n, l, b) = first_phase locale_leb p h in
    let (same, same_list, same_mark, _) = process-SameStarts s (status m) during in
    let (n', l', _) = first_phase locale_leb (process s (status m) during) (same_mark ∙ b) in
    (
      status_phase (receive s (status m) (status_phase run armed (inl refl)))
          (status-armed s m during) (inl refl),
      n' ∙ ap suc (same ∙ n),
      l' ∙ ap suc (ap length same_list ∙ l),
    )
