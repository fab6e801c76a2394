-- ===== src/Sync/Examples.antt =====
-- The theorems of this part at concrete inputs: a mutex that counts its acquisitions, and two messages.
use wolfram_price_feed_infra.Base.{
  ℕ, suc, ◌≤◌, if◌then◌else◌, ◌≡◌, ◌≢◌, refl, true, false, Option, none, some, [], ◌∷◌, ◌∙◌, length,
  ◌==◌, ==_self, ==_apart, ap,
}
use wolfram_price_feed_infra.Sync.TimeoutMutex.{
  Mutex, TimeoutMutex, create, is_locked, set_timeout_handler, acquire, release, release_inherited,
  fire,
}
use wolfram_price_feed_infra.Sync.Exclusion.{
  Section, Run, begin, enter, leave_inherited, mutual_exclusion, late_release,
}
use wolfram_price_feed_infra.Sync.MessageBuffer
use wolfram_price_feed_infra.Sync.Handled.{History, concat, all_handled}
use wolfram_price_feed_infra.Sync.Handled

-- The number of acquisitions so far, and the one that holds.
pub record Tickets : Type 0 where
  pub next : ℕ
  pub serving : Option ℕ

abbrev give_back : ℕ → Option ℕ → Option ℕ
give_back r none = none
give_back r (some t) = if t == r then none else some t

give_back_own : (r : ℕ) (o : Option ℕ) → o ≡ some r → give_back r o ≡ none
give_back_own r o e = ap (give_back r) e ∙ rw (==_self r) refl

give_back_other : (r : ℕ) (o : Option ℕ) → o ≢ some r → give_back r o ≡ o
give_back_other r none h = refl
give_back_other r (some t) h = rw (==_apart t r (λ e. h (ap some e))) refl

abbrev tickets : Mutex Tickets
tickets = record {
  new_state = record { next = 0; serving = none };
  holder = λ s. s.serving;
  acquire = λ s. (record { next = suc s.next; serving = some s.next }, s.next);
  release = λ r s. record s { serving = give_back r s.serving };
  release_held = λ s. record s { serving = none };
  new_free = refl;
  acquire_holds = λ s h. refl;
  release_own = λ s r h. give_back_own r s.serving h;
  release_held_frees = λ s. refl;
  release_other = λ s r h. give_back_other r s.serving h;
}

-- One caller has left by the inherited release, and a second has entered.
abbrev left_once : Section Tickets
left_once = record {
  guard = release_inherited tickets (acquire tickets none (create tickets 300000));
  inside = [];
}

abbrev one_inside : Section Tickets
one_inside = record { guard = acquire tickets none left_once.guard; inside = 6 ∷ [] }

one_inside-Run : Run tickets 300000 one_inside
unfolding create is_locked acquire set_timeout_handler release_inherited
one_inside-Run = enter 6 none (leave_inherited 5 (enter 5 none begin refl) refl) refl

mutual_exclusion_example :
    (length one_inside.inside ≤ 1)
    × (is_locked tickets one_inside.guard ≡ (if length one_inside.inside == 0 then false else true))
mutual_exclusion_example = mutual_exclusion tickets one_inside one_inside-Run

abbrev taken : TimeoutMutex Tickets
taken = acquire tickets none (create tickets 300000)

taken_holds : tickets.holder taken.inner ≡ some 0
unfolding create acquire set_timeout_handler
taken_holds = refl

taken_current : taken.current_release ≡ some 0
unfolding create acquire set_timeout_handler
taken_current = refl

late_release_example :
    (is_locked tickets (acquire tickets none (fire tickets taken).0) ≡ true)
    × (is_locked tickets (release tickets (acquire tickets none (fire tickets taken).0)) ≡ false)
    × ((release tickets (acquire tickets none (fire tickets taken).0)).armed ≡ none)
late_release_example = late_release tickets taken 0 none taken_holds taken_current

-- Two messages come before the timer fires, and its handler takes both.
abbrev two_handled : History ℕ
two_handled = record {
  buffer =
      (MessageBuffer.use_buffer
        (record (MessageBuffer.add_message 2 (MessageBuffer.add_message 1 MessageBuffer.create)) {
          armed = false;
        })).0;
  waiting = 0;
  added = 1 ∷ 2 ∷ [];
  batches = (1 ∷ 2 ∷ []) ∷ [];
}

two_handled-Run : Handled.Run two_handled
unfolding MessageBuffer.create MessageBuffer.add_message MessageBuffer.process_buffer
    MessageBuffer.use_buffer MessageBuffer.clean_buffer
two_handled-Run =
    Handled.handle 0 (Handled.fire (Handled.add 2 (Handled.add 1 Handled.begin)) refl) refl

two_handled-idle : two_handled.buffer.armed ≡ false
unfolding MessageBuffer.use_buffer MessageBuffer.clean_buffer
two_handled-idle = refl

all_handled_example : concat two_handled.batches ≡ 1 ∷ 2 ∷ []
all_handled_example = all_handled two_handled two_handled-Run two_handled-idle refl
