-- ===== src/Sync/Exclusion.antt =====
-- Who is in a section that the mutex of lib/domain-collectors/utils/TimeoutMutex.js guards.
use wolfram_price_feed_infra.Base.{
  ℕ, ◌≤◌, if◌then◌else◌, ◌≡◌, refl, sym, ap, ◌∙◌, ◌⊎◌, inl, inr, true, false, not, Option, none,
  some, List, [], ◌∷◌, length, filter, includes, ◌==◌, Bool-cases, arith, none≢some,
}
use mathlib.Core.Bool.{false≢true}
use wolfram_price_feed_infra.Sync.TimeoutMutex.{
  is_some, Mutex, TimeoutMutex, create, is_locked, set_timeout_handler, acquire,
  call_current_release, release, release_inherited, fire, add_timeout,
}

-- The mutex, and the callers between their acquisition and their release.
pub record Section (State : Type 0) : Type 0 where
  pub guard : TimeoutMutex State
  pub inside : List ℕ

abbrev without : ℕ → List ℕ → List ℕ
without c l = filter (λ d. not (d == c)) l

-- Callers enter when the mutex is free, may extend their time, and leave, by the function that their
-- acquisition returned or by the inherited release; no timeout fires, and nobody releases from outside.
pub data Run {State : Type 0} (mutex : Mutex State) (timeout : ℕ) : Section State → Type 0 where
  begin : Run mutex timeout (record { guard = create mutex timeout; inside = [] })
  enter :
      {s : Section State} (c : ℕ) (limit : Option ℕ)
      → Run mutex timeout s
      → is_locked mutex s.guard ≡ false
      → Run mutex timeout (record { guard = acquire mutex limit s.guard; inside = c ∷ s.inside })
  extend :
      {s : Section State} (more : ℕ)
      → Run mutex timeout s
      → Run mutex timeout (record s { guard = add_timeout mutex more s.guard })
  leave :
      {s : Section State} (c : ℕ)
      → Run mutex timeout s
      → includes s.inside c ≡ true
      → Run mutex timeout (record { guard = release mutex s.guard; inside = without c s.inside })
  leave_inherited :
      {s : Section State} (c : ℕ)
      → Run mutex timeout s
      → includes s.inside c ≡ true
      → Run mutex timeout
          (record { guard = release_inherited mutex s.guard; inside = without c s.inside })

none-of-false : (o : Option ℕ) → is_some o ≡ false → o ≡ none
none-of-false none h = refl
none-of-false (some r) h = absurd (false≢true (sym h))

module _ {State : Type 0} (mutex : Mutex State) where
  -- The section is empty and the mutex free, or the one inside holds it by the last acquisition.
  abbrev IsExclusive : Section State → Type 0
  IsExclusive s =
      ((s.inside ≡ []) × (mutex.holder s.guard.inner ≡ none))
      ⊎ ((c r : ℕ) × (s.inside ≡ c ∷ [])
          × (mutex.holder s.guard.inner ≡ some r)
          × (s.guard.current_release ≡ some r))

  unlocked-free : (m : TimeoutMutex State) → is_locked mutex m ≡ false → mutex.holder m.inner ≡ none
  unfolding is_locked
  unlocked-free m h = none-of-false (mutex.holder m.inner) h

  release-free :
      (m : TimeoutMutex State) (r : ℕ)
      → mutex.holder m.inner ≡ some r
      → m.current_release ≡ some r
      → mutex.holder (release mutex m).inner ≡ none
  unfolding release call_current_release
  release-free m r holds current =
      rw (current, call_current_release) (mutex.release_own m.inner r holds)

  without_only : (c d : ℕ) → includes (c ∷ []) d ≡ true → without d (c ∷ []) ≡ []
  without_only c d h = elim (Bool-cases (c == d)) [
    | inl e ↦ rw e refl
    | inr e ↦ absurd (false≢true (rw e at h))
  ]

  run-IsExclusive : {timeout : ℕ} {s : Section State} → Run mutex timeout s → IsExclusive s
  unfolding create acquire set_timeout_handler add_timeout release_inherited
  run-IsExclusive begin = inl (refl, mutex.new_free)
  run-IsExclusive (enter {s} c limit run free) = elim (run-IsExclusive run) [
    | inl (empty, holds) ↦ inr (
      c,
      (mutex.acquire s.guard.inner).1,
      ap (◌∷◌ c) empty,
      mutex.acquire_holds s.guard.inner holds,
      refl,
    )
    | inr (_, r, _, holds, _) ↦ absurd (none≢some (sym (unlocked-free s.guard free) ∙ holds))
  ]
  run-IsExclusive (extend more run) = run-IsExclusive run
  run-IsExclusive (leave {s} c run there) = elim (run-IsExclusive run) [
    | inl (empty, _) ↦ absurd (false≢true (rw empty at there))
    | inr (d, r, only, holds, current) ↦ inl (
      ap (without c) only ∙ without_only d c (rw only at there),
      release-free s.guard r holds current,
    )
  ]
  run-IsExclusive (leave_inherited {s} c run there) = elim (run-IsExclusive run) [
    | inl (empty, _) ↦ absurd (false≢true (rw empty at there))
    | inr (d, r, only, holds, current) ↦ inl (
      ap (without c) only ∙ without_only d c (rw only at there),
      mutex.release_held_frees s.guard.inner,
    )
  ]

-- As long as no timeout fires and only callers that are inside release the mutex, by the function that their
-- acquisition returned or by the inherited release, at most one caller is inside: the mutex is locked as long as
-- one is, and when the last has left it is free, so that the next can enter.
pub mutual_exclusion :
    {State : Type 0} (mutex : Mutex State) {timeout : ℕ} (s : Section State)
    → Run mutex timeout s
    → (length s.inside ≤ 1)
      × (is_locked mutex s.guard ≡ (if length s.inside == 0 then false else true))
unfolding is_locked
mutual_exclusion mutex s run = elim (run-IsExclusive mutex run) [
  | inl (empty, free) ↦ rw (empty, free) (omega arith, refl)
  | inr (c, r, only, holds, _) ↦ rw (only, holds) (omega arith, refl)
]

fired-free :
    {State : Type 0} (mutex : Mutex State) (m : TimeoutMutex State) (r : ℕ)
    → mutex.holder m.inner ≡ some r
    → m.current_release ≡ some r
    → mutex.holder (fire mutex m).0.inner ≡ none
unfolding is_locked call_current_release fire
fired-free mutex m r holds current =
    rw (holds, current, call_current_release) (mutex.release_own m.inner r holds)

-- After a timeout the first caller's release is not its own any more: the timeout fires while the first
-- caller is inside, a second enters, and the first leaves. The second then holds the mutex no longer, and its
-- timeout is cleared, although it has neither left nor timed out.
pub late_release :
    {State : Type 0} (mutex : Mutex State) (m : TimeoutMutex State) (r : ℕ) (limit : Option ℕ)
    → mutex.holder m.inner ≡ some r
    → m.current_release ≡ some r
    → let second = acquire mutex limit (fire mutex m).0 in
      (is_locked mutex second ≡ true)
      × (is_locked mutex (release mutex second) ≡ false)
      × ((release mutex second).armed ≡ none)
unfolding is_locked acquire set_timeout_handler release call_current_release fire
late_release mutex m r limit holds current =
    let inner = (fire mutex m).0.inner in
    let grant = mutex.acquire inner in
    let held = mutex.acquire_holds inner (fired-free mutex m r holds current) in
    (ap is_some held, ap is_some (mutex.release_own grant.0 grant.1 held), refl)
