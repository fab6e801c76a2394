-- ===== src/Sync/TimeoutMutex.antt =====
-- lib/domain-collectors/utils/TimeoutMutex.js: a mutex whose holder loses it after some time.
-- The mutex that it extends is the package async-mutex, a parameter with the behaviour it documents.
use wolfram_price_feed_infra.Base.{
  ℕ, ◌+◌, ◌≡◌, ◌≢◌, Bool, true, false, Option, none, some, get_or, if◌then◌else◌,
}

abbrev pub is_some {ℓ} : {A : Type ℓ} → Option A → Bool
is_some none = false
is_some (some _) = true

-- An acquisition yields a release, named by a number: the release of the acquisition that holds the mutex
-- frees it, and any other has no effect. `release_held` is the mutex's own `release`, which frees it whoever
-- holds it. `acquire` is the grant, when the mutex is free.
pub record Mutex (State : Type 0) : Type 0 where
  pub new_state : State
  pub holder : State → Option ℕ
  pub acquire : State → State × ℕ
  pub release : ℕ → State → State
  pub release_held : State → State
  pub new_free : holder new_state ≡ none
  pub acquire_holds : (s : State) → holder s ≡ none → holder (acquire s).0 ≡ some (acquire s).1
  pub release_own : (s : State) (r : ℕ) → holder s ≡ some r → holder (release r s) ≡ none
  pub release_held_frees : (s : State) → holder (release_held s) ≡ none
  pub release_other : (s : State) (r : ℕ) → holder s ≢ some r → holder (release r s) ≡ holder s

-- `armed` is the delay of the timeout that will fire: there is one at most, as each that is set takes the
-- place of the one before.
pub record TimeoutMutex (State : Type 0) : Type 0 where
  pub inner : State
  pub timeout : ℕ
  pub current_release : Option ℕ
  pub armed : Option ℕ

module _ {State : Type 0} (mutex : Mutex State) where
  unfoldable pub create : ℕ → TimeoutMutex State
  create timeout = record {
    inner = mutex.new_state;
    timeout = timeout;
    current_release = none;
    armed = none;
  }

  unfoldable pub is_locked : TimeoutMutex State → Bool
  is_locked m = is_some (mutex.holder m.inner)

  unfoldable pub set_timeout_handler : Option ℕ → TimeoutMutex State → TimeoutMutex State
  set_timeout_handler timeout m = record m { armed = some (get_or timeout m.timeout) }

  -- What follows the grant of the mutex.
  unfoldable pub acquire : Option ℕ → TimeoutMutex State → TimeoutMutex State
  unfolding set_timeout_handler
  acquire timeout m =
      let (inner, release) = mutex.acquire m.inner in
      set_timeout_handler timeout (record m { inner = inner; current_release = some release })

  unfoldable pub call_current_release : TimeoutMutex State → TimeoutMutex State
  call_current_release m = elim m.current_release [
    | none ↦ m
    | some release ↦ record m { inner = mutex.release release m.inner }
  ]

  -- The function that `acquire` returns: it reads the release of the last acquisition, not of its own.
  unfoldable pub release : TimeoutMutex State → TimeoutMutex State
  unfolding call_current_release
  release m = call_current_release (record m { armed = none })

  -- The `release` that the class inherits, by which the phases of ReplicaDiscoveryPolicy.js leave. It leaves the
  -- timeout and the release of the last acquisition as they are.
  unfoldable pub release_inherited : TimeoutMutex State → TimeoutMutex State
  release_inherited m = record m { inner = mutex.release_held m.inner }

  -- The timeout fires; whether it throws.
  unfoldable pub fire : TimeoutMutex State → TimeoutMutex State × Bool
  unfolding is_locked call_current_release
  fire m =
      let fired = record m { armed = none } in
      if is_locked m then (call_current_release fired, true) else (fired, false)

  unfoldable pub add_timeout : ℕ → TimeoutMutex State → TimeoutMutex State
  unfolding set_timeout_handler
  add_timeout timeout m = set_timeout_handler (some (timeout + m.timeout)) m

  unfoldable pub update_timeout : ℕ → TimeoutMutex State → TimeoutMutex State
  unfolding set_timeout_handler
  update_timeout timeout m = set_timeout_handler (some timeout) (record m { timeout = timeout })

  unfoldable pub change_timeout : ℕ → TimeoutMutex State → TimeoutMutex State
  unfolding set_timeout_handler
  change_timeout timeout m = set_timeout_handler (some timeout) m

  unfoldable pub reload_timeout : TimeoutMutex State → TimeoutMutex State
  unfolding set_timeout_handler
  reload_timeout m = set_timeout_handler none m
