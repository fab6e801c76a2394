-- ===== src/Replica/RateLimit.antt =====
-- RateLimitStateManagerReducer.js: the replicas follow the largest rate limit multiplier.
use wolfram_price_feed_infra.Base.{
  ℕ, max, Bool, false, Option, none, some, List, [], ◌∷◌, map, ltb, ◌==◌, if◌then◌else◌,
}
use wolfram_price_feed_infra.Replica.Messages.{StatusMessage, ShareMessage}

-- `Math.max` of the values; `none` is the `-Infinity` of an empty list, or of values that are all
-- absent. An absent value among others would be `NaN`; no message of this program lacks it.
abbrev pub math_max : List (Option ℕ) → Option ℕ
math_max [] = none
math_max (none ∷ xs) = math_max xs
math_max (some n ∷ xs) = elim (math_max xs) [ none ↦ some n | some m ↦ some (max n m) ]

unfoldable pub aggregate_state : List StatusMessage → Option ℕ
aggregate_state messages =
    math_max (map (λ (m : StatusMessage). some m.data_.rate_limit_multiplier) messages)

-- A multiplier of 0 is falsy.
unfoldable pub normalize_state : Option ℕ → Option ℕ
normalize_state none = none
normalize_state (some n) = if n == 0 then none else some n

unfoldable pub aggregate_share_state : List ShareMessage → Option ℕ
aggregate_share_state messages =
    math_max (map (λ (m : ShareMessage). m.data_.rate_limit_multiplier) messages)

-- `current` is the multiplier of the internal scheduler.
unfoldable pub sanitize_share_state : ℕ → Option ℕ → Option ℕ
sanitize_share_state current none = none
sanitize_share_state current (some n) = if ltb current n then some n else none

unfoldable pub should_reload : ℕ → Option ℕ → Bool
should_reload current none = false
should_reload current (some n) = if n == 0 then false else ltb current n
