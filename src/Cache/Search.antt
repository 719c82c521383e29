-- ===== src/Cache/Search.antt =====
-- events-processor/cache/subscriptions.go, `SearchSubscriptions`: the subscription that an event of
-- a given time belongs to.
pub mod Order
pub mod Keys
pub mod Database
pub mod Lookup
pub mod Customer
pub mod Collision
pub mod Fetching
use lago.Prelude.{
  ℕ, String, join, Bool, true, false, not, ◌&&◌, ◌||◌, List, [], ◌∷◌, Option, none, some, ltb, ◌==◌,
  if◌then◌else◌, keep,
}
use lago.Utils.Result.{
  Error, key_not_found, Result, success_result, failed_result, non_retryable, non_capturable,
}
use lago.Utils.NullTime.{Time, NullTime}
use lago.Models.Tables.{Subscription, stored_subscription}
use lago.Cache.Store.{Badger, Codec}
use lago.Cache.Json.{search_json}

-- `After`, on the times of two rows or of a row and an event
abbrev pub after : Time → Time → Bool
after t u = ltb u t

-- The tests of the first loop, on the times at which a subscription started and ended.
unfoldable pub is_active : NullTime → NullTime → Time → Bool
is_active none terminated timestamp = false
is_active (some started) none timestamp = not (after started timestamp)
is_active (some started) (some ended) timestamp =
    not (after started timestamp) && (after ended timestamp || ended == timestamp)

unfoldable pub is_valid : Time → Subscription → Bool
unfolding is_active
is_valid timestamp sub = is_active sub.started_at sub.terminated_at timestamp

-- The last test of the second loop: the later start wins.
unfoldable pub starts_later : NullTime → NullTime → Bool
starts_later (some sub) (some best) = after sub best
starts_later (some sub) none = false
starts_later none best = false

-- Whether a round of the second loop takes `sub` in place of the best match; the arguments are
-- `sub.TerminatedAt` and `bestMatch.TerminatedAt`.
unfoldable pub replaces : NullTime → NullTime → Bool → Bool
replaces (some sub) none later = false
replaces none (some best) later = true
replaces (some sub) (some best) later =
    if after sub best then true else if ltb sub best then false else later
replaces none none later = later

unfoldable pub better : Subscription → Option Subscription → Option Subscription
unfolding replaces starts_later
better sub none = some sub
better sub (some best) =
    if replaces sub.terminated_at best.terminated_at (starts_later sub.started_at best.started_at)
    then some sub
    else some best

unfoldable pub best_match : List Subscription → Option Subscription → Option Subscription
unfolding better
best_match [] best = best
best_match (sub ∷ subs) best = best_match subs (better sub best)

-- What follows the two loops.
unfoldable pub search_result : Option Subscription → Result (Option Subscription)
unfolding success_result failed_result non_retryable non_capturable
search_result none = non_retryable (non_capturable (failed_result none key_not_found))
search_result (some best) = success_result (some best)

unfoldable pub search_prefix : String → String → String
search_prefix organization_id external_id =
    join ":" ("sub" ∷ organization_id ∷ external_id ∷ "" ∷ [])

-- What `SearchSubscriptions` makes of the rows that the store holds under the prefix.
unfoldable pub select_match : Time → Result (List Subscription) → Result (Option Subscription)
unfolding is_valid best_match search_result failed_result
select_match timestamp result = elim result.err [
  | some e ↦ failed_result none e
  | none ↦ search_result (best_match (keep (is_valid timestamp) result.value) none)
]

module _ (B : Badger) (C : Codec B.Bytes Subscription stored_subscription) where
  unfoldable pub search_subscriptions :
      ℕ → String → String → Time → B.Db → Result (Option Subscription)
  unfolding search_prefix select_match
  search_subscriptions now organization_id external_id timestamp db =
      select_match timestamp (search_json B C now (search_prefix organization_id external_id) db)
