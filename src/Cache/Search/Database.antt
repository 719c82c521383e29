-- ===== src/Cache/Search/Database.antt =====
-- events-processor/models/subscriptions.go: the conditions of `FetchSubscription`, against those of
-- the search in the cache.
use lago.Prelude.{◌+◌, ◌*◌, ◌/◌, ◌<◌, Bool, true, false, ◌&&◌, none, some, ◌≡◌, refl, leb, arith}
use lago.Utils.NullTime.{Time, NullTime}
use lago.Models.Tables.{Subscription}
use lago.Cache.Search.{is_active, is_valid}

-- `date_trunc('millisecond', t)`
unfoldable pub truncate_ms : Time → Time
truncate_ms t = t / 1000000 * 1000000

-- The two conditions on times of the query.
unfoldable pub started_before : NullTime → Time → Bool
unfolding truncate_ms
started_before none timestamp = false
started_before (some started) timestamp = leb (truncate_ms started) timestamp

unfoldable pub not_ended : NullTime → Time → Bool
unfolding truncate_ms
not_ended none timestamp = true
not_ended (some ended) timestamp = leb timestamp (truncate_ms ended)

unfoldable pub query_conditions : Time → Subscription → Bool
unfolding started_before not_ended
query_conditions timestamp sub =
    started_before sub.started_at timestamp && not_ended sub.terminated_at timestamp

-- A time without a fraction of a millisecond.
abbrev pub IsMilli : Time → Type 0
IsMilli t = truncate_ms t ≡ t

active-eq :
    (started terminated : NullTime) (timestamp : Time)
    → IsMilli timestamp
    → ((s : Time) → started ≡ some s → IsMilli s)
    → is_active started terminated timestamp
      ≡ (started_before started timestamp && not_ended terminated timestamp)
unfolding is_active started_before not_ended
active-eq none terminated timestamp ht hs = refl
active-eq (some s) none timestamp ht hs = ground (arith, hs s refl)
active-eq (some s) (some e) timestamp ht hs = ground (arith, hs s refl)

-- For events at a whole millisecond and subscriptions that started at
-- one, the cache finds valid exactly the rows that the query selects, terminations at any time.
pub is_valid-query_conditions :
    (timestamp : Time) (sub : Subscription)
    → IsMilli timestamp
    → ((s : Time) → sub.started_at ≡ some s → IsMilli s)
    → is_valid timestamp sub ≡ query_conditions timestamp sub
unfolding is_valid query_conditions
is_valid-query_conditions timestamp sub ht hs =
    active-eq sub.started_at sub.terminated_at timestamp ht hs

-- A subscription that started in the millisecond of the event, but not at its beginning, and has
-- not ended, is selected by the query and is not valid for the cache.
pub started_within_milli :
    (timestamp fraction : Time) (sub : Subscription)
    → IsMilli timestamp
    → 0 < fraction
    → fraction < 1000000
    → sub.started_at ≡ some (timestamp + fraction)
    → sub.terminated_at ≡ none
    → (query_conditions timestamp sub ≡ true) × (is_valid timestamp sub ≡ false)
unfolding query_conditions is_valid is_active
started_within_milli timestamp fraction sub ht pos small hs he = ground arith
