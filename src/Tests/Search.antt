-- ===== src/Tests/Search.antt =====
-- Searches of the subscription of an event.
use lago.Prelude.{
  some-injective, String, starts_with, true, false, List, [], In, none, some, ◌≡◌, refl, ◌⊎◌, arith,
  join, insert, lookup,
}
use lago.Utils.Result.{ok, key_not_found, error≢ok, success_result}
use lago.Utils.NullTime.{Time}
use lago.Models.Tables.{Subscription, stored_subscription}
use lago.Cache.Store.{Badger, Codec}
use lago.Cache.Json.{search_json, set_json}
use lago.Cache.Subscriptions.{set_subscription, build_subscription_key}
use lago.Cache.Search.{is_valid, search_prefix, search_subscriptions}
use lago.Cache.Search.Order.{ComesFirst}
use lago.Cache.Search.Collision.{search_subscriptions-collision}
use lago.Cache.Search.Database.{
  IsMilli, truncate_ms, query_conditions, is_valid-query_conditions, started_within_milli,
}
use lago.Cache.Search.Lookup.{search_subscriptions-first}
use lago.Cache.Search.Customer.{IsKeyed, search_subscriptions-customer, set_subscription-IsKeyed}
use lago.Tests.Fixtures.{Cell, list_store, list_store-Laws, row_codec, subscription}

found_key : starts_with (build_subscription_key "org" "ext" "s1") (search_prefix "org" "ext") ≡ true
unfolding build_subscription_key search_prefix join
found_key = refl

at-IsMilli : IsMilli 6000000
unfolding truncate_ms
at-IsMilli = refl

abbrev org : String
org = "org"

abbrev external : String
external = "ext"

started_at-IsMilli : (s : Time) → subscription.started_at ≡ some s → IsMilli s
unfolding truncate_ms
started_at-IsMilli s e = omega (arith, some-injective e)

is_valid-query_conditions_example :
    is_valid 6000000 subscription ≡ query_conditions 6000000 subscription
is_valid-query_conditions_example =
    is_valid-query_conditions 6000000 subscription at-IsMilli started_at-IsMilli

abbrev late : Subscription
late = record subscription { started_at = some 6000001 }

started_within_milli_example :
    (query_conditions 6000000 late ≡ true) × (is_valid 6000000 late ≡ false)
started_within_milli_example =
    started_within_milli 6000000 1 late at-IsMilli (omega arith) (omega arith) refl refl

abbrev store : Badger
store = list_store Subscription

abbrev codec : Codec Subscription Subscription stored_subscription
codec = row_codec stored_subscription

abbrev db : List (String × Cell Subscription)
db = (set_subscription store codec subscription []).1

abbrev found_rows : List Subscription
found_rows = (search_json store codec 0 (search_prefix "org" "ext") db).value

store_is_read : search_json store codec 0 (search_prefix "org" "ext") db ≡ success_result found_rows
unfolding search_json success_result set_subscription set_json insert build_subscription_key join
    search_prefix lookup
store_is_read = refl

search_subscriptions-first_example :
    ((b : Subscription) × (search_subscriptions store codec 0 "org" "ext" 62135596800000000000 db
        ≡ success_result (some b))
      × In b found_rows
      × (is_valid 62135596800000000000 b ≡ true)
      × ((c : Subscription)
          → In c found_rows
          → is_valid 62135596800000000000 c ≡ true
          → ComesFirst b c))
    ⊎ ((search_subscriptions store codec 0 "org" "ext" 62135596800000000000 db ≡ record {
      value = none;
      err = some key_not_found;
      details = none;
      retryable = false;
      capture = false;
    })
        × ((c : Subscription) → In c found_rows → is_valid 62135596800000000000 c ≡ false))
search_subscriptions-first_example =
    search_subscriptions-first store codec 0 "org" "ext" 62135596800000000000 db found_rows
      store_is_read

empty-IsKeyed : IsKeyed store (list_store-Laws Subscription) codec 0 []
unfolding lookup
empty-IsKeyed = record { own = λ k bytes sub e u h. absurd (error≢ok e) }

db-IsKeyed : IsKeyed store (list_store-Laws Subscription) codec 0 db
db-IsKeyed =
    set_subscription-IsKeyed store (list_store-Laws Subscription) codec 0 subscription org []
      empty-IsKeyed refl refl refl

abbrev event_time : Time
event_time = 62135596800000000000

answer :
    search_subscriptions store codec 0 org external event_time db
    ≡ success_result (some (stored_subscription subscription))
unfolding search_subscriptions search_json success_result set_subscription set_json insert
    build_subscription_key join search_prefix lookup stored_subscription
answer = refl

search_subscriptions-customer_example :
    ((stored_subscription subscription).organization_id ≡ some org)
    × ((stored_subscription subscription).external_id ≡ external)
search_subscriptions-customer_example =
    search_subscriptions-customer store (list_store-Laws Subscription) codec 0 org external
      event_time db found_rows (stored_subscription subscription) db-IsKeyed refl refl store_is_read
      answer

-- A subscription of the customer `ext:b`.
abbrev extended : Subscription
extended = record subscription { external_id = "ext:b" }

abbrev with_extended : List (String × Cell Subscription)
with_extended =
    insert (build_subscription_key org extended.external_id extended.id)
      (some (stored_subscription extended, none)) []

abbrev extended_rows : List Subscription
extended_rows = (search_json store codec 0 (search_prefix org external) with_extended).value

extended_is_read :
    search_json store codec 0 (search_prefix org external) with_extended
    ≡ success_result extended_rows
unfolding search_json success_result insert build_subscription_key join search_prefix lookup
extended_is_read = refl

nothing_stored :
    (k : String) (v : Subscription)
    → starts_with k (search_prefix org external) ≡ true
    → store.get 0 k [] ≡ ok v
    → ⊥
unfolding lookup
nothing_stored k v t g = error≢ok g

extended-is_valid : is_valid event_time (stored_subscription extended) ≡ true
unfolding is_valid stored_subscription
extended-is_valid = refl

search_subscriptions-collision_example :
    search_subscriptions store codec 0 org external event_time with_extended
    ≡ success_result (some (stored_subscription extended))
search_subscriptions-collision_example =
    search_subscriptions-collision store (list_store-Laws Subscription) codec 0 org external "b"
      event_time extended (stored_subscription extended) [] with_extended extended_rows refl refl
      refl nothing_stored extended_is_read extended-is_valid
