-- ===== src/Tests/Streams.antt =====
-- Tables read from the database, and events that are enriched with their rows.
use lago.Prelude.{
  sym, ◌∙◌, some-injective, String, true, List, [], ◌∷◌, some, In, ◌≡◌, refl, inl, inr, insert,
  lookup, join, arith, ap, ◌∙◌, subst,
}
use lago.Utils.Result.{Error, errorf, Except, ok, error, success_result}
use lago.Utils.NullTime.{Time}
use lago.Models.Tables.{BillableMetric, Subscription, stored_billable_metric, stored_subscription}
use lago.Models.Streaming.{get_all_with_streaming}
use lago.Models.Streaming.All.{answer_of, get_all_with_streaming-scan_all}
use lago.Models.Fetch.{Database, fetch_subscription}
use lago.Cache.Store.{Badger, Codec}
use lago.Cache.Json.{set_json, search_json}
use lago.Cache.Subscriptions.{set_subscription, build_subscription_key}
use lago.Cache.Search.{search_prefix, search_subscriptions}
use lago.Cache.Search.Order.{ComesFirst, ComesFirst-refl}
use lago.Cache.Search.Database.{IsMilli, truncate_ms, query_conditions}
use lago.Cache.Search.Fetching.{Answers, Agree, NoTies, search_subscriptions-fetch_subscription}
use lago.Tests.Fixtures.{Cell, list_store, row_codec, metric, newer_metric, subscription}

abbrev no_connection : Error
no_connection = errorf "connection refused"

abbrev read_rows : List (Except BillableMetric)
read_rows = ok metric ∷ ok newer_metric ∷ []

get_all_with_streaming-scan_all_example :
    get_all_with_streaming (ok (read_rows, some no_connection))
    ≡ answer_of (ok (read_rows, some no_connection))
get_all_with_streaming-scan_all_example =
    get_all_with_streaming-scan_all (ok (read_rows, some no_connection))

abbrev metrics : Badger
metrics = list_store BillableMetric

abbrev metric_codec : Codec BillableMetric BillableMetric stored_billable_metric
metric_codec = row_codec stored_billable_metric

abbrev row : Subscription
row = stored_subscription subscription

abbrev database : Database
database = record {
  query = λ config. error no_connection;
  first_metric = λ o c. ok metric;
  find_subscription = λ o x t. ok row;
  find_flat_filters = λ o p c. ok [];
}

abbrev store : Badger
store = list_store Subscription

abbrev codec : Codec Subscription Subscription stored_subscription
codec = row_codec stored_subscription

abbrev db : List (String × Cell Subscription)
db = (set_subscription store codec subscription []).1

abbrev event_time : Time
event_time = 62135596800000000000

store_is_read : search_json store codec 0 (search_prefix "org" "ext") db ≡ success_result (row ∷ [])
unfolding search_json success_result set_subscription set_json insert build_subscription_key join
    search_prefix lookup
store_is_read = refl

event_time-IsMilli : IsMilli event_time
unfolding truncate_ms
event_time-IsMilli = refl

row-IsMilli : (c : Subscription) (s : Time) → In c (row ∷ []) → c.started_at ≡ some s → IsMilli s
unfolding truncate_ms stored_subscription
row-IsMilli c s (inl same) e =
    omega (arith, some-injective (ap (λ (x : Subscription). x.started_at) same ∙ e))
row-IsMilli c s (inr m) e = elim m [ ]

first :
    (c : Subscription) → In c (row ∷ []) → query_conditions event_time c ≡ true → ComesFirst row c
first c (inl same) q = subst (ComesFirst row) same (ComesFirst-refl row)
first c (inr m) q = elim m [ ]

row-NoTies : NoTies event_time (row ∷ [])
row-NoTies a b (inl e) (inl f) qa qb ab ba = sym e ∙ f
row-NoTies a b (inl e) (inr m) qa qb ab ba = elim m [ ]
row-NoTies a b (inr m) n qa qb ab ba = elim m [ ]

row-Answers : Answers event_time (row ∷ []) (ok row)
unfolding stored_subscription query_conditions
row-Answers = inl (inl refl, refl, refl, first)

search_subscriptions-fetch_subscription_example :
    Agree
      (search_subscriptions store codec 0 "org" "ext" event_time db)
      (fetch_subscription database "org" "ext" event_time)
search_subscriptions-fetch_subscription_example =
    search_subscriptions-fetch_subscription store codec database 0 "org" "ext" event_time db
      (row ∷ []) (row ∷ []) row store_is_read (λ c. (λ m. m, λ m. m)) refl row-Answers row-NoTies
      event_time-IsMilli row-IsMilli
