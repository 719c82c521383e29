-- ===== src/Tests/Cache.antt =====
-- Messages for a metric and for a subscription.
use lago.Prelude.{
  lookup, ℕ, ◌≤◌, String, true, false, List, [], ◌∷◌, some, ◌≡◌, ◌≢◌, refl, inl, inr, arith,
}
use lago.Utils.Result.{success, success_result, errorf}
use lago.Utils.NullTime.{unix_milli, time_of}
use lago.Models.Tables.{BillableMetric, Subscription, stored_billable_metric, stored_subscription}
use lago.Cache.Store.{Badger, Codec}
use lago.Cache.Json.{set_json, delete, delete_with_ttl}
use lago.Cache.Consumer.{ConsumerConfig}
use lago.Cache.BillableMetrics.{billable_metrics_consumer, billable_metrics_consumer-IsLawful}
use lago.Cache.Subscriptions.{subscriptions_consumer, key_or_empty, termination_ttl}
use lago.Cache.Writes.{Found}
use lago.Cache.Messages.{IsLasting, cached, IsUpsert, process_models, process_models-newest}
use lago.Cache.Polling.{Round, fetch_error, fetched, context_done}
use lago.Tests.Fixtures.{
  Cell, list_store, list_store-Laws, row_codec, metric, newer_metric, subscription,
}

abbrev metrics : Badger
metrics = list_store BillableMetric

abbrev metric_codec : Codec BillableMetric BillableMetric stored_billable_metric
metric_codec = row_codec stored_billable_metric

abbrev consumer : ConsumerConfig (List (String × Cell BillableMetric)) BillableMetric
consumer = billable_metrics_consumer metrics metric_codec "lago"

live :
    (row : BillableMetric)
    → consumer.is_deleted row ≡ false
    → IsUpsert metrics metric_codec consumer row
unfolding set_json success success_result
live row h = record {
  lawful = billable_metrics_consumer-IsLawful metrics metric_codec "lago" row;
  live = h;
  written = λ db. refl;
}

metric-IsUpsert : IsUpsert metrics metric_codec consumer metric
unfolding billable_metrics_consumer
metric-IsUpsert = live metric refl

newer_metric-IsUpsert : IsUpsert metrics metric_codec consumer newer_metric
unfolding billable_metrics_consumer
newer_metric-IsUpsert = live newer_metric refl

no_entries : IsLasting metrics []
unfolding lookup
no_entries now later k = refl

abbrev messages : List (ℕ × BillableMetric)
messages = (7, newer_metric) ∷ (9, metric) ∷ []

process_models-newest_example :
    (x : BillableMetric) × (cached metrics metric_codec consumer 12 metric
        (process_models metrics (list_store-Laws BillableMetric) metric_codec consumer messages [])
      ≡ Found x)
    × (consumer.get_updated_at metric ≤ consumer.get_updated_at x)
process_models-newest_example =
    process_models-newest metrics (list_store-Laws BillableMetric) metric_codec consumer 12 messages
      [] 9 metric no_entries (newer_metric-IsUpsert, (metric-IsUpsert, tt)) (inr (inl refl))

newer_version : consumer.get_updated_at newer_metric ≡ 62135596900000
unfolding billable_metrics_consumer unix_milli time_of
newer_version = refl

older_version : consumer.get_updated_at metric ≡ 62135596800000
unfolding billable_metrics_consumer unix_milli time_of
older_version = refl

versions_differ : consumer.get_updated_at newer_metric ≢ consumer.get_updated_at metric
versions_differ e = omega (arith, e, newer_version, older_version)

abbrev deleted_metric : BillableMetric
deleted_metric = record metric { deleted_at = some 62135596900000000000 }

is_deleted_metric : consumer.is_deleted deleted_metric ≡ true
unfolding billable_metrics_consumer
is_deleted_metric = refl

deletes_at_once :
    consumer.delete 0 deleted_metric [] ≡ delete metrics (consumer.get_key deleted_metric) []
unfolding billable_metrics_consumer
deletes_at_once = refl

deletion_succeeds : success (delete metrics (consumer.get_key deleted_metric) []).0 ≡ true
unfolding delete success success_result
deletion_succeeds = refl

abbrev subscriptions : Badger
subscriptions = list_store Subscription

abbrev subscription_codec : Codec Subscription Subscription stored_subscription
subscription_codec = row_codec stored_subscription

abbrev terminated : Subscription
terminated = record subscription { terminated_at = some 9000000 }

is_terminated :
    (subscriptions_consumer subscriptions subscription_codec "lago").is_deleted terminated ≡ true
unfolding subscriptions_consumer
is_terminated = refl

termination_succeeds :
    success
      (delete_with_ttl subscriptions subscription_codec 0
        (key_or_empty terminated)
        terminated
        termination_ttl
        []).0
    ≡ true
unfolding delete_with_ttl success success_result
termination_succeeds = refl

delayed_deletion_succeeds :
    success (delete_with_ttl subscriptions subscription_codec 0 "k" terminated 10 []).0 ≡ true
unfolding delete_with_ttl success success_result
delayed_deletion_succeeds = refl

abbrev rounds : List (Round BillableMetric)
rounds =
    fetch_error (errorf "timeout") false
    ∷ fetched (record { value = newer_metric; time = 1; canceled = false } ∷ [])
    ∷ context_done
    ∷ []
