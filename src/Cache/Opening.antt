-- ===== src/Cache/Opening.antt =====
-- events-processor/cache/cache.go and consumer.go: the cache is opened, and a consumer of changes is
-- started for each table.
pub mod Starting
use lago.Prelude.{String, cat, join, List, [], ◌∷◌, Option, none, some}
use lago.Utils.Result.{Error, errorf, error_text, Except, ok, error}
use lago.Utils.Env.{Env}
use lago.Cache.Store.{Badger, Codec}
use lago.Cache.Consumer.{ConsumerConfig}
use lago.Cache.BillableMetrics.{billable_metrics_consumer}
use lago.Cache.Subscriptions.{subscriptions_consumer}
use lago.Cache.Charges.{charges_consumer}
use lago.Cache.BillableMetricFilters.{billable_metric_filters_consumer}
use lago.Cache.ChargeFilters.{charge_filters_consumer}
use lago.Cache.ChargeFilterValues.{charge_filter_values_consumer}
use lago.Cache.Loading.{
  Row, stored, Table, billable_metrics, subscriptions, charges, billable_metric_filters,
  charge_filters, charge_filter_values,
}

-- `fmt.Errorf(text + ": %w", err)`
abbrev pub wrap : String → Error → Error
wrap text e = errorf (cat text (cat ": " (error_text e)))

-- `NewCache`: `opened` is what `badger.Open` returns.
unfoldable pub new_cache : {D : Type 0} → Except D → Except D
unfolding error_text
new_cache (error e) = error (wrap "failed to open badger db" e)
new_cache (ok db) = ok db

-- The options of the client of a consumer.
pub data ChangeOpt : Type 0 where
  seed_brokers consumer_group consume_topics : String → ChangeOpt
  disable_auto_commit : ChangeOpt

-- The name of a consumer in the list of `ConsumeChanges`.
abbrev pub consumer_name : Table → String
consumer_name billable_metrics = "billable metrics"
consumer_name subscriptions = "subscriptions"
consumer_name charges = "charges"
consumer_name billable_metric_filters = "billable metric filters"
consumer_name charge_filters = "charge filters"
consumer_name charge_filter_values = "charge filter values"

abbrev pub consumers : List Table
consumers =
    billable_metrics ∷ subscriptions ∷ charges ∷ billable_metric_filters ∷ charge_filters
    ∷ charge_filter_values ∷ []

-- The configurations of the six consumers.
unfoldable pub consumer_config :
    (B : Badger)
    → ((t : Table) → Codec B.Bytes (Row t) (stored t))
    → (t : Table) → String
    → ConsumerConfig B.Db (Row t)
unfolding billable_metrics_consumer subscriptions_consumer charges_consumer
    billable_metric_filters_consumer charge_filters_consumer charge_filter_values_consumer
consumer_config B C billable_metrics = billable_metrics_consumer B (C billable_metrics)
consumer_config B C subscriptions = subscriptions_consumer B (C subscriptions)
consumer_config B C charges = charges_consumer B (C charges)
consumer_config B C billable_metric_filters =
    billable_metric_filters_consumer B (C billable_metric_filters)
consumer_config B C charge_filters = charge_filters_consumer B (C charge_filters)
consumer_config B C charge_filter_values = charge_filter_values_consumer B (C charge_filter_values)

-- `new_client` is `kgo.NewClient`, `uuid` the random part of the group of a consumer.
module _ (B : Badger) (C : (t : Table) → Codec B.Bytes (Row t) (stored t)) (Client : Type 0)
    (new_client : List ChangeOpt → Except Client) (uuid : Table → String) (env : Env) where
  -- `startGenericConsumer`: the client that the goroutine polls.
  unfoldable pub start_generic_consumer :
      {T : Type 0} → ConsumerConfig B.Db T → String → Except Client
  start_generic_consumer config id =
      elim (new_client (
        seed_brokers (env "LAGO_KAFKA_BOOTSTRAP_SERVERS")
        ∷ consumer_group (cat "lago_evp_" (cat config.model_name (cat "_" id)))
        ∷ consume_topics config.topic
        ∷ disable_auto_commit
        ∷ [])) [ error e ↦ error e | ok client ↦ ok client ]

  -- The consumer of a table, in the list of `ConsumeChanges`.
  unfoldable pub start_consumer : String → Table → Except Client
  unfolding start_generic_consumer consumer_config
  start_consumer topic_prefix t =
      start_generic_consumer (consumer_config B C t topic_prefix) (uuid t)

  -- The loop of `ConsumeChanges`: the consumers that were started, and the error that it ends in.
  unfoldable pub start_consumers : String → List Table → List (Table × Client) × Option Error
  unfolding start_consumer error_text
  start_consumers topic_prefix [] = ([], none)
  start_consumers topic_prefix (t ∷ rest) =
      let others = start_consumers topic_prefix rest in
      elim (start_consumer topic_prefix t) [
        | error e ↦ ([], some (wrap (cat "failed to start " (cat (consumer_name t) " consumer")) e))
        | ok client ↦ ((t, client) ∷ others.0, others.1)
      ]

  unfoldable pub consume_changes : String → List (Table × Client) × Option Error
  unfolding start_consumers
  consume_changes topic_prefix = start_consumers topic_prefix consumers
