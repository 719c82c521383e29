-- ===== src/Tests/Loading.antt =====
-- A cache that is filled with a metric and a subscription, and a program that uses it.
use lago.Prelude.{ℕ, String, str_eq, join, List, [], ◌∷◌, some, ◌≡◌, refl, if◌then◌else◌}
use lago.Utils.Result.{
  errorf, Except, ok, error, ok-injective, Result, success, success_result, returns,
}
use lago.Utils.Env.{Env}
use lago.Models.Tables.{
  BillableMetric, stored_billable_metric, Subscription, stored_subscription, Charge, stored_charge,
  BillableMetricFilter, stored_billable_metric_filter, ChargeFilter, stored_charge_filter,
  ChargeFilterValue, stored_charge_filter_value,
}
use lago.Cache.Store.{Badger, Codec}
use lago.Cache.Json.{set_json, get_json}
use lago.Cache.Subscriptions.{key_or_empty, build_subscription_key}
use lago.Cache.BillableMetrics.{build_billable_metric_key}
use lago.Cache.Loading.{
  Table, billable_metrics, subscriptions, charges, billable_metric_filters, charge_filters,
  charge_filter_values, Row, stored, load_table, write_row, table_writes, Loading, set_load, write,
  Run, start, next, load_initial_snapshot,
}
use lago.Cache.Loading.Together.{Accepts, Run-load_table}
use lago.Cache.Loading.Finishing.{Run-Ended}
use lago.Cache.Opening.{ChangeOpt, consumers, consume_changes}
use lago.Cache.Opening.Starting.{Outcomes, consume_changes-Outcomes}
use lago.Processor.Main.{World, Cached, Program, main}
use lago.Processor.Main.Ready.{Complete, main-Complete, main-load_table}
use lago.Tests.Fixtures.{Cell, list_store, list_store-Laws, metric, subscription}
use lago.Tests.Startup.{sdk, services}

-- A row of one of the tables.
data AnyRow : Type 0 where
  a_metric : BillableMetric → AnyRow
  a_subscription : Subscription → AnyRow
  a_charge : Charge → AnyRow
  a_metric_filter : BillableMetricFilter → AnyRow
  a_charge_filter : ChargeFilter → AnyRow
  a_filter_value : ChargeFilterValue → AnyRow

abbrev other_row : {A : Type 0} → Except A
other_row = error (errorf "another row")

abbrev codec_by :
    {T : Type 0} (stored : T → T) (row : T → AnyRow) (read : AnyRow → Except T)
    → ((x : T) → read (row x) ≡ ok x)
    → Codec AnyRow T stored
codec_by stored row read reads = record {
  marshal = λ x. ok (row (stored x));
  unmarshal = read;
  unmarshal-marshal = λ x b e. rw (← ok-injective e) (reads (stored x));
}

abbrev codecs : (t : Table) → Codec AnyRow (Row t) (stored t)
codecs billable_metrics =
    codec_by stored_billable_metric a_metric (λ r. elim r [ a_metric x ↦ ok x | _ ↦ other_row ])
      (λ x. refl)
codecs subscriptions =
    codec_by stored_subscription a_subscription
      (λ r. elim r [ a_subscription x ↦ ok x | _ ↦ other_row ]) (λ x. refl)
codecs charges =
    codec_by stored_charge a_charge (λ r. elim r [ a_charge x ↦ ok x | _ ↦ other_row ]) (λ x. refl)
codecs billable_metric_filters =
    codec_by stored_billable_metric_filter a_metric_filter
      (λ r. elim r [ a_metric_filter x ↦ ok x | _ ↦ other_row ]) (λ x. refl)
codecs charge_filters =
    codec_by stored_charge_filter a_charge_filter
      (λ r. elim r [ a_charge_filter x ↦ ok x | _ ↦ other_row ]) (λ x. refl)
codecs charge_filter_values =
    codec_by stored_charge_filter_value a_filter_value
      (λ r. elim r [ a_filter_value x ↦ ok x | _ ↦ other_row ]) (λ x. refl)

abbrev rows : Badger
rows = list_store AnyRow

abbrev fetched_rows : (t : Table) → List (Row t)
fetched_rows billable_metrics = metric ∷ []
fetched_rows subscriptions = subscription ∷ []
fetched_rows charges = []
fetched_rows billable_metric_filters = []
fetched_rows charge_filters = []
fetched_rows charge_filter_values = []

abbrev fetched : (t : Table) → Result (List (Row t))
fetched t = success_result (fetched_rows t)

abbrev connected : Except ℕ
connected = ok 1

abbrev beginning : Loading rows codecs
beginning = record { loads = λ t. table_writes rows codecs t (fetched t); db = [] }

begins : load_initial_snapshot rows codecs connected fetched [] ≡ returns beginning
unfolding load_initial_snapshot
begins = refl

abbrev metric_write : List (String × Cell AnyRow) → List (String × Cell AnyRow)
metric_write = write_row rows codecs billable_metrics metric

abbrev subscription_write : List (String × Cell AnyRow) → List (String × Cell AnyRow)
subscription_write = write_row rows codecs subscriptions subscription

abbrev middle : Loading rows codecs
middle = record {
  loads = set_load rows codecs subscriptions [] beginning.loads;
  db = subscription_write [];
}

abbrev end : Loading rows codecs
end = record {
  loads = set_load rows codecs billable_metrics [] middle.loads;
  db = metric_write middle.db;
}

loads : Run rows codecs beginning end
unfolding table_writes success_result key_or_empty build_subscription_key join
    build_billable_metric_key
loads =
    next (next start (write subscriptions subscription_write [] refl))
      (write billable_metrics metric_write [] refl)

takes :
    (k : String)
    → Accepts rows
        (list_store-Laws AnyRow)
        codecs
        billable_metrics
        1
        k
        (fetched billable_metrics).value
unfolding set_json success success_result
takes k row m keyed db = refl

Run-load_table_example :
    get_json rows (codecs billable_metrics) 1 "bm:org:calls" end.db
    ≡ get_json rows
        (codecs billable_metrics)
        1
        "bm:org:calls"
        (load_table rows codecs billable_metrics (fetched billable_metrics) []).1
Run-load_table_example =
    Run-load_table rows (list_store-Laws AnyRow) codecs connected fetched [] beginning end
      billable_metrics 1 "bm:org:calls" begins loads refl (takes "bm:org:calls") ("org:calls", refl)

abbrev refuses : List ChangeOpt → Except ℕ
refuses opts = error (errorf "no broker")

abbrev env : Env
env key = if str_eq key "LAGO_USE_MEMORY_CACHE" then "true" else "1"

abbrev id_of : Table → String
id_of t = "0001"

consume_changes-Outcomes_example :
    Outcomes rows codecs ℕ refuses id_of env "lago" consumers
      (consume_changes rows codecs ℕ refuses id_of env "lago")
consume_changes-Outcomes_example = consume_changes-Outcomes rows codecs ℕ refuses id_of env "lago"

abbrev world : World sdk services rows codecs ℕ
world = record {
  opened = ok [];
  Connection = ℕ;
  connection = ok 1;
  fetched = fetched;
  schedule = λ loading.
      let (e, run, all) = Run-Ended rows codecs loading in
      record { end = e; run = run; waited = all };
  new_client = λ opts. ok 2;
  uuid = id_of;
}

program :
    (p : Program sdk services rows codecs ℕ) × (c : Cached sdk services rows codecs ℕ) × (main sdk
        services rows codecs ℕ env world
      ≡ returns p)
    × (p.cache ≡ some c)
unfolding main
program = (_, _, refl, refl)

main-Complete_example : Complete sdk services rows codecs ℕ env world program.0
main-Complete_example = main-Complete sdk services rows codecs ℕ env world program.0 program.2

main-load_table_example :
    get_json rows (codecs billable_metrics) 1 "bm:org:calls" program.1.store
    ≡ get_json rows
        (codecs billable_metrics)
        1
        "bm:org:calls"
        (load_table rows codecs billable_metrics (world.fetched billable_metrics) []).1
main-load_table_example =
    main-load_table sdk services rows codecs ℕ env world (list_store-Laws AnyRow) program.0
      program.1 [] billable_metrics 1 "bm:org:calls" program.2 program.3 refl (takes "bm:org:calls")
      ("org:calls", refl)
