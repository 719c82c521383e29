-- ===== src/Cache/BillableMetrics.antt =====
-- events-processor/cache/billable_metrics.go: the keys of the table, its reads and writes, its consumer.
use lago.Prelude.{ℕ, String, cat, join, Bool, Option, List, [], ◌∷◌, refl, is_some}
use lago.Utils.Result.{Result, to_except}
use lago.Utils.NullTime.{time_of, unix_milli, unix_milli-stored_time}
use lago.Models.Tables.{BillableMetric, stored_billable_metric}
use lago.Cache.Store.{Badger, Codec}
use lago.Cache.Json.{delete, set_json, get_json, load_snapshot}
use lago.Cache.Consumer.{ConsumerConfig, IsLawful}

unfoldable pub build_billable_metric_key : String → String → String
build_billable_metric_key organization_id code = join ":" ("bm" ∷ organization_id ∷ code ∷ [])

module _ (B : Badger) (C : Codec B.Bytes BillableMetric stored_billable_metric) where
  unfoldable pub set_billable_metric : BillableMetric → B.Db → Result Bool × B.Db
  set_billable_metric row =
      set_json B C (build_billable_metric_key row.organization_id row.code) row

  unfoldable pub get_billable_metric : ℕ → String → String → B.Db → Result (Option BillableMetric)
  get_billable_metric now organization_id code =
      get_json B C now (build_billable_metric_key organization_id code)

  unfoldable pub delete_billable_metric : BillableMetric → B.Db → Result Bool × B.Db
  delete_billable_metric row = delete B (build_billable_metric_key row.organization_id row.code)

  -- `fetched` is what `models.GetAllBillableMetrics` returned.
  unfoldable pub load_billable_metrics_snapshot :
      Result (List BillableMetric) → B.Db → Result ℕ × B.Db
  load_billable_metrics_snapshot fetched =
      load_snapshot B C (to_except fetched)
        (λ row. build_billable_metric_key row.organization_id row.code)

  unfoldable pub billable_metrics_consumer : String → ConsumerConfig B.Db BillableMetric
  unfolding get_billable_metric set_billable_metric delete_billable_metric
  billable_metrics_consumer topic_prefix = record {
    topic = cat topic_prefix ".public.billable_metrics";
    model_name = "billable_metrics";
    is_deleted = λ row. is_some row.deleted_at;
    get_key = λ row. build_billable_metric_key row.organization_id row.code;
    get_id = λ row. row.id;
    get_updated_at = λ row. unix_milli (time_of row.updated_at);
    get_cached = λ now row. get_billable_metric now row.organization_id row.code;
    set_cache = λ row. set_billable_metric row;
    delete = λ now row. delete_billable_metric row;
  }

  -- The table's reads and writes go to the key of the row, which JSON keeps.
  pub billable_metrics_consumer-IsLawful :
      (topic_prefix : String) (row : BillableMetric)
      → IsLawful B C (billable_metrics_consumer topic_prefix) row
  unfolding billable_metrics_consumer stored_billable_metric
  billable_metrics_consumer-IsLawful topic_prefix row = record {
    get_cached-eq = λ now db. refl;
    set_cache-eq = λ db. refl;
    key-stored = refl;
    id-stored = refl;
    updated_at-stored = unix_milli-stored_time row.updated_at;
  }
