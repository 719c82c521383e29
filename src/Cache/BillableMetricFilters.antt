-- ===== src/Cache/BillableMetricFilters.antt =====
-- events-processor/cache/billable_metric_filters.go: the keys of the table, its reads and writes, its consumer.
use lago.Prelude.{ℕ, String, cat, join, Bool, Option, List, [], ◌∷◌, refl, is_some}
use lago.Utils.Result.{Result, to_except}
use lago.Utils.NullTime.{time_of, unix_milli, unix_milli-stored_time}
use lago.Models.Tables.{BillableMetricFilter, stored_billable_metric_filter}
use lago.Cache.Store.{Badger, Codec}
use lago.Cache.Json.{delete, set_json, get_json, search_json, load_snapshot}
use lago.Cache.Consumer.{ConsumerConfig, IsLawful}

unfoldable pub build_billable_metric_filter_key : String → String → String → String
build_billable_metric_filter_key organization_id billable_metric_id id =
    join ":" ("bmf" ∷ organization_id ∷ billable_metric_id ∷ id ∷ [])

module _ (B : Badger) (C : Codec B.Bytes BillableMetricFilter stored_billable_metric_filter) where
  unfoldable pub set_billable_metric_filter : BillableMetricFilter → B.Db → Result Bool × B.Db
  set_billable_metric_filter row =
      set_json B C
        (build_billable_metric_filter_key row.organization_id row.billable_metric_id row.id) row

  unfoldable pub get_billable_metric_filter :
      ℕ → String → String → String → B.Db → Result (Option BillableMetricFilter)
  get_billable_metric_filter now organization_id billable_metric_id id =
      get_json B C now (build_billable_metric_filter_key organization_id billable_metric_id id)

  unfoldable pub search_billable_metric_filters :
      ℕ → String → String → B.Db → Result (List BillableMetricFilter)
  search_billable_metric_filters now organization_id billable_metric_id =
      search_json B C now (join ":" ("bmf" ∷ organization_id ∷ billable_metric_id ∷ "" ∷ []))

  unfoldable pub delete_billable_metric_filter : BillableMetricFilter → B.Db → Result Bool × B.Db
  delete_billable_metric_filter row =
      delete B (build_billable_metric_filter_key row.organization_id row.billable_metric_id row.id)

  -- `fetched` is what `models.GetAllBillableMetricFilters` returned.
  unfoldable pub load_billable_metric_filters_snapshot :
      Result (List BillableMetricFilter) → B.Db → Result ℕ × B.Db
  load_billable_metric_filters_snapshot fetched =
      load_snapshot B C (to_except fetched)
        (λ row. build_billable_metric_filter_key row.organization_id row.billable_metric_id row.id)

  unfoldable pub billable_metric_filters_consumer :
      String → ConsumerConfig B.Db BillableMetricFilter
  unfolding get_billable_metric_filter set_billable_metric_filter delete_billable_metric_filter
  billable_metric_filters_consumer topic_prefix = record {
    topic = cat topic_prefix ".public.billable_metric_filters";
    model_name = "billable_metric_filters";
    is_deleted = λ row. is_some row.deleted_at;
    get_key =
        λ row. build_billable_metric_filter_key row.organization_id row.billable_metric_id row.id;
    get_id = λ row. row.id;
    get_updated_at = λ row. unix_milli (time_of row.updated_at);
    get_cached =
        λ now row. get_billable_metric_filter now row.organization_id row.billable_metric_id row.id;
    set_cache = λ row. set_billable_metric_filter row;
    delete = λ now row. delete_billable_metric_filter row;
  }

  -- The table's reads and writes go to the key of the row, which JSON keeps.
  pub billable_metric_filters_consumer-IsLawful :
      (topic_prefix : String) (row : BillableMetricFilter)
      → IsLawful B C (billable_metric_filters_consumer topic_prefix) row
  unfolding billable_metric_filters_consumer stored_billable_metric_filter
  billable_metric_filters_consumer-IsLawful topic_prefix row = record {
    get_cached-eq = λ now db. refl;
    set_cache-eq = λ db. refl;
    key-stored = refl;
    id-stored = refl;
    updated_at-stored = unix_milli-stored_time row.updated_at;
  }
