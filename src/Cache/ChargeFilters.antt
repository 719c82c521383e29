-- ===== src/Cache/ChargeFilters.antt =====
-- events-processor/cache/charge_filters.go: the keys of the table, its reads and writes, its consumer.
use lago.Prelude.{ℕ, String, cat, join, Bool, Option, List, [], ◌∷◌, refl, is_some}
use lago.Utils.Result.{Result, to_except}
use lago.Utils.NullTime.{time_of, unix_milli, unix_milli-stored_time}
use lago.Models.Tables.{ChargeFilter, stored_charge_filter}
use lago.Cache.Store.{Badger, Codec}
use lago.Cache.Json.{delete, set_json, get_json, search_json, load_snapshot}
use lago.Cache.Consumer.{ConsumerConfig, IsLawful}

unfoldable pub build_charge_filter_key : String → String → String → String
build_charge_filter_key organization_id charge_id id =
    join ":" ("cf" ∷ organization_id ∷ charge_id ∷ id ∷ [])

module _ (B : Badger) (C : Codec B.Bytes ChargeFilter stored_charge_filter) where
  unfoldable pub set_charge_filter : ChargeFilter → B.Db → Result Bool × B.Db
  set_charge_filter row =
      set_json B C (build_charge_filter_key row.organization_id row.charge_id row.id) row

  unfoldable pub get_charge_filter :
      ℕ → String → String → String → B.Db → Result (Option ChargeFilter)
  get_charge_filter now organization_id charge_id id =
      get_json B C now (build_charge_filter_key organization_id charge_id id)

  unfoldable pub search_charge_filter : ℕ → String → String → B.Db → Result (List ChargeFilter)
  search_charge_filter now organization_id charge_id =
      search_json B C now (join ":" ("cf" ∷ organization_id ∷ charge_id ∷ "" ∷ []))

  unfoldable pub delete_charge_filter : ChargeFilter → B.Db → Result Bool × B.Db
  delete_charge_filter row =
      delete B (build_charge_filter_key row.organization_id row.charge_id row.id)

  -- `fetched` is what `models.GetAllChargeFilters` returned.
  unfoldable pub load_charge_filters_snapshot : Result (List ChargeFilter) → B.Db → Result ℕ × B.Db
  load_charge_filters_snapshot fetched =
      load_snapshot B C (to_except fetched)
        (λ row. build_charge_filter_key row.organization_id row.charge_id row.id)

  unfoldable pub charge_filters_consumer : String → ConsumerConfig B.Db ChargeFilter
  unfolding get_charge_filter set_charge_filter delete_charge_filter
  charge_filters_consumer topic_prefix = record {
    topic = cat topic_prefix ".public.charge_filters";
    model_name = "charge_filters";
    is_deleted = λ row. is_some row.deleted_at;
    get_key = λ row. build_charge_filter_key row.organization_id row.charge_id row.id;
    get_id = λ row. row.id;
    get_updated_at = λ row. unix_milli (time_of row.updated_at);
    get_cached = λ now row. get_charge_filter now row.organization_id row.charge_id row.id;
    set_cache = λ row. set_charge_filter row;
    delete = λ now row. delete_charge_filter row;
  }

  -- The table's reads and writes go to the key of the row, which JSON keeps.
  pub charge_filters_consumer-IsLawful :
      (topic_prefix : String) (row : ChargeFilter)
      → IsLawful B C (charge_filters_consumer topic_prefix) row
  unfolding charge_filters_consumer stored_charge_filter
  charge_filters_consumer-IsLawful topic_prefix row = record {
    get_cached-eq = λ now db. refl;
    set_cache-eq = λ db. refl;
    key-stored = refl;
    id-stored = refl;
    updated_at-stored = unix_milli-stored_time row.updated_at;
  }
