-- ===== src/Cache/Charges.antt =====
-- events-processor/cache/charges.go: the keys of the table, its reads and writes, its consumer.
use lago.Prelude.{ℕ, String, cat, join, Bool, Option, List, [], ◌∷◌, refl, is_some}
use lago.Utils.Result.{Result, to_except}
use lago.Utils.NullTime.{time_of, unix_milli, unix_milli-stored_time}
use lago.Models.Tables.{Charge, stored_charge}
use lago.Cache.Store.{Badger, Codec}
use lago.Cache.Json.{delete, set_json, get_json, search_json, load_snapshot}
use lago.Cache.Consumer.{ConsumerConfig, IsLawful}

unfoldable pub build_charge_key : String → String → String → String → String
build_charge_key organization_id plan_id billable_metric_id id =
    join ":" ("ch" ∷ organization_id ∷ plan_id ∷ billable_metric_id ∷ id ∷ [])

module _ (B : Badger) (C : Codec B.Bytes Charge stored_charge) where
  unfoldable pub set_charge : Charge → B.Db → Result Bool × B.Db
  set_charge row =
      set_json B C (build_charge_key row.organization_id row.plan_id row.billable_metric_id row.id)
        row

  unfoldable pub get_charge : ℕ → String → String → String → String → B.Db → Result (Option Charge)
  get_charge now organization_id plan_id billable_metric_id id =
      get_json B C now (build_charge_key organization_id plan_id billable_metric_id id)

  unfoldable pub search_charge : ℕ → String → String → String → B.Db → Result (List Charge)
  search_charge now organization_id plan_id billable_metric_id =
      search_json B C now
        (join ":" ("ch" ∷ organization_id ∷ plan_id ∷ billable_metric_id ∷ "" ∷ []))

  unfoldable pub delete_charge : Charge → B.Db → Result Bool × B.Db
  delete_charge row =
      delete B (build_charge_key row.organization_id row.plan_id row.billable_metric_id row.id)

  -- `fetched` is what `models.GetAllCharges` returned.
  unfoldable pub load_charges_snapshot : Result (List Charge) → B.Db → Result ℕ × B.Db
  load_charges_snapshot fetched =
      load_snapshot B C (to_except fetched)
        (λ row. build_charge_key row.organization_id row.plan_id row.billable_metric_id row.id)

  unfoldable pub charges_consumer : String → ConsumerConfig B.Db Charge
  unfolding get_charge set_charge delete_charge
  charges_consumer topic_prefix = record {
    topic = cat topic_prefix ".public.charges";
    model_name = "charges";
    is_deleted = λ row. is_some row.deleted_at;
    get_key = λ row. build_charge_key row.organization_id row.plan_id row.billable_metric_id row.id;
    get_id = λ row. row.id;
    get_updated_at = λ row. unix_milli (time_of row.updated_at);
    get_cached =
        λ now row. get_charge now row.organization_id row.plan_id row.billable_metric_id row.id;
    set_cache = λ row. set_charge row;
    delete = λ now row. delete_charge row;
  }

  -- The table's reads and writes go to the key of the row, which JSON keeps.
  pub charges_consumer-IsLawful :
      (topic_prefix : String) (row : Charge) → IsLawful B C (charges_consumer topic_prefix) row
  unfolding charges_consumer stored_charge
  charges_consumer-IsLawful topic_prefix row = record {
    get_cached-eq = λ now db. refl;
    set_cache-eq = λ db. refl;
    key-stored = refl;
    id-stored = refl;
    updated_at-stored = unix_milli-stored_time row.updated_at;
  }
