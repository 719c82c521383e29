-- ===== src/Cache/FlatFilters.antt =====
-- events-processor/cache/flat_filters.go: the filters of a metric and a plan, put together from the
-- cached tables.
pub mod Coverage
use lago.Prelude.{
  ℕ, String, Bool, List, [], ◌∷◌, Option, none, some, snoc, lookup, insert, contains, if◌then◌else◌,
}
use lago.Utils.Result.{Error, errorf, Result, success_result, failed_result}
use lago.Utils.NullTime.{time_of}
use lago.Models.Tables.{
  Subscription, BillableMetric, BillableMetricFilter, Charge, ChargeFilter, ChargeFilterValue,
  stored_subscription, stored_billable_metric, stored_billable_metric_filter, stored_charge,
  stored_charge_filter, stored_charge_filter_value,
}
use lago.Models.FlatFilter.{FlatFilter, FlatFilterValues}
use lago.Cache.Store.{Badger, Codec}
use lago.Cache.BillableMetrics.{get_billable_metric}
use lago.Cache.BillableMetricFilters.{search_billable_metric_filters}
use lago.Cache.Charges.{search_charge}
use lago.Cache.ChargeFilters.{search_charge_filter}
use lago.Cache.ChargeFilterValues.{search_charge_filter_value}

-- The JSON codecs of the six cached tables.
pub record Codecs (Bytes : Type 0) : Type 0 where
  pub billable_metrics : Codec Bytes BillableMetric stored_billable_metric
  pub billable_metric_filters : Codec Bytes BillableMetricFilter stored_billable_metric_filter
  pub charges : Codec Bytes Charge stored_charge
  pub charge_filters : Codec Bytes ChargeFilter stored_charge_filter
  pub charge_filter_values : Codec Bytes ChargeFilterValue stored_charge_filter_value
  pub subscriptions : Codec Bytes Subscription stored_subscription

-- `if r.Failure() { return FailedResult(r.Error()) }`, and on with the value.
unfoldable pub and_then : {A B : Type 0} → Result A → (A → Result (List B)) → Result (List B)
unfolding failed_result
and_then r f = elim r.err [ some e ↦ failed_result [] e | none ↦ f r.value ]

-- `bmFilterMap`
unfoldable pub bm_filter_map :
    List BillableMetricFilter
    → List (String × BillableMetricFilter)
    → List (String × BillableMetricFilter)
bm_filter_map [] m = m
bm_filter_map (bmf ∷ rest) m = bm_filter_map rest (insert bmf.id bmf m)

-- The values of one key: all of the metric's filter, or those of the charge's.
unfoldable pub accepted_values : BillableMetricFilter → ChargeFilterValue → List String
accepted_values bm_filter cfv =
    if contains cfv.values "__ALL_FILTER_VALUES__" then bm_filter.values else cfv.values

unfoldable pub filter_values :
    List (String × BillableMetricFilter)
    → List ChargeFilterValue
    → FlatFilterValues
    → FlatFilterValues
unfolding accepted_values
filter_values bm_filters [] filters = filters
filter_values bm_filters (cfv ∷ rest) filters =
    filter_values bm_filters rest (elim (lookup cfv.billable_metric_filter_id bm_filters) [
      | none ↦ filters
      | some bm_filter ↦ insert bm_filter.key (accepted_values bm_filter cfv) filters
    ])

module _ (organization_id billable_metric_code plan_id : String) where
  -- The filter of a charge that has no charge filter.
  unfoldable pub charge_flat_filter : Charge → FlatFilter
  charge_flat_filter charge = record {
    organization_id = organization_id;
    billable_metric_code = billable_metric_code;
    plan_id = plan_id;
    charge_id = charge.id;
    charge_updated_at = time_of charge.updated_at;
    charge_filter_id = none;
    charge_filter_updated_at = none;
    filters = none;
    pricing_group_keys = charge.pricing_group_keys;
    pay_in_advance = charge.pay_in_advance;
    accepts_target_wallet = charge.accepts_target_wallet;
  }

  unfoldable pub charge_filter_flat_filter : Charge → ChargeFilter → FlatFilterValues → FlatFilter
  charge_filter_flat_filter charge charge_filter filters = record {
    organization_id = organization_id;
    billable_metric_code = billable_metric_code;
    plan_id = plan_id;
    charge_id = charge.id;
    charge_updated_at = time_of charge.updated_at;
    charge_filter_id = some charge_filter.id;
    charge_filter_updated_at = some (time_of charge_filter.updated_at);
    filters = some filters;
    pricing_group_keys = charge_filter.pricing_group_keys;
    pay_in_advance = charge.pay_in_advance;
    accepts_target_wallet = charge.accepts_target_wallet;
  }

  module _ (B : Badger) (C : Codecs B.Bytes) (now : ℕ) (db : B.Db) where
    -- The loop over the filters of a charge.
    unfoldable pub add_charge_filters :
        List (String × BillableMetricFilter)
        → Charge
        → List ChargeFilter
        → List FlatFilter
        → Result (List FlatFilter)
    unfolding and_then charge_filter_flat_filter filter_values success_result
    add_charge_filters bm_filters charge [] flat_filters = success_result flat_filters
    add_charge_filters bm_filters charge (charge_filter ∷ rest) flat_filters =
        and_then
          (search_charge_filter_value B C.charge_filter_values now organization_id charge_filter.id
            db)
          (λ values. add_charge_filters bm_filters charge rest (
            snoc flat_filters (
              charge_filter_flat_filter charge charge_filter (filter_values bm_filters values []))))

    -- One charge: its own filter if it has no charge filter, and one for each that it has.
    unfoldable pub add_charge :
        List (String × BillableMetricFilter)
        → Charge
        → List ChargeFilter
        → List FlatFilter
        → Result (List FlatFilter)
    unfolding add_charge_filters charge_flat_filter success_result
    add_charge bm_filters charge [] flat_filters =
        success_result (snoc flat_filters (charge_flat_filter charge))
    add_charge bm_filters charge (first ∷ rest) flat_filters =
        add_charge_filters bm_filters charge (first ∷ rest) flat_filters

    -- The loop over the charges.
    unfoldable pub add_charges :
        List (String × BillableMetricFilter)
        → List Charge
        → List FlatFilter
        → Result (List FlatFilter)
    unfolding and_then add_charge success_result
    add_charges bm_filters [] flat_filters = success_result flat_filters
    add_charges bm_filters (charge ∷ rest) flat_filters =
        and_then (search_charge_filter B C.charge_filters now organization_id charge.id db)
          (λ charge_filters.
            and_then (add_charge bm_filters charge charge_filters flat_filters)
              (λ so_far. add_charges bm_filters rest so_far))

    -- Behind the metric that was found; the nil pointer that would panic is never the value of a
    -- successful read.
    unfoldable pub metric_flat_filters : Option BillableMetric → Result (List FlatFilter)
    unfolding and_then bm_filter_map add_charges failed_result
    metric_flat_filters none = failed_result [] (errorf "nil pointer dereference")
    metric_flat_filters (some metric) =
        and_then
          (search_billable_metric_filters B C.billable_metric_filters now organization_id metric.id
            db)
          (λ bm_filters.
            and_then (search_charge B C.charges now organization_id plan_id metric.id db)
              (λ charges. add_charges (bm_filter_map bm_filters []) charges []))

    unfoldable pub build_flat_filters : Result (List FlatFilter)
    unfolding and_then metric_flat_filters
    build_flat_filters =
        and_then
          (get_billable_metric B C.billable_metrics now organization_id billable_metric_code db)
          metric_flat_filters
