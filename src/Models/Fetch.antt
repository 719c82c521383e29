-- ===== src/Models/Fetch.antt =====
-- The queries of events-processor/models: the snapshot of each table, and the rows of one event. The
-- database is a parameter: what it answers to a query.
use lago.Prelude.{String, str_eq, List, [], ◌∷◌, Option, none, some, if◌then◌else◌}
use lago.Utils.Result.{
  Error, error_text, record_not_found, Except, ok, error, Result, success_result, failed_result,
  non_retryable, non_capturable,
}
use lago.Utils.NullTime.{Time}
use lago.Models.Tables.{
  Subscription, BillableMetric, BillableMetricFilter, Charge, ChargeFilter, ChargeFilterValue,
}
use lago.Models.FlatFilter.{FlatFilter}
use lago.Models.Streaming.{StreamQueryConfig, Rows, get_all_with_streaming}

abbrev pub not_deleted : String
not_deleted = "deleted_at IS NULL"

abbrev pub all_billable_metrics : StreamQueryConfig
all_billable_metrics = record {
  table_name = "billable_metrics";
  select_fields =
      "id" ∷ "organization_id" ∷ "code" ∷ "aggregation_type" ∷ "field_name" ∷ "expression"
      ∷ "created_at" ∷ "updated_at" ∷ [];
  where_condition = not_deleted;
  where_args = [];
  log_interval = 50000;
}

abbrev pub all_billable_metric_filters : StreamQueryConfig
all_billable_metric_filters = record {
  table_name = "billable_metric_filters";
  select_fields =
      "id" ∷ "organization_id" ∷ "billable_metric_id" ∷ "key" ∷ "values" ∷ "created_at"
      ∷ "updated_at" ∷ "deleted_at" ∷ [];
  where_condition = not_deleted;
  where_args = [];
  log_interval = 10000;
}

abbrev pub all_charges : StreamQueryConfig
all_charges = record {
  table_name = "charges";
  select_fields =
      "id" ∷ "organization_id" ∷ "plan_id" ∷ "billable_metric_id" ∷ "pay_in_advance"
      ∷ "accepts_target_wallet" ∷ "properties->'pricing_group_keys' as pricing_group_keys"
      ∷ "created_at" ∷ "updated_at" ∷ "deleted_at" ∷ [];
  where_condition = not_deleted;
  where_args = [];
  log_interval = 50000;
}

abbrev pub all_charge_filters : StreamQueryConfig
all_charge_filters = record {
  table_name = "charge_filters";
  select_fields =
      "id" ∷ "organization_id" ∷ "charge_id"
      ∷ "properties->'pricing_group_keys' as pricing_group_keys" ∷ "created_at" ∷ "updated_at"
      ∷ "deleted_at" ∷ [];
  where_condition = not_deleted;
  where_args = [];
  log_interval = 10000;
}

abbrev pub all_charge_filter_values : StreamQueryConfig
all_charge_filter_values = record {
  table_name = "charge_filter_values";
  select_fields =
      "id" ∷ "organization_id" ∷ "charge_filter_id" ∷ "billable_metric_filter_id" ∷ "values"
      ∷ "created_at" ∷ "updated_at" ∷ "deleted_at" ∷ [];
  where_condition = not_deleted;
  where_args = [];
  log_interval = 10000;
}

-- The argument is the time one month ago.
abbrev pub all_subscriptions : Time → StreamQueryConfig
all_subscriptions one_month_ago = record {
  table_name = "subscriptions";
  select_fields =
      "id" ∷ "organization_id" ∷ "external_id" ∷ "plan_id" ∷ "created_at" ∷ "updated_at"
      ∷ "started_at" ∷ "terminated_at" ∷ [];
  where_condition = "terminated_at IS NULL OR terminated_at >= ?";
  where_args = one_month_ago ∷ [];
  log_interval = 50000;
}

-- `failedSubscriptionResult` and `failedBillabmeMetricResult`: a missing row is no failure to report
-- or to try again.
unfoldable pub failed_row_result : {T : Type 0} → Error → Result (Option T)
unfolding failed_result non_capturable non_retryable error_text
failed_row_result e =
    if str_eq (error_text e) (error_text record_not_found)
    then non_retryable (non_capturable (failed_result none e))
    else failed_result none e

-- What the database answers: `First` fails where there is no row, `Find` with a limit leaves the
-- zero value then, whose identifier is empty.
pub record Database : Type 1 where
  pub query : {T : Type 0} → StreamQueryConfig → Rows T
  pub first_metric : String → String → Except BillableMetric
  pub find_subscription : String → String → Time → Except Subscription
  pub find_flat_filters : String → String → String → Except (List FlatFilter)

module _ (db : Database) where
  unfoldable pub get_all_billable_metrics : Result (List BillableMetric)
  unfolding get_all_with_streaming
  get_all_billable_metrics = get_all_with_streaming (db.query all_billable_metrics)

  unfoldable pub get_all_billable_metric_filters : Result (List BillableMetricFilter)
  unfolding get_all_with_streaming
  get_all_billable_metric_filters = get_all_with_streaming (db.query all_billable_metric_filters)

  unfoldable pub get_all_charges : Result (List Charge)
  unfolding get_all_with_streaming
  get_all_charges = get_all_with_streaming (db.query all_charges)

  unfoldable pub get_all_charge_filters : Result (List ChargeFilter)
  unfolding get_all_with_streaming
  get_all_charge_filters = get_all_with_streaming (db.query all_charge_filters)

  unfoldable pub get_all_charge_filter_values : Result (List ChargeFilterValue)
  unfolding get_all_with_streaming
  get_all_charge_filter_values = get_all_with_streaming (db.query all_charge_filter_values)

  unfoldable pub get_all_subscriptions : Time → Result (List Subscription)
  unfolding get_all_with_streaming
  get_all_subscriptions one_month_ago =
      get_all_with_streaming (db.query (all_subscriptions one_month_ago))

  unfoldable pub fetch_billable_metric : String → String → Result (Option BillableMetric)
  unfolding failed_row_result success_result
  fetch_billable_metric organization_id code = elim (db.first_metric organization_id code) [
    | error e ↦ failed_row_result e
    | ok bm ↦ success_result (some bm)
  ]

  unfoldable pub fetch_subscription : String → String → Time → Result (Option Subscription)
  unfolding failed_row_result success_result
  fetch_subscription organization_id external_id timestamp =
      elim (db.find_subscription organization_id external_id timestamp) [
        | error e ↦ failed_row_result e
        | ok sub ↦
            if str_eq sub.id ""
            then failed_row_result record_not_found
            else success_result (some sub)
      ]

  unfoldable pub fetch_flat_filters : String → String → String → Result (List FlatFilter)
  unfolding success_result failed_result
  fetch_flat_filters organization_id plan_id code =
      elim (db.find_flat_filters organization_id plan_id code) [
        | error e ↦ failed_result [] e
        | ok filters ↦ success_result filters
      ]
