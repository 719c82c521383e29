-- ===== src/Models/Tables.antt =====
-- The rows of events-processor/models, and what JSON gives back for each of them.
use lago.Prelude.{ℕ, String, Bool, Option, List}
use lago.Utils.NullTime.{NullTime, stored_time}

-- `AggregationType`: 4 is left out in the source, and other numbers have no name.
pub data AggregationType : Type 0 where
  count_agg sum_agg max_agg unique_count_agg weighted_sum_agg latest_agg custom_agg :
      AggregationType
  unnamed_agg : ℕ → AggregationType

-- `AggregationType.String`
unfoldable pub aggregation_name : AggregationType → String
aggregation_name count_agg = "count"
aggregation_name sum_agg = "sum"
aggregation_name max_agg = "max"
aggregation_name unique_count_agg = "unique_count"
aggregation_name weighted_sum_agg = "weighted_sum"
aggregation_name latest_agg = "latest"
aggregation_name custom_agg = "custom"
aggregation_name (unnamed_agg n) = ""

pub record Subscription : Type 0 where
  pub id : String
  pub organization_id : Option String
  pub external_id : String
  pub plan_id : String
  pub created_at : NullTime
  pub updated_at : NullTime
  pub started_at : NullTime
  pub terminated_at : NullTime

unfoldable pub stored_subscription : Subscription → Subscription
unfolding stored_time
stored_subscription x = record x {
  created_at = stored_time x.created_at;
  updated_at = stored_time x.updated_at;
  started_at = stored_time x.started_at;
  terminated_at = stored_time x.terminated_at;
}

pub record BillableMetric : Type 0 where
  pub id : String
  pub organization_id : String
  pub code : String
  pub aggregation_type : AggregationType
  pub field_name : String
  pub expression : String
  pub created_at : NullTime
  pub updated_at : NullTime
  pub deleted_at : NullTime

unfoldable pub stored_billable_metric : BillableMetric → BillableMetric
unfolding stored_time
stored_billable_metric x = record x {
  created_at = stored_time x.created_at;
  updated_at = stored_time x.updated_at;
  deleted_at = stored_time x.deleted_at;
}

pub record BillableMetricFilter : Type 0 where
  pub id : String
  pub organization_id : String
  pub billable_metric_id : String
  pub key : String
  pub values : List String
  pub created_at : NullTime
  pub updated_at : NullTime
  pub deleted_at : NullTime

unfoldable pub stored_billable_metric_filter : BillableMetricFilter → BillableMetricFilter
unfolding stored_time
stored_billable_metric_filter x = record x {
  created_at = stored_time x.created_at;
  updated_at = stored_time x.updated_at;
  deleted_at = stored_time x.deleted_at;
}

pub record Charge : Type 0 where
  pub id : String
  pub organization_id : String
  pub plan_id : String
  pub billable_metric_id : String
  pub pay_in_advance : Bool
  pub accepts_target_wallet : Bool
  pub pricing_group_keys : List String
  pub created_at : NullTime
  pub updated_at : NullTime
  pub deleted_at : NullTime

unfoldable pub stored_charge : Charge → Charge
unfolding stored_time
stored_charge x = record x {
  created_at = stored_time x.created_at;
  updated_at = stored_time x.updated_at;
  deleted_at = stored_time x.deleted_at;
}

pub record ChargeFilter : Type 0 where
  pub id : String
  pub organization_id : String
  pub charge_id : String
  pub pricing_group_keys : List String
  pub created_at : NullTime
  pub updated_at : NullTime
  pub deleted_at : NullTime

unfoldable pub stored_charge_filter : ChargeFilter → ChargeFilter
unfolding stored_time
stored_charge_filter x = record x {
  created_at = stored_time x.created_at;
  updated_at = stored_time x.updated_at;
  deleted_at = stored_time x.deleted_at;
}

pub record ChargeFilterValue : Type 0 where
  pub id : String
  pub organization_id : String
  pub charge_filter_id : String
  pub billable_metric_filter_id : String
  pub values : List String
  pub created_at : NullTime
  pub updated_at : NullTime
  pub deleted_at : NullTime

unfoldable pub stored_charge_filter_value : ChargeFilterValue → ChargeFilterValue
unfolding stored_time
stored_charge_filter_value x = record x {
  created_at = stored_time x.created_at;
  updated_at = stored_time x.updated_at;
  deleted_at = stored_time x.deleted_at;
}
