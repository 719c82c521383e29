-- ===== src/Models/EnrichedEvent.antt =====
-- events-processor/models/event.go: the enriched event and how a received event becomes one.
use lago.Prelude.{String, List, [], Option, none, some}
use lago.Utils.Result.{Result, success_result, failed_result, non_retryable}
use lago.Utils.NullTime.{Time}
use lago.Utils.Time.{Numbers, Timestamp, to_time, to_float64_timestamp}
use lago.Models.Tables.{BillableMetric, Subscription}
use lago.Models.Event.{Event, Properties}
use lago.Models.FlatFilter.{FlatFilter}

pub record EnrichedEvent (N : Numbers) : Type 0 where
  pub initial_event : Event (Timestamp N)
  pub billable_metric : Option BillableMetric
  pub subscription : Option Subscription
  pub flat_filter : Option FlatFilter
  pub organization_id : String
  pub external_subscription_id : String
  pub subscription_id : String
  pub plan_id : String
  pub transaction_id : String
  pub code : String
  pub aggregation_type : String
  pub properties : Properties
  pub precise_total_amount_cents : String
  pub source : String
  pub value : Option String
  pub timestamp : N.Float
  pub timestamp_str : String
  pub time : Time
  pub charge_id : Option String
  pub charge_updated_at : Option Time
  pub charge_filter_id : Option String
  pub charge_filter_updated_at : Option Time
  pub grouped_by : List (String × String)
  pub target_wallet_code : Option String

module _ (N : Numbers) where
  -- The struct literal, and the two times once they are read.
  unfoldable pub new_enriched_event : Event (Timestamp N) → N.Float → Time → EnrichedEvent N
  new_enriched_event ev timestamp time = record {
    initial_event = ev;
    billable_metric = none;
    subscription = none;
    flat_filter = none;
    organization_id = ev.organization_id;
    external_subscription_id = ev.external_subscription_id;
    subscription_id = "";
    plan_id = "";
    transaction_id = ev.transaction_id;
    code = ev.code;
    aggregation_type = "";
    properties = ev.properties;
    precise_total_amount_cents = ev.precise_total_amount_cents;
    source = ev.source;
    value = none;
    timestamp = timestamp;
    timestamp_str = N.format timestamp;
    time = time;
    charge_id = none;
    charge_updated_at = none;
    charge_filter_id = none;
    charge_filter_updated_at = none;
    grouped_by = [];
    target_wallet_code = none;
  }

  unfoldable pub to_enriched_event : Event (Timestamp N) → Result (Option (EnrichedEvent N))
  unfolding new_enriched_event success_result failed_result non_retryable
  to_enriched_event ev =
      let timestamp_result = to_float64_timestamp N ev.timestamp in
      let time_result = to_time N ev.timestamp in
      elim timestamp_result.err [
        | some e ↦ non_retryable (failed_result none e)
        | none ↦ elim time_result.err [
          | some e ↦ non_retryable (failed_result none e)
          | none ↦
              success_result (some (new_enriched_event ev timestamp_result.value time_result.value))
        ]
      ]
