-- ===== src/Tests/FlatFilters.antt =====
-- The filters of a metric with one charge in a plan.
use lago.Prelude.{
  String, true, false, List, [], ◌∷◌, In, none, some, ◌∙◌, ◌≡◌, refl, ap, sym, join, lookup,
}
use lago.Utils.Result.{Error, Except, ok, error, errorf, success_result, ok-injective}
use lago.Models.Tables.{
  Subscription, BillableMetric, BillableMetricFilter, Charge, ChargeFilter, ChargeFilterValue,
  stored_subscription, stored_billable_metric, stored_billable_metric_filter, stored_charge,
  stored_charge_filter, stored_charge_filter_value,
}
use lago.Models.FlatFilter.{FlatFilter}
use lago.Cache.Store.{Badger, Codec}
use lago.Cache.Json.{search_json, get_json}
use lago.Cache.BillableMetrics.{get_billable_metric, build_billable_metric_key}
use lago.Cache.Charges.{search_charge}
use lago.Cache.BillableMetricFilters.{search_billable_metric_filters}
use lago.Cache.ChargeFilters.{search_charge_filter}
use lago.Cache.FlatFilters.{Codecs, build_flat_filters}
use lago.Cache.FlatFilters.Coverage.{IsFilterOf, build_flat_filters-covers}
use lago.Tests.Fixtures.{Cell, list_store, metric}

-- The rows of the tables that the filters are put together from.
data Row : Type 0 where
  metric_row : BillableMetric → Row
  metric_filter_row : BillableMetricFilter → Row
  charge_row : Charge → Row
  charge_filter_row : ChargeFilter → Row
  value_row : ChargeFilterValue → Row
  subscription_row : Subscription → Row

abbrev unreadable : Error
unreadable = errorf "unexpected end of JSON input"

abbrev as_metric : Row → Except BillableMetric
as_metric (metric_row x) = ok x
as_metric _ = error unreadable

abbrev as_metric_filter : Row → Except BillableMetricFilter
as_metric_filter (metric_filter_row x) = ok x
as_metric_filter _ = error unreadable

abbrev as_charge : Row → Except Charge
as_charge (charge_row x) = ok x
as_charge _ = error unreadable

abbrev as_charge_filter : Row → Except ChargeFilter
as_charge_filter (charge_filter_row x) = ok x
as_charge_filter _ = error unreadable

abbrev as_value : Row → Except ChargeFilterValue
as_value (value_row x) = ok x
as_value _ = error unreadable

abbrev as_subscription : Row → Except Subscription
as_subscription (subscription_row x) = ok x
as_subscription _ = error unreadable

-- The codec of one kind of row.
abbrev kind_codec :
    {T : Type 0} (stored : T → T) (make : T → Row) (read : Row → Except T)
    → ((x : T) → read (make x) ≡ ok x)
    → Codec Row T stored
kind_codec stored make read same = record {
  marshal = λ x. ok (make (stored x));
  unmarshal = read;
  unmarshal-marshal = λ x b e. ap read (sym (ok-injective e)) ∙ same (stored x);
}

abbrev codecs : Codecs Row
codecs = record {
  billable_metrics = kind_codec stored_billable_metric metric_row as_metric (λ x. refl);
  billable_metric_filters =
      kind_codec stored_billable_metric_filter metric_filter_row as_metric_filter (λ x. refl);
  charges = kind_codec stored_charge charge_row as_charge (λ x. refl);
  charge_filters = kind_codec stored_charge_filter charge_filter_row as_charge_filter (λ x. refl);
  charge_filter_values = kind_codec stored_charge_filter_value value_row as_value (λ x. refl);
  subscriptions = kind_codec stored_subscription subscription_row as_subscription (λ x. refl);
}

abbrev rows : Badger
rows = list_store Row

abbrev charge : Charge
charge = record {
  id = "ch1";
  organization_id = "org";
  plan_id = "plan";
  billable_metric_id = "bm1";
  pay_in_advance = true;
  accepts_target_wallet = false;
  pricing_group_keys = [];
  created_at = none;
  updated_at = none;
  deleted_at = none;
}

abbrev tables : List (String × Cell Row)
tables =
    ("bm:org:calls", some (metric_row metric, none))
    ∷ ("ch:org:plan:bm1:ch1", some (charge_row charge, none))
    ∷ []

metric_found :
    get_billable_metric rows codecs.billable_metrics 0 "org" "calls" tables
    ≡ success_result (some metric)
unfolding get_billable_metric success_result lookup build_billable_metric_key join get_json
metric_found = refl

charges_found :
    search_charge rows codecs.charges 0 "org" "plan" metric.id tables ≡ success_result (charge ∷ [])
unfolding search_charge success_result lookup join search_json
charges_found = refl

all_read : (build_flat_filters "org" "calls" "plan" rows codecs 0 tables).err ≡ none
unfolding build_flat_filters get_billable_metric success_result lookup build_billable_metric_key
    join get_json search_charge search_json search_billable_metric_filters search_charge_filter
all_read = refl

build_flat_filters-covers_example :
    ((f : FlatFilter)
      → In f (build_flat_filters "org" "calls" "plan" rows codecs 0 tables).value
      → (c : Charge) × In c (charge ∷ []) × IsFilterOf "org" "calls" "plan" c f)
    × ((c : Charge)
        → In c (charge ∷ [])
        → (f : FlatFilter) × In f
            (build_flat_filters "org" "calls" "plan" rows codecs 0 tables).value
          × IsFilterOf "org" "calls" "plan" c f)
build_flat_filters-covers_example =
    build_flat_filters-covers "org" "calls" "plan" rows codecs 0 tables metric (charge ∷ [])
      metric_found charges_found all_read
