-- ===== src/Cache/Loading.antt =====
-- events-processor/cache/cache.go, `LoadInitialSnapshot`: the goroutines that load the six tables at
-- the same time, each write to the store being one of their steps.
pub mod Writing
pub mod Together
pub mod Finishing
use lago.Prelude.{ℕ, suc, String, str_eq, List, [], ◌∷◌, ◌≡◌, if◌then◌else◌}
use lago.Utils.Result.{Except, ok, error, Result, Outcome, returns, panics, to_except}
use lago.Models.Tables.{
  BillableMetric, stored_billable_metric, Subscription, stored_subscription, Charge, stored_charge,
  BillableMetricFilter, stored_billable_metric_filter, ChargeFilter, stored_charge_filter,
  ChargeFilterValue, stored_charge_filter_value,
}
use lago.Cache.Store.{Badger, Codec}
use lago.Cache.Json.{set_json}
use lago.Cache.BillableMetrics.{build_billable_metric_key, load_billable_metrics_snapshot}
use lago.Cache.Subscriptions.{key_or_empty, load_subscriptions_snapshot}
use lago.Cache.Charges.{build_charge_key, load_charges_snapshot}
use lago.Cache.BillableMetricFilters.{
  build_billable_metric_filter_key, load_billable_metric_filters_snapshot,
}
use lago.Cache.ChargeFilters.{build_charge_filter_key, load_charge_filters_snapshot}
use lago.Cache.ChargeFilterValues.{
  build_charge_filter_value_key, load_charge_filter_values_snapshot,
}

pub data Table : Type 0 where
  billable_metrics subscriptions charges : Table
  billable_metric_filters charge_filters charge_filter_values : Table

abbrev pub Row : Table → Type 0
Row billable_metrics = BillableMetric
Row subscriptions = Subscription
Row charges = Charge
Row billable_metric_filters = BillableMetricFilter
Row charge_filters = ChargeFilter
Row charge_filter_values = ChargeFilterValue

-- A row as JSON gives it back.
abbrev pub stored : (t : Table) → Row t → Row t
stored billable_metrics = stored_billable_metric
stored subscriptions = stored_subscription
stored charges = stored_charge
stored billable_metric_filters = stored_billable_metric_filter
stored charge_filters = stored_charge_filter
stored charge_filter_values = stored_charge_filter_value

-- The `keyFn` of each snapshot.
abbrev pub key_fn : (t : Table) → Row t → String
key_fn billable_metrics row = build_billable_metric_key row.organization_id row.code
key_fn subscriptions row = key_or_empty row
key_fn charges row = build_charge_key row.organization_id row.plan_id row.billable_metric_id row.id
key_fn billable_metric_filters row =
    build_billable_metric_filter_key row.organization_id row.billable_metric_id row.id
key_fn charge_filters row = build_charge_filter_key row.organization_id row.charge_id row.id
key_fn charge_filter_values row =
    build_charge_filter_value_key row.organization_id row.charge_filter_id
      row.billable_metric_filter_id row.id

-- What the keys of a table start with, in front of a colon.
abbrev pub prefix : Table → String
prefix billable_metrics = "bm"
prefix subscriptions = "sub"
prefix charges = "ch"
prefix billable_metric_filters = "bmf"
prefix charge_filters = "cf"
prefix charge_filter_values = "cfv"

module _ (B : Badger) (C : (t : Table) → Codec B.Bytes (Row t) (stored t)) where
  -- The snapshot of one table, alone.
  unfoldable pub load_table : (t : Table) → Result (List (Row t)) → B.Db → Result ℕ × B.Db
  unfolding load_billable_metrics_snapshot load_subscriptions_snapshot load_charges_snapshot
      load_billable_metric_filters_snapshot load_charge_filters_snapshot
      load_charge_filter_values_snapshot
  load_table billable_metrics = load_billable_metrics_snapshot B (C billable_metrics)
  load_table subscriptions = load_subscriptions_snapshot B (C subscriptions)
  load_table charges = load_charges_snapshot B (C charges)
  load_table billable_metric_filters =
      load_billable_metric_filters_snapshot B (C billable_metric_filters)
  load_table charge_filters = load_charge_filters_snapshot B (C charge_filters)
  load_table charge_filter_values = load_charge_filter_values_snapshot B (C charge_filter_values)

  -- The call of `setJSON` in the loop of `LoadSnapshot`.
  abbrev pub write_row : (t : Table) → Row t → B.Db → B.Db
  write_row t row db = (set_json B (C t) (key_fn t row) row db).1

  -- The writes of the loop.
  unfoldable pub row_writes : (t : Table) → List (Row t) → List (B.Db → B.Db)
  row_writes t [] = []
  row_writes t (row ∷ rows) =
      if str_eq (key_fn t row) "" then row_writes t rows else write_row t row ∷ row_writes t rows

  unfoldable pub table_writes : (t : Table) → Result (List (Row t)) → List (B.Db → B.Db)
  unfolding row_writes to_except
  table_writes t fetched = elim (to_except fetched) [ error e ↦ [] | ok rows ↦ row_writes t rows ]

  -- The writes that each goroutine has yet to do, and the store.
  pub record Loading : Type 0 where
    pub loads : Table → List (B.Db → B.Db)
    pub db : B.Db

  abbrev pub set_load :
      Table → List (B.Db → B.Db) → (Table → List (B.Db → B.Db)) → Table → List (B.Db → B.Db)
  set_load t writes loads u = if str_eq (prefix t) (prefix u) then writes else loads u

  -- A step: one of the goroutines writes.
  pub data Step (s : Loading) : Loading → Type 0 where
    write :
        (t : Table) (w : B.Db → B.Db) (rest : List (B.Db → B.Db))
        → s.loads t ≡ w ∷ rest
        → Step s (record { loads = set_load t rest s.loads; db = w s.db })

  pub data Run (s : Loading) : Loading → Type 0 where
    start : Run s s
    next : {t u : Loading} → Run s t → Step t u → Run s u

  -- Without a connection to the database the process ends. `fetched` is what the queries return.
  unfoldable pub load_initial_snapshot :
      {D : Type 0} → Except D → ((t : Table) → Result (List (Row t))) → B.Db → Outcome Loading
  unfolding table_writes
  load_initial_snapshot connection fetched db = elim connection [
    | error e ↦ panics e
    | ok d ↦ returns (record { loads = λ t. table_writes t (fetched t); db = db })
  ]
