-- ===== src/Cache/Loading/Writing.antt =====
-- The writes of one table: they are its snapshot, and they leave the keys of the others alone.
use lago.Prelude.{
  ℕ, String, str_eq, cat, join, lacks, Option-cases, split_unique, true, List, [], ◌∷◌, ◌≡◌, ◌⊎◌,
  inl, inr, refl, sym, ap, ◌∙◌, Bool-cases, if◌then◌else◌,
}
use lago.Utils.Result.{Except-cases, Result, to_except}
use lago.Cache.Store.{Badger, Codec}
use lago.Cache.Json.{load_items, load_snapshot}
use lago.Cache.BillableMetrics.{build_billable_metric_key, load_billable_metrics_snapshot}
use lago.Cache.Subscriptions.{
  build_subscription_key, subscription_key, key_or_empty, load_subscriptions_snapshot,
}
use lago.Cache.Charges.{build_charge_key, load_charges_snapshot}
use lago.Cache.BillableMetricFilters.{
  build_billable_metric_filter_key, load_billable_metric_filters_snapshot,
}
use lago.Cache.ChargeFilters.{build_charge_filter_key, load_charge_filters_snapshot}
use lago.Cache.ChargeFilterValues.{
  build_charge_filter_value_key, load_charge_filter_values_snapshot,
}
use lago.Models.Tables.{Subscription}
use lago.Cache.Loading.{
  Table, billable_metrics, subscriptions, charges, billable_metric_filters, charge_filters,
  charge_filter_values, Row, stored, key_fn, prefix, load_table, row_writes, table_writes,
}

-- The key is one of the table's.
abbrev pub IsKeyOf : Table → String → Type 0
IsKeyOf t k = (rest : String) × (k ≡ cat (prefix t) (cat ":" rest))

organized :
    (row : Subscription)
    → (str_eq (key_or_empty row) "" ≡ true) ⊎ IsKeyOf subscriptions (key_or_empty row)
unfolding key_or_empty subscription_key build_subscription_key join
organized row = elim (Option-cases row.organization_id) [
  | inl e ↦ inl (rw (e, key_or_empty) refl)
  | inr (org, e) ↦
      inr (cat org (cat ":" (cat row.external_id (cat ":" row.id))), rw (e, key_or_empty) refl)
]

-- A row of a table has one of its keys or none at all.
pub key_fn-IsKeyOf :
    (t : Table) (row : Row t) → (str_eq (key_fn t row) "" ≡ true) ⊎ IsKeyOf t (key_fn t row)
unfolding build_billable_metric_key build_charge_key build_billable_metric_filter_key
    build_charge_filter_key build_charge_filter_value_key join
key_fn-IsKeyOf billable_metrics row = inr (_, refl)
key_fn-IsKeyOf subscriptions row = organized row
key_fn-IsKeyOf charges row = inr (_, refl)
key_fn-IsKeyOf billable_metric_filters row = inr (_, refl)
key_fn-IsKeyOf charge_filters row = inr (_, refl)
key_fn-IsKeyOf charge_filter_values row = inr (_, refl)

-- The table that a prefix is for.
abbrev of_prefix : String → Table
of_prefix p =
    if str_eq p "bm"
    then billable_metrics
    else if str_eq p "sub"
    then subscriptions
    else if str_eq p "ch"
    then charges
    else if str_eq p "bmf"
    then billable_metric_filters
    else if str_eq p "cf"
    then charge_filters
    else charge_filter_values

of_prefix-prefix : (t : Table) → of_prefix (prefix t) ≡ t
of_prefix-prefix billable_metrics = refl
of_prefix-prefix subscriptions = refl
of_prefix-prefix charges = refl
of_prefix-prefix billable_metric_filters = refl
of_prefix-prefix charge_filters = refl
of_prefix-prefix charge_filter_values = refl

pub prefix_injective : (t u : Table) → prefix t ≡ prefix u → t ≡ u
prefix_injective t u e = sym (of_prefix-prefix t) ∙ ap of_prefix e ∙ of_prefix-prefix u

prefix-lacks_colon : (t : Table) → lacks b':' (prefix t) ≡ true
prefix-lacks_colon billable_metrics = refl
prefix-lacks_colon subscriptions = refl
prefix-lacks_colon charges = refl
prefix-lacks_colon billable_metric_filters = refl
prefix-lacks_colon charge_filters = refl
prefix-lacks_colon charge_filter_values = refl

-- A key is of one table only.
pub IsKeyOf-unique : (t u : Table) (k : String) → IsKeyOf t k → IsKeyOf u k → t ≡ u
IsKeyOf-unique t u k (x, e) (y, f) =
    prefix_injective t u
      (split_unique (prefix t) (prefix u) x y (prefix-lacks_colon t) (prefix-lacks_colon u)
        (sym e ∙ f)).0

module _ (B : Badger) (C : (t : Table) → Codec B.Bytes (Row t) (stored t)) where
  abbrev pub run_writes : List (B.Db → B.Db) → B.Db → B.Db
  run_writes [] db = db
  run_writes (w ∷ ws) db = run_writes ws (w db)

  load_items-row_writes :
      (t : Table) (rows : List (Row t)) (count : ℕ) (db : B.Db)
      → (load_items B (C t) (key_fn t) rows count db).1 ≡ run_writes (row_writes B C t rows) db
  unfolding load_items row_writes
  load_items-row_writes t [] count db = refl
  load_items-row_writes t (row ∷ rows) count db = elim (Bool-cases (str_eq (key_fn t row) "")) [
    | inl skip ↦ rw (skip, load_items, row_writes) (load_items-row_writes t rows count db)
    | inr keyed ↦ rw (keyed, load_items, row_writes) (load_items-row_writes t rows _ _)
  ]

  load_table-snapshot :
      (t : Table) (fetched : Result (List (Row t))) (db : B.Db)
      → load_table B C t fetched db ≡ load_snapshot B (C t) (to_except fetched) (key_fn t) db
  unfolding load_table load_billable_metrics_snapshot load_subscriptions_snapshot
      load_charges_snapshot load_billable_metric_filters_snapshot load_charge_filters_snapshot
      load_charge_filter_values_snapshot
  load_table-snapshot billable_metrics fetched db = refl
  load_table-snapshot subscriptions fetched db = refl
  load_table-snapshot charges fetched db = refl
  load_table-snapshot billable_metric_filters fetched db = refl
  load_table-snapshot charge_filters fetched db = refl
  load_table-snapshot charge_filter_values fetched db = refl

  -- The writes of a table, with none between them, are the snapshot of the table.
  pub load_table-table_writes :
      (t : Table) (fetched : Result (List (Row t))) (db : B.Db)
      → (load_table B C t fetched db).1 ≡ run_writes (table_writes B C t fetched) db
  unfolding load_snapshot table_writes
  load_table-table_writes t fetched db =
      rw (load_table-snapshot t fetched db) (elim (Except-cases (to_except fetched)) [
        | inl (e, h) ↦ rw (h, load_snapshot, table_writes) refl
        | inr (rows, h) ↦ rw (h, load_snapshot, table_writes) (load_items-row_writes t rows 0 db)
      ])
