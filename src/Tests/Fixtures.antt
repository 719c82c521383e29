-- ===== src/Tests/Fixtures.antt =====
-- A store that keeps its entries in a list, a codec for each table, and rows to try them on.
use lago.Prelude.{
  none≢some, ℕ, ◌+◌, String, str_eq, starts_with, eq_iff, true, false, List, [], ◌∷◌, Option, none,
  some, In, ◌≡◌, refl, sym, ap, ◌∙◌, inl, inr, subst, Bool-cases, lookup, insert, lookup-insert,
  ltb, if◌then◌else◌, Option-cases,
}
use lago.Utils.Result.{
  error≢ok, errorf, key_not_found, Except, ok, error, Except-cases, ok-injective,
}
use lago.Utils.Time.{Numbers}
use lago.Models.Tables.{Subscription, BillableMetric, count_agg}
use lago.Models.FlatFilter.{FlatFilter}
use lago.Cache.Store.{Badger, Laws, Codec}

-- A value and when it expires, or what is left of a deleted entry.
abbrev pub Cell : Type 0 → Type 0
Cell V = Option (V × Option ℕ)

module _ (V : Type 0) where
  abbrev read_cell : ℕ → Cell V → Except V
  read_cell now none = error key_not_found
  read_cell now (some (v, none)) = ok v
  read_cell now (some (v, some end)) = if ltb now end then ok v else error key_not_found

  abbrev found_cell : ℕ → Option (Cell V) → Except V
  found_cell now none = error key_not_found
  found_cell now (some cell) = read_cell now cell

  abbrev get : ℕ → String → List (String × Cell V) → Except V
  get now k db = found_cell now (lookup k db)

  abbrev add_found : Except V → List V → List V
  add_found (ok v) vs = v ∷ vs
  add_found (error e) vs = vs

  -- The values of the keys of the list that the store holds.
  abbrev collect : ℕ → String → List (String × Cell V) → List (String × Cell V) → List V
  collect now p [] db = []
  collect now p ((k, cell) ∷ rest) db =
      if starts_with k p
      then add_found (get now k db) (collect now p rest db)
      else collect now p rest db

  abbrev pub list_store : Badger
  list_store = record {
    Db = List (String × Cell V);
    Bytes = V;
    set = λ k v db. ok (insert k (some (v, none)) db);
    delete = λ k db. ok (insert k none db);
    set_entry = λ now k v ttl db. ok (insert k (some (v, some (now + ttl))) db);
    get = get;
    iterate = λ now p db. ok (collect now p db db);
  }

  added : (r : Except V) (vs : List V) (v : V) → In v vs → In v (add_found r vs)
  added (ok w) vs v m = inr m
  added (error e) vs v m = m

  get-insert :
      (now : ℕ) (k j : String) (cell : Cell V) (db : List (String × Cell V))
      → get now j (insert k cell db) ≡ (if str_eq k j then read_cell now cell else get now j db)
  get-insert now k j cell db = elim (Bool-cases (str_eq k j)) [
    | inl t ↦ rw (t, lookup-insert k j cell db, t) refl
    | inr f ↦ rw (f, lookup-insert k j cell db, f) refl
  ]

  collect_sound :
      (now : ℕ) (p : String) (entries db : List (String × Cell V)) (v : V)
      → In v (collect now p entries db)
      → (k : String) × (starts_with k p ≡ true) × (get now k db ≡ ok v)
  collect_sound now p [] db v m = elim m [ ]
  collect_sound now p ((k, cell) ∷ rest) db v m = elim (Bool-cases (starts_with k p)) [
    | inr f ↦ collect_sound now p rest db v (rw f at m)
    | inl t ↦ elim (Except-cases (get now k db)) [
      | inl (e, f) ↦ collect_sound now p rest db v (rw f at (rw t at m))
      | inr (w, f) ↦ elim (rw f at (rw t at m)) [
        | inl same ↦ (k, t, f ∙ ap ok same)
        | inr n ↦ collect_sound now p rest db v n
      ]
    ]
  ]

  collect_complete :
      (now : ℕ) (p : String) (entries db : List (String × Cell V)) (v : V) (k : String)
      (cell : Cell V)
      → lookup k entries ≡ some cell
      → starts_with k p ≡ true
      → get now k db ≡ ok v
      → In v (collect now p entries db)
  unfolding lookup
  collect_complete now p [] db v k cell h t g = absurd (none≢some h)
  collect_complete now p ((j, c) ∷ rest) db v k cell h t g = elim (Bool-cases (str_eq j k)) [
    | inl same ↦ let at_j = (eq_iff j k).0 same in rw (at_j, t, g) (inl refl)
    | inr other ↦
        let m = collect_complete now p rest db v k cell (rw (other, lookup) at h) t g in
        elim (Bool-cases (starts_with j p)) [
          | inr f ↦ rw f m
          | inl s ↦ rw s (added (get now j db) (collect now p rest db) v m)
        ]
  ]

  collect-iterates :
      (now : ℕ) (p : String) (db : List (String × Cell V)) (v : V) (k : String)
      → starts_with k p ≡ true
      → get now k db ≡ ok v
      → In v (collect now p db db)
  collect-iterates now p db v k t g = elim (Option-cases (lookup k db)) [
    | inl e ↦ absurd (error≢ok (rw e at g))
    | inr (cell, e) ↦ collect_complete now p db db v k cell e t g
  ]

  pub list_store-Laws : Laws list_store
  list_store-Laws = record {
    get-set = λ now k j v db db' e. rw (← ok-injective e) (get-insert now k j (some (v, none)) db);
    get-delete = λ now k j db db' e. rw (← ok-injective e) (get-insert now k j none db);
    get-set_entry = λ now later ttl k j v db db' le e.
        rw (← ok-injective e) (get-insert later k j (some (v, some (now + ttl))) db);
    iterate-get = λ now p db vs v e. (
      λ m. collect_sound now p db db v (subst (In v) (sym (ok-injective e)) m),
      λ (k, t, g). subst (In v) (ok-injective e) (collect-iterates now p db v k t g),
    );
  }

-- The bytes of a row are the row as JSON gives it back.
abbrev pub row_codec : {T : Type 0} (stored : T → T) → Codec T T stored
row_codec stored = record {
  marshal = λ x. ok (stored x);
  unmarshal = λ b. ok b;
  unmarshal-marshal = λ x b e. ap ok (sym (ok-injective e));
}

abbrev pub metric : BillableMetric
metric = record {
  id = "bm1";
  organization_id = "org";
  code = "calls";
  aggregation_type = count_agg;
  field_name = "";
  expression = "";
  created_at = none;
  updated_at = some 62135596800000000000;
  deleted_at = none;
}

abbrev pub newer_metric : BillableMetric
newer_metric = record metric { updated_at = some 62135596900000000000; field_name = "n" }

abbrev pub subscription : Subscription
subscription = record {
  id = "s1";
  organization_id = some "org";
  external_id = "ext";
  plan_id = "plan";
  created_at = none;
  updated_at = none;
  started_at = some 5000000;
  terminated_at = none;
}

abbrev pub filter : FlatFilter
filter = record {
  organization_id = "org";
  billable_metric_code = "calls";
  plan_id = "plan";
  charge_id = "ch1";
  charge_updated_at = 0;
  charge_filter_id = some "f1";
  charge_filter_updated_at = some 0;
  filters = some (("region", "eu" ∷ []) ∷ []);
  pricing_group_keys = [];
  pay_in_advance = false;
  accepts_target_wallet = false;
}

-- Numbers whose floats are the natural numbers.
abbrev pub naturals : Numbers
naturals = record {
  Float = ℕ;
  Int = ℕ;
  parse_float = λ s. if str_eq s "" then error (errorf "invalid syntax") else ok 7;
  parse_rfc3339 = λ s. error (errorf "cannot parse");
  int64_of = λ x. x;
  float64_of = λ x. x;
  literal = λ x. x;
  sub = λ x y. x;
  mul = λ x y. x;
  div = λ x y. x;
  trunc = λ x. x;
  zero_int = 0;
  unix = λ s ns. s;
  unix_milli = λ t. t;
  format = λ x. "7";
}
