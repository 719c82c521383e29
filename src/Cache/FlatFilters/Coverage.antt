-- ===== src/Cache/FlatFilters/Coverage.antt =====
-- The filters that are put together are those of the charges of the metric and the plan.
use lago.Prelude.{
  ℕ, String, List, [], ◌∷◌, Option, none, some, snoc, In, In-snoc, In-single, snoc-last, snoc-old,
  ◌≡◌, ◌⊎◌, inl, inr, refl, sym, ap, ◌∙◌, subst, Option-cases,
}
use lago.Utils.Result.{Result, success_result, failed_result}
use lago.Utils.NullTime.{time_of}
use lago.Models.Tables.{BillableMetric, BillableMetricFilter, Charge, ChargeFilter}
use lago.Models.FlatFilter.{FlatFilter, FlatFilterValues}
use lago.Cache.Store.{Badger}
use lago.Cache.BillableMetrics.{get_billable_metric}
use lago.Cache.BillableMetricFilters.{search_billable_metric_filters}
use lago.Cache.Charges.{search_charge}
use lago.Cache.ChargeFilters.{search_charge_filter}
use lago.Cache.ChargeFilterValues.{search_charge_filter_value}
use lago.Cache.FlatFilters.{
  Codecs, and_then, bm_filter_map, filter_values, charge_flat_filter, charge_filter_flat_filter,
  add_charge_filters, add_charge, add_charges, metric_flat_filters, build_flat_filters,
}

-- A success of the whole is a success of the first step, and what the rest makes of its value.
and_then-success :
    {A B : Type 0} (r : Result A) (f : A → Result (List B))
    → (and_then r f).err ≡ none
    → (r.err ≡ none) × (and_then r f ≡ f r.value)
unfolding and_then failed_result
and_then-success r f h = elim (Option-cases r.err) [
  | inl e ↦ (e, rw (e, and_then))
  | inr (er, e) ↦ cc (rw (e, and_then) at h)
]

module _ (organization_id billable_metric_code plan_id : String) where
  -- The filter is one of the charge, for the organization, the metric and the plan asked for.
  pub record IsFilterOf (charge : Charge) (f : FlatFilter) : Type 0 where
    pub organization : f.organization_id ≡ organization_id
    pub code : f.billable_metric_code ≡ billable_metric_code
    pub plan : f.plan_id ≡ plan_id
    pub charge_id : f.charge_id ≡ charge.id
    pub updated_at : f.charge_updated_at ≡ time_of charge.updated_at
    pub pay_in_advance : f.pay_in_advance ≡ charge.pay_in_advance
    pub accepts_target_wallet : f.accepts_target_wallet ≡ charge.accepts_target_wallet

  -- What a loop has added to the filters so far.
  record Extends (charges : List Charge) (acc out : List FlatFilter) : Type 0 where
    old : (f : FlatFilter) → In f acc → In f out
    origin :
        (f : FlatFilter)
        → In f out
        → In f acc ⊎ ((charge : Charge) × In charge charges × IsFilterOf charge f)
    covered :
        (charge : Charge) → In charge charges → (f : FlatFilter) × In f out × IsFilterOf charge f

  snoc-Extends :
      (charge : Charge) (acc : List FlatFilter) (f : FlatFilter)
      → IsFilterOf charge f
      → Extends (charge ∷ []) acc (snoc acc f)
  snoc-Extends charge acc f own = record {
    old = λ g m. snoc-old acc f g m;
    origin = λ g m. elim (In-snoc acc f g m) [
      | inl n ↦ inl n
      | inr e ↦ inr (charge, inl refl, subst (IsFilterOf charge) e own)
    ];
    covered = λ c m. elim m [
      | inl e ↦ (f, snoc-last acc f, subst (λ x. IsFilterOf x f) e own)
      | inr n ↦ elim n [ ]
    ];
  }

  -- Two steps of one charge are together a step of that charge.
  again-Extends :
      (charge : Charge) (acc mid out : List FlatFilter)
      → Extends (charge ∷ []) acc mid
      → (mid ≡ out) ⊎ Extends (charge ∷ []) mid out
      → Extends (charge ∷ []) acc out
  again-Extends charge acc mid out a (inl e) = subst (Extends (charge ∷ []) acc) e a
  again-Extends charge acc mid out a (inr b) = record {
    old = λ f m. b.old f (a.old f m);
    origin = λ f m. elim (b.origin f m) [ inl n ↦ a.origin f n | inr o ↦ inr o ];
    covered = b.covered;
  }

  cons-Extends :
      (charge : Charge) (rest : List Charge) (acc mid out : List FlatFilter)
      → Extends (charge ∷ []) acc mid
      → Extends rest mid out
      → Extends (charge ∷ rest) acc out
  cons-Extends charge rest acc mid out a b = record {
    old = λ f m. b.old f (a.old f m);
    origin = λ f m. elim (b.origin f m) [
      | inr (c, n, own) ↦ inr (c, inr n, own)
      | inl n ↦ elim (a.origin f n) [
        | inl o ↦ inl o
        | inr (c, single, own) ↦
            inr
              (charge, inl refl, subst (λ x. IsFilterOf x f) (sym (In-single charge c single)) own)
      ]
    ];
    covered = λ c m. elim m [
      | inl e ↦ let (f, n, own) = a.covered c (inl e) in (f, b.old f n, own)
      | inr n ↦ b.covered c n
    ];
  }

  module _ (B : Badger) (C : Codecs B.Bytes) (now : ℕ) (db : B.Db) where
    -- The loops, at the organization, the metric and the plan of the section.
    abbrev filters_loop :
        List (String × BillableMetricFilter)
        → Charge
        → List ChargeFilter
        → List FlatFilter
        → Result (List FlatFilter)
    filters_loop = add_charge_filters organization_id billable_metric_code plan_id B C now db

    abbrev charge_step :
        List (String × BillableMetricFilter)
        → Charge
        → List ChargeFilter
        → List FlatFilter
        → Result (List FlatFilter)
    charge_step = add_charge organization_id billable_metric_code plan_id B C now db

    abbrev charges_loop :
        List (String × BillableMetricFilter)
        → List Charge
        → List FlatFilter
        → Result (List FlatFilter)
    charges_loop = add_charges organization_id billable_metric_code plan_id B C now db

    own_flat_filter :
        (charge : Charge)
        → IsFilterOf charge (charge_flat_filter organization_id billable_metric_code plan_id charge)
    unfolding charge_flat_filter
    own_flat_filter charge = record {
      organization = refl;
      code = refl;
      plan = refl;
      charge_id = refl;
      updated_at = refl;
      pay_in_advance = refl;
      accepts_target_wallet = refl;
    }

    own_charge_filter :
        (charge : Charge) (cf : ChargeFilter) (values : FlatFilterValues)
        → IsFilterOf charge (
            charge_filter_flat_filter organization_id billable_metric_code plan_id charge cf values)
    unfolding charge_filter_flat_filter
    own_charge_filter charge cf values = record {
      organization = refl;
      code = refl;
      plan = refl;
      charge_id = refl;
      updated_at = refl;
      pay_in_advance = refl;
      accepts_target_wallet = refl;
    }

    filters_loop-Extends :
        (bm_filters : List (String × BillableMetricFilter)) (charge : Charge)
        (charge_filters : List ChargeFilter) (acc : List FlatFilter)
        → (filters_loop bm_filters charge charge_filters acc).err ≡ none
        → (acc ≡ (filters_loop bm_filters charge charge_filters acc).value)
          ⊎ Extends (charge ∷ []) acc (filters_loop bm_filters charge charge_filters acc).value
    unfolding add_charge_filters
    filters_loop-Extends bm_filters charge [] acc h = inl refl
    filters_loop-Extends bm_filters charge (cf ∷ rest) acc h =
        let r = search_charge_filter_value B C.charge_filter_values now organization_id cf.id db in
        let f =
          charge_filter_flat_filter organization_id billable_metric_code plan_id charge cf
            (filter_values bm_filters r.value []) in
        let (_, e) =
          and_then-success r
            (λ values. filters_loop bm_filters charge rest (
              snoc acc (
                charge_filter_flat_filter organization_id billable_metric_code plan_id charge cf
                  (filter_values bm_filters values []))))
            h in
        inr (
          subst (λ (x : Result (List FlatFilter)). Extends (charge ∷ []) acc x.value) (sym e)
            (again-Extends charge acc (snoc acc f) _
              (snoc-Extends charge acc f
                (own_charge_filter charge cf (filter_values bm_filters r.value [])))
              (filters_loop-Extends bm_filters charge rest (snoc acc f)
                (ap (λ (x : Result (List FlatFilter)). x.err) (sym e) ∙ h))))

    -- A charge with filters is the loop over them, which adds one at least.
    some_filters-Extends :
        (bm_filters : List (String × BillableMetricFilter)) (charge : Charge) (cf : ChargeFilter)
        (rest : List ChargeFilter) (acc : List FlatFilter)
        → (filters_loop bm_filters charge (cf ∷ rest) acc).err ≡ none
        → Extends (charge ∷ []) acc (filters_loop bm_filters charge (cf ∷ rest) acc).value
    unfolding add_charge_filters
    some_filters-Extends bm_filters charge cf rest acc h =
        let r = search_charge_filter_value B C.charge_filter_values now organization_id cf.id db in
        let f =
          charge_filter_flat_filter organization_id billable_metric_code plan_id charge cf
            (filter_values bm_filters r.value []) in
        let (_, e) =
          and_then-success r
            (λ values. filters_loop bm_filters charge rest (
              snoc acc (
                charge_filter_flat_filter organization_id billable_metric_code plan_id charge cf
                  (filter_values bm_filters values []))))
            h in
        subst (λ (x : Result (List FlatFilter)). Extends (charge ∷ []) acc x.value) (sym e)
          (again-Extends charge acc (snoc acc f) _
            (snoc-Extends charge acc f
              (own_charge_filter charge cf (filter_values bm_filters r.value [])))
            (filters_loop-Extends bm_filters charge rest (snoc acc f)
              (ap (λ (x : Result (List FlatFilter)). x.err) (sym e) ∙ h)))

    charge_step-Extends :
        (bm_filters : List (String × BillableMetricFilter)) (charge : Charge)
        (charge_filters : List ChargeFilter) (acc : List FlatFilter)
        → (charge_step bm_filters charge charge_filters acc).err ≡ none
        → Extends (charge ∷ []) acc (charge_step bm_filters charge charge_filters acc).value
    unfolding add_charge
    charge_step-Extends bm_filters charge [] acc h =
        snoc-Extends charge acc
          (charge_flat_filter organization_id billable_metric_code plan_id charge)
          (own_flat_filter charge)
    charge_step-Extends bm_filters charge (cf ∷ rest) acc h =
        some_filters-Extends bm_filters charge cf rest acc h

    charges_loop-Extends :
        (bm_filters : List (String × BillableMetricFilter)) (charges : List Charge)
        (acc : List FlatFilter)
        → (charges_loop bm_filters charges acc).err ≡ none
        → Extends charges acc (charges_loop bm_filters charges acc).value
    unfolding add_charges
    charges_loop-Extends bm_filters [] acc h = record {
      old = λ f m. m;
      origin = λ f m. inl m;
      covered = λ c m. elim m [ ];
    }
    charges_loop-Extends bm_filters (charge ∷ rest) acc h =
        let found = search_charge_filter B C.charge_filters now organization_id charge.id db in
        let next = λ (so_far : List FlatFilter). charges_loop bm_filters rest so_far in
        let step = charge_step bm_filters charge found.value acc in
        let (_, e) =
          and_then-success found (λ cfs. and_then (charge_step bm_filters charge cfs acc) next) h in
        let h' : (and_then step next).err ≡ none =
          ap (λ (x : Result (List FlatFilter)). x.err) (sym e) ∙ h in
        let (s, e') = and_then-success step next h' in
        subst (λ (x : Result (List FlatFilter)). Extends (charge ∷ rest) acc x.value) (sym (e ∙ e'))
          (cons-Extends charge rest acc step.value _
            (charge_step-Extends bm_filters charge found.value acc s)
            (charges_loop-Extends bm_filters rest step.value
              (ap (λ (x : Result (List FlatFilter)). x.err) (sym e') ∙ h')))

    -- The answer for a metric that is cached, where every read succeeds: each filter is one of a
    -- charge of the metric and the plan, for the organization, the code and the plan asked for, and
    -- each such charge has a filter in the answer, so that no charge of an event is lost.
    pub build_flat_filters-covers :
        (metric : BillableMetric) (charges : List Charge)
        → get_billable_metric B C.billable_metrics now organization_id billable_metric_code db
          ≡ success_result (some metric)
        → search_charge B C.charges now organization_id plan_id metric.id db
          ≡ success_result charges
        → (build_flat_filters organization_id billable_metric_code plan_id B C now db).err ≡ none
        → ((f : FlatFilter)
            → In f
                (build_flat_filters organization_id billable_metric_code plan_id B C now db).value
            → (charge : Charge) × In charge charges × IsFilterOf charge f)
          × ((charge : Charge)
              → In charge charges
              → (f : FlatFilter) × In f
                  (build_flat_filters organization_id billable_metric_code plan_id B C now db).value
                × IsFilterOf charge f)
    unfolding build_flat_filters metric_flat_filters and_then success_result
    build_flat_filters-covers metric charges found charged h =
        let err_of = λ (x : Result (List FlatFilter)). x.err in
        let bmfs =
          search_billable_metric_filters B C.billable_metric_filters now organization_id metric.id
            db in
        let behind = λ (b : List BillableMetricFilter).
          λ (cs : List Charge). charges_loop (bm_filter_map b []) cs [] in
        let tail = λ (b : List BillableMetricFilter).
          and_then (search_charge B C.charges now organization_id plan_id metric.id db)
            (behind b) in
        let e =
          ap
            (λ (r : Result (Option BillableMetric)).
              and_then r
                (metric_flat_filters organization_id billable_metric_code plan_id B C now db))
            found in
        let h1 : (and_then bmfs tail).err ≡ none = ap err_of (sym e) ∙ h in
        let (_, e1) = and_then-success bmfs tail h1 in
        let e2 : tail bmfs.value ≡ charges_loop (bm_filter_map bmfs.value []) charges [] =
          ap (λ (r : Result (List Charge)). and_then r (behind bmfs.value)) charged in
        let whole = e ∙ e1 ∙ e2 in
        let ext =
          charges_loop-Extends (bm_filter_map bmfs.value []) charges []
            (ap err_of (sym whole) ∙ h) in
        let moved =
          subst (λ (x : Result (List FlatFilter)). Extends charges [] x.value) (sym whole) ext in
        (λ f m. elim (moved.origin f m) [ inl n ↦ elim n [ ] | inr o ↦ o ], moved.covered)
