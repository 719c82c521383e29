-- ===== src/Processor/Enrichment.antt =====
-- events-processor/processors/events_processor/enrichment_service.go. The properties of an event
-- are one Go map, shared by the event and its enriched copies: what is written into it is seen in
-- the initial event too.
pub mod PerCharge
use lago.Prelude.{
  ℕ, String, str_eq, Bool, true, false, not, ◌&&◌, List, [], ◌∷◌, Option, none, some, snoc, insert,
  if◌then◌else◌,
}
use lago.Utils.Result.{
  Error, errorf, Except, ok, error, ErrorDetails, Result, Outcome, returns, panics, success_result,
  failed_result, failed_bool_result, add_error_details, non_retryable, error_code, error_message,
}
use lago.Utils.NullTime.{Time}
use lago.Utils.Time.{Numbers, Timestamp}
use lago.Models.Tables.{AggregationType, count_agg, aggregation_name, BillableMetric, Subscription}
use lago.Models.Event.{
  Event, Properties, PropertyValue, text, property, sprint, sprint_property, http_ruby,
  target_wallet_code,
}
use lago.Models.EnrichedEvent.{EnrichedEvent, to_enriched_event}
use lago.Models.FlatFilter.{FlatFilter, matching_filter}

-- Where the rows come from: the cache, or the database when there is none.
pub record Sources : Type 0 where
  pub billable_metric : String → String → Result (Option BillableMetric)
  pub subscription : String → String → Time → Result (Option Subscription)
  -- the organization, the code of the metric and the plan
  pub flat_filters : String → String → String → Result (List FlatFilter)

-- `failedResult`, `failedMultiEventsResult`: a failure of another type with the same flags.
unfoldable pub failed_as : {A B : Type 0} → B → Result A → Error → String → String → Result B
unfolding failed_result add_error_details
failed_as zero_value r e code message =
    record (add_error_details (failed_result zero_value e) code message) {
      retryable = r.retryable;
      capture = r.capture;
    }

-- The loop over the pricing group keys; a nil property is the empty text.
unfoldable pub group_by_keys :
    Properties → List String → List (String × String) → List (String × String)
unfolding property sprint
group_by_keys properties [] grouped = grouped
group_by_keys properties (key ∷ rest) grouped =
    group_by_keys properties rest
      (insert key (elim (property properties key) [ none ↦ "" | some v ↦ sprint v ]) grouped)

-- `charges[id] = append(charges[id], filter)`. Go walks the map in any order; here it is the
-- order in which the charges were met.
unfoldable pub append_to :
    FlatFilter → List (String × List FlatFilter) → List (String × List FlatFilter)
append_to f [] = (f.charge_id, f ∷ []) ∷ []
append_to f ((id, fs) ∷ rest) =
    if str_eq id f.charge_id then (id, snoc fs f) ∷ rest else (id, fs) ∷ append_to f rest

unfoldable pub index_by_charge :
    List FlatFilter → List (String × List FlatFilter) → List (String × List FlatFilter)
unfolding append_to
index_by_charge [] charges = charges
index_by_charge (f ∷ rest) charges = index_by_charge rest (append_to f charges)

module _ (N : Numbers) where
  -- `evaluate` is the expression library, `marshal` the JSON text of the enriched event.
  module _ (marshal : EnrichedEvent N → Except String)
      (evaluate : String → String → Option String) where
    -- A write into the nil map panics; the map is the one of the initial event too.
    unfoldable pub set_property : EnrichedEvent N → String → String → Outcome (EnrichedEvent N)
    set_property ev field result = elim ev.properties [
      | none ↦ panics (errorf "assignment to entry in nil map")
      | some entries ↦
          let properties = some (insert field (some (text result)) entries) in
          returns (record ev {
            properties = properties;
            initial_event = record ev.initial_event { properties = properties };
          })
    ]

    unfoldable pub evaluate_expression :
        EnrichedEvent N → BillableMetric → Outcome (Result Bool × EnrichedEvent N)
    unfolding set_property success_result failed_bool_result non_retryable
    evaluate_expression ev bm =
        if str_eq bm.expression "" then returns (success_result false, ev) else elim (marshal ev) [
          | error err ↦ returns (non_retryable (failed_bool_result err), ev)
          | ok event_json ↦ elim (evaluate bm.expression event_json) [
            | none ↦
                returns (non_retryable (failed_bool_result (errorf "failed to evaluate expr")), ev)
            | some result ↦ elim (set_property ev bm.field_name result) [
              | panics e ↦ panics e
              | returns ev' ↦ returns (success_result true, ev')
            ]
          ]
        ]

    -- The value that is counted: 1, or the text of the metric's field.
    unfoldable pub set_value : BillableMetric → EnrichedEvent N → EnrichedEvent N
    unfolding sprint_property
    set_value bm ev = elim bm.aggregation_type [
      | count_agg ↦ record ev { value = some "1" }
      | _ ↦ record ev { value = some (sprint_property ev.properties bm.field_name) }
    ]

    -- What follows the evaluation of the expression.
    unfoldable pub finish_metric :
        BillableMetric → Result Bool × EnrichedEvent N → Result (Option (EnrichedEvent N))
    unfolding set_value failed_as success_result
    finish_metric bm (r, ev) = elim r.err [
      | some e ↦ failed_as none r e "evaluate_expression" "Error evaluating custom expression"
      | none ↦ success_result (some (set_value bm ev))
    ]

    unfoldable pub enrich_with_billable_metric :
        EnrichedEvent N → BillableMetric → Outcome (Result (Option (EnrichedEvent N)))
    unfolding evaluate_expression finish_metric success_result aggregation_name
    enrich_with_billable_metric enriched bm =
        let ev = record enriched {
          billable_metric = some bm;
          aggregation_type = aggregation_name bm.aggregation_type;
        } in
        if not (str_eq ev.source http_ruby)
        then elim (evaluate_expression ev bm) [
          | panics e ↦ panics e
          | returns r ↦ returns (finish_metric bm r)
        ]
        else returns (finish_metric bm (success_result true, ev))

  unfoldable pub enrich_with_subscription : EnrichedEvent N → Subscription → EnrichedEvent N
  enrich_with_subscription ev sub = record ev {
    subscription = some sub;
    subscription_id = sub.id;
    plan_id = sub.plan_id;
  }

  unfoldable pub set_target_wallet : FlatFilter → EnrichedEvent N → EnrichedEvent N
  unfolding property sprint
  set_target_wallet filter ev =
      if filter.accepts_target_wallet
      then elim (property ev.properties target_wallet_code) [
        | none ↦ ev
        | some raw ↦ record ev {
          grouped_by = insert target_wallet_code (sprint raw) ev.grouped_by;
          target_wallet_code = some (sprint raw);
        }
      ]
      else ev

  unfoldable pub enrich_with_pricing_group_keys : EnrichedEvent N → EnrichedEvent N
  unfolding group_by_keys set_target_wallet
  enrich_with_pricing_group_keys ev = elim ev.flat_filter [
    | none ↦ ev
    | some filter ↦ set_target_wallet filter (record ev {
      grouped_by = group_by_keys ev.properties filter.pricing_group_keys ev.grouped_by;
    })
  ]

  -- The copy of the event for the filter of one charge.
  unfoldable pub with_filter : EnrichedEvent N → FlatFilter → EnrichedEvent N
  unfolding enrich_with_pricing_group_keys
  with_filter ev filter = enrich_with_pricing_group_keys (record ev {
    grouped_by = [];
    flat_filter = some filter;
    charge_id = some filter.charge_id;
    charge_updated_at = some filter.charge_updated_at;
    charge_filter_id = filter.charge_filter_id;
    charge_filter_updated_at = filter.charge_filter_updated_at;
  })

  unfoldable pub enrich_charges :
      EnrichedEvent N
      → List (String × List FlatFilter)
      → List (EnrichedEvent N)
      → Outcome (List (EnrichedEvent N))
  unfolding with_filter
  enrich_charges ev [] events = returns events
  enrich_charges ev ((id, filters) ∷ rest) events = elim (matching_filter filters ev.properties) [
    | panics e ↦ panics e
    | returns filter ↦ enrich_charges ev rest (snoc events (with_filter ev filter))
  ]

  -- Behind the filters that were found.
  unfoldable pub enrich_with_filters :
      EnrichedEvent N → List FlatFilter → Outcome (Result (List (EnrichedEvent N)))
  unfolding index_by_charge enrich_charges success_result
  enrich_with_filters ev [] = returns (success_result (ev ∷ []))
  enrich_with_filters ev (f ∷ rest) = elim (enrich_charges ev (index_by_charge (f ∷ rest) []) []) [
    | panics e ↦ panics e
    | returns events ↦ returns (success_result events)
  ]

  unfoldable pub enrich_with_charge_info :
      Sources → EnrichedEvent N → Outcome (Result (List (EnrichedEvent N)))
  unfolding enrich_with_filters success_result failed_result
  enrich_with_charge_info sources ev = elim ev.subscription [
    | none ↦ returns (success_result (ev ∷ []))
    | some sub ↦
        let filters_result = sources.flat_filters ev.organization_id ev.code ev.plan_id in
        elim filters_result.err [
          | some e ↦ returns (failed_result [] e)
          | none ↦ enrich_with_filters ev filters_result.value
        ]
  ]
