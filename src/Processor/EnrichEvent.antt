-- ===== src/Processor/EnrichEvent.antt =====
-- events-processor/processors/events_processor/enrichment_service.go: `EnrichEvent`, which goes
-- through the metric, the subscription and the charges of an event.
use lago.Prelude.{String, List, [], Option, none, some, if◌then◌else◌}
use lago.Utils.Result.{
  Error, errorf, Except, Result, Outcome, returns, panics, error_code, error_message,
}
use lago.Utils.Time.{Numbers, Timestamp}
use lago.Models.Tables.{BillableMetric, Subscription}
use lago.Models.Event.{Event}
use lago.Models.EnrichedEvent.{EnrichedEvent, to_enriched_event}
use lago.Processor.Enrichment.{
  Sources, failed_as, enrich_with_billable_metric, enrich_with_subscription,
  enrich_with_charge_info,
}

-- The event as the call leaves it, and the result.
abbrev pub Enriched : Numbers → Type 0
Enriched N = Event (Timestamp N) × Result (List (EnrichedEvent N))

abbrev pub nil_dereference : Error
nil_dereference = errorf "invalid memory address or nil pointer dereference"

module _ (N : Numbers) (sources : Sources) where
  unfoldable pub with_event :
      EnrichedEvent N → Outcome (Result (List (EnrichedEvent N))) → Outcome (Enriched N)
  with_event ev outcome = elim outcome [
    | panics e ↦ panics e
    | returns r ↦ returns (ev.initial_event, r)
  ]

  -- `sub := subResult.Value()` and what follows it.
  unfoldable pub apply_subscription : EnrichedEvent N → Option Subscription → EnrichedEvent N
  unfolding enrich_with_subscription
  apply_subscription ev sub = elim sub [ none ↦ ev | some s ↦ enrich_with_subscription N ev s ]

  -- From the fetch of the subscription to the end.
  unfoldable pub enrich_from_subscription : EnrichedEvent N → Outcome (Enriched N)
  unfolding with_event apply_subscription failed_as enrich_with_charge_info
  enrich_from_subscription ev =
      let found =
        sources.subscription ev.initial_event.organization_id
          ev.initial_event.external_subscription_id ev.time in
      elim found.err [
        | none ↦
            with_event ev (enrich_with_charge_info N sources (apply_subscription ev found.value))
        | some e ↦
            if found.capture
            then returns (
              ev.initial_event,
              failed_as [] found e "fetch_subscription" "Error fetching subscription",
            )
            else with_event ev (enrich_with_charge_info N sources (apply_subscription ev none))
      ]

  -- Behind `enrichWithBillableMetric`.
  unfoldable pub continue_enriched :
      EnrichedEvent N → Result (Option (EnrichedEvent N)) → Outcome (Enriched N)
  unfolding enrich_from_subscription failed_as error_code error_message
  continue_enriched ev r = elim r.err [
    | some e ↦ returns (ev.initial_event, failed_as [] r e (error_code r) (error_message r))
    | none ↦ elim r.value [
      | none ↦ panics nil_dereference
      | some enriched ↦ enrich_from_subscription enriched
    ]
  ]

  module _ (marshal : EnrichedEvent N → Except String)
      (evaluate : String → String → Option String) where
    unfoldable pub apply_metric : EnrichedEvent N → Option BillableMetric → Outcome (Enriched N)
    unfolding continue_enriched enrich_with_billable_metric
    apply_metric ev bm = elim bm [
      | none ↦ enrich_from_subscription ev
      | some metric ↦ elim (enrich_with_billable_metric N marshal evaluate ev metric) [
        | panics e ↦ panics e
        | returns r ↦ continue_enriched ev r
      ]
    ]

    -- From the fetch of the metric to the end.
    unfoldable pub enrich_from_metric : EnrichedEvent N → Outcome (Enriched N)
    unfolding apply_metric failed_as
    enrich_from_metric ev =
        let found =
          sources.billable_metric ev.initial_event.organization_id ev.initial_event.code in
        elim found.err [
          | some e ↦ returns (
            ev.initial_event,
            failed_as [] found e "fetch_billable_metric" "Error fetching billable metric",
          )
          | none ↦ apply_metric ev found.value
        ]

    unfoldable pub enrich_event : Event (Timestamp N) → Outcome (Enriched N)
    unfolding enrich_from_metric to_enriched_event failed_as
    enrich_event event =
        let built = to_enriched_event N event in
        elim built.err [
          | some e ↦ returns (
            event,
            failed_as [] built e "build_enriched_event"
                "Error while converting event to enriched event",
          )
          | none ↦ elim built.value [
            | none ↦ panics nil_dereference
            | some ev ↦ enrich_from_metric ev
          ]
        ]
