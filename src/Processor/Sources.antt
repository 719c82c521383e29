-- ===== src/Processor/Sources.antt =====
-- events-processor/processors/events_processor/enrichment_service.go: the two places that the rows of
-- an event come from, the cache and, where there is none, the database.
use lago.Prelude.{
  ℕ, String, List, [], ◌∷◌, Option, none, some, false, if◌then◌else◌, ◌≡◌, refl, ap, fun_ext, ◌∙◌,
  ◌⊎◌, inl, inr,
}
use lago.Utils.Result.{
  Error, Except, Result, Outcome, returns, panics, success_result, failed_result, error_code,
  error_message,
}
use lago.Utils.NullTime.{Time}
use lago.Utils.Time.{Numbers, Timestamp}
use lago.Models.Tables.{BillableMetric, Subscription}
use lago.Models.Event.{Event}
use lago.Models.EnrichedEvent.{EnrichedEvent, to_enriched_event}
use lago.Models.Fetch.{Database, fetch_billable_metric, fetch_subscription, fetch_flat_filters}
use lago.Cache.Store.{Badger}
use lago.Cache.FlatFilters.{Codecs, build_flat_filters}
use lago.Cache.BillableMetrics.{get_billable_metric}
use lago.Cache.Search.{search_subscriptions}
use lago.Processor.Enrichment.{
  Sources, enrich_with_charge_info, enrich_with_filters, failed_as, enrich_with_billable_metric,
}
use lago.Processor.EnrichEvent.{
  Enriched, nil_dereference, with_event, apply_subscription, enrich_from_subscription,
  continue_enriched, apply_metric, enrich_from_metric, enrich_event,
}

-- `s.memCache != nil`: the store as it is while the event is enriched.
unfoldable pub cache_sources : (B : Badger) → Codecs B.Bytes → ℕ → B.Db → Sources
unfolding get_billable_metric search_subscriptions build_flat_filters
cache_sources B C now db = record {
  billable_metric =
      λ organization_id code. get_billable_metric B C.billable_metrics now organization_id code db;
  subscription = λ organization_id external_id timestamp.
      search_subscriptions B C.subscriptions now organization_id external_id timestamp db;
  flat_filters =
      λ organization_id code plan_id. build_flat_filters organization_id code plan_id B C now db;
}

unfoldable pub api_sources : Database → Sources
unfolding fetch_billable_metric fetch_subscription fetch_flat_filters
api_sources db = record {
  billable_metric = fetch_billable_metric db;
  subscription = fetch_subscription db;
  flat_filters = λ organization_id code plan_id. fetch_flat_filters db organization_id plan_id code;
}

-- `NewEventEnrichmentService`: the cache if it is used, the database if not.
unfoldable pub choose_sources : Option Sources → Sources → Sources
choose_sources mem_cache api = elim mem_cache [ none ↦ api | some cached ↦ cached ]

-- The same subscription, or two failures that are not captured.
abbrev pub SameSubscription : Result (Option Subscription) → Result (Option Subscription) → Type 0
SameSubscription r s =
    (r ≡ s)
    ⊎ ((d : Error) × (e : Error) × (r.err ≡ some d)
        × (s.err ≡ some e)
        × (r.capture ≡ false)
        × (s.capture ≡ false))

module _ (N : Numbers) (a b : Sources)
    (filters : (o c p : String) → a.flat_filters o c p ≡ b.flat_filters o c p)
    (subscriptions : (o x : String) (t : Time)
      → SameSubscription (a.subscription o x t) (b.subscription o x t)) where
  charge_info_same :
      (ev : EnrichedEvent N) → enrich_with_charge_info N a ev ≡ enrich_with_charge_info N b ev
  unfolding enrich_with_charge_info
  charge_info_same ev =
      ap
        (λ r. elim ev.subscription [
          | none ↦ returns (success_result (ev ∷ []))
          | some sub ↦ elim r.err [
            | some e ↦ returns (failed_result [] e)
            | none ↦ enrich_with_filters N ev r.value
          ]
        ])
        (filters ev.organization_id ev.code ev.plan_id)

  -- What `enrich_from_subscription` does with the answer; `h` adds the charges.
  abbrev with_subscription :
      (EnrichedEvent N → Outcome (Result (List (EnrichedEvent N))))
      → EnrichedEvent N
      → Result (Option Subscription)
      → Outcome (Enriched N)
  unfolding with_event apply_subscription
  with_subscription h ev found = elim found.err [
    | none ↦ with_event N a ev (h (apply_subscription N a ev found.value))
    | some e ↦
        if found.capture
        then returns (
          ev.initial_event,
          failed_as [] found e "fetch_subscription" "Error fetching subscription",
        )
        else with_event N a ev (h (apply_subscription N a ev none))
  ]

  answers_same :
      (h : EnrichedEvent N → Outcome (Result (List (EnrichedEvent N)))) (ev : EnrichedEvent N)
      (r s : Result (Option Subscription))
      → SameSubscription r s
      → with_subscription h ev r ≡ with_subscription h ev s
  unfolding with_subscription
  answers_same h ev r s (inl same) = ap (with_subscription h ev) same
  answers_same h ev r s (inr (d, e, p, q, c, k)) = rw (p, q, c, k) refl

  subscription_same :
      (ev : EnrichedEvent N) → enrich_from_subscription N a ev ≡ enrich_from_subscription N b ev
  unfolding enrich_from_subscription with_event apply_subscription
  subscription_same ev =
      let o = ev.initial_event.organization_id in
      let x = ev.initial_event.external_subscription_id in
      answers_same (enrich_with_charge_info N a) ev (a.subscription o x ev.time)
        (b.subscription o x ev.time) (subscriptions o x ev.time)
      ∙ ap (λ h. with_subscription h ev (b.subscription o x ev.time)) (fun_ext charge_info_same)

  subscriptions_same : enrich_from_subscription N a ≡ enrich_from_subscription N b
  subscriptions_same = fun_ext subscription_same

  continue_same : continue_enriched N a ≡ continue_enriched N b
  unfolding continue_enriched
  continue_same =
      ap
        (λ h ev r. elim r.err [
          | some e ↦ returns (ev.initial_event, failed_as [] r e (error_code r) (error_message r))
          | none ↦ elim r.value [ none ↦ panics nil_dereference | some enriched ↦ h enriched ]
        ])
        subscriptions_same

  module _ (marshal : EnrichedEvent N → Except String)
      (evaluate : String → String → Option String) where
    metric_same :
        (ev : EnrichedEvent N) (bm : Option BillableMetric)
        → apply_metric N a marshal evaluate ev bm ≡ apply_metric N b marshal evaluate ev bm
    unfolding apply_metric
    metric_same ev none = subscription_same ev
    metric_same ev (some metric) =
        ap
          (λ h. elim (enrich_with_billable_metric N marshal evaluate ev metric) [
            | panics e ↦ panics e
            | returns r ↦ h ev r
          ])
          continue_same

    -- What `enrich_from_metric` does with the answer; `h` goes on with the metric.
    abbrev with_metric :
        (EnrichedEvent N → Option BillableMetric → Outcome (Enriched N))
        → EnrichedEvent N
        → Result (Option BillableMetric)
        → Outcome (Enriched N)
    with_metric h ev found = elim found.err [
      | some e ↦ returns (
        ev.initial_event,
        failed_as [] found e "fetch_billable_metric" "Error fetching billable metric",
      )
      | none ↦ h ev found.value
    ]

    from_metric_same :
        ((o c : String) → a.billable_metric o c ≡ b.billable_metric o c)
        → (ev : EnrichedEvent N)
        → enrich_from_metric N a marshal evaluate ev ≡ enrich_from_metric N b marshal evaluate ev
    unfolding enrich_from_metric
    from_metric_same metrics ev =
        let o = ev.initial_event.organization_id in
        let c = ev.initial_event.code in
        ap (with_metric (apply_metric N a marshal evaluate) ev) (metrics o c)
        ∙ ap (λ h. with_metric h ev (b.billable_metric o c))
            (fun_ext (λ ev'. fun_ext (metric_same ev')))

    -- Two sources that answer every question with the same metric and the same filters, and with the
    -- same subscription or failures to find one that are not captured, enrich an event the same.
    pub enrich_event-same_sources :
        ((o c : String) → a.billable_metric o c ≡ b.billable_metric o c)
        → (event : Event (Timestamp N))
        → enrich_event N a marshal evaluate event ≡ enrich_event N b marshal evaluate event
    unfolding enrich_event
    enrich_event-same_sources metrics event =
        ap
          (λ h. elim (to_enriched_event N event).err [
            | some e ↦ returns (
              event,
              failed_as [] (to_enriched_event N event) e "build_enriched_event"
                  "Error while converting event to enriched event",
            )
            | none ↦ elim (to_enriched_event N event).value [
              | none ↦ panics nil_dereference
              | some ev ↦ h ev
            ]
          ])
          (fun_ext (from_metric_same metrics))
