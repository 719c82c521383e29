-- ===== src/Processor/Batch.antt =====
-- events-processor/processors/events_processor/processor.go: what is done for one event, and which
-- records of a batch come back as processed. The goroutines of a batch run here in the order of the
-- records, so the order of what `process_events` returns is that of this module and not of the code:
-- Schedule.antt has every order. The panic of one goroutine ends the process.
pub mod Accounting
pub mod Reprocessing
pub mod DeadLetters
pub mod Charging
pub mod Schedule
use lago.Prelude.{
  ℕ, ◌-◌, ◌*◌, String, List, [], ◌∷◌, ◌++◌, Bool, true, false, ◌&&◌, ◌||◌, Option, none, some, ltb,
  is_some, if◌then◌else◌,
}
use lago.Utils.Result.{
  Error, errorf, Except, ok, error, Result, Outcome, returns, panics, success_result, error_code,
  error_message,
}
use lago.Utils.NullTime.{Time}
use lago.Utils.Time.{Numbers, Timestamp}
use lago.Models.Event.{Event, is_reprocess, not_api_post_processed}
use lago.Models.EnrichedEvent.{EnrichedEvent}
use lago.Kafka.Commit.{Record}
use lago.Processor.Enrichment.{failed_as}
use lago.Processor.EnrichEvent.{Enriched}
use lago.Processor.Effects.{
  Effect, Outside, enriched, expanded, in_advance, produce_event, produce_to_dead_letter_queue,
  flag_subscription_refresh, expire_cache,
}

module _ (N : Numbers) (out : Outside N) where
  -- One message for each event that has a charge.
  unfoldable pub produce_expanded : List (EnrichedEvent N) → List (Effect N)
  unfolding produce_event
  produce_expanded [] = []
  produce_expanded (ev ∷ rest) =
      if is_some ev.charge_id
      then produce_event N out expanded ev ++ produce_expanded rest
      else produce_expanded rest

  unfoldable pub pay_in_advance : List (EnrichedEvent N) → Bool
  pay_in_advance [] = false
  pay_in_advance (ev ∷ rest) = elim ev.flat_filter [
    | none ↦ pay_in_advance rest
    | some ff ↦ ff.pay_in_advance || pay_in_advance rest
  ]

  -- Behind the flag: the failure, or the cache entries that expire.
  unfoldable pub after_flag :
      EnrichedEvent N
      → List (EnrichedEvent N)
      → Result Bool × List (Effect N)
      → Result (Option (EnrichedEvent N)) × List (Effect N)
  unfolding failed_as success_result expire_cache
  after_flag first events (r, effects) = elim r.err [
    | some e ↦ (
      failed_as none r e "flag_subscription_refresh" "Error flagging subscription refresh",
      effects,
    )
    | none ↦ (success_result (some first), effects ++ expire_cache N out events)
  ]

  -- `enrichedEvent` is the first of the events.
  unfoldable pub process_enriched :
      Event (Timestamp N)
      → EnrichedEvent N
      → List (EnrichedEvent N)
      → Result (Option (EnrichedEvent N)) × List (Effect N)
  unfolding produce_expanded produce_event pay_in_advance flag_subscription_refresh after_flag
      success_result is_reprocess not_api_post_processed
  process_enriched event first events =
      if is_reprocess event
      then (success_result (some first), produce_expanded events)
      else let sent = produce_event N out enriched first ++ produce_expanded events in
        let advance = if pay_in_advance events then produce_event N out in_advance first else [] in
        let flagging = after_flag first events (flag_subscription_refresh N out first) in
        if is_some first.subscription && not_api_post_processed event
        then (flagging.0, sent ++ (advance ++ flagging.1))
        else (success_result (some first), sent)

  -- Indexing an empty slice panics.
  unfoldable pub process_enrichment :
      Enriched N
      → Outcome (Event (Timestamp N) × (Result (Option (EnrichedEvent N)) × List (Effect N)))
  unfolding process_enriched failed_as error_code error_message
  process_enrichment (event, r) = elim r.err [
    | some e ↦ returns (event, (failed_as none r e (error_code r) (error_message r), []))
    | none ↦ elim r.value [
      | [] ↦ panics (errorf "index out of range [0] with length 0")
      | first ∷ rest ↦ returns (event, process_enriched event first (first ∷ rest))
    ]
  ]

  module _ (enrich : Event (Timestamp N) → Outcome (Enriched N)) where
    unfoldable pub process_event :
        Event (Timestamp N)
        → Outcome (Event (Timestamp N) × (Result (Option (EnrichedEvent N)) × List (Effect N)))
    unfolding process_enrichment
    process_event event = elim (enrich event) [
      | panics e ↦ panics e
      | returns enrichment ↦ process_enrichment enrichment
    ]

    module _ (decode : Record → Except (Event (Timestamp N))) (now : Time) where
      -- 12 hours, in nanoseconds.
      abbrev pub retry_window : ℕ
      retry_window = 43200000000000

      -- Whether the record is left for another try.
      unfoldable pub is_left : Event (Timestamp N) → Result (Option (EnrichedEvent N)) → Bool
      is_left event r = is_some r.err && r.retryable && ltb (now - event.ingested_at) retry_window

      -- Whether the record counts as processed, and what is sent.
      unfoldable pub settle :
          Event (Timestamp N)
          → Result (Option (EnrichedEvent N)) × List (Effect N)
          → Bool × List (Effect N)
      unfolding is_left produce_to_dead_letter_queue
      settle event (r, effects) = if is_left event r then (false, effects) else elim r.err [
        | none ↦ (true, effects)
        | some e ↦ (true, effects ++ produce_to_dead_letter_queue N event r ∷ [])
      ]

      -- A record that cannot be decoded is processed, and nothing is sent for it.
      unfoldable pub process_record : Record → Outcome (Bool × List (Effect N))
      unfolding process_event settle
      process_record rec = elim (decode rec) [
        | error e ↦ returns (true, [])
        | ok event ↦ elim (process_event event) [
          | panics e ↦ panics e
          | returns (event', processing) ↦ returns (settle event' processing)
        ]
      ]

      unfoldable pub process_events : List Record → Outcome (List Record × List (Effect N))
      unfolding process_record
      process_events [] = returns ([], [])
      process_events (rec ∷ rest) =
          let others = process_events rest in
          elim (process_record rec) [
            | panics e ↦ panics e
            | returns (done, effects) ↦ elim others [
              | panics e ↦ panics e
              | returns (processed, more) ↦
                  returns (if done then rec ∷ processed else processed, effects ++ more)
            ]
          ]
