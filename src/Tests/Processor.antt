-- ===== src/Tests/Processor.antt =====
-- A batch with one event that is worth another try, and an event with two charges.
use lago.Prelude.{
  Option, ◌⊎◌, In, true, false, some, inl, String, is_some, ◌&&◌, not, contains, List, [], ◌∷◌,
  none, ◌≡◌, refl, if◌then◌else◌,
}
use lago.Utils.Result.{
  Error, Result, errorf, Except, ok, Outcome, returns, success_result, failed_result,
}
use lago.Utils.Time.{Timestamp, ts_int}
use lago.Models.Event.{is_reprocess, not_api_post_processed, Event}
use lago.Models.EnrichedEvent.{EnrichedEvent, new_enriched_event}
use lago.Models.FlatFilter.{FlatFilter}
use lago.Kafka.Commit.{Record}
use lago.Processor.Enrichment.{enrich_with_filters}
use lago.Processor.Enrichment.PerCharge.{events_of, charge_ids, enrich_with_filters-one_per_charge}
use lago.Processor.EnrichEvent.{Enriched}
use lago.Processor.Effects.{
  Effect, FailedEvent, dead_letter, produce_to_dead_letter_queue, produced, expanded, in_advance,
  Outside,
}
use lago.Processor.Batch.{process_event, process_events, process_enriched}
use lago.Processor.Batch.DeadLetters.{WaitsForRetry, IsLetterOf, process_events-dead_letter}
use lago.Processor.Enrichment.{failed_as}
use lago.Processor.Batch.Reprocessing.{IsExpansion, process_enriched-IsExpansion}
use lago.Processor.Batch.Charging.{charged, any_asks, is_pushed, process_enriched-charged}
use lago.Tests.Fixtures.{filter, naturals, subscription}

abbrev pub event : Event (Timestamp naturals)
event = record {
  organization_id = "org";
  external_subscription_id = "ext";
  transaction_id = "tx";
  code = "calls";
  properties = none;
  precise_total_amount_cents = "";
  source = "";
  timestamp = ts_int 7;
  source_metadata = none;
  ingested_at = 5;
}

abbrev pub outside : Outside naturals
outside = record {
  marshal = λ ev. ok "{}";
  topic_name = λ topic. "topic";
  pushes = λ topic ev. true;
  zadd = λ now member. none;
  unix_now = 12;
  print_number = λ n. "10";
  rfc3339 = λ t. "1970-01-01T00:00:00Z";
}

abbrev refused : Error
refused = errorf "connection refused"

unfoldable pub failing : Event (Timestamp naturals) → Outcome (Enriched naturals)
failing ev = returns (ev, failed_result [] refused)

abbrev decode_event : Record → Except (Event (Timestamp naturals))
decode_event rec = ok event

abbrev a_record : Record
a_record = record { key = []; offset = 3; value = [] }

left_for_later :
    process_events naturals outside failing decode_event 6 (a_record ∷ []) ≡ returns ([], [])
unfolding process_events failing
left_for_later = refl

abbrev enriched_event : EnrichedEvent naturals
enriched_event = new_enriched_event naturals event 7 7

abbrev other_filter : FlatFilter
other_filter = record filter { charge_id = "ch2" }

enrich_with_filters-one_per_charge_example :
    (events : List (EnrichedEvent naturals)) × (enrich_with_filters naturals enriched_event
        (filter ∷ other_filter ∷ filter ∷ [])
      ≡ returns (success_result events))
    × ((c : String)
        → events_of c events
          ≡ (if contains (charge_ids (filter ∷ other_filter ∷ filter ∷ [])) c then 1 else 0))
enrich_with_filters-one_per_charge_example =
    enrich_with_filters-one_per_charge naturals enriched_event filter (other_filter ∷ filter ∷ [])

abbrev reprocessed : Event (Timestamp naturals)
reprocessed = record event {
  source_metadata = some (record { api_post_process = false; reprocess = true });
}

abbrev charged_event : EnrichedEvent naturals
charged_event = record enriched_event { charge_id = some "ch1" }

is_reprocessed : is_reprocess reprocessed ≡ true
unfolding is_reprocess
is_reprocessed = refl

is_sent :
    In
      (produced expanded "org-tx" charged_event)
      (process_enriched naturals outside reprocessed charged_event (charged_event ∷ [])).1
unfolding process_enriched new_enriched_event
is_sent = inl refl

process_enriched-IsExpansion_example :
    IsExpansion naturals (charged_event ∷ []) (produced expanded "org-tx" charged_event)
process_enriched-IsExpansion_example =
    process_enriched-IsExpansion naturals outside reprocessed charged_event (charged_event ∷ [])
      (produced expanded "org-tx" charged_event) is_reprocessed is_sent

abbrev pub failed_processing : Result (Option (EnrichedEvent naturals)) × List (Effect naturals)
failed_processing = (
  failed_as none (failed_result {A = List (EnrichedEvent naturals)} [] refused) refused "" "",
  [],
)

abbrev pub letters : List (Effect naturals)
letters = produce_to_dead_letter_queue naturals event failed_processing.0 ∷ []

put_aside :
    process_events naturals outside failing decode_event 50000000000000 (a_record ∷ [])
    ≡ returns (a_record ∷ [], letters)
unfolding process_events failing failed_as
put_aside = refl

processed_event : process_event naturals outside failing event ≡ returns (event, failed_processing)
unfolding process_event failing failed_as
processed_event = refl

has_failed : failed_processing.0.err ≡ some refused
unfolding failed_as failed_result
has_failed = refl

process_events-dead_letter_example :
    (WaitsForRetry naturals outside failing decode_event 50000000000000 event failed_processing.0
      × (In a_record (a_record ∷ []) → ⊥))
    ⊎ (In a_record (a_record ∷ [])
        × ((letter : FailedEvent naturals) × In (dead_letter letter) letters
            × IsLetterOf naturals outside failing decode_event 50000000000000 event refused
                failed_processing.0.details letter))
process_events-dead_letter_example =
    process_events-dead_letter naturals outside failing decode_event 50000000000000 (a_record ∷ [])
      (a_record ∷ []) letters a_record event event failed_processing refused put_aside (inl refl)
      refl processed_event has_failed

abbrev advance_event : EnrichedEvent naturals
advance_event = record charged_event {
  flat_filter = some (record filter { pay_in_advance = true });
  subscription = some subscription;
}

process_enriched-charged_example :
    charged naturals (process_enriched naturals outside event advance_event (advance_event ∷ [])).1
    ≡ (if not (is_reprocess event)
          && (is_some advance_event.subscription && not_api_post_processed event)
          && (any_asks naturals (advance_event ∷ [])
              && is_pushed naturals outside in_advance advance_event)
        then advance_event ∷ []
        else [])
process_enriched-charged_example =
    process_enriched-charged naturals outside event advance_event (advance_event ∷ [])
