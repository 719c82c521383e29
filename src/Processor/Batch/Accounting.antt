-- ===== src/Processor/Batch/Accounting.antt =====
-- Which records of a batch come back as processed.
use lago.Prelude.{
  is_some, ltb, ◌&&◌, ◌-◌, List, [], ◌∷◌, Bool, false, not, Option, keep, ◌≡◌, refl, sym, ◌∙◌, inl,
  inr, arith,
}
use lago.Utils.Result.{
  Except, ok, error, Except-cases, Outcome-cases, panics≢returns, Result, Outcome, returns, panics,
}
use lago.Utils.NullTime.{Time}
use lago.Utils.Time.{Numbers, Timestamp}
use lago.Models.Event.{Event}
use lago.Models.EnrichedEvent.{EnrichedEvent}
use lago.Kafka.Commit.{Record}
use lago.Processor.EnrichEvent.{Enriched}
use lago.Processor.Effects.{Effect, Outside}
use lago.Processor.Batch.{process_event, is_left, settle, process_record, process_events}

pub returned_first : {A B : Type 0} {x y : A × B} → returns x ≡ returns y → x.0 ≡ y.0
returned_first h = cc

module _ (N : Numbers) (out : Outside N) where
  module _ (enrich : Event (Timestamp N) → Outcome (Enriched N))
      (decode : Record → Except (Event (Timestamp N))) (now : Time) where
    -- The record is decoded, and its event fails with an error that is worth another try before
    -- twelve hours have passed since it was received.
    abbrev pub is_left_over : Record → Bool
    is_left_over rec = elim (decode rec) [
      | error e ↦ false
      | ok event ↦ elim (process_event N out enrich event) [
        | panics e ↦ false
        | returns (event', processing) ↦
            is_some processing.0.err
            && processing.0.retryable
            && ltb (now - event'.ingested_at) 43200000000000
      ]
    ]

    settle-done :
        (event : Event (Timestamp N))
        (processing : Result (Option (EnrichedEvent N)) × List (Effect N))
        → (settle N out enrich decode now event processing).0
          ≡ not (
              is_some processing.0.err
              && processing.0.retryable
              && ltb (now - event.ingested_at) 43200000000000)
    unfolding settle is_left
    settle-done event (r, effects) = ground arith

    process_record-done :
        (rec : Record) (done : Bool) (effects : List (Effect N))
        → process_record N out enrich decode now rec ≡ returns (done, effects)
        → done ≡ not (is_left_over rec)
    unfolding process_record
    process_record-done rec done effects h = elim (Except-cases (decode rec)) [
      | inl (e, d) ↦ rw (d, not) (sym (returned_first (rw (d, process_record) at h)))
      | inr (event, d) ↦ elim (Outcome-cases (process_event N out enrich event)) [
        | inl (e, p) ↦ panics≢returns (rw p at (rw (d, process_record) at h))
        | inr ((event', processing), p) ↦
            rw (d, not)
              (rw (p, not)
                (sym (returned_first (rw p at (rw (d, process_record) at h)))
                  ∙ settle-done event' processing))
      ]
    ]

    -- The records of a batch that are not marked as processed are exactly those whose event fails
    -- with an error worth another try, less than twelve hours after it was received. (Where no event
    -- of the batch panics, and with one record taken after the other.)
    pub process_events-processed :
        (records processed : List Record) (effects : List (Effect N))
        → process_events N out enrich decode now records ≡ returns (processed, effects)
        → processed ≡ keep (λ rec. not (is_left_over rec)) records
    unfolding process_events
    process_events-processed [] processed effects h = sym (returned_first h)
    process_events-processed (rec ∷ rest) processed effects h =
        elim (Outcome-cases (process_record N out enrich decode now rec)) [
          | inl (e, p) ↦ panics≢returns (rw (p, process_events) at h)
          | inr ((done, own), p) ↦
              elim (Outcome-cases (process_events N out enrich decode now rest)) [
                | inl (e, q) ↦ panics≢returns (rw q at (rw (p, process_events) at h))
                | inr ((others, more), q) ↦
                    sym (returned_first (rw q at (rw (p, process_events) at h)))
                    ∙ rw
                        (
                          ← process_record-done rec done own p,
                          process_events-processed rest others more q,
                        )
                        refl
              ]
        ]
