-- ===== src/Processor/Batch/DeadLetters.antt =====
-- No failed event of a batch is lost: its record is left for another try, or it is a dead letter.
use lago.Prelude.{
  ltb, ◌-◌, not, keep, keep-In, In-keep, sym, arith, ◌++◌, false, List, [], ◌∷◌, Bool, true, Option,
  none, some, In, In-append_left, In-append_right, ◌≡◌, refl, subst, ◌⊎◌, inl, inr, Bool-cases,
}
use lago.Utils.Result.{
  ErrorDetails, error_text, error_msg, error_code, error_message, Error, Except, ok, Outcome-cases,
  panics≢returns, Result, Outcome, returns,
}
use lago.Utils.NullTime.{Time}
use lago.Utils.Time.{Numbers, Timestamp}
use lago.Models.Event.{Event}
use lago.Models.EnrichedEvent.{EnrichedEvent}
use lago.Kafka.Commit.{Record}
use lago.Processor.EnrichEvent.{Enriched}
use lago.Processor.Effects.{Effect, FailedEvent, dead_letter, Outside, produce_to_dead_letter_queue}
use lago.Processor.Batch.Accounting.{is_left_over, process_events-processed}
use lago.Processor.Batch.{process_event, is_left, settle, process_record, process_events}

second_of : {A B : Type 0} {x y : A × B} → returns x ≡ returns y → x.1 ≡ y.1
second_of h = cc

module _ (N : Numbers) (out : Outside N) where
  module _ (enrich : Event (Timestamp N) → Outcome (Enriched N))
      (decode : Record → Except (Event (Timestamp N))) (now : Time) where
    settled_letter :
        (event : Event (Timestamp N)) (r : Result (Option (EnrichedEvent N)))
        (effects : List (Effect N)) (e : Error)
        → is_left N out enrich decode now event r ≡ false
        → r.err ≡ some e
        → (settle N out enrich decode now event (r, effects)).1
          ≡ effects ++ produce_to_dead_letter_queue N event r ∷ []
    unfolding settle
    settled_letter event r effects e f h = ground arith

    settle-dead_letter :
        (event : Event (Timestamp N))
        (processing : Result (Option (EnrichedEvent N)) × List (Effect N)) (e : Error)
        → processing.0.err ≡ some e
        → is_left N out enrich decode now event processing.0 ≡ false
        → In
            (produce_to_dead_letter_queue N event processing.0)
            (settle N out enrich decode now event processing).1
    unfolding settle
    settle-dead_letter event (r, effects) e h f =
        subst (In (produce_to_dead_letter_queue N event r))
          (sym (settled_letter event r effects e f h))
          (In-append_right effects (produce_to_dead_letter_queue N event r ∷ [])
            (produce_to_dead_letter_queue N event r) (inl refl))

    settled_effects :
        (rec : Record) (event event' : Event (Timestamp N))
        (processing : Result (Option (EnrichedEvent N)) × List (Effect N)) (done : Bool)
        (own : List (Effect N))
        → decode rec ≡ ok event
        → process_event N out enrich event ≡ returns (event', processing)
        → process_record N out enrich decode now rec ≡ returns (done, own)
        → (settle N out enrich decode now event' processing).1 ≡ own
    unfolding process_record
    settled_effects rec event event' processing done own d p h =
        second_of (rw p at (rw (d, process_record) at h))

    record_effects :
        (rec : Record) (records processed : List Record) (effects : List (Effect N))
        → process_events N out enrich decode now records ≡ returns (processed, effects)
        → In rec records
        → (done : Bool) × (own : List (Effect N)) × (process_record N out enrich decode now rec
            ≡ returns (done, own))
          × ((effect : Effect N) → In effect own → In effect effects)
    unfolding process_events
    record_effects rec [] processed effects h m = elim m [ ]
    record_effects rec (r ∷ rest) processed effects h m =
        elim (Outcome-cases (process_record N out enrich decode now r)) [
          | inl (e, p) ↦ panics≢returns (rw (p, process_events) at h)
          | inr ((done, own), p) ↦
              elim (Outcome-cases (process_events N out enrich decode now rest)) [
                | inl (e, q) ↦ panics≢returns (rw q at (rw (p, process_events) at h))
                | inr ((others, more), q) ↦
                    let all = second_of (rw q at (rw (p, process_events) at h)) in
                    elim m [
                      | inl same ↦ (
                        done,
                        own,
                        subst (λ x. process_record N out enrich decode now x ≡ returns (done, own))
                            same p,
                        λ effect n. subst (In effect) all (In-append_left own more effect n),
                      )
                      | inr n ↦
                          let (d, o, s, keep) = record_effects rec rest others more q n in
                          (
                            d,
                            o,
                            s,
                            λ effect k.
                                subst (In effect) all
                                  (In-append_right own more effect (keep effect k)),
                          )
                    ]
              ]
        ]

    -- The event failed with an error that is worth another try, less than twelve hours ago.
    abbrev pub WaitsForRetry : Event (Timestamp N) → Result (Option (EnrichedEvent N)) → Type 0
    WaitsForRetry event r =
        (r.retryable ≡ true) × (ltb (now - event.ingested_at) 43200000000000 ≡ true)

    -- A dead letter of the event with the text of its error and the details of the failure.
    abbrev pub IsLetterOf :
        Event (Timestamp N) → Error → Option ErrorDetails → FailedEvent N → Type 0
    IsLetterOf event e details letter =
        (letter.event ≡ event)
        × (letter.initial_error_message ≡ error_text e)
        × (letter.error_code ≡ elim details [ none ↦ "" | some d ↦ d.code ])
        × (letter.error_message ≡ elim details [ none ↦ "" | some d ↦ d.message ])

    letter_lem :
        (event : Event (Timestamp N)) (r : Result (Option (EnrichedEvent N))) (e : Error)
        → r.err ≡ some e
        → (letter : FailedEvent N) × (produce_to_dead_letter_queue N event r ≡ dead_letter letter)
          × IsLetterOf event e r.details letter
    unfolding produce_to_dead_letter_queue error_msg error_code error_message
    letter_lem event r e failed = (_, refl, (refl, ground arith, refl, refl))

    -- In a batch that does not panic, a record whose event fails is left unprocessed, when the error
    -- is worth another try and less than twelve hours have passed, or it counts as processed and the
    -- event is among the dead letters, with the text of the error and its details.
    pub process_events-dead_letter :
        (records processed : List Record) (effects : List (Effect N)) (rec : Record)
        (event event' : Event (Timestamp N))
        (processing : Result (Option (EnrichedEvent N)) × List (Effect N)) (e : Error)
        → process_events N out enrich decode now records ≡ returns (processed, effects)
        → In rec records
        → decode rec ≡ ok event
        → process_event N out enrich event ≡ returns (event', processing)
        → processing.0.err ≡ some e
        → (WaitsForRetry event' processing.0 × (In rec processed → ⊥))
          ⊎ (In rec processed
              × ((letter : FailedEvent N) × In (dead_letter letter) effects
                  × IsLetterOf event' e processing.0.details letter))
    unfolding is_left
    process_events-dead_letter records processed effects rec event event' processing e h m d p
          failed =
        let left = is_left_over N out enrich decode now rec in
        let kept = process_events-processed N out enrich decode now records processed effects h in
        let known : left ≡ is_left N out enrich decode now event' processing.0 =
          rw (is_left_over, d) (rw p refl) in
        elim (Bool-cases (is_left N out enrich decode now event' processing.0)) [
          | inl waits ↦ inl (
            ground (arith, failed),
            λ n.
                let marks =
                  (keep-In (λ r. not (is_left_over N out enrich decode now r)) records rec
                    (subst (In rec) kept n)).1 in
                ground (arith, known),
          )
          | inr settled ↦
              let (done, own, ran, sent) = record_effects rec records processed effects h m in
              let same = settled_effects rec event event' processing done own d p ran in
              let (letter, is_letter, shape) = letter_lem event' processing.0 e failed in
              let own_letter = settle-dead_letter event' processing e failed settled in
              inr (
                subst (In rec) (sym kept) (
                    In-keep (λ r. not (is_left_over N out enrich decode now r)) records rec m
                      (ground (arith, known))),
                (
                  letter,
                  subst (λ x. In x effects) is_letter
                      (sent (produce_to_dead_letter_queue N event' processing.0) (
                        subst (In (produce_to_dead_letter_queue N event' processing.0)) same
                          own_letter)),
                  shape,
                ),
              )
        ]
