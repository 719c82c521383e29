-- ===== src/Processor/Batch/Reprocessing.antt =====
-- What is sent for an event that is processed again.
use lago.Prelude.{
  List, [], ◌∷◌, ◌++◌, true, In, In-single, ◌≡◌, refl, sym, ◌⊎◌, inl, inr, Bool-cases, is_some, cat,
}
use lago.Utils.Result.{Except-cases}
use lago.Utils.Time.{Numbers, Timestamp}
use lago.Models.Event.{Event, is_reprocess}
use lago.Models.EnrichedEvent.{EnrichedEvent}
use lago.Processor.Effects.{
  Effect, Outside, FailedEvent, Topic, expanded, produced, dead_letter, produce_event,
  produce_to_dead_letter_queue,
}
use lago.Processor.Batch.{process_enriched, produce_expanded}

In-append : {A : Type 0} (xs ys : List A) (c : A) → In c (xs ++ ys) → In c xs ⊎ In c ys
In-append [] ys c m = inr m
In-append (x ∷ xs) ys c (inl e) = inl (inl e)
In-append (x ∷ xs) ys c (inr m) = elim (In-append xs ys c m) [ inl n ↦ inl (inr n) | inr n ↦ inr n ]

module _ (N : Numbers) where
  -- The message of an event, or the dead letter that takes its place.
  abbrev pub IsAttempt : Topic → EnrichedEvent N → Effect N → Type 0
  IsAttempt topic ev effect =
      (effect ≡ produced topic (cat ev.organization_id (cat "-" ev.transaction_id)) ev)
      ⊎ ((failed : FailedEvent N) × (effect ≡ dead_letter failed)
          × (failed.event ≡ ev.initial_event))

  -- An attempt to send one of the events that have a charge to the topic of expanded events.
  abbrev pub IsExpansion : List (EnrichedEvent N) → Effect N → Type 0
  IsExpansion events effect =
      (ev : EnrichedEvent N) × In ev events
      × (is_some ev.charge_id ≡ true)
      × IsAttempt expanded ev effect

  module _ (out : Outside N) where
    produce_event-IsAttempt :
        (topic : Topic) (ev : EnrichedEvent N) (effect : Effect N)
        → In effect (produce_event N out topic ev)
        → IsAttempt topic ev effect
    unfolding produce_event produce_to_dead_letter_queue
    produce_event-IsAttempt topic ev effect m = elim (Except-cases (out.marshal ev)) [
      | inl (e, f) ↦ elim (rw (f, produce_event) at m) [ ]
      | inr (json, f) ↦ elim (Bool-cases (out.pushes topic ev)) [
        | inl t ↦ inl (sym (In-single _ effect (rw t at (rw (f, produce_event) at m))))
        | inr t ↦ inr (_, sym (In-single _ effect (rw t at (rw (f, produce_event) at m))), refl)
      ]
    ]

    later :
        (ev : EnrichedEvent N) (events : List (EnrichedEvent N)) (effect : Effect N)
        → IsExpansion events effect
        → IsExpansion (ev ∷ events) effect
    later ev events effect (x, m, c, a) = (x, inr m, c, a)

    produce_expanded-IsExpansion :
        (events : List (EnrichedEvent N)) (effect : Effect N)
        → In effect (produce_expanded N out events)
        → IsExpansion events effect
    unfolding produce_expanded
    produce_expanded-IsExpansion [] effect m = elim m [ ]
    produce_expanded-IsExpansion (ev ∷ events) effect m = elim (Bool-cases (is_some ev.charge_id)) [
      | inr n ↦
          later ev events effect
            (produce_expanded-IsExpansion events effect (rw (n, produce_expanded) at m))
      | inl t ↦
          elim (In-append (produce_event N out expanded ev) (produce_expanded N out events) effect
            (rw (t, produce_expanded) at m)) [
              | inl own ↦ (ev, inl refl, t, produce_event-IsAttempt expanded ev effect own)
              | inr rest ↦ later ev events effect (produce_expanded-IsExpansion events effect rest)
            ]
    ]

    -- Nothing is done for an event that is processed again but to send its events that have a charge
    -- to the topic of expanded events, or to the dead letters where that fails: no subscription is
    -- flagged, no cached charge expires, and nothing is charged in advance a second time.
    pub process_enriched-IsExpansion :
        (event : Event (Timestamp N)) (first : EnrichedEvent N) (events : List (EnrichedEvent N))
        (effect : Effect N)
        → is_reprocess event ≡ true
        → In effect (process_enriched N out event first events).1
        → IsExpansion events effect
    unfolding process_enriched
    process_enriched-IsExpansion event first events effect r m =
        produce_expanded-IsExpansion events effect (rw (r, process_enriched) at m)
