-- ===== src/Processor/Effects/Producers.antt =====
-- events-processor/config/kafka/producer.go and event_producer_service.go: the producers of the
-- service, and what becomes of an event that it sends.
use lago.Prelude.{
  String, cat, [], ◌∷◌, Bool, true, false, Option, none, some, ◌≡◌, ◌⊎◌, inl, inr, refl,
  Option-cases,
}
use lago.Utils.Result.{
  Error, Except, ok, error, failed_bool_result, error_msg, error_code, error_message, error_text,
}
use lago.Utils.Time.{Numbers}
use lago.Models.EnrichedEvent.{EnrichedEvent}
use lago.Processor.Effects.{
  Topic, enriched, expanded, in_advance, FailedEvent, produced, dead_letter, Outside, produce_event,
  produce_to_dead_letter_queue,
}

-- `ProducerMessage`, and the `kgo.Record` that is made of it.
pub record ProducerMessage : Type 0 where
  pub key : String
  pub value : String

pub record TopicRecord : Type 0 where
  pub topic : String
  pub key : String
  pub value : String

-- A producer: its topic, and what the client's `ProduceSync` answers to a record.
pub record MessageProducer : Type 0 where
  pub topic : String
  pub produce_sync : TopicRecord → Option Error

unfoldable pub produce : MessageProducer → ProducerMessage → Bool
produce p msg =
    elim (p.produce_sync (record { topic = p.topic; key = msg.key; value = msg.value })) [
      | none ↦ true
      | some e ↦ false
    ]

unfoldable pub get_topic : MessageProducer → String
get_topic p = p.topic

pub record EventProducerService : Type 0 where
  pub enriched_producer : MessageProducer
  pub enriched_expanded_producer : MessageProducer
  pub in_advance_producer : MessageProducer

unfoldable pub producer_of : EventProducerService → Topic → MessageProducer
producer_of eps enriched = eps.enriched_producer
producer_of eps expanded = eps.enriched_expanded_producer
producer_of eps in_advance = eps.in_advance_producer

module _ (N : Numbers) (eps : EventProducerService) where
  abbrev pub message_key : EnrichedEvent N → String
  message_key ev = cat ev.organization_id (cat "-" ev.transaction_id)

  -- Whether the message of an event is pushed: the broker answers for the record with its JSON.
  unfoldable pub push : (EnrichedEvent N → Except String) → Topic → EnrichedEvent N → Bool
  unfolding produce producer_of
  push marshal topic ev = elim (marshal ev) [
    | error e ↦ false
    | ok json ↦ produce (producer_of eps topic) (record { key = message_key ev; value = json })
  ]

  -- The outside with these producers.
  unfoldable pub with_producers : Outside N → Outside N
  unfolding push get_topic producer_of
  with_producers out = record out {
    pushes = push out.marshal;
    topic_name = λ topic. get_topic (producer_of eps topic);
  }

  abbrev pub record_of : Topic → EnrichedEvent N → String → TopicRecord
  record_of topic ev json = record {
    topic = (producer_of eps topic).topic;
    key = message_key ev;
    value = json;
  }

  push-answer :
      (marshal : EnrichedEvent N → Except String) (topic : Topic) (ev : EnrichedEvent N)
      (json : String)
      → marshal ev ≡ ok json
      → push marshal topic ev
        ≡ elim ((producer_of eps topic).produce_sync (record_of topic ev json)) [
          | none ↦ true
          | some e ↦ false
        ]
  unfolding push produce
  push-answer marshal topic ev json m = rw (m, push) refl

  -- The dead letter of an event that the broker of a topic refused.
  abbrev pub refused_event : Topic → EnrichedEvent N → FailedEvent N
  refused_event topic ev = record {
    event = ev.initial_event;
    initial_error_message = cat "failed to push to " (cat (producer_of eps topic).topic " topic");
    error_code = "";
    error_message = "";
  }

  -- An event that can be encoded is taken by the broker of its topic, under its key, or else its
  -- original event is sent to the dead letters with an error that names the topic.
  pub produce_event-delivers :
      (out : Outside N) (topic : Topic) (ev : EnrichedEvent N) (json : String)
      → out.marshal ev ≡ ok json
      → (((producer_of eps topic).produce_sync (record_of topic ev json) ≡ none)
          × (produce_event N (with_producers out) topic ev
              ≡ produced topic (message_key ev) ev ∷ []))
        ⊎ ((e : Error) × ((producer_of eps topic).produce_sync (record_of topic ev json) ≡ some e)
            × (produce_event N (with_producers out) topic ev
                ≡ dead_letter (refused_event topic ev) ∷ []))
  unfolding produce_event with_producers get_topic produce_to_dead_letter_queue failed_bool_result
      error_msg error_text error_code error_message
  produce_event-delivers out topic ev json m =
      elim (Option-cases ((producer_of eps topic).produce_sync (record_of topic ev json))) [
        | inl t ↦
            inl (t, rw (m, produce_event) (rw (push-answer out.marshal topic ev json m, t) refl))
        | inr (e, f) ↦
            inr (e, f, rw (m, produce_event) (rw (push-answer out.marshal topic ev json m, f) refl))
      ]
