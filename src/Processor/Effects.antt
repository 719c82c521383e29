-- ===== src/Processor/Effects.antt =====
-- What the processor does to the outside: the services that send messages
-- (processors/events_processor/event_producer_service.go), flag a subscription
-- (subscription_refresh_service.go, models/stores.go) and expire a cached charge
-- (cache_service.go, models/charge_cache.go), all under events-processor. The effects are values, in
-- the order in which the code starts them; the goroutines of one event end in any order.
pub mod Keys
pub mod Flagging
pub mod Producers
use lago.Prelude.{
  ℕ, ◌*◌, ◌/◌, String, List, [], ◌∷◌, ◌++◌, Bool, true, Option, none, some, cat, if◌then◌else◌,
}
use lago.Utils.Result.{
  Error, errorf, Except, ok, error, Result, success_result, failed_bool_result, error_msg,
  error_code, error_message,
}
use lago.Utils.NullTime.{Time}
use lago.Utils.Time.{Numbers, Timestamp}
use lago.Models.Event.{Event}
use lago.Models.FlatFilter.{FlatFilter}
use lago.Models.EnrichedEvent.{EnrichedEvent}

pub data Topic : Type 0 where
  enriched expanded in_advance : Topic

-- `models.FailedEvent` without the time of the failure.
pub record FailedEvent (N : Numbers) : Type 0 where
  pub event : Event (Timestamp N)
  pub initial_error_message : String
  pub error_code : String
  pub error_message : String

pub data Effect (N : Numbers) : Type 0 where
  -- a message to a topic, with its key
  produced : Topic → String → EnrichedEvent N → Effect N
  dead_letter : FailedEvent N → Effect N
  -- `ZADD`: the score and the member
  flagged : ℕ → String → Effect N
  -- `EXPIRE` of a key of the cache
  expired : String → Effect N

-- What the services call: the codec, the brokers, redis, and the clock (in seconds).
pub record Outside (N : Numbers) : Type 0 where
  pub marshal : EnrichedEvent N → Except String
  pub topic_name : Topic → String
  pub pushes : Topic → EnrichedEvent N → Bool
  pub zadd : ℕ → String → Option Error
  pub unix_now : ℕ
  pub print_number : ℕ → String
  pub rfc3339 : Time → String

abbrev pub bucket_duration : ℕ
bucket_duration = 10

-- `strings.Join`
unfoldable pub join_parts : String → List String → String
join_parts sep [] = ""
join_parts sep (x ∷ []) = x
join_parts sep (x ∷ y ∷ rest) = cat x (cat sep (join_parts sep (y ∷ rest)))

-- The parts of the key of a cached charge; those of the filter come last, when it has both.
unfoldable pub filter_parts : (Time → String) → FlatFilter → List String
filter_parts rfc3339 ff = elim ff.charge_filter_id [
  | none ↦ []
  | some id ↦ elim ff.charge_filter_updated_at [ none ↦ [] | some t ↦ id ∷ rfc3339 t ∷ [] ]
]

unfoldable pub expire_key : (Time → String) → FlatFilter → String → String
unfolding join_parts filter_parts
expire_key rfc3339 ff sub_id = join_parts "/" (
    ("charge-usage" ∷ "1" ∷ ff.charge_id ∷ sub_id ∷ rfc3339 ff.charge_updated_at ∷ [])
    ++ filter_parts rfc3339 ff)

module _ (N : Numbers) where
  -- The message is an effect whether or not the broker takes it: a failure is only reported.
  unfoldable pub produce_to_dead_letter_queue :
      {A : Type 0} → Event (Timestamp N) → Result A → Effect N
  unfolding error_msg error_code error_message
  produce_to_dead_letter_queue event r = dead_letter (record {
    event = event;
    initial_error_message = error_msg r;
    error_code = error_code r;
    error_message = error_message r;
  })

  module _ (out : Outside N) where
    -- An event that cannot be encoded is only logged; one that is not pushed is a dead letter.
    unfoldable pub produce_event : Topic → EnrichedEvent N → List (Effect N)
    unfolding produce_to_dead_letter_queue failed_bool_result
    produce_event topic ev = elim (out.marshal ev) [
      | error e ↦ []
      | ok json ↦
          if out.pushes topic ev
          then produced topic (cat ev.organization_id (cat "-" ev.transaction_id)) ev ∷ []
          else produce_to_dead_letter_queue ev.initial_event (
              failed_bool_result
                (errorf (cat "failed to push to " (cat (out.topic_name topic) " topic"))))
            ∷ []
    ]

    -- `now / 10 * 10`: the events of one window share a member of the sorted set.
    unfoldable pub flag_member : ℕ → String → String
    flag_member now value =
        cat value (cat "|" (out.print_number (now / bucket_duration * bucket_duration)))

    unfoldable pub flag : String → Option Error × List (Effect N)
    unfolding flag_member
    flag value =
        let member = flag_member out.unix_now value in
        elim (out.zadd out.unix_now member) [
          | none ↦ (none, flagged out.unix_now member ∷ [])
          | some e ↦ (some e, [])
        ]

    unfoldable pub flag_subscription_refresh : EnrichedEvent N → Result Bool × List (Effect N)
    unfolding flag success_result failed_bool_result
    flag_subscription_refresh ev =
        let flagging = flag (cat ev.organization_id (cat ":" ev.subscription_id)) in
        elim flagging.0 [
          | some e ↦ (failed_bool_result e, flagging.1)
          | none ↦ (success_result true, flagging.1)
        ]

    -- A key that cannot be expired is only reported.
    unfoldable pub expire_cache : List (EnrichedEvent N) → List (Effect N)
    unfolding expire_key
    expire_cache [] = []
    expire_cache (ev ∷ rest) = elim ev.flat_filter [
      | none ↦ expire_cache rest
      | some ff ↦ expired (expire_key out.rfc3339 ff ev.subscription_id) ∷ expire_cache rest
    ]
