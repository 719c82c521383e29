-- ===== src/Processor/Batch/Charging.antt =====
-- What is charged in advance for an event.
use lago.Prelude.{
  List, [], ◌∷◌, ◌++◌, Bool, true, false, not, ◌&&◌, ◌||◌, none, some, is_some, ◌≡◌, refl, sym, ap,
  ◌∙◌, inl, inr, Bool-cases, Option-cases, if◌then◌else◌, String, cat,
}
use mathlib.Core.List.{append_assoc, append-nil}
use lago.Utils.Result.{ok, error, Result, Except-cases}
use lago.Utils.Time.{Numbers, Timestamp}
use lago.Models.Event.{Event, is_reprocess, not_api_post_processed}
use lago.Models.EnrichedEvent.{EnrichedEvent}
use lago.Processor.Effects.{
  Effect, Outside, Topic, enriched, expanded, in_advance, produced, dead_letter, flagged, expired,
  produce_event, produce_to_dead_letter_queue, flag_subscription_refresh, flag, flag_member,
  expire_cache,
}
use lago.Processor.Batch.{process_enriched, produce_expanded, pay_in_advance, after_flag}

module _ (N : Numbers) where
  abbrev charge_on : Topic → EnrichedEvent N → List (EnrichedEvent N)
  charge_on in_advance ev = ev ∷ []
  charge_on enriched ev = []
  charge_on expanded ev = []

  abbrev charge_of : Effect N → List (EnrichedEvent N)
  charge_of (produced topic key ev) = charge_on topic ev
  charge_of (dead_letter failed) = []
  charge_of (flagged score member) = []
  charge_of (expired key) = []

  -- The events that the effects send to the topic of events charged in advance.
  abbrev pub charged : List (Effect N) → List (EnrichedEvent N)
  charged [] = []
  charged (effect ∷ effects) = charge_of effect ++ charged effects

  charged-append : (xs ys : List (Effect N)) → charged (xs ++ ys) ≡ charged xs ++ charged ys
  charged-append [] ys = refl
  charged-append (x ∷ xs) ys =
      ap (λ zs. charge_of x ++ zs) (charged-append xs ys)
      ∙ sym (append_assoc (charge_of x) (charged xs) (charged ys))

  -- The filter of one of the events asks for payment in advance.
  abbrev pub asks_in_advance : EnrichedEvent N → Bool
  asks_in_advance ev = elim ev.flat_filter [ none ↦ false | some ff ↦ ff.pay_in_advance ]

  abbrev pub any_asks : List (EnrichedEvent N) → Bool
  any_asks [] = false
  any_asks (ev ∷ events) = asks_in_advance ev || any_asks events

  module _ (out : Outside N) where
    pay_in_advance-any_asks :
        (events : List (EnrichedEvent N)) → pay_in_advance N out events ≡ any_asks events
    unfolding pay_in_advance
    pay_in_advance-any_asks [] = refl
    pay_in_advance-any_asks (ev ∷ events) = elim (Option-cases ev.flat_filter) [
      | inl e ↦ rw (pay_in_advance, any_asks, asks_in_advance, e) (pay_in_advance-any_asks events)
      | inr (ff, e) ↦
          rw (pay_in_advance, any_asks, asks_in_advance, e)
            (ap (λ b. ff.pay_in_advance || b) (pay_in_advance-any_asks events))
    ]

    -- The message of the event can be encoded, and the broker takes it.
    abbrev pub is_pushed : Topic → EnrichedEvent N → Bool
    is_pushed topic ev = elim (out.marshal ev) [ error e ↦ false | ok json ↦ out.pushes topic ev ]

    produce_event-charged :
        (topic : Topic) (ev : EnrichedEvent N)
        → charged (produce_event N out topic ev)
          ≡ (if is_pushed topic ev then charge_on topic ev ++ [] else [])
    unfolding produce_event produce_to_dead_letter_queue
    produce_event-charged topic ev = elim (Except-cases (out.marshal ev)) [
      | inl (e, f) ↦ rw (f, produce_event, is_pushed) refl
      | inr (json, f) ↦ elim (Bool-cases (out.pushes topic ev)) [
        | inl t ↦ rw (f, produce_event, is_pushed) (rw t refl)
        | inr t ↦ rw (f, produce_event, is_pushed) (rw t refl)
      ]
    ]

    uncharged :
        (topic : Topic) (ev : EnrichedEvent N)
        → charge_on topic ev ≡ []
        → charged (produce_event N out topic ev) ≡ []
    uncharged topic ev e =
        produce_event-charged topic ev
        ∙ elim (Bool-cases (is_pushed topic ev)) [ inl t ↦ rw (t, e) refl | inr f ↦ rw f refl ]

    produce_expanded-charged :
        (events : List (EnrichedEvent N)) → charged (produce_expanded N out events) ≡ []
    unfolding produce_expanded
    produce_expanded-charged [] = refl
    produce_expanded-charged (ev ∷ events) = elim (Bool-cases (is_some ev.charge_id)) [
      | inl t ↦ rw t (
          charged-append (produce_event N out expanded ev) (produce_expanded N out events)
          ∙ rw (uncharged expanded ev refl) (produce_expanded-charged events))
      | inr f ↦ rw f (produce_expanded-charged events)
    ]

    expire_cache-charged :
        (events : List (EnrichedEvent N)) → charged (expire_cache N out events) ≡ []
    unfolding expire_cache
    expire_cache-charged [] = refl
    expire_cache-charged (ev ∷ events) = elim (Option-cases ev.flat_filter) [
      | inl e ↦ rw (expire_cache, e) (expire_cache-charged events)
      | inr (ff, e) ↦ rw (expire_cache, e) (expire_cache-charged events)
    ]

    flag-charged : (value : String) → charged (flag N out value).1 ≡ []
    unfolding flag
    flag-charged value =
        elim (Option-cases (out.zadd out.unix_now (flag_member N out out.unix_now value))) [
          | inl e ↦ rw (flag, e) refl
          | inr (x, e) ↦ rw (flag, e) refl
        ]

    flag_subscription_refresh-charged :
        (ev : EnrichedEvent N) → charged (flag_subscription_refresh N out ev).1 ≡ []
    unfolding flag_subscription_refresh
    flag_subscription_refresh-charged ev =
        let value = cat ev.organization_id (cat ":" ev.subscription_id) in
        elim (Option-cases (flag N out value).0) [
          | inl e ↦ rw (flag_subscription_refresh, e) (flag-charged value)
          | inr (x, e) ↦ rw (flag_subscription_refresh, e) (flag-charged value)
        ]

    after_flag-charged :
        (first : EnrichedEvent N) (events : List (EnrichedEvent N)) (r : Result Bool)
        (effects : List (Effect N))
        → charged effects ≡ []
        → charged (after_flag N out first events (r, effects)).1 ≡ []
    unfolding after_flag
    after_flag-charged first events r effects h = elim (Option-cases r.err) [
      | inl e ↦
          rw (after_flag, e)
            (charged-append effects (expire_cache N out events)
              ∙ rw (h, expire_cache-charged events) refl)
      | inr (e, f) ↦ rw (after_flag, f) h
    ]

    -- What is sent for every event that is not processed again.
    abbrev sent : EnrichedEvent N → List (EnrichedEvent N) → List (Effect N)
    sent first events = produce_event N out enriched first ++ produce_expanded N out events

    sent-charged :
        (first : EnrichedEvent N) (events : List (EnrichedEvent N))
        → charged (sent first events) ≡ []
    sent-charged first events =
        charged-append (produce_event N out enriched first) (produce_expanded N out events)
        ∙ rw (uncharged enriched first refl) (produce_expanded-charged events)

    abbrev advance : EnrichedEvent N → Bool → List (Effect N)
    advance first pay = if pay then produce_event N out in_advance first else []

    advance-charged :
        (first : EnrichedEvent N) (pay : Bool)
        → charged (advance first pay)
          ≡ (if pay && is_pushed in_advance first then first ∷ [] else [])
    advance-charged first true = produce_event-charged in_advance first
    advance-charged first false = refl

    all_charged :
        (first : EnrichedEvent N) (events : List (EnrichedEvent N)) (pay : Bool)
        (after : List (Effect N))
        → charged after ≡ []
        → charged (sent first events ++ (advance first pay ++ after))
          ≡ (if pay && is_pushed in_advance first then first ∷ [] else [])
    all_charged first events pay after h =
        charged-append (sent first events) (advance first pay ++ after)
        ∙ rw (sent-charged first events) (
            charged-append (advance first pay) after
            ∙ rw h (append-nil (charged (advance first pay)) ∙ advance-charged first pay))

    -- The first of the events is sent to the topic of events charged in advance, once, exactly if
    -- the event is not processed again, it has a subscription, the api did not process it already,
    -- the filter of one of the events asks for payment in advance, and the message can be sent;
    -- nothing else ever goes there.
    pub process_enriched-charged :
        (event : Event (Timestamp N)) (first : EnrichedEvent N) (events : List (EnrichedEvent N))
        → charged (process_enriched N out event first events).1 ≡ (
            if not (is_reprocess event)
              && (is_some first.subscription && not_api_post_processed event)
              && (any_asks events && is_pushed in_advance first)
            then first ∷ []
            else [])
    unfolding process_enriched
    process_enriched-charged event first events = elim (Bool-cases (is_reprocess event)) [
      | inl t ↦ rw (process_enriched, t) (produce_expanded-charged events)
      | inr f ↦ elim (Bool-cases (is_some first.subscription && not_api_post_processed event)) [
        | inl t ↦
            rw (process_enriched, f, t)
              (rw (← pay_in_advance-any_asks events) (
                all_charged first events (pay_in_advance N out events) _ (
                  after_flag-charged first events (flag_subscription_refresh N out first).0
                    (flag_subscription_refresh N out first).1
                    (flag_subscription_refresh-charged first))))
        | inr g ↦ rw (process_enriched, f, g) (sent-charged first events)
      ]
    ]
