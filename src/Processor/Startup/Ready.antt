-- ===== src/Processor/Startup/Ready.antt =====
-- What holds once the processor has started.
use lago.Prelude.{
  String, str_eq, Bool, true, false, [], ◌∷◌, Option, none, some, ◌≡◌, inl, inr, refl, sym, ap,
  subst, ◌∙◌, Bool-cases, Option-cases, List-cases, is_some, not, join,
}
use lago.Utils.Result.{
  returns-injective, Error, Except, ok, error, Outcome, returns, panics, ok-injective,
  panics≢returns,
}
use lago.Utils.Env.{Env, get_env_as_int, parse_brokers_env}
use lago.Utils.Strings.{runes}
use lago.Config.Tracing.{Sdk, TracerProvider}
use lago.Config.Stores.{Db, new_connection}
use lago.Config.KafkaClient.{ServerConfig}
use lago.Processor.Startup.{
  consumer_group, consume_topics, on_partitions_assigned, on_partitions_lost, on_partitions_revoked,
  disable_auto_commit, block_rebalance_on_poll, Services, connect_store, db_config, or_panic,
  or_fail, with_value, Producer, Group, Started, init_producer, init_api_store, init_flag_store,
  init_charge_cache_store, new_kafka_client, pinged, new_consumer_group, start_services,
  start_processing_events, server_config,
}

-- A start that went on past a step had the value of that step.
or_panic-returns :
    {A B : Type 0} {o : Outcome (Except A)} {f : A → Outcome B} {b : B}
    → or_panic o f ≡ returns b
    → (a : A) × (o ≡ returns (ok a)) × (f a ≡ returns b)
unfolding or_panic
or_panic-returns {o = panics e} h = panics≢returns h
or_panic-returns {o = returns (error e)} h = panics≢returns h
or_panic-returns {o = returns (ok a)} h = (a, refl, h)

or_fail-ok :
    {A B : Type 0} (o : Outcome (Except A)) (f : A → Except B) (b : B)
    → or_fail o f ≡ returns (ok b)
    → (a : A) × (f a ≡ ok b)
unfolding or_fail
or_fail-ok (panics e) f b h = panics≢returns h
or_fail-ok (returns (error e)) f b h = cc
or_fail-ok (returns (ok a)) f b h = (a, cc)

with_value-ok :
    {A B : Type 0} (r : A × Option Error) (f : A → Except B) (b : B)
    → with_value r f ≡ ok b
    → (a : A) × (f a ≡ ok b)
unfolding with_value
with_value-ok (a, some e) f b h = cc
with_value-ok (a, none) f b h = (a, h)

module _ (sdk : Sdk) (services : Services sdk) where
  -- The producer has a client that answers, and the topic that the variable names.
  abbrev pub Reaches : Env → String → Producer sdk services → Type 0
  Reaches env key p =
      (p.topic ≡ env key) × (str_eq (env key) "" ≡ false) × (services.ping p.client ≡ none)

  pinged-ok :
      {A : Type 0} (client : services.KafkaClient) (value a : A)
      → pinged sdk services client value ≡ ok a
      → (services.ping client ≡ none) × (value ≡ a)
  unfolding pinged
  pinged-ok client value a h = elim (Option-cases (services.ping client)) [
    | inl e ↦ (e, ok-injective (rw (pinged, e) at h))
    | inr (x, e) ↦ let k = rw (pinged, e) at h in cc
  ]

  init_producer-Reaches :
      (env : Env) (config : ServerConfig sdk) (key : String) (p : Producer sdk services)
      → init_producer sdk services env config key ≡ returns (ok p)
      → Reaches env key p
  unfolding init_producer or_fail pinged
  init_producer-Reaches env config key p h = elim (Bool-cases (str_eq (env key) "")) [
    | inl t ↦ let k = rw (init_producer, t) at h in cc
    | inr f ↦
        let made =
          or_fail-ok (new_kafka_client sdk services config [])
            (λ client. pinged sdk services client (record { client = client; topic = env key })) p
            (rw (init_producer, f) at h) in
        let answer = pinged-ok made.0 (record { client = made.0; topic = env key }) p made.1 in
        (
          sym (ap (λ (q : Producer sdk services). q.topic) answer.1),
          f,
          ap (λ (q : Producer sdk services). services.ping q.client) (sym answer.1) ∙ answer.0,
        )
  ]

  new_consumer_group-Answers :
      (config : ServerConfig sdk) (name topic : String) (g : Group sdk services)
      → new_consumer_group sdk services config name topic ≡ returns (ok g)
      → (services.ping g.client ≡ none) × (g.topic ≡ topic)
  unfolding new_consumer_group
  new_consumer_group-Answers config name topic g h =
      let named = join "_" (name ∷ topic ∷ []) in
      let made =
        or_fail-ok
          (new_kafka_client sdk services config (
            consumer_group named
            ∷ consume_topics topic
            ∷ on_partitions_assigned
            ∷ on_partitions_lost
            ∷ on_partitions_revoked
            ∷ disable_auto_commit
            ∷ block_rebalance_on_poll
            ∷ []))
          (λ client.
            pinged sdk services client (record { client = client; name = named; topic = topic }))
          g h in
      let answer =
        pinged-ok made.0 (record { client = made.0; name = named; topic = topic }) g made.1 in
      (
        ap (λ (q : Group sdk services). services.ping q.client) (sym answer.1) ∙ answer.0,
        sym (ap (λ (q : Group sdk services). q.topic) answer.1),
      )

  connected :
      (r : Except (Db services.database)) (store : Option (Db services.database))
      → connect_store r ≡ ok store
      → is_some store ≡ true
  unfolding connect_store
  connected (error e) store h = let k : error e ≡ ok store = h in cc
  connected (ok db) store h = rw (← ok-injective h) refl

  init_api_store-Connects :
      (env : Env) (has_cache : Bool) (store : Option (Db services.database))
      → init_api_store sdk services env has_cache ≡ ok store
      → is_some store ≡ not has_cache
  unfolding init_api_store
  init_api_store-Connects env true store h = rw (← ok-injective h) refl
  init_api_store-Connects env false store h =
      let found =
        with_value-ok
          (get_env_as_int services.atoi env "LAGO_EVENTS_PROCESSOR_DATABASE_MAX_CONNECTIONS" 200)
          (λ n. connect_store (new_connection services.database (db_config env n))) store h in
      connected (new_connection services.database (db_config env found.0)) store found.1

  -- What a processor that has started has.
  abbrev pub Ready : Env → Bool → Started sdk services → Type 0
  Ready env has_cache s =
      Reaches env "LAGO_KAFKA_ENRICHED_EVENTS_TOPIC" s.enriched
      × Reaches env "LAGO_KAFKA_ENRICHED_EVENTS_EXPANDED_TOPIC" s.enriched_expanded
      × Reaches env "LAGO_KAFKA_EVENTS_CHARGED_IN_ADVANCE_TOPIC" s.in_advance
      × Reaches env "LAGO_KAFKA_EVENTS_DEAD_LETTER_TOPIC" s.dead_letter
      × ((services.ping s.group.client ≡ none)
          × (s.group.topic ≡ env "LAGO_KAFKA_RAW_EVENTS_TOPIC"))
      × (is_some s.api_store ≡ not has_cache)

  start_services-Ready :
      (env : Env) (has_cache : Bool) (config : ServerConfig sdk) (s : Started sdk services)
      → start_services sdk services env has_cache config ≡ returns s
      → Ready env has_cache s
  unfolding start_services
  start_services-Ready env has_cache config s h =
      let enriched =
        or_panic-returns
          {o = init_producer sdk services env config "LAGO_KAFKA_ENRICHED_EVENTS_TOPIC"} h in
      let expanded =
        or_panic-returns
          {o = init_producer sdk services env config "LAGO_KAFKA_ENRICHED_EVENTS_EXPANDED_TOPIC"}
          enriched.2 in
      let in_advance =
        or_panic-returns
          {o = init_producer sdk services env config "LAGO_KAFKA_EVENTS_CHARGED_IN_ADVANCE_TOPIC"}
          expanded.2 in
      let dead_letter =
        or_panic-returns
          {o = init_producer sdk services env config "LAGO_KAFKA_EVENTS_DEAD_LETTER_TOPIC"}
          in_advance.2 in
      let api_store =
        or_panic-returns {o = returns (init_api_store sdk services env has_cache)} dead_letter.2 in
      let flag_store =
        or_panic-returns {o = returns (init_flag_store sdk services env)} api_store.2 in
      let charge_cache =
        or_panic-returns {o = returns (init_charge_cache_store sdk services env)} flag_store.2 in
      let group =
        or_panic-returns
          {o = new_consumer_group sdk services config (env "LAGO_KAFKA_CONSUMER_GROUP")
            (env "LAGO_KAFKA_RAW_EVENTS_TOPIC")}
          charge_cache.2 in
      subst (Ready env has_cache) (returns-injective group.2) (
        init_producer-Reaches env config "LAGO_KAFKA_ENRICHED_EVENTS_TOPIC" enriched.0 enriched.1,
        init_producer-Reaches env config "LAGO_KAFKA_ENRICHED_EVENTS_EXPANDED_TOPIC" expanded.0
            expanded.1,
        init_producer-Reaches env config "LAGO_KAFKA_EVENTS_CHARGED_IN_ADVANCE_TOPIC" in_advance.0
            in_advance.1,
        init_producer-Reaches env config "LAGO_KAFKA_EVENTS_DEAD_LETTER_TOPIC" dead_letter.0
            dead_letter.1,
        new_consumer_group-Answers config (env "LAGO_KAFKA_CONSUMER_GROUP")
            (env "LAGO_KAFKA_RAW_EVENTS_TOPIC") group.0 group.1,
        init_api_store-Connects env has_cache api_store.0 (returns-injective api_store.1),
      )

  -- A processor that starts has a list of brokers, its four producers and its group answer, each of
  -- the producers has the topic of its variable, which is set, the group has the topic of the events,
  -- which may be empty, and there is a database exactly if there is no cache.
  pub start_processing_events-Ready :
      (env : Env) (tracer_provider : TracerProvider sdk) (has_cache : Bool)
      (s : Started sdk services)
      → start_processing_events sdk services env tracer_provider has_cache ≡ returns s
      → (parse_brokers_env (runes (env "LAGO_KAFKA_BOOTSTRAP_SERVERS")) ≡ [] → ⊥)
        × Ready env has_cache s
  unfolding start_processing_events
  start_processing_events-Ready env tracer_provider has_cache s h =
      elim (List-cases (parse_brokers_env (runes (env "LAGO_KAFKA_BOOTSTRAP_SERVERS")))) [
        | inl e ↦ panics≢returns (rw (start_processing_events, e) at h)
        | inr (b, rest, e) ↦ (
          λ n. let k = sym e ∙ n in cc,
          start_services-Ready env has_cache
              (server_config sdk services env tracer_provider (b ∷ rest)) s
              (rw (start_processing_events, e) at h),
        )
      ]
