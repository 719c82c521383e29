-- ===== src/Processor/Startup.antt =====
-- events-processor/processors/main_processor.go: what is read and set up before events are processed,
-- with what it calls of config/kafka, config/redis and config/database. A Go `int` is its 64 bits.
pub mod Ready
use lago.Prelude.{
  ℕ, ◌%◌, ◌^◌, String, str_eq, cat, join, Bool, true, false, List, [], ◌∷◌, Option, none, some,
  if◌then◌else◌,
}
use lago.Utils.Result.{Error, errorf, Except, ok, error, Outcome, returns, panics}
use lago.Utils.Strings.{Runes, runes}
use lago.Utils.Env.{Env, get_env_as_int, get_env_as_bool, parse_brokers_env}
use lago.Config.Tracing.{Sdk, TracerProvider}
use lago.Config.Stores.{
  RedisConfig, RedisOptions, RedisLibrary, new_redis_db, DbConfig, DbLibrary, Db, new_connection,
}
use lago.Config.KafkaClient.{ServerConfig, Opt, client_options}

-- The options of the consumer group; its callbacks are those of Kafka/Group.
pub data GroupOpt : Type 0 where
  consumer_group consume_topics : String → GroupOpt
  on_partitions_assigned on_partitions_lost on_partitions_revoked : GroupOpt
  disable_auto_commit block_rebalance_on_poll : GroupOpt

-- The calls of other programs and their libraries: the client of Kafka is made with its options and
-- answers a ping or not.
pub record Services (sdk : Sdk) : Type 1 where
  pub HookType : Type 0
  pub otel_hooks : List HookType
  pub KafkaClient : Type 0
  pub new_client : List (Opt HookType GroupOpt) → Except KafkaClient
  pub ping : KafkaClient → Option Error
  pub redis : RedisLibrary
  pub database : DbLibrary
  pub atoi : String → Except ℕ

-- `utils.LogAndPanic` where there is an error, and on with the value.
unfoldable pub or_panic : {A B : Type 0} → Outcome (Except A) → (A → Outcome B) → Outcome B
or_panic (panics e) f = panics e
or_panic (returns (error e)) f = panics e
or_panic (returns (ok a)) f = f a

-- `if err != nil { return nil, err }`, and on with the value.
unfoldable pub or_fail : {A B : Type 0} → Outcome (Except A) → (A → Except B) → Outcome (Except B)
or_fail (panics e) f = panics e
or_fail (returns (error e)) f = returns (error e)
or_fail (returns (ok a)) f = returns (f a)

-- `if value, err := …; err != nil { return nil, err }`, for a value that comes with an error.
unfoldable pub with_value : {A B : Type 0} → A × Option Error → (A → Except B) → Except B
with_value (a, some e) f = error e
with_value (a, none) f = f a

-- `int32` keeps the low bits of the number of connections.
unfoldable pub db_config : Env → ℕ → DbConfig
db_config env max_conns = record { url = env "DATABASE_URL"; max_conns = max_conns % 2 ^ 32 }

-- `models.NewApiStore`
unfoldable pub connect_store : {D : Type 0} → Except D → Except (Option D)
connect_store (error e) = error e
connect_store (ok db) = ok (some db)

module _ (sdk : Sdk) (services : Services sdk) where
  -- A producer, or the consumer group, and the topic or topics it is made for.
  pub record Producer : Type 0 where
    pub client : services.KafkaClient
    pub topic : String

  pub record Group : Type 0 where
    pub client : services.KafkaClient
    pub name : String
    pub topic : String

  unfoldable pub new_kafka_client :
      ServerConfig sdk → List GroupOpt → Outcome (Except services.KafkaClient)
  unfolding client_options
  new_kafka_client server_config config =
      elim (client_options sdk services.HookType GroupOpt services.otel_hooks server_config
        config) [ panics e ↦ panics e | returns opts ↦ returns (services.new_client opts) ]

  -- A client that answers, as `value`.
  unfoldable pub pinged : {A : Type 0} → services.KafkaClient → A → Except A
  pinged client value = elim (services.ping client) [ some e ↦ error e | none ↦ ok value ]

  unfoldable pub init_producer : Env → ServerConfig sdk → String → Outcome (Except Producer)
  unfolding new_kafka_client or_fail pinged
  init_producer env config topic_env =
      if str_eq (env topic_env) ""
      then returns (error (errorf (cat topic_env " variable is required")))
      else or_fail (new_kafka_client config [])
          (λ client. pinged client (record { client = client; topic = env topic_env }))

  unfoldable pub init_flag_store : Env → Except RedisOptions
  unfolding get_env_as_int get_env_as_bool with_value new_redis_db
  init_flag_store env = with_value (get_env_as_int services.atoi env "LAGO_REDIS_STORE_DB" 0) (λ db.
      new_redis_db services.redis (record {
        address = env "LAGO_REDIS_STORE_URL";
        password = env "LAGO_REDIS_STORE_PASSWORD";
        db = db;
        use_tracer = false;
        use_tls = get_env_as_bool env "LAGO_REDIS_STORE_TLS" (str_eq (env "ENV") "production");
      }))

  unfoldable pub init_charge_cache_store : Env → Except RedisOptions
  unfolding get_env_as_int get_env_as_bool with_value new_redis_db
  init_charge_cache_store env =
      with_value (get_env_as_int services.atoi env "LAGO_REDIS_CACHE_DB" 0) (λ db.
        new_redis_db services.redis (record {
          address = env "LAGO_REDIS_CACHE_URL";
          password = env "LAGO_REDIS_CACHE_PASSWORD";
          db = db;
          use_tracer = false;
          use_tls = get_env_as_bool env "LAGO_REDIS_CACHE_TLS" false;
        }))

  -- The database is only needed without the cache in memory.
  unfoldable pub init_api_store : Env → Bool → Except (Option (Db services.database))
  unfolding get_env_as_int with_value new_connection db_config connect_store
  init_api_store env true = ok none
  init_api_store env false =
      with_value
        (get_env_as_int services.atoi env "LAGO_EVENTS_PROCESSOR_DATABASE_MAX_CONNECTIONS" 200)
        (λ max_conns. connect_store (new_connection services.database (db_config env max_conns)))

  unfoldable pub new_consumer_group : ServerConfig sdk → String → String → Outcome (Except Group)
  unfolding new_kafka_client or_fail pinged
  new_consumer_group config group topic =
      let name = join "_" (group ∷ topic ∷ []) in
      or_fail
        (new_kafka_client config (
          consumer_group name
          ∷ consume_topics topic
          ∷ on_partitions_assigned
          ∷ on_partitions_lost
          ∷ on_partitions_revoked
          ∷ disable_auto_commit
          ∷ block_rebalance_on_poll
          ∷ []))
        (λ client. pinged client (record { client = client; name = name; topic = topic }))

  -- What the processor has when it starts to consume.
  pub record Started : Type 0 where
    pub enriched : Producer
    pub enriched_expanded : Producer
    pub in_advance : Producer
    pub dead_letter : Producer
    pub api_store : Option (Db services.database)
    pub flag_store : RedisOptions
    pub charge_cache : RedisOptions
    pub group : Group

  unfoldable pub server_config : Env → TracerProvider sdk → List Runes → ServerConfig sdk
  unfolding get_env_as_bool
  server_config env tracer_provider brokers = record {
    scram_algorithm = env "LAGO_KAFKA_SCRAM_ALGORITHM";
    tls = get_env_as_bool env "LAGO_KAFKA_TLS" false;
    servers = brokers;
    tracer_provider = tracer_provider;
    user_name = env "LAGO_KAFKA_USERNAME";
    password = env "LAGO_KAFKA_PASSWORD";
  }

  -- From the first producer on.
  unfoldable pub start_services : Env → Bool → ServerConfig sdk → Outcome Started
  unfolding or_panic init_producer init_api_store init_flag_store init_charge_cache_store
      new_consumer_group
  start_services env has_cache config =
      or_panic (init_producer env config "LAGO_KAFKA_ENRICHED_EVENTS_TOPIC") (λ enriched.
        or_panic (init_producer env config "LAGO_KAFKA_ENRICHED_EVENTS_EXPANDED_TOPIC") (λ expanded.
          or_panic (init_producer env config "LAGO_KAFKA_EVENTS_CHARGED_IN_ADVANCE_TOPIC")
            (λ in_advance.
              or_panic (init_producer env config "LAGO_KAFKA_EVENTS_DEAD_LETTER_TOPIC")
                (λ dead_letter. or_panic (returns (init_api_store env has_cache)) (λ api_store.
                  or_panic (returns (init_flag_store env)) (λ flag_store.
                    or_panic (returns (init_charge_cache_store env)) (λ charge_cache.
                      or_panic
                        (new_consumer_group config (env "LAGO_KAFKA_CONSUMER_GROUP")
                          (env "LAGO_KAFKA_RAW_EVENTS_TOPIC"))
                        (λ group. returns (record {
                          enriched = enriched;
                          enriched_expanded = expanded;
                          in_advance = in_advance;
                          dead_letter = dead_letter;
                          api_store = api_store;
                          flag_store = flag_store;
                          charge_cache = charge_cache;
                          group = group;
                        })))))))))

  -- `has_cache`: `config.Cache` is not nil.
  unfoldable pub start_processing_events : Env → TracerProvider sdk → Bool → Outcome Started
  unfolding parse_brokers_env runes server_config start_services
  start_processing_events env tracer_provider has_cache =
      elim (parse_brokers_env (runes (env "LAGO_KAFKA_BOOTSTRAP_SERVERS"))) [
        | [] ↦ panics (errorf "brokers not found")
        | broker ∷ rest ↦
            start_services env has_cache (server_config env tracer_provider (broker ∷ rest))
      ]
