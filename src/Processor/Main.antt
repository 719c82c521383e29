-- ===== src/Processor/Main.antt =====
-- events-processor/main.go, `main`: the tracing, the cache in memory where the environment asks for
-- it, and the processing of events. Logging, error tracking and the signal handler are left out.
pub mod Ready
use lago.Prelude.{
  String, str_eq, Bool, true, false, List, [], Option, none, some, is_some, if◌then◌else◌, ◌≡◌,
}
use lago.Utils.Result.{Error, Except, ok, error, Result, Outcome, returns, panics}
use lago.Utils.Env.{Env}
use lago.Config.Tracing.{Sdk, Tracer, start_tracing, init_tracer_provider}
use lago.Cache.Store.{Badger, Codec}
use lago.Cache.Loading.{Table, Row, stored, Loading, Run, load_initial_snapshot}
use lago.Cache.Opening.{ChangeOpt, new_cache, consume_changes}
use lago.Processor.Startup.{Services, Started, start_processing_events}

module _ (sdk : Sdk) (services : Services sdk) (B : Badger)
    (C : (t : Table) → Codec B.Bytes (Row t) (stored t)) (Client : Type 0) where
  -- How the goroutines of a snapshot take turns until all have returned, which `Wait` waits for.
  pub record Schedule (loading : Loading B C) : Type 0 where
    pub end : Loading B C
    pub run : Run B C loading end
    pub waited : (t : Table) → end.loads t ≡ []

  -- What the program meets: the store that is opened, the connection of the snapshot, what its
  -- queries return, the turns that the goroutines of the snapshot take, the clients of the consumers
  -- and the random parts of their groups.
  pub record World : Type 1 where
    pub opened : Except B.Db
    pub Connection : Type 0
    pub connection : Except Connection
    pub fetched : (t : Table) → Result (List (Row t))
    pub schedule : (loading : Loading B C) → Schedule loading
    pub new_client : List ChangeOpt → Except Client
    pub uuid : Table → String

  pub record Cached : Type 0 where
    pub store : B.Db
    pub consumers : List (Table × Client)

  -- What a program has when it starts to consume events.
  pub record Program : Type 0 where
    pub tracer : Option Tracer
    pub cache : Option Cached
    pub started : Started sdk services

  unfoldable pub start_consuming : Env → World → B.Db → Outcome Cached
  unfolding consume_changes
  start_consuming env w store =
      let started =
        consume_changes B C Client w.new_client w.uuid env (env "LAGO_DEBEZIUM_TOPIC_PREFIX") in
      elim started.1 [
        | some e ↦ panics e
        | none ↦ returns (record { store = store; consumers = started.0 })
      ]

  unfoldable pub open_cache : Env → World → Outcome Cached
  unfolding new_cache load_initial_snapshot start_consuming
  open_cache env w = elim (new_cache w.opened) [
    | error e ↦ panics e
    | ok db ↦ elim (load_initial_snapshot B C w.connection w.fetched db) [
      | panics e ↦ panics e
      | returns loading ↦ start_consuming env w (w.schedule loading).end.db
    ]
  ]

  -- `memCache`, nil unless the environment asks for it
  unfoldable pub use_cache : Env → World → Outcome (Option Cached)
  unfolding open_cache
  use_cache env w =
      if str_eq (env "LAGO_USE_MEMORY_CACHE") "true"
      then (elim (open_cache env w) [
        | panics e ↦ panics e
        | returns cached ↦ returns (some cached)
      ])
      else returns none

  unfoldable pub run_processing : Env → Option Tracer → Option Cached → Outcome Program
  unfolding start_processing_events init_tracer_provider
  run_processing env tracer cache =
      elim (start_processing_events sdk services env (init_tracer_provider sdk env)
        (is_some cache)) [
          | panics e ↦ panics e
          | returns started ↦ returns (record { tracer = tracer; cache = cache; started = started })
        ]

  unfoldable pub main : Env → World → Outcome Program
  unfolding start_tracing use_cache run_processing
  main env w = elim (start_tracing sdk env) [
    | panics e ↦ panics e
    | returns tracer ↦ elim (use_cache env w) [
      | panics e ↦ panics e
      | returns cache ↦ run_processing env tracer cache
    ]
  ]
