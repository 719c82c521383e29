-- ===== src/Config/KafkaClient.antt =====
-- events-processor/config/kafka/kafka.go: the options that a client of Kafka is made with.
pub mod Options
use lago.Prelude.{
  String, str_eq, not, ◌&&◌, Bool, true, false, List, [], ◌∷◌, ◌++◌, In, Option, none, some, ◌≡◌,
  ◌↔◌, ◌⊎◌, inl, inr, refl, sym, ap, ◌∙◌, Bool-cases, if◌then◌else◌, arith,
}
use lago.Utils.Result.{Error, Except, Outcome, returns, panics, Outcome-cases, panics≢returns}
use lago.Utils.Strings.{Runes}
use lago.Config.Tracing.{
  Sdk, TracerProvider, nil_interface, otel_tracer_provider, datadog_tracer_provider,
  empty_tracer_provider, nil_pointer, get_options, is_nil,
}

pub record ServerConfig (sdk : Sdk) : Type 0 where
  pub scram_algorithm : String
  pub tls : Bool
  pub servers : List Runes
  pub tracer_provider : TracerProvider sdk
  pub user_name : String
  pub password : String

abbrev pub scram256 : String
scram256 = "SCRAM-SHA-256"

abbrev pub scram512 : String
scram512 = "SCRAM-SHA-512"

pub data Mechanism : Type 0 where
  sha256_mechanism sha512_mechanism : String → String → Mechanism

-- The hooks of OpenTelemetry are the library's; those of Datadog hold the name of the service.
pub data Hook (H : Type 0) : Type 0 where
  otel_hook : H → Hook H
  datadog_produce_hook datadog_consume_hook : String → Hook H

-- `kgo.Opt`, an interface: what its value is made with, or nil. `given` is an option of the caller.
pub data Opt (H O : Type 0) : Type 0 where
  seed_brokers : List Runes → Opt H O
  with_logger : Opt H O
  given : O → Opt H O
  with_hooks : List (Hook H) → Opt H O
  sasl : Mechanism → Opt H O
  dial_tls : Opt H O
  nil_opt : Opt H O

module _ (sdk : Sdk) (H O : Type 0) (otel_hooks : List H) where
  unfoldable pub hooks_of : List H → List (Hook H)
  hooks_of [] = []
  hooks_of (h ∷ hs) = otel_hook h ∷ hooks_of hs

  -- `GetKafkaHooks`; the one of OpenTelemetry does not read its pointer.
  unfoldable pub get_kafka_hooks : TracerProvider sdk → Outcome (List (Hook H))
  unfolding hooks_of
  get_kafka_hooks nil_interface = panics nil_pointer
  get_kafka_hooks (otel_tracer_provider p) = returns (hooks_of otel_hooks)
  get_kafka_hooks (datadog_tracer_provider opts) =
      returns (datadog_produce_hook opts.service_name ∷ datadog_consume_hook opts.service_name ∷ [])
  get_kafka_hooks (empty_tracer_provider opts) = returns []

  unfoldable pub given_options : List O → List (Opt H O)
  given_options [] = []
  given_options (o ∷ os) = given o ∷ given_options os

  -- `KafkaTracing && len(hooks) > 0`
  unfoldable pub traced_hooks : Bool → List (Hook H) → List (Opt H O)
  traced_hooks kafka_tracing [] = []
  traced_hooks kafka_tracing (h ∷ rest) = if kafka_tracing then with_hooks (h ∷ rest) ∷ [] else []

  -- The hooks of a provider that traces Kafka.
  unfoldable pub hook_options : TracerProvider sdk → Outcome (List (Opt H O))
  unfolding is_nil get_kafka_hooks get_options traced_hooks
  hook_options provider =
      if is_nil sdk provider then returns [] else elim (get_kafka_hooks provider) [
        | panics e ↦ panics e
        | returns hooks ↦ elim (get_options sdk provider) [
          | panics e ↦ panics e
          | returns options ↦ returns (traced_hooks options.kafka_tracing hooks)
        ]
      ]

  -- The switch over the algorithm has no default: the option of another name stays nil.
  unfoldable pub scram_option : String → String → String → Opt H O
  scram_option algorithm user pass =
      if str_eq algorithm scram256
      then sasl (sha256_mechanism user pass)
      else if str_eq algorithm scram512
      then sasl (sha512_mechanism user pass)
      else nil_opt

  unfoldable pub scram_options : ServerConfig sdk → List (Opt H O)
  unfolding scram_option
  scram_options config =
      if str_eq config.scram_algorithm ""
      then []
      else scram_option config.scram_algorithm config.user_name config.password ∷ []

  unfoldable pub tls_options : ServerConfig sdk → List (Opt H O)
  tls_options config = if config.tls then dial_tls ∷ [] else []

  unfoldable pub client_options : ServerConfig sdk → List O → Outcome (List (Opt H O))
  unfolding given_options hook_options scram_options tls_options
  client_options server_config config = elim (hook_options server_config.tracer_provider) [
    | panics e ↦ panics e
    | returns hooks ↦ returns (
        seed_brokers server_config.servers ∷ with_logger ∷ given_options config
        ++ (hooks ++ (scram_options server_config ++ tls_options server_config)))
  ]
