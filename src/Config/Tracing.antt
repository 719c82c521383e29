-- ===== src/Config/Tracing.antt =====
-- events-processor/config/tracing: tracer.go, and of the three providers what the start of the program
-- calls. Sending spans is left to the clients.
pub mod Start
pub mod Hooks
pub mod Spans
use lago.Prelude.{
  String, cat, join, str_eq, not, Bool, true, false, List, [], ◌∷◌, Option, none, some,
  if◌then◌else◌,
}
use lago.Utils.Result.{Error, errorf, Except, ok, error, Outcome, returns, panics}
use lago.Utils.Env.{Env, get_env_as_bool, get_env_or_default}

pub data TracingProvider : Type 0 where
  otel_provider datadog_provider empty_provider : TracingProvider

pub record TracerProviderOptions : Type 0 where
  pub env : String
  pub service_name : String
  pub provider_url : String
  pub secure_mode : Bool
  pub kafka_tracing : Bool
  pub tracing_provider : TracingProvider

unfoldable pub find_tracing_provider : Env → String → TracingProvider
unfolding get_env_as_bool
find_tracing_provider env provider =
    if str_eq provider "datadog"
    then datadog_provider
    else if str_eq provider "opentelemetry"
    then otel_provider
    else if get_env_as_bool env "DD_TRACE_ENABLED" false
    then datadog_provider
    else if not (str_eq (env "OTEL_EXPORTER_OTLP_ENDPOINT") "")
    then otel_provider
    else empty_provider

-- `serviceName := os.Getenv(key); if serviceName != "" { opts.ServiceName = serviceName }`
unfoldable pub set_service_name : Env → String → TracerProviderOptions → TracerProviderOptions
set_service_name env key opts =
    if str_eq (env key) "" then opts else record opts { service_name = env key }

unfoldable pub init_tracer_provider_opts : Env → TracingProvider → TracerProviderOptions
unfolding get_env_or_default get_env_as_bool set_service_name
init_tracer_provider_opts env tracing_provider =
    let opts : TracerProviderOptions = record {
      env = get_env_or_default env "ENV" "development";
      service_name = "lago-events-processor";
      provider_url = "";
      secure_mode = false;
      kafka_tracing = get_env_as_bool env "KAFKA_TRACING_ENABLED" false;
      tracing_provider = tracing_provider;
    } in
    elim tracing_provider [
      | otel_provider ↦ record (set_service_name env "OTEL_SERVICE_NAME" opts) {
        provider_url = env "OTEL_EXPORTER_OTLP_ENDPOINT";
        secure_mode = not (get_env_as_bool env "OTEL_INSECURE" false);
      }
      | datadog_provider ↦ record (set_service_name env "DD_SERVICE_NAME" opts) {
        provider_url =
            join ":"
              (env "DD_AGENT_HOST" ∷ get_env_or_default env "DD_TRACE_AGENT_PORT" "8126" ∷ []);
      }
      | empty_provider ↦ opts
    ]

-- The exporters of OpenTelemetry, which are made from the mode and the endpoint, and the resource,
-- from the service and the environment.
pub record Sdk : Type 1 where
  pub Exporter : Type 0
  pub Meter : Type 0
  pub Resource : Type 0
  pub new_exporter : Bool → String → Except Exporter
  pub new_meter : Bool → String → Except Meter
  pub new_resource : String → String → Except Resource

pub record OTelTracerProvider (sdk : Sdk) : Type 0 where
  pub exporter : sdk.Exporter
  pub meter : sdk.Meter
  pub options : TracerProviderOptions

-- A value of the interface `TracerProvider`: the nil interface, or a pointer of one of the three
-- types, of which that of OpenTelemetry may itself be nil.
pub data TracerProvider (sdk : Sdk) : Type 0 where
  nil_interface : TracerProvider sdk
  otel_tracer_provider : Option (OTelTracerProvider sdk) → TracerProvider sdk
  datadog_tracer_provider empty_tracer_provider : TracerProviderOptions → TracerProvider sdk

pub data Tracer : Type 0 where
  otel_tracer datadog_tracer : String → Tracer
  empty_tracer : Tracer

abbrev pub nil_pointer : Error
nil_pointer = errorf "invalid memory address or nil pointer dereference"

-- The options of an empty provider are the zero value.
abbrev pub no_options : TracerProviderOptions
no_options = record {
  env = "";
  service_name = "";
  provider_url = "";
  secure_mode = false;
  kafka_tracing = false;
  tracing_provider = empty_provider;
}

module _ (sdk : Sdk) where
  unfoldable pub new_otel_tracer_provider : TracerProviderOptions → Option (OTelTracerProvider sdk)
  new_otel_tracer_provider opts = elim (sdk.new_exporter opts.secure_mode opts.provider_url) [
    | error e ↦ none
    | ok exporter ↦ elim (sdk.new_meter opts.secure_mode opts.provider_url) [
      | error e ↦ none
      | ok meter ↦ elim (sdk.new_resource opts.service_name opts.env) [
        | error e ↦ none
        | ok resource ↦ some (record { exporter = exporter; meter = meter; options = opts })
      ]
    ]
  ]

  -- The switch of `InitTracerProvider`.
  unfoldable pub new_tracer_provider : TracingProvider → TracerProviderOptions → TracerProvider sdk
  unfolding new_otel_tracer_provider
  new_tracer_provider otel_provider opts = otel_tracer_provider (new_otel_tracer_provider opts)
  new_tracer_provider datadog_provider opts = datadog_tracer_provider opts
  new_tracer_provider empty_provider opts = empty_tracer_provider no_options

  unfoldable pub init_tracer_provider : Env → TracerProvider sdk
  unfolding find_tracing_provider init_tracer_provider_opts new_tracer_provider
  init_tracer_provider env =
      let tracing_provider = find_tracing_provider env (env "TRACING_PROVIDER") in
      new_tracer_provider tracing_provider (init_tracer_provider_opts env tracing_provider)

  -- `tracerProvider == nil`
  unfoldable pub is_nil : TracerProvider sdk → Bool
  is_nil nil_interface = true
  is_nil (otel_tracer_provider p) = false
  is_nil (datadog_tracer_provider opts) = false
  is_nil (empty_tracer_provider opts) = false

  -- The method reads a field of the pointer.
  unfoldable pub get_options : TracerProvider sdk → Outcome TracerProviderOptions
  get_options nil_interface = panics nil_pointer
  get_options (otel_tracer_provider none) = panics nil_pointer
  get_options (otel_tracer_provider (some p)) = returns p.options
  get_options (datadog_tracer_provider opts) = returns opts
  get_options (empty_tracer_provider opts) = returns opts

  -- The method `InitTracer` of a provider that is not the nil interface.
  unfoldable pub tracer_of : TracerProvider sdk → String → Outcome Tracer
  tracer_of nil_interface service_name = panics nil_pointer
  tracer_of (otel_tracer_provider p) service_name = returns (otel_tracer service_name)
  tracer_of (datadog_tracer_provider opts) service_name = returns (datadog_tracer service_name)
  tracer_of (empty_tracer_provider opts) service_name = returns empty_tracer

  -- `globalTracer` is nil until then; `once` lets the first call in.
  unfoldable pub init_tracer : TracerProvider sdk → Outcome Tracer
  unfolding get_options tracer_of
  init_tracer provider = elim (get_options provider) [
    | panics e ↦ panics e
    | returns opts ↦ tracer_of provider opts.service_name
  ]

  -- events-processor/main.go: the global tracer, which is left nil if there is no provider.
  unfoldable pub use_provider : TracerProvider sdk → Outcome (Option Tracer)
  unfolding is_nil init_tracer
  use_provider tracer_provider =
      if is_nil tracer_provider then returns none else elim (init_tracer tracer_provider) [
        | panics e ↦ panics e
        | returns tracer ↦ returns (some tracer)
      ]

  unfoldable pub start_tracing : Env → Outcome (Option Tracer)
  unfolding init_tracer_provider use_provider
  start_tracing env = use_provider (init_tracer_provider env)

-- `GetTracer`: the tracer that was set, or one that does nothing.
unfoldable pub get_tracer : Option Tracer → Tracer
get_tracer none = empty_tracer
get_tracer (some tracer) = tracer
