-- ===== src/Tests/Startup.antt =====
-- Starts of the program in an environment that sets every variable to one text.
use lago.Prelude.{◌⊎◌, some, ℕ, true, false, List, [], ◌∷◌, none, ◌≡◌, ◌↔◌, refl}
use lago.Utils.Result.{errorf, ok, error, Outcome, returns, panics}
use lago.Utils.Env.{Env}
use lago.Config.Tracing.{
  Tracer, Sdk, otel_provider, TracerProvider, empty_tracer_provider, no_options,
  find_tracing_provider, init_tracer_provider_opts, new_otel_tracer_provider, start_tracing,
  nil_pointer,
}
use lago.Config.Tracing.Start.{start_tracing-Panics}
use lago.Config.KafkaClient.{ServerConfig, Opt, client_options}
use lago.Config.KafkaClient.Options.{Authenticated, client_options-mechanisms}
use lago.Processor.Startup.{Services, Started, start_processing_events}

abbrev env : Env
env key = "1"

abbrev bad_env : Env
bad_env key = "opentelemetry"

abbrev pub sdk : Sdk
sdk = record {
  Exporter = ℕ;
  Meter = ℕ;
  Resource = ℕ;
  new_exporter = λ secure endpoint. error (errorf "no such host");
  new_meter = λ secure endpoint. ok 1;
  new_resource = λ name e. ok 2;
}

start_tracing-Panics_example :
    ((start_tracing sdk bad_env ≡ panics nil_pointer) ↔ (
      (find_tracing_provider bad_env (bad_env "TRACING_PROVIDER") ≡ otel_provider)
      × (new_otel_tracer_provider sdk (
            init_tracer_provider_opts bad_env
              (find_tracing_provider bad_env (bad_env "TRACING_PROVIDER")))
          ≡ none)))
    × ((start_tracing sdk bad_env ≡ panics nil_pointer)
        ⊎ ((t : Tracer) × (start_tracing sdk bad_env ≡ returns (some t))))
start_tracing-Panics_example = start_tracing-Panics sdk bad_env

abbrev provider : TracerProvider sdk
provider = empty_tracer_provider no_options

abbrev config : ServerConfig sdk
config = record {
  scram_algorithm = "PLAIN";
  tls = true;
  servers = (49 ∷ []) ∷ [];
  tracer_provider = provider;
  user_name = "lago";
  password = "secret";
}

abbrev options : List (Opt ℕ ℕ)
options = elim (client_options sdk ℕ ℕ [] config []) [ panics e ↦ [] | returns opts ↦ opts ]

options_made : client_options sdk ℕ ℕ [] config [] ≡ returns options
unfolding client_options
options_made = refl

client_options-mechanisms_example : Authenticated sdk ℕ ℕ [] config options
client_options-mechanisms_example =
    client_options-mechanisms sdk ℕ ℕ [] config [] options options_made

abbrev pub services : Services sdk
services = record {
  HookType = ℕ;
  otel_hooks = [];
  KafkaClient = ℕ;
  new_client = λ opts. ok 3;
  ping = λ client. none;
  redis = record { ping = λ opts. none; instrument_tracing = λ opts. none };
  database = record {
    PoolConfig = ℕ;
    Pool = ℕ;
    Connection = ℕ;
    parse_config = λ url. ok 1;
    new_pool = λ c n. ok n;
    open_connection = λ pool. ok pool;
  };
  atoi = λ s. ok 1;
}

abbrev or_default : Outcome (Started sdk services) → Started sdk services → Started sdk services
or_default (panics e) s = s
or_default (returns t) s = t

started_example :
    (s : Started sdk services) × (start_processing_events sdk services env provider false
      ≡ returns s)
unfolding start_processing_events
started_example = (_, refl)
