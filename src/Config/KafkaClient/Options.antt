-- ===== src/Config/KafkaClient/Options.antt =====
-- Which of a client's options say who it is.
use lago.Prelude.{
  String, str_eq, not, ◌&&◌, Bool, true, false, List, [], ◌∷◌, ◌++◌, ◌≡◌, inl, inr, refl, subst,
  eq_iff, none, some, ◌∙◌, Bool-cases, if◌then◌else◌,
}
use lago.Utils.Result.{returns, Outcome-cases, panics≢returns}
use lago.Config.Tracing.{
  Sdk, TracerProvider, nil_interface, otel_tracer_provider, datadog_tracer_provider,
  empty_tracer_provider, get_options, is_nil,
}
use lago.Config.KafkaClient.{
  ServerConfig, scram256, scram512, Mechanism, sha256_mechanism, sha512_mechanism, Hook, Opt,
  seed_brokers, with_logger, given, with_hooks, sasl, dial_tls, nil_opt, datadog_produce_hook,
  datadog_consume_hook, get_kafka_hooks, given_options, traced_hooks, hook_options, scram_option,
  scram_options, tls_options, client_options,
}

module _ {H O : Type 0} where
  -- The credentials among the options.
  abbrev pub mechanisms : List (Opt H O) → List Mechanism
  mechanisms [] = []
  mechanisms (seed_brokers b ∷ opts) = mechanisms opts
  mechanisms (with_logger ∷ opts) = mechanisms opts
  mechanisms (given o ∷ opts) = mechanisms opts
  mechanisms (with_hooks hs ∷ opts) = mechanisms opts
  mechanisms (sasl m ∷ opts) = m ∷ mechanisms opts
  mechanisms (dial_tls ∷ opts) = mechanisms opts
  mechanisms (nil_opt ∷ opts) = mechanisms opts

  abbrev pub has_nil : List (Opt H O) → Bool
  has_nil [] = false
  has_nil (seed_brokers b ∷ opts) = has_nil opts
  has_nil (with_logger ∷ opts) = has_nil opts
  has_nil (given o ∷ opts) = has_nil opts
  has_nil (with_hooks hs ∷ opts) = has_nil opts
  has_nil (sasl m ∷ opts) = has_nil opts
  has_nil (dial_tls ∷ opts) = has_nil opts
  has_nil (nil_opt ∷ opts) = true

  -- Options in front that neither hold credentials nor are nil.
  abbrev Plain : List (Opt H O) → Type 0
  Plain xs =
      (ys : List (Opt H O))
      → (mechanisms (xs ++ ys) ≡ mechanisms ys) × (has_nil (xs ++ ys) ≡ has_nil ys)

module _ (sdk : Sdk) (H O : Type 0) (otel_hooks : List H) where
  given_options-Plain : (os : List O) → Plain (given_options sdk H O otel_hooks os)
  unfolding given_options
  given_options-Plain [] ys = (refl, refl)
  given_options-Plain (o ∷ os) ys = given_options-Plain os ys

  traced_hooks-Plain :
      (b : Bool) (hs : List (Hook H)) → Plain (traced_hooks sdk H O otel_hooks b hs)
  unfolding traced_hooks
  traced_hooks-Plain b [] ys = (refl, refl)
  traced_hooks-Plain true (h ∷ hs) ys = (refl, refl)
  traced_hooks-Plain false (h ∷ hs) ys = (refl, refl)

  Plain-returned :
      (opts made : List (Opt H O)) → returns made ≡ returns opts → Plain made → Plain opts
  Plain-returned opts made e plain = let same : made ≡ opts = cc in subst (λ o. Plain o) same plain

  hook_options-Plain :
      (provider : TracerProvider sdk) (opts : List (Opt H O))
      → hook_options sdk H O otel_hooks provider ≡ returns opts
      → Plain opts
  unfolding hook_options is_nil get_kafka_hooks get_options
  hook_options-Plain nil_interface opts e = Plain-returned opts [] e (λ ys. (refl, refl))
  hook_options-Plain (otel_tracer_provider none) opts e = panics≢returns e
  hook_options-Plain (otel_tracer_provider (some p)) opts e =
      Plain-returned opts _ e (traced_hooks-Plain _ _)
  hook_options-Plain (datadog_tracer_provider o) opts e =
      let hooks = datadog_produce_hook o.service_name ∷ datadog_consume_hook o.service_name ∷ [] in
      Plain-returned opts (traced_hooks sdk H O otel_hooks o.kafka_tracing hooks) e
        (traced_hooks-Plain o.kafka_tracing hooks)
  hook_options-Plain (empty_tracer_provider o) opts e =
      Plain-returned opts (traced_hooks sdk H O otel_hooks o.kafka_tracing []) e
        (traced_hooks-Plain o.kafka_tracing [])

  -- The options behind those of the caller and the hooks.
  abbrev last_options : ServerConfig sdk → List (Opt H O)
  last_options config =
      scram_options sdk H O otel_hooks config ++ tls_options sdk H O otel_hooks config

  not_known :
      (a : String) → str_eq a "" ≡ true → (str_eq a scram256 ≡ false) × (str_eq a scram512 ≡ false)
  not_known a h = rw ((eq_iff a "").0 h) (refl, refl)

  -- The options hold the credentials of a known algorithm, and nil for an unknown one.
  abbrev pub Authenticated : ServerConfig sdk → List (Opt H O) → Type 0
  Authenticated config opts =
      (mechanisms opts ≡ (
        if str_eq config.scram_algorithm scram256
        then sha256_mechanism config.user_name config.password ∷ []
        else if str_eq config.scram_algorithm scram512
        then sha512_mechanism config.user_name config.password ∷ []
        else []))
      × (has_nil opts ≡ (
          not (str_eq config.scram_algorithm "")
          && not (str_eq config.scram_algorithm scram256)
          && not (str_eq config.scram_algorithm scram512)))

  scram_auth :
      (config : ServerConfig sdk) (rest : List (Opt H O))
      → mechanisms rest ≡ []
      → has_nil rest ≡ false
      → Authenticated config (scram_options sdk H O otel_hooks config ++ rest)
  unfolding scram_options scram_option
  scram_auth config rest m n = elim (Bool-cases (str_eq config.scram_algorithm "")) [
    | inl t ↦
        let other = not_known config.scram_algorithm t in
        rw (scram_options, t, other.0, other.1) (m, n)
    | inr f ↦ elim (Bool-cases (str_eq config.scram_algorithm scram256)) [
      | inl t ↦ rw (scram_options, f, t) (rw m refl, n)
      | inr g ↦ elim (Bool-cases (str_eq config.scram_algorithm scram512)) [
        | inl t ↦ rw (scram_options, f, g, t) (rw m refl, n)
        | inr k ↦ rw (scram_options, f, g, k) (m, refl)
      ]
    ]
  ]

  tls_auth :
      (config : ServerConfig sdk)
      → Authenticated config
          (scram_options sdk H O otel_hooks config ++ tls_options sdk H O otel_hooks config)
  unfolding tls_options scram_options
  tls_auth config = elim (Bool-cases config.tls) [
    | inl t ↦ rw (tls_options, t) (scram_auth config (dial_tls ∷ []) refl refl)
    | inr f ↦ rw (tls_options, f) (scram_auth config [] refl refl)
  ]

  returned_auth :
      (config : ServerConfig sdk) (made opts : List (Opt H O))
      → returns made ≡ returns opts
      → Authenticated config made
      → Authenticated config opts
  returned_auth config made opts e auth =
      let same : made ≡ opts = cc in subst (λ o. Authenticated config o) same auth

  -- The credentials of a client are those of the configuration if the algorithm is one of the two
  -- known ones, and none otherwise; one of its options is nil exactly if the algorithm is set to
  -- another name.
  pub client_options-mechanisms :
      (config : ServerConfig sdk) (os : List O) (opts : List (Opt H O))
      → client_options sdk H O otel_hooks config os ≡ returns opts
      → Authenticated config opts
  unfolding client_options
  client_options-mechanisms config os opts e =
      elim (Outcome-cases (hook_options sdk H O otel_hooks config.tracer_provider)) [
        | inl (p, q) ↦ panics≢returns (rw (client_options, q) at e)
        | inr (hooks, q) ↦
            let last =
              scram_options sdk H O otel_hooks config ++ tls_options sdk H O otel_hooks config in
            let made = given_options sdk H O otel_hooks os ++ (hooks ++ last) in
            let front = given_options-Plain os (hooks ++ last) in
            let middle = hook_options-Plain config.tracer_provider hooks q last in
            let back = tls_auth config in
            returned_auth config (seed_brokers config.servers ∷ with_logger ∷ made) opts
              (rw (client_options, q) at e)
              (front.0 ∙ middle.0 ∙ back.0, front.1 ∙ middle.1 ∙ back.1)
      ]
