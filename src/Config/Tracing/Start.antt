-- ===== src/Config/Tracing/Start.antt =====
-- How the start of the program ends, by the provider that the environment names.
use lago.Prelude.{none, some, ◌≡◌, ◌↔◌, ◌⊎◌, inl, inr, refl, sym, ◌∙◌, Option-cases}
use lago.Utils.Result.{returns, panics, panics≢returns}
use lago.Utils.Env.{Env}
use lago.Config.Tracing.{
  TracingProvider, otel_provider, datadog_provider, empty_provider, TracerProviderOptions,
  find_tracing_provider, init_tracer_provider_opts, Sdk, new_otel_tracer_provider,
  init_tracer_provider, new_tracer_provider, use_provider, otel_tracer, datadog_tracer,
  empty_tracer, tracer_of, Tracer, nil_pointer, init_tracer, start_tracing, is_nil, get_options,
}

module _ (sdk : Sdk) where
  use_provider-cases :
      (p : TracingProvider) (opts : TracerProviderOptions)
      → ((use_provider sdk (new_tracer_provider sdk p opts) ≡ panics nil_pointer)
          × (p ≡ otel_provider)
          × (new_otel_tracer_provider sdk opts ≡ none))
        ⊎ ((t : Tracer) × (use_provider sdk (new_tracer_provider sdk p opts) ≡ returns (some t))
            × ((p ≡ otel_provider) → new_otel_tracer_provider sdk opts ≡ none → ⊥))
  unfolding use_provider new_tracer_provider is_nil init_tracer get_options tracer_of
  use_provider-cases otel_provider opts = elim (Option-cases (new_otel_tracer_provider sdk opts)) [
    | inl e ↦ inl (rw e refl, refl, e)
    | inr (p, e) ↦
        inr (otel_tracer p.options.service_name, rw e refl, λ s n. let h = sym e ∙ n in cc)
  ]
  use_provider-cases datadog_provider opts = inr (datadog_tracer opts.service_name, refl, λ s n. cc)
  use_provider-cases empty_provider opts = inr (empty_tracer, refl, λ s n. cc)

  -- The start panics exactly where the environment asks for OpenTelemetry and its provider could not
  -- be made, and has a tracer otherwise: the check for a nil provider never leaves the tracing off.
  pub start_tracing-Panics :
      (env : Env)
      → ((start_tracing sdk env ≡ panics nil_pointer) ↔ (
          (find_tracing_provider env (env "TRACING_PROVIDER") ≡ otel_provider)
          × (new_otel_tracer_provider sdk
                (init_tracer_provider_opts env (find_tracing_provider env (env "TRACING_PROVIDER")))
              ≡ none)))
        × ((start_tracing sdk env ≡ panics nil_pointer)
            ⊎ ((t : Tracer) × (start_tracing sdk env ≡ returns (some t))))
  unfolding start_tracing init_tracer_provider
  start_tracing-Panics env =
      let p = find_tracing_provider env (env "TRACING_PROVIDER") in
      elim (use_provider-cases p (init_tracer_provider_opts env p)) [
        | inl (e, s, n) ↦ ((λ _. (s, n), λ _. e), inl e)
        | inr (t, e, made) ↦
            ((λ h. panics≢returns (sym h ∙ e), λ h. absurd (made h.0 h.1)), inr (t, e))
      ]
