-- ===== src/Config/Tracing/Spans.antt =====
-- events-processor/config/tracing: the spans that the program starts, in otel_tracer.go and
-- datadog_tracer.go, and the options of tracing.go. What is recorded is the libraries' own.
pub mod Tagged
use lago.Prelude.{String, List, [], ◌∷◌, Bool, true, Option, none, some, insert}
use lago.Utils.Result.{Error, error_text}
use lago.Utils.Time.{Numbers}

-- A value of an attribute, of type `any`; one of another type stands for its text by `%v`.
pub data Any (N : Numbers) : Type 0 where
  any_string : String → Any N
  any_int any_int64 : N.Int → Any N
  any_float64 : N.Float → Any N
  any_bool : Bool → Any N
  any_other : String → Any N

-- `attribute.KeyValue`
pub data KeyValue (N : Numbers) : Type 0 where
  string_attribute : String → String → KeyValue N
  int_attribute int64_attribute : String → N.Int → KeyValue N
  float64_attribute : String → N.Float → KeyValue N
  bool_attribute : String → Bool → KeyValue N

module _ (N : Numbers) where
  unfoldable pub convert_to_otel_attribute : String → Any N → KeyValue N
  convert_to_otel_attribute key (any_string v) = string_attribute key v
  convert_to_otel_attribute key (any_int v) = int_attribute key v
  convert_to_otel_attribute key (any_int64 v) = int64_attribute key v
  convert_to_otel_attribute key (any_float64 v) = float64_attribute key v
  convert_to_otel_attribute key (any_bool v) = bool_attribute key v
  convert_to_otel_attribute key (any_other text) = string_attribute key text

  -- A map that may be nil; its entries in the order of their insertion.
  abbrev pub AnyMap : Type 0
  AnyMap = Option (List (String × Any N))

  pub record SpanConfig : Type 0 where
    pub tags : AnyMap
    pub attributes : AnyMap

  abbrev pub no_config : SpanConfig
  no_config = record { tags = none; attributes = none }

  unfoldable pub with_tag : String → Any N → SpanConfig → SpanConfig
  unfolding insert
  with_tag key value cfg = record cfg {
    tags = elim cfg.tags [
      | none ↦ some (insert key value [])
      | some tags ↦ some (insert key value tags)
    ];
  }

  -- The loop over the options of a span.
  unfoldable pub configure : List (SpanConfig → SpanConfig) → SpanConfig → SpanConfig
  configure [] cfg = cfg
  configure (opt ∷ opts) cfg = configure opts (opt cfg)

-- The library of a tracer: `put` sets one attribute of a span, `start` takes the name of the tracer
-- or of the service.
pub record Spans (Attribute : Type 0) : Type 1 where
  pub Recorded : Type 0
  pub Span : Type 0
  pub Context : Type 0
  pub start : String → Context → String → Recorded → (Span × Context) × Recorded
  pub put : Span → Attribute → Recorded → Recorded
  pub record_error : Span → Error → Recorded → Recorded
  pub set_error_status : Span → String → Recorded → Recorded
  pub finish : Span → Recorded → Recorded

module _ (N : Numbers) {A : Type 0} (S : Spans A) (make : String → Any N → A) where
  -- The loop over the entries of a map.
  unfoldable pub put_entries : S.Span → List (String × Any N) → S.Recorded → S.Recorded
  put_entries span [] rec = rec
  put_entries span ((key, value) ∷ entries) rec =
      put_entries span entries (S.put span (make key value) rec)

  unfoldable pub put_map : S.Span → AnyMap N → S.Recorded → S.Recorded
  unfolding put_entries
  put_map span none rec = rec
  put_map span (some entries) rec = put_entries span entries rec

module _ (N : Numbers) (S : Spans (KeyValue N)) where
  unfoldable pub otel_set_attribute : S.Span → String → Any N → S.Recorded → S.Recorded
  unfolding convert_to_otel_attribute
  otel_set_attribute span key value = S.put span (convert_to_otel_attribute N key value)

  unfoldable pub otel_set_error : S.Span → Error → S.Recorded → S.Recorded
  unfolding error_text
  otel_set_error span e rec = S.set_error_status span (error_text e) (S.record_error span e rec)

  -- The attributes of the options come first, in one call, then the tags.
  unfoldable pub otel_start_span :
      String
      → S.Context
      → String
      → List (SpanConfig N → SpanConfig N)
      → S.Recorded
      → (S.Span × S.Context) × S.Recorded
  unfolding configure put_map convert_to_otel_attribute
  otel_start_span tracer_name ctx operation_name opts rec =
      let config = configure N opts (no_config N) in
      let started = S.start tracer_name ctx operation_name rec in
      let span = started.0.0 in
      (
        started.0,
        put_map N S (convert_to_otel_attribute N) span config.tags
            (put_map N S (convert_to_otel_attribute N) span config.attributes started.1),
      )

module _ (N : Numbers) (S : Spans (String × Any N)) where
  unfoldable pub datadog_set_attribute : S.Span → String → Any N → S.Recorded → S.Recorded
  datadog_set_attribute span key value = S.put span (key, value)

  unfoldable pub datadog_set_error : S.Span → Error → S.Recorded → S.Recorded
  unfolding error_text
  datadog_set_error span e rec =
      S.put span ("error.type", any_string "error")
        (S.put span ("error.msg", any_string (error_text e))
          (S.put span ("error", any_bool true) rec))

  -- The tags of the options come first, then the attributes.
  unfoldable pub datadog_start_span :
      String
      → S.Context
      → String
      → List (SpanConfig N → SpanConfig N)
      → S.Recorded
      → (S.Span × S.Context) × S.Recorded
  unfolding configure put_map
  datadog_start_span service_name ctx operation_name opts rec =
      let config = configure N opts (no_config N) in
      let started = S.start service_name ctx operation_name rec in
      let span = started.0.0 in
      (
        started.0,
        put_map N S (λ key value. (key, value)) span config.attributes
            (put_map N S (λ key value. (key, value)) span config.tags started.1),
      )
