-- ===== src/Config/Tracing/Hooks.antt =====
-- events-processor/config/tracing/datadog_tracer.go: the hooks that the Kafka client calls for each
-- record. The spans are the library's.
pub mod Ending
use lago.Prelude.{
  ℕ, String, str_eq, Bool, true, false, Option, none, some, length, ltb, ◌≡◌, if◌then◌else◌,
}
use lago.Utils.Result.{Error, error_text}
use lago.Kafka.Decimal.{Bytes}

-- The values of tags.
pub data Tag : Type 0 where
  tag_text : String → Tag
  tag_bytes : Bytes → Tag
  tag_number : ℕ → Tag
  tag_bool : Bool → Tag

-- `ddtracer`: what it has recorded of its spans, and the spans that contexts carry.
pub record DdTracer : Type 1 where
  pub Recorded : Type 0
  pub Span : Type 0
  pub Context : Type 0
  pub background : Context
  -- `ext.Component` and `ext.SpanType`
  pub component : String
  pub span_type : String
  -- `StartSpanFromContext`, with the service that the span is of, if one is named
  pub start_span : Option String → Context → String → Recorded → (Span × Context) × Recorded
  pub set_tag : Span → String → Tag → Recorded → Recorded
  pub finish : Span → Recorded → Recorded
  -- `ContextWithSpan` and `SpanFromContext`
  pub with_span : Context → Span → Context
  pub span_of : Context → Option Span

-- A record of the client: the fields that the hooks read and set.
pub record Message (dd : DdTracer) : Type 0 where
  pub topic : String
  pub partition : ℕ
  pub offset : ℕ
  pub key : Bytes
  pub context : Option dd.Context

module _ (dd : DdTracer) where
  -- `r.Context`, which is `ctx` if it was nil
  unfoldable pub carry : dd.Span → dd.Context → Message dd → Message dd
  carry span ctx r = record r {
    context = elim r.context [ none ↦ some ctx | some own ↦ some (dd.with_span own span) ];
  }

  unfoldable pub tag_key : dd.Span → Message dd → dd.Recorded → dd.Recorded
  tag_key span r rec =
      if ltb 0 (length r.key) then dd.set_tag span "kafka.key" (tag_bytes r.key) rec else rec

  unfoldable pub on_produce_record_buffered : Message dd → dd.Recorded → Message dd × dd.Recorded
  unfolding carry tag_key
  on_produce_record_buffered r rec =
      let ((span, ctx), rec') = dd.start_span none dd.background "kafka.produce" rec in
      let tagged = dd.set_tag span "kafka.partition" (tag_number r.partition) (
        dd.set_tag span "kafka.topic" (tag_text r.topic) (
          dd.set_tag span dd.span_type (tag_text "producer")
            (dd.set_tag span dd.component (tag_text "kafka") rec'))) in
      (carry span ctx r, tag_key span r tagged)

  -- The span of the message, tagged by how it went, and finished.
  unfoldable pub end_produce : dd.Span → Message dd → Option Error → dd.Recorded → dd.Recorded
  unfolding error_text
  end_produce span r none rec =
      dd.finish span (dd.set_tag span "kafka.offset" (tag_number r.offset) rec)
  end_produce span r (some e) rec = dd.finish span (
      dd.set_tag span "error.msg" (tag_text (error_text e))
        (dd.set_tag span "error" (tag_bool true) rec))

  -- `SpanFromContext` of a nil context finds none.
  abbrev pub span_from : Message dd → Option dd.Span
  span_from r = elim r.context [ none ↦ none | some ctx ↦ dd.span_of ctx ]

  unfoldable pub on_produce_record_unbuffered :
      Message dd → Option Error → dd.Recorded → dd.Recorded
  unfolding end_produce
  on_produce_record_unbuffered r err rec = elim (span_from r) [
    | none ↦ rec
    | some span ↦ end_produce span r err rec
  ]

  unfoldable pub on_fetch_record_buffered : Message dd → dd.Recorded → Message dd × dd.Recorded
  unfolding carry tag_key
  on_fetch_record_buffered r rec =
      let ((span, ctx), rec') = dd.start_span none dd.background "kafka.consume" rec in
      let tagged = dd.set_tag span "kafka.offset" (tag_number r.offset) (
        dd.set_tag span "kafka.partition" (tag_number r.partition) (
          dd.set_tag span "kafka.topic" (tag_text r.topic) (
            dd.set_tag span dd.span_type (tag_text "consumer")
              (dd.set_tag span dd.component (tag_text "kafka") rec')))) in
      (carry span ctx r, tag_key span r tagged)

  unfoldable pub on_fetch_record_unbuffered : Message dd → dd.Recorded → dd.Recorded
  on_fetch_record_unbuffered r rec = elim (span_from r) [
    | none ↦ rec
    | some span ↦ dd.finish span rec
  ]

-- What the library documents of spans: a context carries the span it was given, a span that was
-- started is not finished, tags do not finish it, and what is read of a tag is what was set last.
pub record DdLaws (dd : DdTracer) : Type 0 where
  pub is_finished : dd.Span → dd.Recorded → Bool
  pub tag_of : dd.Span → String → dd.Recorded → Option Tag
  pub span_of-with_span :
      (ctx : dd.Context) (s : dd.Span) → dd.span_of (dd.with_span ctx s) ≡ some s
  pub span_of-start_span :
      (service : Option String) (ctx : dd.Context) (name : String) (rec : dd.Recorded)
      → dd.span_of (dd.start_span service ctx name rec).0.1
        ≡ some (dd.start_span service ctx name rec).0.0
  pub finished-start_span :
      (service : Option String) (ctx : dd.Context) (name : String) (rec : dd.Recorded)
      → is_finished (dd.start_span service ctx name rec).0.0 (dd.start_span service ctx name rec).1
        ≡ false
  pub finished-set_tag :
      (s : dd.Span) (k : String) (v : Tag) (rec : dd.Recorded)
      → is_finished s (dd.set_tag s k v rec) ≡ is_finished s rec
  pub finished-finish : (s : dd.Span) (rec : dd.Recorded) → is_finished s (dd.finish s rec) ≡ true
  pub tag-set_tag :
      (s : dd.Span) (k j : String) (v : Tag) (rec : dd.Recorded)
      → tag_of s j (dd.set_tag s k v rec) ≡ (if str_eq k j then some v else tag_of s j rec)
  pub tag-finish :
      (s : dd.Span) (k : String) (rec : dd.Recorded) → tag_of s k (dd.finish s rec) ≡ tag_of s k rec
  pub tag-start_span :
      (service : Option String) (ctx : dd.Context) (name k : String) (rec : dd.Recorded)
      → tag_of (dd.start_span service ctx name rec).0.0 k (dd.start_span service ctx name rec).1
        ≡ none
