-- ===== src/Config/Tracing/Hooks/Ending.antt =====
-- The span that a hook starts for a record is the one that the other hook finishes.
use lago.Prelude.{
  String, true, false, Option, none, some, length, ltb, ◌≡◌, refl, ap, ◌∙◌, Bool-cases,
  Option-cases, inl, inr,
}
use lago.Utils.Result.{Error, error_text}
use lago.Config.Tracing.Hooks.{
  Tag, tag_text, tag_bytes, tag_number, DdTracer, DdLaws, Message, carry, tag_key,
  on_produce_record_buffered, end_produce, span_from, on_produce_record_unbuffered,
  on_fetch_record_buffered, on_fetch_record_unbuffered,
}

module _ (dd : DdTracer) (L : DdLaws dd) where
  span_from-carry :
      (span : dd.Span) (ctx : dd.Context) (r : Message dd)
      → dd.span_of ctx ≡ some span
      → span_from dd (carry dd span ctx r) ≡ some span
  unfolding carry
  span_from-carry span ctx r h = elim (Option-cases r.context) [
    | inl e ↦ rw e h
    | inr (own, e) ↦ rw e (L.span_of-with_span own span)
  ]

  finished-tag_key :
      (span : dd.Span) (r : Message dd) (rec : dd.Recorded)
      → L.is_finished span (tag_key dd span r rec) ≡ L.is_finished span rec
  unfolding tag_key
  finished-tag_key span r rec = elim (Bool-cases (ltb 0 (length r.key))) [
    | inl t ↦ rw t (L.finished-set_tag span "kafka.key" (tag_bytes r.key) rec)
    | inr f ↦ rw f refl
  ]

  -- What is tagged at the end: the offset, or the text of the error.
  abbrev pub outcome_tag : Option Error → String
  outcome_tag none = "kafka.offset"
  outcome_tag (some e) = "error.msg"

  abbrev pub outcome_value : Message dd → Option Error → Tag
  outcome_value r none = tag_number r.offset
  outcome_value r (some e) = tag_text (error_text e)

  end_produce-ends :
      (span : dd.Span) (r : Message dd) (err : Option Error) (rec : dd.Recorded)
      → (L.is_finished span (end_produce dd span r err rec) ≡ true)
        × (L.tag_of span (outcome_tag err) (end_produce dd span r err rec)
            ≡ some (outcome_value r err))
  unfolding end_produce
  end_produce-ends span r none rec =
      (L.finished-finish span _, L.tag-finish span _ _ ∙ L.tag-set_tag span _ _ _ rec)
  end_produce-ends span r (some e) rec =
      (L.finished-finish span _, L.tag-finish span _ _ ∙ L.tag-set_tag span _ _ _ _)

  -- A record that is handed to the client carries a span that is not finished. When the client is
  -- done with the record, whatever was recorded of spans in between, and whatever it set of the record
  -- but its context, that span is finished, tagged with the offset or with the text of the error.
  pub on_produce_record-ends :
      (r after : Message dd) (rec later : dd.Recorded) (err : Option Error)
      → after.context ≡ (on_produce_record_buffered dd r rec).0.context
      → (span : dd.Span) × (span_from dd after ≡ some span)
        × (L.is_finished span (on_produce_record_buffered dd r rec).1 ≡ false)
        × (L.is_finished span (on_produce_record_unbuffered dd after err later) ≡ true)
        × (L.tag_of span (outcome_tag err) (on_produce_record_unbuffered dd after err later)
            ≡ some (outcome_value after err))
  unfolding on_produce_record_buffered on_produce_record_unbuffered
  on_produce_record-ends r after rec later err same =
      let started = dd.start_span none dd.background "kafka.produce" rec in
      let span = started.0.0 in
      let carried : span_from dd after ≡ some span =
        ap (λ (o : Option dd.Context). elim o [ none ↦ none | some ctx ↦ dd.span_of ctx ]) same
        ∙ span_from-carry span started.0.1 r
            (L.span_of-start_span none dd.background "kafka.produce" rec) in
      let ends = end_produce-ends span after err later in
      let ended : on_produce_record_unbuffered dd after err later
          ≡ end_produce dd span after err later =
        rw (carried, on_produce_record_unbuffered) refl in
      (
        span,
        carried,
        finished-tag_key span r _
            ∙ L.finished-set_tag span "kafka.partition" _ _
            ∙ L.finished-set_tag span "kafka.topic" _ _
            ∙ L.finished-set_tag span dd.span_type _ _
            ∙ L.finished-set_tag span dd.component _ _
            ∙ L.finished-start_span none dd.background "kafka.produce" rec,
        ap (L.is_finished span) ended ∙ ends.0,
        ap (L.tag_of span (outcome_tag err)) ended ∙ ends.1,
      )

  -- The span of a record that was fetched is finished once the record has been polled.
  pub on_fetch_record-ends :
      (r after : Message dd) (rec later : dd.Recorded)
      → after.context ≡ (on_fetch_record_buffered dd r rec).0.context
      → (span : dd.Span) × (span_from dd after ≡ some span)
        × (L.is_finished span (on_fetch_record_buffered dd r rec).1 ≡ false)
        × (L.is_finished span (on_fetch_record_unbuffered dd after later) ≡ true)
  unfolding on_fetch_record_buffered on_fetch_record_unbuffered
  on_fetch_record-ends r after rec later same =
      let started = dd.start_span none dd.background "kafka.consume" rec in
      let span = started.0.0 in
      let carried : span_from dd after ≡ some span =
        ap (λ (o : Option dd.Context). elim o [ none ↦ none | some ctx ↦ dd.span_of ctx ]) same
        ∙ span_from-carry span started.0.1 r
            (L.span_of-start_span none dd.background "kafka.consume" rec) in
      let ended : on_fetch_record_unbuffered dd after later ≡ dd.finish span later =
        rw (carried, on_fetch_record_unbuffered) refl in
      (
        span,
        carried,
        finished-tag_key span r _
            ∙ L.finished-set_tag span "kafka.offset" _ _
            ∙ L.finished-set_tag span "kafka.partition" _ _
            ∙ L.finished-set_tag span "kafka.topic" _ _
            ∙ L.finished-set_tag span dd.span_type _ _
            ∙ L.finished-set_tag span dd.component _ _
            ∙ L.finished-start_span none dd.background "kafka.consume" rec,
        ap (L.is_finished span) ended ∙ L.finished-finish span later,
      )
