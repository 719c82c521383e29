-- ===== src/Config/Tracing/Spans/Tagged.antt =====
-- The tags that a span is started with are those that are read of it, whatever the provider.
use lago.Prelude.{
  String, str_eq, eq_iff, List, [], ◌∷◌, Option, none, some, insert, lookup, lookup-insert, ◌≡◌,
  refl, sym, ap, ◌∙◌, Bool-cases, Option-cases, inl, inr, arith, if◌then◌else◌,
}
use lago.Utils.Time.{Numbers}
use lago.Config.Tracing.Spans.{
  Any, any_string, any_int, any_int64, any_float64, any_bool, any_other, KeyValue, string_attribute,
  int_attribute, int64_attribute, float64_attribute, bool_attribute, convert_to_otel_attribute,
  AnyMap, SpanConfig, no_config, with_tag, configure, Spans, put_entries, put_map, otel_start_span,
  datadog_start_span,
}

-- What is read of a span: the attribute that was put last under a key, and none at its start.
pub record Reads {A : Type 0} (S : Spans A) (key_of : A → String) : Type 0 where
  pub attribute_of : S.Span → String → S.Recorded → Option A
  pub attribute-put :
      (s : S.Span) (a : A) (key : String) (rec : S.Recorded)
      → attribute_of s key (S.put s a rec)
        ≡ (if str_eq (key_of a) key then some a else attribute_of s key rec)
  pub attribute-start :
      (name : String) (ctx : S.Context) (operation key : String) (rec : S.Recorded)
      → attribute_of (S.start name ctx operation rec).0.0 key (S.start name ctx operation rec).1
        ≡ none

module _ {V : Type 0} where
  -- No key is there twice.
  abbrev Unique : List (String × V) → Type 0
  Unique [] = Unit
  Unique ((key, value) ∷ entries) = (lookup key entries ≡ none) × Unique entries

  insert-Unique :
      (key : String) (value : V) (entries : List (String × V))
      → Unique entries
      → Unique (insert key value entries)
  unfolding insert lookup
  insert-Unique key value [] u = (refl, tt)
  insert-Unique key value ((first, old) ∷ entries) (fresh, u) =
      elim (Bool-cases (str_eq first key)) [
        | inl t ↦ rw (t, insert) (fresh, u)
        | inr f ↦
            rw (f, insert)
              (
                lookup-insert key first value entries
                    ∙ ground (arith, f, fresh, eq_iff first key, eq_iff key first),
                insert-Unique key value entries u,
              )
      ]

  -- The value that the last of the pairs with this key has.
  abbrev pub last_value : String → List (String × V) → Option V → Option V
  last_value key [] found = found
  last_value key ((k, v) ∷ pairs) found =
      last_value key pairs (if str_eq k key then some v else found)

module _ (N : Numbers) where
  -- A map has no key twice.
  abbrev IsTags : AnyMap N → Type 0
  IsTags none = Unit
  IsTags (some entries) = Unique entries

  abbrev read_map : String → AnyMap N → Option (Any N)
  read_map key none = none
  read_map key (some entries) = lookup key entries

  -- The options `WithTag` of the pairs.
  abbrev pub tag_options : List (String × Any N) → List (SpanConfig N → SpanConfig N)
  tag_options [] = []
  tag_options ((key, value) ∷ pairs) = with_tag N key value ∷ tag_options pairs

  -- What the options make of a configuration.
  record Configured (pairs : List (String × Any N)) (before after : SpanConfig N) : Type 0 where
    unique : IsTags after.tags
    reads :
        (key : String) → read_map key after.tags ≡ last_value key pairs (read_map key before.tags)
    others : after.attributes ≡ before.attributes

  with_tag-reads :
      (k key : String) (v : Any N) (cfg : SpanConfig N)
      → read_map key (with_tag N k v cfg).tags
        ≡ (if str_eq k key then some v else read_map key cfg.tags)
  unfolding with_tag lookup
  with_tag-reads k key v cfg = elim (Option-cases cfg.tags) [
    | inl e ↦ rw e (lookup-insert k key v [])
    | inr (entries, e) ↦ rw e (lookup-insert k key v entries)
  ]

  with_tag-IsTags :
      (k : String) (v : Any N) (cfg : SpanConfig N)
      → IsTags cfg.tags
      → IsTags (with_tag N k v cfg).tags
  unfolding with_tag
  with_tag-IsTags k v cfg u = elim (Option-cases cfg.tags) [
    | inl e ↦ rw e (insert-Unique k v [] tt)
    | inr (entries, e) ↦ rw e (insert-Unique k v entries (rw e at u))
  ]

  configure-Configured :
      (pairs : List (String × Any N)) (cfg : SpanConfig N)
      → IsTags cfg.tags
      → Configured pairs cfg (configure N (tag_options pairs) cfg)
  unfolding configure with_tag
  configure-Configured [] cfg u = record { unique = u; reads = λ key. refl; others = refl }
  configure-Configured ((k, v) ∷ pairs) cfg u =
      let rest = configure-Configured pairs (with_tag N k v cfg) (with_tag-IsTags k v cfg u) in
      record {
        unique = rest.unique;
        reads = λ key. rest.reads key ∙ ap (last_value key pairs) (with_tag-reads k key v cfg);
        others = rest.others;
      }

module _ (N : Numbers) where
  -- An attribute that is made of a value, if there is one.
  abbrev pub attribute_by : {A : Type 0} → (String → Any N → A) → String → Option (Any N) → Option A
  attribute_by make key none = none
  attribute_by make key (some v) = some (make key v)

module _ (N : Numbers) {A : Type 0} (S : Spans A) (key_of : A → String) (L : Reads S key_of)
    (make : String → Any N → A)
    (named : (key : String) (v : Any N) → key_of (make key v) ≡ key) where
  -- What is read where a map was put on a span that read `before`.
  abbrev placed : String → Option (Any N) → Option A → Option A
  placed key none before = before
  placed key (some v) before = some (make key v)

  placed_alone : (key : String) (o : Option (Any N)) → placed key o none ≡ attribute_by N make key o
  placed_alone key none = refl
  placed_alone key (some v) = refl

  attribute-put_entries :
      (span : S.Span) (key : String) (entries : List (String × Any N)) (rec : S.Recorded)
      → Unique entries
      → L.attribute_of span key (put_entries N S make span entries rec)
        ≡ placed key (lookup key entries) (L.attribute_of span key rec)
  unfolding put_entries lookup
  attribute-put_entries span key [] rec u = refl
  attribute-put_entries span key ((first, v) ∷ entries) rec (fresh, u) =
      let rest = attribute-put_entries span key entries (S.put span (make first v) rec) u in
      let own =
        L.attribute-put span (make first v) key rec
        ∙ ap (λ k. if str_eq k key then some (make first v) else L.attribute_of span key rec)
            (named first v) in
      elim (Bool-cases (str_eq first key)) [
        | inl t ↦
            let same : first ≡ key = (eq_iff first key).0 t in
            let none_left : lookup key entries ≡ none =
              ap (λ k. lookup k entries) (sym same) ∙ fresh in
            rest ∙ rw (none_left, t) (own ∙ rw t (ap (λ k. some (make k v)) same))
        | inr f ↦ rest ∙ rw f (ap (placed key (lookup key entries)) (own ∙ rw f refl))
      ]

  attribute-put_map :
      (span : S.Span) (key : String) (m : AnyMap N) (rec : S.Recorded)
      → IsTags N m
      → L.attribute_of span key (put_map N S make span m rec)
        ≡ placed key (read_map N key m) (L.attribute_of span key rec)
  unfolding put_map
  attribute-put_map span key none rec u = refl
  attribute-put_map span key (some entries) rec u = attribute-put_entries span key entries rec u

  -- The options set no other attributes.
  put_map-attributes :
      (span : S.Span) (pairs : List (String × Any N)) (rec : S.Recorded)
      → put_map N S make span (configure N (tag_options N pairs) (no_config N)).attributes rec ≡ rec
  unfolding put_map
  put_map-attributes span pairs rec =
      ap (λ m. put_map N S make span m rec) (configure-Configured N pairs (no_config N) tt).others

  -- A span that has no attribute yet reads what the options say.
  attribute-tagged :
      (span : S.Span) (key : String) (pairs : List (String × Any N)) (rec : S.Recorded)
      → L.attribute_of span key rec ≡ none
      → L.attribute_of span key
          (put_map N S make span (configure N (tag_options N pairs) (no_config N)).tags rec)
        ≡ attribute_by N make key (last_value key pairs none)
  attribute-tagged span key pairs rec fresh =
      let c = configure-Configured N pairs (no_config N) tt in
      attribute-put_map span key _ rec c.unique
      ∙ rw (c.reads key, fresh) (placed_alone key (last_value key pairs none))

-- The key of an attribute.
abbrev pub otel_key : {N : Numbers} → KeyValue N → String
otel_key (string_attribute key v) = key
otel_key (int_attribute key v) = key
otel_key (int64_attribute key v) = key
otel_key (float64_attribute key v) = key
otel_key (bool_attribute key v) = key

module _ (N : Numbers) where
  converted : (key : String) (v : Any N) → otel_key (convert_to_otel_attribute N key v) ≡ key
  unfolding convert_to_otel_attribute
  converted key (any_string v) = refl
  converted key (any_int v) = refl
  converted key (any_int64 v) = refl
  converted key (any_float64 v) = refl
  converted key (any_bool v) = refl
  converted key (any_other text) = refl

  -- A span that is started with options `WithTag` has the value of the last option of a key under
  -- that key, and no other attribute: OpenTelemetry the value as an attribute of its type, Datadog
  -- the value itself.
  pub start_span-tags :
      (S : Spans (KeyValue N)) (L : Reads S otel_key) (T : Spans (String × Any N))
      (M : Reads T (λ pair. pair.0)) (name operation key : String) (ctx : S.Context)
      (dd_ctx : T.Context) (pairs : List (String × Any N)) (rec : S.Recorded) (dd_rec : T.Recorded)
      → (L.attribute_of
            (otel_start_span N S name ctx operation (tag_options N pairs) rec).0.0
            key
            (otel_start_span N S name ctx operation (tag_options N pairs) rec).1
          ≡ attribute_by N (convert_to_otel_attribute N) key (last_value key pairs none))
        × (M.attribute_of
              (datadog_start_span N T name dd_ctx operation (tag_options N pairs) dd_rec).0.0
              key
              (datadog_start_span N T name dd_ctx operation (tag_options N pairs) dd_rec).1
            ≡ attribute_by N (λ k v. (k, v)) key (last_value key pairs none))
  unfolding otel_start_span datadog_start_span
  start_span-tags S L T M name operation key ctx dd_ctx pairs rec dd_rec =
      let span = (S.start name ctx operation rec).0.0 in
      let dd_span = (T.start name dd_ctx operation dd_rec).0.0 in
      (
        attribute-tagged N S otel_key L (convert_to_otel_attribute N) converted span key pairs _ (
            ap (L.attribute_of span key) (
              put_map-attributes N S otel_key L (convert_to_otel_attribute N) converted span pairs
                _)
            ∙ L.attribute-start name ctx operation key rec),
        ap (M.attribute_of dd_span key) (
              put_map-attributes N T (λ pair. pair.0) M (λ k v. (k, v)) (λ k v. refl) dd_span pairs
                _)
            ∙ attribute-tagged N T (λ pair. pair.0) M (λ k v. (k, v)) (λ k v. refl) dd_span key
                pairs _ (M.attribute-start name dd_ctx operation key dd_rec),
      )
