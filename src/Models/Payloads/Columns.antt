-- ===== src/Models/Payloads/Columns.antt =====
-- Decoding the columns of a row one after the other.
use lago.Prelude.{
  String, str_eq, false, ◌||◌, List, [], ◌∷◌, Option, none, some, ◌≡◌, ◌≢◌, inl, inr, refl, sym,
  ◌∙◌, ap, Bool-cases, eq_iff,
}
use lago.Utils.Result.{Except, ok}
use lago.Utils.NestedJson.{
  Object, Field, first_part, split_text, has_char, child_of, nested_value, decode_value,
  decode_field, decode_fields,
}
use lago.Models.Payloads.{
  Json, store, unmarshal_string_array, Nested, no_parent, null_parent, no_object, in_object, Holds,
}

-- The tag names a key as it stands.
abbrev pub Plain : String → Type 0
Plain tag =
    (first_part b',' tag ≡ tag)
    × (has_char b'.' tag ≡ false)
    × ((str_eq tag "" || str_eq tag "-") ≡ false)

store_ok : {A S : Type 0} (r : Except A) (a : A) (set : A → S) → r ≡ ok a → store r set ≡ ok (set a)
unfolding store
store_ok r a set e = rw e refl

module _ (J : Json) where
  -- The fields are decoded, and the struct is then `out`.
  pub data Decodes {S : Type 0} (raw : Object) (fields : List (Field S)) (s out : S) : Type 0 where
    decodes : decode_fields J.object raw fields s ≡ ok out → Decodes raw fields s out

  pub decoded :
      {S : Type 0} {raw : Object} {fields : List (Field S)} {s out : S}
      → Decodes raw fields s out
      → decode_fields J.object raw fields s ≡ ok out
  decoded (decodes e) = e

  pub all_decoded : {S : Type 0} {raw : Object} {s : S} → Decodes raw [] s s
  unfolding decode_fields
  all_decoded = decodes refl

  not_null : (json : String) → json ≢ "null" → str_eq json "null" ≡ false
  not_null json other = elim (Bool-cases (str_eq json "null")) [
    | inl t ↦ absurd (other ((eq_iff json "null").0 t))
    | inr f ↦ f
  ]

  nested_value-Nested :
      (raw : Object) (parent child : String) (o : Option String)
      → Nested J raw parent child o
      → nested_value J.object raw (parent ∷ child ∷ []) ≡ o
  unfolding nested_value child_of
  nested_value-Nested raw parent child o (no_parent e) = rw (e, nested_value) refl
  nested_value-Nested raw parent child o (null_parent e) = rw (e, nested_value) refl
  nested_value-Nested raw parent child o (no_object json err e f) =
      rw (e, nested_value)
        (elim (Bool-cases (str_eq json "null")) [
          | inl t ↦ rw (t, child_of) refl
          | inr n ↦ rw (n, child_of) (rw f refl)
        ])
  nested_value-Nested raw parent child o (in_object json fields e other f) =
      rw (e, nested_value) (rw (not_null json other, child_of) (rw f refl))

  module _ {S : Type 0} (raw : Object) where
    decode_value_ok :
        (text : String) (field : Field S) (s s' : S) (json : String)
        → field.decode json s ≡ ok s'
        → decode_value J.object text field (some json) s ≡ ok s'
    unfolding decode_value
    decode_value_ok text field s s' json d = rw (d, decode_value) refl

    next_field :
        (field : Field S) (fields : List (Field S)) (s s' : S)
        → decode_field J.object raw field s ≡ ok s'
        → decode_fields J.object raw (field ∷ fields) s ≡ decode_fields J.object raw fields s'
    unfolding decode_fields
    next_field field fields s s' e = rw (e, decode_fields) refl

    -- A round of the loop for a key that holds a value.
    direct_field :
        (tag : String) (decode : String → S → Except S) (s s' : S) (json : String)
        → Plain tag
        → raw tag ≡ some json
        → decode json s ≡ ok s'
        → decode_field J.object raw (record { tag = tag; decode = decode }) s ≡ ok s'
    unfolding decode_field
    direct_field tag decode s s' json (first, dots, named) e d =
        rw (named, decode_field)
          (rw (first, dots)
            (rw e (decode_value_ok _ (record { tag = tag; decode = decode }) s s' json d)))

    -- A column, and what is left behind it.
    pub column :
        {A : Type 0} (tag : String) (decode : String → S → Except S) (fields : List (Field S))
        (s : S) (a : A) (read : String → Except A) (set : A → S) {out : S}
        → Plain tag
        → Holds J raw tag read a
        → ((json : String) → decode json s ≡ store (read json) set)
        → Decodes raw fields (set a) out
        → Decodes raw (record { tag = tag; decode = decode } ∷ fields) s out
    column tag decode fields s a read set plain (json, e, d) same rest = decodes (
        next_field (record { tag = tag; decode = decode }) fields s (set a)
          (direct_field tag decode s (set a) json plain e
            (same json ∙ store_ok (read json) a set d))
        ∙ decoded rest)

  abbrev KeysAre : Option String → List String → Type 0
  KeysAre none keys = keys ≡ []
  KeysAre (some json) keys = unmarshal_string_array J json ≡ ok keys

  -- The keys are those of the properties; none where the properties have none.
  abbrev pub HasKeys : Object → List String → Type 0
  HasKeys raw keys =
      (o : Option String) × Nested J raw "properties" "pricing_group_keys" o × KeysAre o keys

  module _ {S : Type 0} (raw : Object) where
    pub keys_column :
        (decode : String → S → Except S) (fields : List (Field S)) (s : S) (keys : List String)
        (set : List String → S) {out : S}
        → HasKeys raw keys
        → ((json : String) → decode json s ≡ store (unmarshal_string_array J json) set)
        → s ≡ set []
        → Decodes raw fields (set keys) out
        → Decodes raw
            (record { tag = "properties.pricing_group_keys"; decode = decode } ∷ fields)
            s
            out
    unfolding decode_field decode_value first_part split_text has_char
    keys_column decode fields s keys set (none, nested, nothing) same start rest =
        let at = nested_value-Nested raw "properties" "pricing_group_keys" none nested in
        decodes (
          next_field raw (record { tag = "properties.pricing_group_keys"; decode = decode }) fields
            s (set keys) (rw (at, decode_field) (ap ok (start ∙ ap set (sym nothing))))
          ∙ decoded rest)
    keys_column decode fields s keys set (some json, nested, read) same start rest =
        let at = nested_value-Nested raw "properties" "pricing_group_keys" (some json) nested in
        decodes (
          next_field raw (record { tag = "properties.pricing_group_keys"; decode = decode }) fields
            s (set keys)
            (rw (at, decode_field)
              (decode_value_ok raw _
                (record { tag = "properties.pricing_group_keys"; decode = decode }) s (set keys)
                json (same json ∙ store_ok (unmarshal_string_array J json) keys set read)))
          ∙ decoded rest)
