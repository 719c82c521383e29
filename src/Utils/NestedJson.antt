-- ===== src/Utils/NestedJson.antt =====
-- events-processor/utils/json.go: decoding a JSON object into the fields of a struct, where the tag of
-- a field may name a key of a nested object. JSON values are their texts.
use Prim.Native.Char.{code}
use Prim.Native.String.{String}
use lago.Prelude.{
  ℕ, String, str_eq, cat, Bool, false, ◌||◌, List, [], ◌∷◌, Option, none, some, ◌==◌, if◌then◌else◌,
}
use lago.Utils.Result.{errorf, error_text, Except, ok, error}

-- `strings.Split(s, sep)[0]`, for a separator of one character
unfoldable pub first_part : ℕ → String → String
first_part sep String.[] = ""
first_part sep (String.◌∷◌ c s) = if code c == sep then "" else String.◌∷◌ c (first_part sep s)

abbrev add_to_part : String → List String → List String
add_to_part c [] = c ∷ []
add_to_part c (part ∷ parts) = cat c part ∷ parts

-- `strings.Split(s, sep)`, for a separator of one character
unfoldable pub split_text : ℕ → String → List String
split_text sep String.[] = "" ∷ []
split_text sep (String.◌∷◌ c s) =
    let parts = split_text sep s in
    if code c == sep then "" ∷ parts else add_to_part (String.◌∷◌ c "") parts

-- `strings.Contains(s, c)`, for one character
unfoldable pub has_char : ℕ → String → Bool
has_char b String.[] = false
has_char b (String.◌∷◌ c s) = code c == b || has_char b s

-- `json.Unmarshal` at `map[string]json.RawMessage`: the keys of an object and their values.
abbrev pub Object : Type 0
Object = String → Option String

-- A field of the struct: its tag, and `json.Unmarshal` at its address.
pub record Field (S : Type 0) : Type 0 where
  pub tag : String
  pub decode : String → S → Except S

module _ (object : String → Except Object) where
  unfoldable pub child_of : String → String → Option String
  child_of parent child =
      if str_eq parent "null"
      then none
      else elim (object parent) [ error e ↦ none | ok fields ↦ fields child ]

  -- The value of a tag with a dot: that of the key in the parent, if there are two parts.
  unfoldable pub nested_value : Object → List String → Option String
  unfolding child_of
  nested_value raw [] = none
  nested_value raw (parent ∷ []) = none
  nested_value raw (parent ∷ child ∷ []) = elim (raw parent) [
    | none ↦ none
    | some json ↦ child_of json child
  ]
  nested_value raw (parent ∷ child ∷ more ∷ parts) = none

  -- A field with no value is left as it is.
  unfoldable pub decode_value : {S : Type 0} → String → Field S → Option String → S → Except S
  unfolding error_text
  decode_value text field none s = ok s
  decode_value text field (some json) s = elim (field.decode json s) [
    | ok s' ↦ ok s'
    | error e ↦ error (errorf (cat text (cat ": " (error_text e))))
  ]

  -- A round of the loop over the fields.
  unfoldable pub decode_field : {S : Type 0} → Object → Field S → S → Except S
  unfolding first_part split_text has_char nested_value decode_value
  decode_field raw field s =
      let tag = first_part b',' field.tag in
      if str_eq field.tag "" || str_eq field.tag "-"
      then ok s
      else if has_char b'.' tag
      then decode_value (cat "failed to unmarshal nested field " tag) field
          (nested_value raw (split_text b'.' tag)) s
      else decode_value (cat "failed to unmarshal field " tag) field (raw tag) s

  unfoldable pub decode_fields : {S : Type 0} → Object → List (Field S) → S → Except S
  unfolding decode_field
  decode_fields raw [] s = ok s
  decode_fields raw (field ∷ fields) s = elim (decode_field raw field s) [
    | error e ↦ error e
    | ok s' ↦ decode_fields raw fields s'
  ]

  unfoldable pub unmarshal_nested_json : {S : Type 0} → List (Field S) → String → S → Except S
  unfolding decode_fields
  unmarshal_nested_json fields json s = elim (object json) [
    | error e ↦ error e
    | ok raw ↦ decode_fields raw fields s
  ]
