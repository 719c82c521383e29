-- ===== src/Models/Payloads.antt =====
-- events-processor/models/charges.go and charge_filters.go: the tags by which a change message is
-- decoded into a row, with utils/json.go, and the column of texts of utils/string.go.
pub mod Columns
pub mod Decoding
use lago.Prelude.{
  String, str_eq, Bool, false, List, [], ◌∷◌, Option, none, some, ◌≡◌, ◌≢◌, refl, sym, ◌∙◌,
  Bool-cases, eq_iff, inl, inr, ap, if◌then◌else◌,
}
use lago.Utils.Result.{Error, Except, ok, error}
use lago.Utils.NullTime.{Time, NullTime, JsonTime, unmarshal_json}
use lago.Utils.NestedJson.{
  Object, Field, first_part, split_text, has_char, child_of, nested_value, decode_value,
  decode_field, decode_fields, unmarshal_nested_json,
}
use lago.Models.Tables.{Charge, ChargeFilter}

-- `encoding/json`: an object, and the values of the columns. Where a null leaves a variable as it
-- was, decoding takes what the variable holds.
pub record Json : Type 0 where
  pub object : String → Except Object
  pub string : String → String → Except String
  pub bool : String → Bool → Except Bool
  pub strings : String → Except (List String)
  pub time : String → Except JsonTime
  pub parse_rfc3339 : String → Except Time

-- Storing what was decoded.
unfoldable pub store : {A S : Type 0} → Except A → (A → S) → Except S
store (error e) set = error e
store (ok a) set = ok (set a)

module _ (J : Json) where
  -- `StringArray.UnmarshalJSON`
  unfoldable pub unmarshal_string_array : String → Except (List String)
  unmarshal_string_array json = elim (J.strings json) [ error e ↦ error e | ok arr ↦ ok arr ]

  unfoldable pub decode_time : String → Except NullTime
  unfolding unmarshal_json
  decode_time json = elim (J.time json) [
    | error e ↦ error e
    | ok value ↦ unmarshal_json J.parse_rfc3339 value
  ]

  abbrev field : {S : Type 0} → String → (String → S → Except S) → Field S
  field tag decode = record { tag = tag; decode = decode }

  unfoldable pub charge_fields : List (Field Charge)
  unfolding store unmarshal_string_array decode_time
  charge_fields =
      field "id" (λ j s. store (J.string j s.id) (λ v. record s { id = v }))
      ∷ field "organization_id"
          (λ j s. store (J.string j s.organization_id) (λ v. record s { organization_id = v }))
      ∷ field "plan_id" (λ j s. store (J.string j s.plan_id) (λ v. record s { plan_id = v }))
      ∷ field "billable_metric_id" (λ j s.
        store (J.string j s.billable_metric_id) (λ v. record s { billable_metric_id = v }))
      ∷ field "pay_in_advance"
          (λ j s. store (J.bool j s.pay_in_advance) (λ v. record s { pay_in_advance = v }))
      ∷ field "accepts_target_wallet" (λ j s.
        store (J.bool j s.accepts_target_wallet) (λ v. record s { accepts_target_wallet = v }))
      ∷ field "properties.pricing_group_keys"
          (λ j s. store (unmarshal_string_array j) (λ v. record s { pricing_group_keys = v }))
      ∷ field "created_at" (λ j s. store (decode_time j) (λ v. record s { created_at = v }))
      ∷ field "updated_at" (λ j s. store (decode_time j) (λ v. record s { updated_at = v }))
      ∷ field "deleted_at" (λ j s. store (decode_time j) (λ v. record s { deleted_at = v }))
      ∷ []

  unfoldable pub charge_filter_fields : List (Field ChargeFilter)
  unfolding store unmarshal_string_array decode_time
  charge_filter_fields =
      field "id" (λ j s. store (J.string j s.id) (λ v. record s { id = v }))
      ∷ field "organization_id"
          (λ j s. store (J.string j s.organization_id) (λ v. record s { organization_id = v }))
      ∷ field "charge_id" (λ j s. store (J.string j s.charge_id) (λ v. record s { charge_id = v }))
      ∷ field "properties.pricing_group_keys"
          (λ j s. store (unmarshal_string_array j) (λ v. record s { pricing_group_keys = v }))
      ∷ field "created_at" (λ j s. store (decode_time j) (λ v. record s { created_at = v }))
      ∷ field "updated_at" (λ j s. store (decode_time j) (λ v. record s { updated_at = v }))
      ∷ field "deleted_at" (λ j s. store (decode_time j) (λ v. record s { deleted_at = v }))
      ∷ []

  -- What is read of the key of an object that is under a key itself: nothing where either is missing,
  -- or where the first has no object.
  pub data Nested (raw : Object) (parent child : String) : Option String → Type 0 where
    no_parent : raw parent ≡ none → Nested raw parent child none
    null_parent : raw parent ≡ some "null" → Nested raw parent child none
    no_object :
        (json : String) (e : Error)
        → raw parent ≡ some json
        → J.object json ≡ error e
        → Nested raw parent child none
    in_object :
        (json : String) (fields : Object)
        → raw parent ≡ some json
        → json ≢ "null"
        → J.object json ≡ ok fields
        → Nested raw parent child (fields child)

  -- A key holds a value.
  abbrev pub Holds : {A : Type 0} → Object → String → (String → Except A) → A → Type 0
  Holds raw key decode v = (json : String) × (raw key ≡ some json) × (decode json ≡ ok v)
