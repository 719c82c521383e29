-- ===== src/Models/Columns.antt =====
-- events-processor/models/flat_filters.go and events-processor/utils/string.go: the columns that hold
-- JSON, as the database driver reads and writes them. The JSON library is a parameter, at each type.
use lago.Prelude.{String, List, Option, none, some, ◌≡◌, refl, inl, inr}
use lago.Utils.Result.{errorf, Except, ok, error, Except-cases, ok-injective}
use lago.Utils.Strings.{Runes, Column, null, other, bytes, string}
use lago.Models.FlatFilter.{FlatFilterValues}

-- `json.Unmarshal` at a type that may be nil, and `json.Marshal`, whose text is read back.
pub record JsonColumn (A : Type 0) : Type 0 where
  pub decode : Runes → Except (Option A)
  pub encode : A → Except Runes
  pub decode-encode : (a : A) (text : Runes) → encode a ≡ ok text → decode text ≡ ok (some a)

module _ {A : Type 0} (json : JsonColumn A) where
  -- `Scan`
  unfoldable pub scan_json : Column → Except (Option A)
  scan_json null = ok none
  scan_json (bytes v) = json.decode v
  scan_json (string v) = json.decode v
  scan_json other = error (errorf "cannot scan into FlatFilterValues")

  -- `Value`
  unfoldable pub value_json : Option A → Except Column
  value_json none = ok null
  value_json (some a) = elim (json.encode a) [ error e ↦ error e | ok text ↦ ok (bytes text) ]

  -- A column that the driver writes is read back as the value that it was, nil included.
  pub scan_json-value_json :
      (value : Option A) (column : Column)
      → value_json value ≡ ok column
      → scan_json column ≡ ok value
  unfolding scan_json value_json
  scan_json-value_json none column h = let same : null ≡ column = ok-injective h in rw (← same) refl
  scan_json-value_json (some a) column h = elim (Except-cases (json.encode a)) [
    | inl (e, f) ↦ let k = rw (f, value_json) at h in cc
    | inr (t, f) ↦
        let same : bytes t ≡ column = ok-injective (rw (f, value_json) at h) in
        rw (← same) (json.decode-encode a t f)
  ]

abbrev pub PricingGroupKeys : Type 0
PricingGroupKeys = List String

unfoldable pub scan_flat_filter_values :
    JsonColumn FlatFilterValues → Column → Except (Option FlatFilterValues)
unfolding scan_json
scan_flat_filter_values json column = scan_json json column

unfoldable pub flat_filter_values_value :
    JsonColumn FlatFilterValues → Option FlatFilterValues → Except Column
unfolding value_json
flat_filter_values_value json value = value_json json value

unfoldable pub scan_pricing_group_keys :
    JsonColumn PricingGroupKeys → Column → Except (Option PricingGroupKeys)
unfolding scan_json
scan_pricing_group_keys json column = scan_json json column

unfoldable pub pricing_group_keys_value :
    JsonColumn PricingGroupKeys → Option PricingGroupKeys → Except Column
unfolding value_json
pricing_group_keys_value json value = value_json json value

-- `StringArray.Value`
unfoldable pub string_array_value : JsonColumn (List String) → Option (List String) → Except Column
unfolding value_json
string_array_value json value = value_json json value
