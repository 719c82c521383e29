-- ===== src/Models/FlatFilter.antt =====
-- events-processor/models/flat_filters.go: which filter of a charge an event falls under.
pub mod Matching
use lago.Prelude.{
  ℕ, String, Bool, true, false, not, ◌&&◌, List, [], ◌∷◌, Option, none, some, ltb, contains, length,
  keep, map, if◌then◌else◌,
}
use lago.Utils.Result.{Outcome, returns, panics, errorf, Result, success_result}
use lago.Utils.NullTime.{Time}
use lago.Models.Event.{Properties, PropertyValue, property, sprint_property}

-- `map[string][]string`; the nil map has no entry, as the empty one.
abbrev pub FlatFilterValues : Type 0
FlatFilterValues = List (String × List String)

pub record FlatFilter : Type 0 where
  pub organization_id : String
  pub billable_metric_code : String
  pub plan_id : String
  pub charge_id : String
  pub charge_updated_at : Time
  pub charge_filter_id : Option String
  pub charge_filter_updated_at : Option Time
  pub filters : Option FlatFilterValues
  pub pricing_group_keys : List String
  pub pay_in_advance : Bool
  pub accepts_target_wallet : Bool

unfoldable pub keys : Option FlatFilterValues → List String
keys none = []
keys (some values) = map (λ entry. entry.0) values

unfoldable pub has_filters : FlatFilter → Bool
has_filters ff = elim ff.filters [ none ↦ false | some values ↦ ltb 0 (length values) ]

-- The loop of `IsMatchingEvent` over the entries of the map.
unfoldable pub matches_all : FlatFilterValues → Properties → Bool
unfolding sprint_property
matches_all [] properties = true
matches_all ((key, values) ∷ rest) properties =
    let others = matches_all rest properties in
    elim (property properties key) [
      | none ↦ false
      | some value ↦
          if not (contains values (sprint_property properties key)) then false else others
    ]

unfoldable pub is_matching_event : FlatFilter → Properties → Result Bool
unfolding has_filters matches_all success_result
is_matching_event ff properties =
    if not (has_filters ff) then success_result true else elim ff.filters [
      | none ↦ success_result true
      | some values ↦ success_result (matches_all values properties)
    ]

unfoldable pub to_default_filter : FlatFilter → FlatFilter
to_default_filter ff = record ff {
  charge_filter_id = none;
  charge_filter_updated_at = none;
  filters = none;
}

-- The test that both branches of `MatchingFilter` make.
unfoldable pub selects : Properties → FlatFilter → Bool
unfolding has_filters is_matching_event
selects properties filter = has_filters filter && (is_matching_event filter properties).value

-- One round of the loop that looks for the filter with the most properties.
unfoldable pub take_heavier : FlatFilter → FlatFilter → FlatFilter
unfolding keys
take_heavier filter best =
    if ltb (length (keys best.filters)) (length (keys filter.filters)) then filter else best

unfoldable pub best_filter : List FlatFilter → FlatFilter → FlatFilter
unfolding take_heavier
best_filter [] best = best
best_filter (filter ∷ rest) best = best_filter rest (take_heavier filter best)

-- The choice among the filters that match, when there are several filters.
unfoldable pub best_or_default : FlatFilter → List FlatFilter → Outcome FlatFilter
unfolding best_filter to_default_filter
best_or_default first [] = returns (to_default_filter first)
best_or_default first (best ∷ others) = returns (best_filter others best)

-- `filters[0]` panics on an empty slice.
unfoldable pub matching_filter : List FlatFilter → Properties → Outcome FlatFilter
unfolding selects best_or_default to_default_filter
matching_filter [] properties = panics (errorf "index out of range [0] with length 0")
matching_filter (filter ∷ []) properties =
    if selects properties filter then returns filter else returns (to_default_filter filter)
matching_filter (first ∷ second ∷ rest) properties =
    best_or_default first (keep (selects properties) (first ∷ second ∷ rest))
