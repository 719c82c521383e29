-- ===== src/Models/Event.antt =====
-- events-processor/models/event.go: the event that is received and the one that is sent on.
use lago.Prelude.{
  String, str_eq, Bool, true, false, not, List, Option, none, some, lookup, if◌then◌else◌,
}
use lago.Utils.NullTime.{Time}

-- A JSON value that is not null; a number or a composite is the text that `%v` makes of it.
pub data PropertyValue : Type 0 where
  text number composite : String → PropertyValue
  boolean : Bool → PropertyValue

-- `fmt.Sprintf("%v", value)`
unfoldable pub sprint : PropertyValue → String
sprint (text s) = s
sprint (number s) = s
sprint (composite s) = s
sprint (boolean true) = "true"
sprint (boolean false) = "false"

-- `map[string]any`: `none` is the nil map, and the value `none` is nil.
abbrev pub Properties : Type 0
Properties = Option (List (String × Option PropertyValue))

-- `properties[key]`: nil for a missing key, also in the nil map.
unfoldable pub property : Properties → String → Option PropertyValue
property none key = none
property (some entries) key = elim (lookup key entries) [ none ↦ none | some value ↦ value ]

-- `fmt.Sprintf("%v", properties[key])`
unfoldable pub sprint_property : Properties → String → String
unfolding property sprint
sprint_property properties key = elim (property properties key) [
  | none ↦ "<nil>"
  | some value ↦ sprint value
]

abbrev pub http_ruby : String
http_ruby = "http_ruby"

abbrev pub target_wallet_code : String
target_wallet_code = "target_wallet_code"

pub record SourceMetadata : Type 0 where
  pub api_post_process : Bool
  pub reprocess : Bool

-- `TS` is the type of a decoded timestamp.
pub record Event (TS : Type 0) : Type 0 where
  pub organization_id : String
  pub external_subscription_id : String
  pub transaction_id : String
  pub code : String
  pub properties : Properties
  pub precise_total_amount_cents : String
  pub source : String
  pub timestamp : TS
  pub source_metadata : Option SourceMetadata
  pub ingested_at : Time

unfoldable pub is_reprocess : {TS : Type 0} → Event TS → Bool
is_reprocess ev = elim ev.source_metadata [ none ↦ false | some m ↦ m.reprocess ]

unfoldable pub not_api_post_processed : {TS : Type 0} → Event TS → Bool
not_api_post_processed ev =
    if not (str_eq ev.source http_ruby)
    then true
    else elim ev.source_metadata [ none ↦ true | some m ↦ not m.api_post_process ]
