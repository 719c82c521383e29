-- ===== src/Tests/Payloads.antt =====
-- The change message of a charge, with the group keys in its properties.
use lago.Prelude.{
  List, not, ◌&&◌, String, str_eq, true, false, [], ◌∷◌, none, some, ◌≡◌, ◌≢◌, refl, false≢true, ap,
  if◌then◌else◌,
}
use lago.Utils.Result.{success, success_result, errorf, ok, error}
use lago.Utils.NullTime.{json_null, unmarshal_json}
use lago.Utils.NestedJson.{Object}
use lago.Models.Tables.{Charge, stored_charge}
use lago.Models.Payloads.{Json, unmarshal_string_array, decode_time, in_object}
use lago.Models.Payloads.Decoding.{HasCharge}
use lago.Cache.Store.{Badger, Codec}
use lago.Cache.Json.{set_json, get_json}
use lago.Cache.Writes.{Found}
use lago.Cache.Consumer.{ConsumerConfig, process_record}
use lago.Cache.Charges.{charges_consumer}
use lago.Cache.Messages.{has_current}
use lago.Cache.ChargeMessages.{decode_charge, process_record-HasCharge}
use lago.Tests.Fixtures.{Cell, list_store, list_store-Laws, row_codec}

abbrev properties : Object
properties key = if str_eq key "pricing_group_keys" then some "[\"region\"]" else none

abbrev message : Object
message key =
    if str_eq key "properties"
    then some "{properties}"
    else if str_eq key "pay_in_advance"
    then some "true"
    else if str_eq key "accepts_target_wallet"
    then some "false"
    else if str_eq key "created_at"
    then some "null"
    else if str_eq key "updated_at"
    then some "null"
    else if str_eq key "deleted_at"
    then some "null"
    else some key

abbrev json : Json
json = record {
  object = λ text.
      if str_eq text "{message}"
      then ok message
      else if str_eq text "{properties}"
      then ok properties
      else error (errorf "no object");
  string = λ text before. ok text;
  bool = λ text before. ok (str_eq text "true");
  strings = λ text. ok ("region" ∷ []);
  time = λ text. ok json_null;
  parse_rfc3339 = λ text. error (errorf "cannot parse");
}

abbrev charge : Charge
charge = record {
  id = "id";
  organization_id = "organization_id";
  plan_id = "plan_id";
  billable_metric_id = "billable_metric_id";
  pay_in_advance = true;
  accepts_target_wallet = false;
  pricing_group_keys = "region" ∷ [];
  created_at = none;
  updated_at = none;
  deleted_at = none;
}

abbrev nested : String
nested = "{properties}"

not_null : nested ≢ "null"
not_null e = false≢true (ap (λ s. str_eq s "null") e)

message-HasCharge : HasCharge json message charge
unfolding decode_time unmarshal_json unmarshal_string_array
message-HasCharge = record {
  id = (_, refl, refl);
  organization_id = (_, refl, refl);
  plan_id = (_, refl, refl);
  billable_metric_id = (_, refl, refl);
  pay_in_advance = (_, refl, refl);
  accepts_target_wallet = (_, refl, refl);
  pricing_group_keys = (_, in_object nested properties refl not_null refl, refl);
  created_at = (_, refl, refl);
  updated_at = (_, refl, refl);
  deleted_at = (_, refl, refl);
}

abbrev charge_store : Badger
charge_store = list_store Charge

abbrev charge_codec : Codec Charge Charge stored_charge
charge_codec = row_codec stored_charge

abbrev consumer : ConsumerConfig (List (String × Cell Charge)) Charge
consumer = charges_consumer charge_store charge_codec "lago"

accepts :
    (at : List (String × Cell Charge))
    → success (set_json charge_store charge_codec (consumer.get_key charge) charge at).0 ≡ true
unfolding set_json success success_result
accepts at = refl

process_record-HasCharge_example :
    get_json charge_store charge_codec 1 "ch:organization_id:plan_id:billable_metric_id:id" (
      process_record consumer
        (decode_charge charge_store (list_store-Laws Charge) charge_codec json "lago")
        0
        "{message}"
        [])
    ≡ (if str_eq (consumer.get_key charge) "ch:organization_id:plan_id:billable_metric_id:id"
          && not (has_current charge_store charge_codec consumer 0 charge [])
        then Found (stored_charge charge)
        else get_json charge_store charge_codec 1 "ch:organization_id:plan_id:billable_metric_id:id"
            [])
process_record-HasCharge_example =
    process_record-HasCharge charge_store (list_store-Laws Charge) charge_codec json "lago" 0 1
      "{message}" "ch:organization_id:plan_id:billable_metric_id:id" message charge [] refl
      message-HasCharge refl accepts
