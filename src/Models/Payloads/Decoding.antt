-- ===== src/Models/Payloads/Decoding.antt =====
-- A change message that has the columns of a row decodes to the row.
use lago.Prelude.{String, false, [], none, ◌≡◌, refl}
use lago.Utils.Result.{ok}
use lago.Utils.NestedJson.{Object, first_part, has_char, unmarshal_nested_json}
use lago.Models.Tables.{Charge, ChargeFilter}
use lago.Models.Payloads.{Json, decode_time, charge_fields, charge_filter_fields, Holds}
use lago.Models.Payloads.Columns.{Decodes, decoded, all_decoded, column, keys_column, HasKeys}

-- The zero values that a message is decoded into.
abbrev pub zero_charge : Charge
zero_charge = record {
  id = "";
  organization_id = "";
  plan_id = "";
  billable_metric_id = "";
  pay_in_advance = false;
  accepts_target_wallet = false;
  pricing_group_keys = [];
  created_at = none;
  updated_at = none;
  deleted_at = none;
}

abbrev pub zero_charge_filter : ChargeFilter
zero_charge_filter = record {
  id = "";
  organization_id = "";
  charge_id = "";
  pricing_group_keys = [];
  created_at = none;
  updated_at = none;
  deleted_at = none;
}

module _ (J : Json) where
  -- The object has the columns of the charge.
  pub record HasCharge (raw : Object) (row : Charge) : Type 0 where
    pub id : Holds J raw "id" (λ j. J.string j "") row.id
    pub organization_id : Holds J raw "organization_id" (λ j. J.string j "") row.organization_id
    pub plan_id : Holds J raw "plan_id" (λ j. J.string j "") row.plan_id
    pub billable_metric_id :
        Holds J raw "billable_metric_id" (λ j. J.string j "") row.billable_metric_id
    pub pay_in_advance : Holds J raw "pay_in_advance" (λ j. J.bool j false) row.pay_in_advance
    pub accepts_target_wallet :
        Holds J raw "accepts_target_wallet" (λ j. J.bool j false) row.accepts_target_wallet
    pub pricing_group_keys : HasKeys J raw row.pricing_group_keys
    pub created_at : Holds J raw "created_at" (decode_time J) row.created_at
    pub updated_at : Holds J raw "updated_at" (decode_time J) row.updated_at
    pub deleted_at : Holds J raw "deleted_at" (decode_time J) row.deleted_at

  pub record HasChargeFilter (raw : Object) (row : ChargeFilter) : Type 0 where
    pub id : Holds J raw "id" (λ j. J.string j "") row.id
    pub organization_id : Holds J raw "organization_id" (λ j. J.string j "") row.organization_id
    pub charge_id : Holds J raw "charge_id" (λ j. J.string j "") row.charge_id
    pub pricing_group_keys : HasKeys J raw row.pricing_group_keys
    pub created_at : Holds J raw "created_at" (decode_time J) row.created_at
    pub updated_at : Holds J raw "updated_at" (decode_time J) row.updated_at
    pub deleted_at : Holds J raw "deleted_at" (decode_time J) row.deleted_at

  decode_fields-HasCharge :
      (raw : Object) (row : Charge)
      → HasCharge raw row
      → Decodes J raw (charge_fields J) zero_charge row
  unfolding charge_fields first_part has_char
  decode_fields-HasCharge raw row d =
      column J raw "id" _ _ _ row.id (λ j. J.string j "") _ (refl, refl, refl) d.id (λ j. refl)
        (column J raw "organization_id" _ _ _ row.organization_id (λ j. J.string j "") _
          (refl, refl, refl) d.organization_id (λ j. refl)
          (column J raw "plan_id" _ _ _ row.plan_id (λ j. J.string j "") _ (refl, refl, refl)
            d.plan_id (λ j. refl)
            (column J raw "billable_metric_id" _ _ _ row.billable_metric_id (λ j. J.string j "") _
              (refl, refl, refl) d.billable_metric_id (λ j. refl)
              (column J raw "pay_in_advance" _ _ _ row.pay_in_advance (λ j. J.bool j false) _
                (refl, refl, refl) d.pay_in_advance (λ j. refl)
                (column J raw "accepts_target_wallet" _ _ _ row.accepts_target_wallet
                  (λ j. J.bool j false) _ (refl, refl, refl) d.accepts_target_wallet (λ j. refl)
                  (keys_column J raw _ _ _ row.pricing_group_keys
                    (λ v. record row {
                      pricing_group_keys = v;
                      created_at = none;
                      updated_at = none;
                      deleted_at = none;
                    })
                    d.pricing_group_keys (λ j. refl) refl
                    (column J raw "created_at" _ _ _ row.created_at (decode_time J) _
                      (refl, refl, refl) d.created_at (λ j. refl)
                      (column J raw "updated_at" _ _ _ row.updated_at (decode_time J) _
                        (refl, refl, refl) d.updated_at (λ j. refl)
                        (column J raw "deleted_at" _ _ _ row.deleted_at (decode_time J) _
                          (refl, refl, refl) d.deleted_at (λ j. refl) (all_decoded J))))))))))

  decode_fields-HasChargeFilter :
      (raw : Object) (row : ChargeFilter)
      → HasChargeFilter raw row
      → Decodes J raw (charge_filter_fields J) zero_charge_filter row
  unfolding charge_filter_fields first_part has_char
  decode_fields-HasChargeFilter raw row d =
      column J raw "id" _ _ _ row.id (λ j. J.string j "") _ (refl, refl, refl) d.id (λ j. refl)
        (column J raw "organization_id" _ _ _ row.organization_id (λ j. J.string j "") _
          (refl, refl, refl) d.organization_id (λ j. refl)
          (column J raw "charge_id" _ _ _ row.charge_id (λ j. J.string j "") _ (refl, refl, refl)
            d.charge_id (λ j. refl)
            (keys_column J raw _ _ _ row.pricing_group_keys
              (λ v. record row {
                pricing_group_keys = v;
                created_at = none;
                updated_at = none;
                deleted_at = none;
              })
              d.pricing_group_keys (λ j. refl) refl
              (column J raw "created_at" _ _ _ row.created_at (decode_time J) _ (refl, refl, refl)
                d.created_at (λ j. refl)
                (column J raw "updated_at" _ _ _ row.updated_at (decode_time J) _ (refl, refl, refl)
                  d.updated_at (λ j. refl)
                  (column J raw "deleted_at" _ _ _ row.deleted_at (decode_time J) _
                    (refl, refl, refl) d.deleted_at (λ j. refl) (all_decoded J)))))))

  -- A change message of a charge decodes to the charge, wherever its object has the columns, and
  -- whatever else it has: the group keys are read in its properties, and there are none if the
  -- properties are missing, null or no object, or have none.
  pub unmarshal_nested_json-HasCharge :
      (json : String) (raw : Object) (row : Charge)
      → J.object json ≡ ok raw
      → HasCharge raw row
      → unmarshal_nested_json J.object (charge_fields J) json zero_charge ≡ ok row
  unfolding unmarshal_nested_json
  unmarshal_nested_json-HasCharge json raw row e d =
      rw (e, unmarshal_nested_json) (decoded J (decode_fields-HasCharge raw row d))

  -- The same of a charge filter.
  pub unmarshal_nested_json-HasChargeFilter :
      (json : String) (raw : Object) (row : ChargeFilter)
      → J.object json ≡ ok raw
      → HasChargeFilter raw row
      → unmarshal_nested_json J.object (charge_filter_fields J) json zero_charge_filter ≡ ok row
  unfolding unmarshal_nested_json
  unmarshal_nested_json-HasChargeFilter json raw row e d =
      rw (e, unmarshal_nested_json) (decoded J (decode_fields-HasChargeFilter raw row d))
