-- ===== src/Cache/ChargeMessages.antt =====
-- From the text of a change message of a charge to what the cache answers.
use lago.Prelude.{ℕ, String, str_eq, not, true, ◌&&◌, none, is_some, ◌≡◌, ap, if◌then◌else◌}
use lago.Utils.Result.{Except, ok, success}
use lago.Utils.NestedJson.{Object, unmarshal_nested_json}
use lago.Models.Tables.{Charge, stored_charge}
use lago.Models.Payloads.{Json, charge_fields}
use lago.Models.Payloads.Decoding.{zero_charge, HasCharge, unmarshal_nested_json-HasCharge}
use lago.Cache.Store.{Badger, Laws, Codec}
use lago.Cache.Json.{set_json, get_json}
use lago.Cache.Writes.{Found}
use lago.Cache.Consumer.{ConsumerConfig, process_record}
use lago.Cache.Charges.{charges_consumer, charges_consumer-IsLawful}
use lago.Cache.Messages.{IsUpsert, has_current, process_model-upsert}

module _ (B : Badger) (L : Laws B) (C : Codec B.Bytes Charge stored_charge) (J : Json)
    (topic_prefix : String) where
  abbrev config : ConsumerConfig B.Db Charge
  config = charges_consumer B C topic_prefix

  -- `UnmarshalNestedJSON` into a fresh charge.
  abbrev pub decode_charge : String → Except Charge
  decode_charge json = unmarshal_nested_json J.object (charge_fields J) json zero_charge

  live_charge :
      (row : Charge)
      → row.deleted_at ≡ none
      → ((db : B.Db) → success (set_json B C (config.get_key row) row db).0 ≡ true)
      → IsUpsert B C config row
  unfolding charges_consumer
  live_charge row live written = record {
    lawful = charges_consumer-IsLawful B C topic_prefix row;
    live = ap is_some live;
    written = written;
  }

  -- A change message that has the columns of a charge which is not deleted, and which the store takes,
  -- makes the key of the charge answer the charge, as JSON gives it back, unless the version there is
  -- at least as new; every other key answers what it answered before.
  pub process_record-HasCharge :
      (now later : ℕ) (json k : String) (raw : Object) (row : Charge) (db : B.Db)
      → J.object json ≡ ok raw
      → HasCharge J raw row
      → row.deleted_at ≡ none
      → ((at : B.Db) → success (set_json B C (config.get_key row) row at).0 ≡ true)
      → get_json B C later k (process_record config decode_charge now json db) ≡ (
          if str_eq (config.get_key row) k && not (has_current B C config now row db)
          then Found (stored_charge row)
          else get_json B C later k db)
  unfolding process_record
  process_record-HasCharge now later json k raw row db object columns live written =
      let decoded = unmarshal_nested_json-HasCharge J json raw row object columns in
      rw (decoded, process_record)
        (process_model-upsert B L C config now later row k db (live_charge row live written))
