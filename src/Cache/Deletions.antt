-- ===== src/Cache/Deletions.antt =====
-- What a change message of a deleted row does to what readers of the cache see.
use lago.Prelude.{
  ℕ, ◌+◌, ◌≤◌, String, str_eq, true, ◌&&◌, some, ◌≡◌, ◌∙◌, ltb, if◌then◌else◌, Bool-cases, inl, inr,
  arith,
}
use lago.Utils.Result.{success_result, failure, success}
use lago.Models.Tables.{Subscription, stored_subscription}
use lago.Cache.Store.{Badger, Laws, Codec}
use lago.Cache.Json.{delete, delete_with_ttl, get_json}
use lago.Cache.Consumer.{ConsumerConfig, IsLawful, process_model}
use lago.Cache.Writes.{Found, Missing, get_json-cases, get_json-delete, get_json-delete_with_ttl}
use lago.Cache.Messages.{has_same_id}
use lago.Cache.Subscriptions.{
  key_or_empty, termination_ttl, subscriptions_consumer, subscriptions_consumer-IsLawful,
  consumer_delete-eq,
}

module _ (B : Badger) {T : Type 0} {stored : T → T} (C : Codec B.Bytes T stored)
    (config : ConsumerConfig B.Db T) where
  -- The configured deletion is called exactly when the cached version has the row's identifier.
  process_deleted_row :
      (now : ℕ) (row : T) (db : B.Db)
      → IsLawful B C config row
      → config.is_deleted row ≡ true
      → process_model config now row db
        ≡ (if has_same_id B C config now row db then (config.delete now row db).1 else db)
  unfolding process_model failure success success_result
  process_deleted_row now row db lawful deleted =
      rw (deleted, lawful.get_cached-eq now db)
        (elim (get_json-cases B C now (config.get_key row) db) [
          | inl (x, e) ↦ rw e (ground arith)
          | inr f ↦ ground (arith, f)
        ])

  -- Where a table deletes at once and the store accepts the deletion, a message with a deleted row
  -- removes its key if the cached version has the same identifier, and changes nothing otherwise;
  -- no other key is touched.
  pub process_model-deleted :
      (L : Laws B) (now later : ℕ) (row : T) (j : String) (db : B.Db)
      → IsLawful B C config row
      → config.is_deleted row ≡ true
      → config.delete now row db ≡ delete B (config.get_key row) db
      → success (delete B (config.get_key row) db).0 ≡ true
      → get_json B C later j (process_model config now row db) ≡ (
          if str_eq (config.get_key row) j && has_same_id B C config now row db
          then Missing
          else get_json B C later j db)
  process_model-deleted L now later row j db lawful deleted deletes done =
      rw (process_deleted_row now row db lawful deleted, deletes)
        (elim (Bool-cases (has_same_id B C config now row db)) [
          | inl same ↦
              rw same (get_json-delete B L C later (config.get_key row) j db done ∙ ground arith)
          | inr other ↦ rw other (ground arith)
        ])

-- A terminated subscription of an organization, where the store accepts the delayed deletion: if a
-- version with its identifier is cached, it stays readable, in its terminated version, for thirty
-- days after the message, and is gone from then on; otherwise nothing is added. No other key
-- changes.
pub process_model-terminated :
    (B : Badger) (L : Laws B) (C : Codec B.Bytes Subscription stored_subscription)
    (topic_prefix : String) (now later : ℕ) (sub : Subscription) (organization_id j : String)
    (db : B.Db)
    → now ≤ later
    → sub.organization_id ≡ some organization_id
    → (subscriptions_consumer B C topic_prefix).is_deleted sub ≡ true
    → success (delete_with_ttl B C now (key_or_empty sub) sub termination_ttl db).0 ≡ true
    → get_json B C later j (process_model (subscriptions_consumer B C topic_prefix) now sub db) ≡ (
        if str_eq (key_or_empty sub) j
          && has_same_id B C (subscriptions_consumer B C topic_prefix) now sub db
        then (if ltb later (now + termination_ttl)
            then Found (stored_subscription sub)
            else Missing)
        else get_json B C later j db)
process_model-terminated B L C topic_prefix now later sub organization_id j db le org ended done =
    let same = has_same_id B C (subscriptions_consumer B C topic_prefix) now sub db in
    rw
      (
        process_deleted_row B C (subscriptions_consumer B C topic_prefix) now sub db
            (subscriptions_consumer-IsLawful B C topic_prefix sub organization_id org) ended,
        consumer_delete-eq B C topic_prefix now sub organization_id db org,
      )
      (elim (Bool-cases same) [
        | inl hit ↦ rw hit (
            get_json-delete_with_ttl B L C now later termination_ttl (key_or_empty sub) j sub db le
              done
            ∙ ground arith)
        | inr miss ↦ rw miss (ground arith)
      ])
