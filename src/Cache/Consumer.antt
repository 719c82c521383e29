-- ===== src/Cache/Consumer.antt =====
-- events-processor/cache/consumer.go: how a change message updates the cache.
use lago.Prelude.{
  ◌≡◌, ℕ, String, str_eq, Bool, false, not, Option, none, some, ◌&&◌, leb, if◌then◌else◌,
}
use lago.Cache.Store.{Badger, Codec}
use lago.Cache.Json.{get_json, set_json}
use lago.Utils.Result.{Except, ok, error, Result, failure, success}

-- The functions take the time of the call and the store, and return the new store.
pub record ConsumerConfig (Db T : Type 0) : Type 0 where
  pub topic : String
  pub model_name : String
  pub is_deleted : T → Bool
  pub get_key : T → String
  pub get_id : T → String
  pub get_updated_at : T → ℕ
  pub get_cached : ℕ → T → Db → Result (Option T)
  pub set_cache : T → Db → Result Bool × Db
  pub delete : ℕ → T → Db → Result Bool × Db

module _ {Db T : Type 0} (config : ConsumerConfig Db T) where
  -- A message of a deleted row; `existing` is the pointer that a successful read returns.
  unfoldable pub process_deleted : ℕ → T → Option T → Db → Db
  process_deleted now model none db = db
  process_deleted now model (some existing) db =
      if not (str_eq (config.get_id existing) (config.get_id model))
      then db
      else (config.delete now model db).1

  -- Whether the cached version is newer than the message or as new.
  unfoldable pub is_current : Option T → T → Bool
  is_current none model = false
  is_current (some existing) model =
      leb (config.get_updated_at model) (config.get_updated_at existing)

  -- The body of `processRecord` behind the decoding of the message.
  unfoldable pub process_model : ℕ → T → Db → Db
  unfolding process_deleted is_current failure success
  process_model now model db =
      let existing_res = config.get_cached now model db in
      if config.is_deleted model
      then if failure existing_res then db else process_deleted now model existing_res.value db
      else if success existing_res && is_current existing_res.value model
      then db
      else (config.set_cache model db).1

  -- `decode` stands for `UnmarshalNestedJSON` at the model's type.
  unfoldable pub process_record : {Bytes : Type 0} → (Bytes → Except T) → ℕ → Bytes → Db → Db
  unfolding process_model
  process_record decode now value db = elim (decode value) [
    | error e ↦ db
    | ok model ↦ process_model now model db
  ]

-- What the theorems about messages use of a table's configuration, at one row: the cache is read
-- and written under the row's key, and a round through JSON keeps the key and what is compared.
pub record IsLawful (B : Badger) {T : Type 0} {stored : T → T} (C : Codec B.Bytes T stored)
    (config : ConsumerConfig B.Db T) (row : T) : Type 0 where
  pub get_cached-eq :
      (now : ℕ) (db : B.Db)
      → config.get_cached now row db ≡ get_json B C now (config.get_key row) db
  pub set_cache-eq :
      (db : B.Db) → config.set_cache row db ≡ set_json B C (config.get_key row) row db
  pub key-stored : config.get_key (stored row) ≡ config.get_key row
  pub id-stored : config.get_id (stored row) ≡ config.get_id row
  pub updated_at-stored : config.get_updated_at (stored row) ≡ config.get_updated_at row
