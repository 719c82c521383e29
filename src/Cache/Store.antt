-- ===== src/Cache/Store.antt =====
-- The interfaces of what the cache calls: the in-memory key-value store (badger) and the JSON
-- codec of a stored type. `Laws` is what the theorems use of the store's documented behaviour.
use lago.Prelude.{
  ℕ, ◌+◌, ◌≤◌, String, str_eq, starts_with, true, ◌≡◌, ◌↔◌, List, In, ltb, if◌then◌else◌,
}
use lago.Utils.Result.{Except, ok, error, key_not_found}

-- One transaction each; `now` and the time to live are in seconds, as the store counts them. A
-- transaction that fails leaves the store as it was, so only a success has a new store.
pub record Badger : Type 1 where
  pub Db : Type 0
  pub Bytes : Type 0
  pub set : String → Bytes → Db → Except Db
  pub delete : String → Db → Except Db
  pub set_entry : ℕ → String → Bytes → ℕ → Db → Except Db
  pub get : ℕ → String → Db → Except Bytes
  -- the values of the keys with a prefix, in the order of the iterator
  pub iterate : ℕ → String → Db → Except (List Bytes)

pub record Laws (B : Badger) : Type 0 where
  pub get-set :
      (now : ℕ) (k j : String) (v : B.Bytes) (db db' : B.Db)
      → B.set k v db ≡ ok db'
      → B.get now j db' ≡ (if str_eq k j then ok v else B.get now j db)
  pub get-delete :
      (now : ℕ) (k j : String) (db db' : B.Db)
      → B.delete k db ≡ ok db'
      → B.get now j db' ≡ (if str_eq k j then error key_not_found else B.get now j db)
  -- an entry with a time to live is there until that time has passed
  pub get-set_entry :
      (now later ttl : ℕ) (k j : String) (v : B.Bytes) (db db' : B.Db)
      → now ≤ later
      → B.set_entry now k v ttl db ≡ ok db'
      → B.get later j db' ≡ (
          if str_eq k j
          then (if ltb later (now + ttl) then ok v else error key_not_found)
          else B.get later j db)
  -- the iterator meets exactly the entries whose key has the prefix
  pub iterate-get :
      (now : ℕ) (p : String) (db : B.Db) (vs : List B.Bytes) (v : B.Bytes)
      → B.iterate now p db ≡ ok vs
      → In v vs ↔ ((k : String) × (starts_with k p ≡ true) × (B.get now k db ≡ ok v))

-- `encoding/json` at one type: `stored` says what decoding gives back for an encoded value.
pub record Codec (Bytes T : Type 0) (stored : T → T) : Type 0 where
  pub marshal : T → Except Bytes
  pub unmarshal : Bytes → Except T
  pub unmarshal-marshal : (x : T) (b : Bytes) → marshal x ≡ ok b → unmarshal b ≡ ok (stored x)
