-- ===== src/Cache/Snapshot.antt =====
-- What the cache holds after the snapshot of a table.
use lago.Prelude.{
  ℕ, String, str_eq, true, false, List, [], ◌∷◌, Option, none, some, ◌≡◌, refl, ◌∙◌, Bool-cases,
  inl, inr, if◌then◌else◌,
}
use lago.Utils.Result.{ok, Result, success}
use lago.Cache.Store.{Badger, Laws, Codec}
use lago.Cache.Json.{set_json, get_json, load_items, load_snapshot}
use lago.Cache.Messages.{IsLasting, set_json-IsLasting}
use lago.Cache.Writes.{Found, get_json-set_json}

module _ {T : Type 0} (key_fn : T → String) where
  -- The last row of the list that has the key.
  abbrev pub last_of : String → List T → Option T → Option T
  last_of k [] found = found
  last_of k (row ∷ rows) found = last_of k rows (if str_eq (key_fn row) k then some row else found)

module _ (B : Badger) (L : Laws B) {T : Type 0} {stored : T → T} (C : Codec B.Bytes T stored) where
  -- What a reader finds: the row as JSON gives it back, or what was there.
  abbrev pub read_row : Option T → Result (Option T) → Result (Option T)
  read_row none before = before
  read_row (some row) before = Found (stored row)

  read_row-set_json :
      (now : ℕ) (k : String) (row : T) (found : Option T) (key : String) (db : B.Db)
      (before : Result (Option T))
      → success (set_json B C key row db).0 ≡ true
      → get_json B C now k db ≡ read_row found before
      → get_json B C now k (set_json B C key row db).1
        ≡ read_row (if str_eq key k then some row else found) before
  read_row-set_json now k row found key db before w h = elim (Bool-cases (str_eq key k)) [
    | inl t ↦ get_json-set_json B L C now key k row db w ∙ rw t refl
    | inr f ↦ get_json-set_json B L C now key k row db w ∙ rw f h
  ]

  module _ (key_fn : T → String) where
    -- The row has a key, and the store accepts it under that key, whatever it holds.
    pub record IsAccepted (row : T) : Type 0 where
      pub keyed : str_eq (key_fn row) "" ≡ false
      pub written : (db : B.Db) → success (set_json B C (key_fn row) row db).0 ≡ true

    abbrev pub AllAccepted : List T → Type 0
    AllAccepted [] = Unit {0}
    AllAccepted (row ∷ rows) = IsAccepted row × AllAccepted rows

    load_items-read_row :
        (now : ℕ) (k : String) (rows : List T) (count : ℕ) (db : B.Db) (found : Option T)
        (before : Result (Option T))
        → AllAccepted rows
        → get_json B C now k db ≡ read_row found before
        → get_json B C now k (load_items B C key_fn rows count db).1
          ≡ read_row (last_of key_fn k rows found) before
    unfolding load_items
    load_items-read_row now k [] count db found before all h = h
    load_items-read_row now k (row ∷ rows) count db found before all h =
        rw (load_items, all.0.keyed)
          (load_items-read_row now k rows _ _ _ before all.1
            (read_row-set_json now k row found (key_fn row) db before (all.0.written db) h))

    -- After the snapshot of a table whose rows all have a key and are accepted by the store, each
    -- key reads the last row that was loaded under it, and the keys of no row what they read before.
    pub load_snapshot-get_json :
        (now : ℕ) (k : String) (rows : List T) (db : B.Db)
        → AllAccepted rows
        → get_json B C now k (load_snapshot B C (ok rows) key_fn db).1
          ≡ read_row (last_of key_fn k rows none) (get_json B C now k db)
    unfolding load_snapshot
    load_snapshot-get_json now k rows db all =
        load_items-read_row now k rows 0 db none (get_json B C now k db) all refl

    load_items-IsLasting :
        (rows : List T) (count : ℕ) (db : B.Db)
        → IsLasting B db
        → IsLasting B (load_items B C key_fn rows count db).1
    unfolding load_items
    load_items-IsLasting [] count db lasting = lasting
    load_items-IsLasting (row ∷ rows) count db lasting =
        elim (Bool-cases (str_eq (key_fn row) "")) [
          | inl skip ↦ rw (load_items, skip) (load_items-IsLasting rows _ db lasting)
          | inr keyed ↦
              rw (load_items, keyed)
                (load_items-IsLasting rows _ _
                  (set_json-IsLasting B L C (key_fn row) row db lasting))
        ]

    -- The snapshot of a table writes no entry with a time to live.
    pub load_snapshot-IsLasting :
        (rows : List T) (db : B.Db)
        → IsLasting B db
        → IsLasting B (load_snapshot B C (ok rows) key_fn db).1
    unfolding load_snapshot
    load_snapshot-IsLasting rows db lasting = load_items-IsLasting rows 0 db lasting
