-- ===== src/Cache/Writes.antt =====
-- What a reader of the cache sees after a write.
use lago.Prelude.{
  false, ℕ, ◌+◌, ◌≤◌, String, str_eq, true, Option, some, ◌≡◌, refl, ltb, if◌then◌else◌, Bool-cases,
  false≢true, ◌⊎◌, inl, inr,
}
use lago.Utils.Result.{
  Except-cases, Error, key_not_found, record_not_found, errorf, ok, Result, success_result,
  failed_bool_result, failure, success,
}
use lago.Cache.Store.{Badger, Laws, Codec}
use lago.Cache.Json.{lookup_error, delete, set_json, delete_with_ttl, read_entry, get_json}

-- What a successful read of an encoded value gives.
abbrev pub Found : {T : Type 0} → T → Result (Option T)
Found x = success_result (some x)

abbrev pub Missing : {T : Type 0} → Result (Option T)
Missing = lookup_error key_not_found

module _ (B : Badger) {T : Type 0} {stored : T → T} (C : Codec B.Bytes T stored) where
  read-marshal :
      (x : T) (bytes : B.Bytes)
      → C.marshal x ≡ ok bytes
      → read_entry B C (ok bytes) ≡ Found (stored x)
  unfolding read_entry
  read-marshal x bytes m = rw (C.unmarshal-marshal x bytes m, read_entry)

  lookup_error-failed : (e : Error) → success (lookup_error {T = T} e) ≡ false
  unfolding success lookup_error
  lookup_error-failed key_not_found = refl
  lookup_error-failed record_not_found = refl
  lookup_error-failed (errorf text) = refl

  -- A read finds a value or fails: it never succeeds with a nil pointer.
  pub get_json-cases :
      (now : ℕ) (k : String) (db : B.Db)
      → ((x : T) × (get_json B C now k db ≡ Found x)) ⊎ (success (get_json B C now k db) ≡ false)
  unfolding get_json read_entry
  get_json-cases now k db = elim (Except-cases (B.get now k db)) [
    | inl (e, g) ↦ inr (rw (g, get_json) (lookup_error-failed e))
    | inr (bytes, g) ↦ elim (Except-cases (C.unmarshal bytes)) [
      | inl (e, m) ↦ inr (rw (g, get_json) (rw (m, read_entry) (lookup_error-failed e)))
      | inr (x, m) ↦ inl (x, rw (g, get_json) (rw (m, read_entry)))
    ]
  ]

  pub set_json-cases :
      (k : String) (x : T) (db : B.Db)
      → ((e : Error) × (set_json B C k x db ≡ (failed_bool_result e, db)))
        ⊎ ((bytes : B.Bytes) × (db' : B.Db) × (C.marshal x ≡ ok bytes)
            × (B.set k bytes db ≡ ok db')
            × (set_json B C k x db ≡ (success_result true, db')))
  unfolding set_json
  set_json-cases k x db = elim (Except-cases (C.marshal x)) [
    | inl (e, m) ↦ inl (e, rw (m, set_json))
    | inr (bytes, m) ↦ elim (Except-cases (B.set k bytes db)) [
      | inl (e, s) ↦ inl (e, rw (m, set_json) (rw (s, set_json)))
      | inr (db', s) ↦ inr (bytes, db', m, s, rw (m, set_json) (rw (s, set_json)))
    ]
  ]

  pub delete_with_ttl-cases :
      (now ttl : ℕ) (k : String) (x : T) (db : B.Db)
      → ((e : Error) × (delete_with_ttl B C now k x ttl db ≡ (failed_bool_result e, db)))
        ⊎ ((bytes : B.Bytes) × (db' : B.Db) × (C.marshal x ≡ ok bytes)
            × (B.set_entry now k bytes ttl db ≡ ok db')
            × (delete_with_ttl B C now k x ttl db ≡ (success_result true, db')))
  unfolding delete_with_ttl
  delete_with_ttl-cases now ttl k x db = elim (Except-cases (C.marshal x)) [
    | inl (e, m) ↦ inl (e, rw (m, delete_with_ttl))
    | inr (bytes, m) ↦ elim (Except-cases (B.set_entry now k bytes ttl db)) [
      | inl (e, s) ↦ inl (e, rw (m, delete_with_ttl) (rw (s, delete_with_ttl)))
      | inr (db', s) ↦ inr (bytes, db', m, s, rw (m, delete_with_ttl) (rw (s, delete_with_ttl)))
    ]
  ]

delete-cases :
    (B : Badger) (k : String) (db : B.Db)
    → ((e : Error) × (delete B k db ≡ (failed_bool_result e, db)))
      ⊎ ((db' : B.Db) × (B.delete k db ≡ ok db') × (delete B k db ≡ (success_result true, db')))
unfolding delete
delete-cases B k db = elim (Except-cases (B.delete k db)) [
  | inl (e, s) ↦ inl (e, rw (s, delete))
  | inr (db', s) ↦ inr (db', s, rw (s, delete))
]

module _ (B : Badger) (L : Laws B) {T : Type 0} {stored : T → T} (C : Codec B.Bytes T stored) where
  -- A write that succeeds is what its key reads from then on, and changes no other key.
  pub get_json-set_json :
      (now : ℕ) (k j : String) (x : T) (db : B.Db)
      → success (set_json B C k x db).0 ≡ true
      → get_json B C now j (set_json B C k x db).1
        ≡ (if str_eq k j then Found (stored x) else get_json B C now j db)
  unfolding get_json success failed_bool_result
  get_json-set_json now k j x db h = elim (set_json-cases B C k x db) [
    | inl (e, f) ↦ absurd (false≢true (rw f at h))
    | inr (bytes, db', m, s, f) ↦ rw f (
        rw (L.get-set now k j bytes db db' s) (elim (Bool-cases (str_eq k j)) [
          | inl hit ↦ rw hit (read-marshal B C x bytes m)
          | inr miss ↦ rw miss
        ]))
  ]

  -- A write that fails changes nothing.
  pub set_json_failed :
      (k : String) (x : T) (db : B.Db)
      → failure (set_json B C k x db).0 ≡ true
      → (set_json B C k x db).1 ≡ db
  unfolding failure success_result
  set_json_failed k x db h = elim (set_json-cases B C k x db) [
    | inl (e, f) ↦ rw f
    | inr (bytes, db', m, s, f) ↦ absurd (false≢true (rw f at h))
  ]

  pub get_json-delete :
      (now : ℕ) (k j : String) (db : B.Db)
      → success (delete B k db).0 ≡ true
      → get_json B C now j (delete B k db).1
        ≡ (if str_eq k j then Missing else get_json B C now j db)
  unfolding get_json read_entry success failed_bool_result
  get_json-delete now k j db h = elim (delete-cases B k db) [
    | inl (e, f) ↦ absurd (false≢true (rw f at h))
    | inr (db', s, f) ↦ rw f (
        rw (L.get-delete now k j db db' s)
          (elim (Bool-cases (str_eq k j)) [ inl hit ↦ rw hit | inr miss ↦ rw miss ]))
  ]

  -- A delayed deletion keeps the value readable until the time to live has passed.
  pub get_json-delete_with_ttl :
      (now later ttl : ℕ) (k j : String) (x : T) (db : B.Db)
      → now ≤ later
      → success (delete_with_ttl B C now k x ttl db).0 ≡ true
      → get_json B C later j (delete_with_ttl B C now k x ttl db).1 ≡ (
          if str_eq k j
          then (if ltb later (now + ttl) then Found (stored x) else Missing)
          else get_json B C later j db)
  unfolding get_json read_entry success failed_bool_result
  get_json-delete_with_ttl now later ttl k j x db le h =
      elim (delete_with_ttl-cases B C now ttl k x db) [
        | inl (e, f) ↦ absurd (false≢true (rw f at h))
        | inr (bytes, db', m, s, f) ↦ rw f (
            rw (L.get-set_entry now later ttl k j bytes db db' le s)
              (elim (Bool-cases (str_eq k j)) [
                | inr miss ↦ rw miss
                | inl hit ↦ rw hit (elim (Bool-cases (ltb later (now + ttl))) [
                  | inl early ↦ rw early (read-marshal B C x bytes m)
                  | inr late ↦ rw late
                ])
              ]))
      ]
