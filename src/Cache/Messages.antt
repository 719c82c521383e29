-- ===== src/Cache/Messages.antt =====
-- What a change message does to what readers of the cache see: the newest version wins, whatever
-- the order and however often the messages arrive.
pub mod Commuting
use lago.Prelude.{
  In, ℕ, ◌≤◌, ◌<◌, String, str_eq, eq_refl, eq_iff, Bool, true, false, not, ◌&&◌, List, [], ◌∷◌,
  Option, none, some, ◌≡◌, ◌≢◌, refl, sym, ap, ◌∙◌, leb, if◌then◌else◌, Bool-cases, false≢true, ◌⊎◌,
  inl, inr, subst, arith,
}
use lago.Utils.Result.{Result, success_result, success}
use lago.Cache.Store.{Badger, Laws, Codec}
use lago.Cache.Json.{set_json, get_json}
use lago.Cache.Consumer.{ConsumerConfig, IsLawful, is_current, process_model}
use lago.Cache.Writes.{Found, get_json-set_json, get_json-cases, set_json-cases}

-- The store reads the same at any time: none of its entries has a time to live.
abbrev pub IsLasting : (B : Badger) → B.Db → Type 0
IsLasting B db = (now later : ℕ) (k : String) → B.get now k db ≡ B.get later k db

module _ (B : Badger) {T : Type 0} {stored : T → T} (C : Codec B.Bytes T stored)
    (config : ConsumerConfig B.Db T) where
  -- What a reader finds under the key of a row.
  abbrev pub cached : ℕ → T → B.Db → Result (Option T)
  cached now row db = get_json B C now (config.get_key row) db

  -- The cached version is newer than the row or as new.
  abbrev pub has_current : ℕ → T → B.Db → Bool
  has_current now row db =
      success (cached now row db) && is_current config (cached now row db).value row

  -- The cached version is one of the row with this identifier.
  abbrev pub has_same_id : ℕ → T → B.Db → Bool
  has_same_id now row db = success (cached now row db) && elim (cached now row db).value [
    | none ↦ false
    | some x ↦ str_eq (config.get_id x) (config.get_id row)
  ]

  -- What the theorems on streams ask of a message: its row is live, its table reads and writes
  -- under the row's key, and the store accepts the write.
  pub record IsUpsert (row : T) : Type 0 where
    pub lawful : IsLawful B C config row
    pub live : config.is_deleted row ≡ false
    pub written : (db : B.Db) → success (set_json B C (config.get_key row) row db).0 ≡ true

module _ (B : Badger) (L : Laws B) {T : Type 0} {stored : T → T} (C : Codec B.Bytes T stored) where
  read-IsLasting :
      (now later : ℕ) (j : String) (db : B.Db)
      → IsLasting B db
      → get_json B C now j db ≡ get_json B C later j db
  unfolding get_json
  read-IsLasting now later j db lasting = rw (lasting now later j)

  pub set_json-IsLasting :
      (key : String) (x : T) (db : B.Db) → IsLasting B db → IsLasting B (set_json B C key x db).1
  set_json-IsLasting key x db lasting now later j = elim (set_json-cases B C key x db) [
    | inl (e, f) ↦ rw f (lasting now later j)
    | inr (bytes, db', m, set, f) ↦ rw (
      f,
      L.get-set now key j bytes db db' set,
      L.get-set later key j bytes db db' set,
      lasting now later j,
    )
  ]

module _ (B : Badger) (L : Laws B) {T : Type 0} {stored : T → T} (C : Codec B.Bytes T stored)
    (config : ConsumerConfig B.Db T) where
  process_live :
      (now : ℕ) (row : T) (db : B.Db)
      → IsUpsert B C config row
      → process_model config now row db ≡ (
          if has_current B C config now row db
          then db
          else (set_json B C (config.get_key row) row db).1)
  unfolding process_model
  process_live now row db u = rw (u.live, u.lawful.get_cached-eq now db, u.lawful.set_cache-eq db)

  -- A message with a live row whose write the store accepts leaves at the row's key the cached
  -- version if that is as new, and the row as JSON gives it back otherwise; every other key keeps
  -- what it had.
  pub process_model-upsert :
      (now later : ℕ) (row : T) (j : String) (db : B.Db)
      → IsUpsert B C config row
      → get_json B C later j (process_model config now row db) ≡ (
          if str_eq (config.get_key row) j && not (has_current B C config now row db)
          then Found (stored row)
          else get_json B C later j db)
  process_model-upsert now later row j db u =
      rw (process_live now row db u) (elim (Bool-cases (has_current B C config now row db)) [
        | inl old ↦ rw old (ground arith)
        | inr new ↦ rw new (
            get_json-set_json B L C later (config.get_key row) j row db (u.written db)
            ∙ ground arith)
      ])

  -- Either the cached version is as new as the row, or there is none or an older one.
  current_cases :
      (now : ℕ) (row : T) (db : B.Db)
      → ((has_current B C config now row db ≡ true)
          × ((x : T) × (cached B C config now row db ≡ Found x)
              × (config.get_updated_at row ≤ config.get_updated_at x)))
        ⊎ ((has_current B C config now row db ≡ false)
            × ((x : T)
                → cached B C config now row db ≡ Found x
                → config.get_updated_at x < config.get_updated_at row))
  unfolding is_current success success_result
  current_cases now row db = elim (get_json-cases B C now (config.get_key row) db) [
    | inr f ↦ inr (rw f, λ x e. absurd (false≢true (sym f ∙ ap success e)))
    | inl (x, e) ↦ elim (Bool-cases (leb (config.get_updated_at row) (config.get_updated_at x))) [
      | inl le ↦ inl (rw e le, (x, e, ground arith))
      | inr gt ↦ inr (rw e gt, λ y e'. ground (arith, sym e ∙ e'))
    ]
  ]

  -- Seen at one moment, the row's own key holds a version at least as new as the row, and at least
  -- as new as the one that it held.
  upsert_own :
      (now : ℕ) (row : T) (db : B.Db)
      → IsUpsert B C config row
      → (x : T) × (cached B C config now row (process_model config now row db) ≡ Found x)
        × (config.get_updated_at row ≤ config.get_updated_at x)
  upsert_own now row db u = elim (current_cases now row db) [
    | inl (old, (x, e, le)) ↦ (
      x,
      rw (process_model-upsert now now row (config.get_key row) db u, old) (ground (arith, e)),
      le,
    )
    | inr (new, above) ↦ (
      stored row,
      rw (process_model-upsert now now row (config.get_key row) db u, new) (rw eq_refl),
      omega (arith, u.lawful.updated_at-stored),
    )
  ]

  upsert_keeps :
      (now : ℕ) (row : T) (j : String) (db : B.Db) (x : T)
      → IsUpsert B C config row
      → get_json B C now j db ≡ Found x
      → (y : T) × (get_json B C now j (process_model config now row db) ≡ Found y)
        × (config.get_updated_at x ≤ config.get_updated_at y)
  upsert_keeps now row j db x u h = elim (current_cases now row db) [
    | inl (old, _) ↦
        (x, rw (process_model-upsert now now row j db u, old) (ground (arith, h)), omega arith)
    | inr (new, above) ↦ elim (Bool-cases (str_eq (config.get_key row) j)) [
      | inr other ↦ (x, rw (process_model-upsert now now row j db u, other) h, omega arith)
      | inl same ↦ (
        stored row,
        rw (process_model-upsert now now row j db u, same, new),
        omega (arith, u.lawful.updated_at-stored, above x (rw ((eq_iff _ _).0 same) h)),
      )
    ]
  ]

  -- A version at least as new as the row makes its message a no-op.
  upsert_stale :
      (now : ℕ) (row x : T) (db : B.Db)
      → IsUpsert B C config row
      → cached B C config now row db ≡ Found x
      → config.get_updated_at row ≤ config.get_updated_at x
      → process_model config now row db ≡ db
  upsert_stale now row x db u h le =
      rw (process_live now row db u) (elim (current_cases now row db) [
        | inl (old, _) ↦ rw old
        | inr (new, above) ↦ absurd (omega (arith, above x h))
      ])

  -- Handling a message a second time changes nothing.
  pub process_model_twice :
      (now : ℕ) (row : T) (db : B.Db)
      → IsUpsert B C config row
      → process_model config now row (process_model config now row db)
        ≡ process_model config now row db
  process_model_twice now row db u =
      let (x, e, le) = upsert_own now row db u in
      upsert_stale now row x (process_model config now row db) u e le

  process_model-IsLasting :
      (now : ℕ) (row : T) (db : B.Db)
      → IsUpsert B C config row
      → IsLasting B db
      → IsLasting B (process_model config now row db)
  process_model-IsLasting now row db u lasting =
      subst (IsLasting B) (sym (process_live now row db u))
        (elim (Bool-cases (has_current B C config now row db)) [
          | inl old ↦ rw old lasting
          | inr new ↦ rw new (set_json-IsLasting B L C (config.get_key row) row db lasting)
        ])

  -- The messages of a partition, in the order in which they arrive, each with the time when it is
  -- handled.
  unfoldable pub process_models : List (ℕ × T) → B.Db → B.Db
  process_models [] db = db
  process_models ((now, row) ∷ messages) db =
      process_models messages (process_model config now row db)

  -- Each message of the list carries a live row.
  abbrev pub AllUpserts : List (ℕ × T) → Type 0
  AllUpserts [] = Unit {0}
  AllUpserts ((now, row) ∷ messages) = IsUpsert B C config row × AllUpserts messages

  pub models_keep :
      (later : ℕ) (messages : List (ℕ × T)) (j : String) (db : B.Db) (x : T)
      → IsLasting B db
      → AllUpserts messages
      → get_json B C later j db ≡ Found x
      → (y : T) × (get_json B C later j (process_models messages db) ≡ Found y)
        × (config.get_updated_at x ≤ config.get_updated_at y)
  unfolding process_models
  models_keep later [] j db x lasting us h = (x, h, omega arith)
  models_keep later ((now, row) ∷ messages) j db x lasting us h =
      let after = process_model config now row db in
      let lasting' = process_model-IsLasting now row db us.0 lasting in
      let (y, e, le) =
        upsert_keeps now row j db x us.0 (read-IsLasting B L C now later j db lasting ∙ h) in
      let (z, f, le') =
        models_keep later messages j after y lasting' us.1
          (read-IsLasting B L C later now j after lasting' ∙ e) in
      (z, f, omega arith)

  -- After a stream of live rows whose writes the store accepts, in any order and each handled at its
  -- own time, the cache holds at any time under the key of each of them a version at least as new as
  -- that row, provided that no entry of the store had a time to live when the stream began.
  pub process_models-newest :
      (later : ℕ) (messages : List (ℕ × T)) (db : B.Db) (now : ℕ) (row : T)
      → IsLasting B db
      → AllUpserts messages
      → In (now, row) messages
      → (x : T) × (cached B C config later row (process_models messages db) ≡ Found x)
        × (config.get_updated_at row ≤ config.get_updated_at x)
  unfolding process_models
  process_models-newest later [] db now row lasting us m = elim m [ ]
  process_models-newest later ((at, r) ∷ messages) db now row lasting us (inr m) =
      process_models-newest later messages (process_model config at r db) now row
        (process_model-IsLasting at r db us.0 lasting) us.1 m
  process_models-newest later ((at, r) ∷ messages) db now row lasting us (inl e) =
      let after = process_model config at r db in
      let lasting' = process_model-IsLasting at r db us.0 lasting in
      let (x, f, le) = upsert_own at r db us.0 in
      let (y, g, le') =
        models_keep later messages (config.get_key r) after x lasting' us.1
          (read-IsLasting B L C later at (config.get_key r) after lasting' ∙ f) in
      subst
        (λ (message : ℕ × T).
          (z : T) × (cached B C config later message.1 (process_models messages after) ≡ Found z)
          × (config.get_updated_at message.1 ≤ config.get_updated_at z))
        e (y, g, omega arith)
