-- ===== src/Cache/Messages/Commuting.antt =====
-- Two messages of different versions leave the same, whichever is handled first.
use lago.Prelude.{
  ℕ, String, str_eq, eq_iff, false, ◌&&◌, Option, ◌≡◌, ◌≢◌, refl, leb, if◌then◌else◌, Bool-cases,
  inl, inr, arith,
}
use lago.Utils.Result.{Result, success_result, success}
use lago.Cache.Store.{Badger, Laws, Codec}
use lago.Cache.Json.{get_json}
use lago.Cache.Consumer.{ConsumerConfig, is_current, process_model}
use lago.Cache.Writes.{Found, get_json-cases}
use lago.Cache.Messages.{IsUpsert, process_model-upsert}

module _ (B : Badger) (L : Laws B) {T : Type 0} {stored : T → T} (C : Codec B.Bytes T stored)
    (config : ConsumerConfig B.Db T) where
  -- What a message makes of the version that a key holds.
  merge : T → Result (Option T) → Result (Option T)
  merge row r = if success r && is_current config r.value row then r else Found (stored row)

  seen_after :
      (now : ℕ) (row : T) (j : String) (db : B.Db)
      → IsUpsert B C config row
      → get_json B C now j (process_model config now row db) ≡ (
          if str_eq (config.get_key row) j
          then merge row (get_json B C now j db)
          else get_json B C now j db)
  unfolding merge
  seen_after now row j db u =
      rw (process_model-upsert B L C config now now row j db u)
        (elim (Bool-cases (str_eq (config.get_key row) j)) [
          | inr other ↦ rw other
          | inl same ↦ rw same (rw ((eq_iff _ _).0 same) (ground arith))
        ])

  merge_none :
      (row : T) (r : Result (Option T)) → success r ≡ false → merge row r ≡ Found (stored row)
  unfolding merge
  merge_none row r f = rw f

  merge_some :
      (row x : T)
      → merge row (Found x) ≡ (
          if leb (config.get_updated_at row) (config.get_updated_at x)
          then Found x
          else Found (stored row))
  unfolding merge is_current success success_result
  merge_some row x = refl

  merge_comm_some :
      (a b x : T)
      → config.get_updated_at (stored a) ≡ config.get_updated_at a
      → config.get_updated_at (stored b) ≡ config.get_updated_at b
      → config.get_updated_at a ≢ config.get_updated_at b
      → merge a (merge b (Found x)) ≡ merge b (merge a (Found x))
  merge_comm_some a b x ea eb ne =
      rw (merge_some a x, merge_some b x)
        (ground
          (arith, merge_some a x, merge_some b x, merge_some a (stored b), merge_some b (stored a)))

  merge_comm :
      (now : ℕ) (a b : T) (j : String) (db : B.Db)
      → config.get_updated_at (stored a) ≡ config.get_updated_at a
      → config.get_updated_at (stored b) ≡ config.get_updated_at b
      → config.get_updated_at a ≢ config.get_updated_at b
      → merge a (merge b (get_json B C now j db)) ≡ merge b (merge a (get_json B C now j db))
  merge_comm now a b j db ea eb ne = elim (get_json-cases B C now j db) [
    | inl (x, e) ↦ rw e (merge_comm_some a b x ea eb ne)
    | inr f ↦
        rw (merge_none a _ f, merge_none b _ f)
          (ground (arith, merge_some a (stored b), merge_some b (stored a)))
  ]

  -- Two messages of live rows whose writes the store accepts, of different versions, leave the same
  -- at every key, whichever is handled first.
  pub process_model_comm :
      (now : ℕ) (a b : T) (j : String) (db : B.Db)
      → IsUpsert B C config a
      → IsUpsert B C config b
      → config.get_updated_at a ≢ config.get_updated_at b
      → get_json B C now j (process_model config now a (process_model config now b db))
        ≡ get_json B C now j (process_model config now b (process_model config now a db))
  process_model_comm now a b j db ua ub ne =
      rw
        (
          seen_after now a j (process_model config now b db) ua,
          seen_after now b j (process_model config now a db) ub,
        )
        (rw (seen_after now a j db ua, seen_after now b j db ub)
          (ground (
            arith,
            merge_comm now a b j db ua.lawful.updated_at-stored ub.lawful.updated_at-stored ne,
          )))
