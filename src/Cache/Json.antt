-- ===== src/Cache/Json.antt =====
-- events-processor/cache/cache.go: reading and writing models as JSON, and the snapshot loader.
use lago.Prelude.{
  ℕ, ◌+◌, String, str_eq, Bool, true, List, [], ◌∷◌, snoc, Option, none, some, if◌then◌else◌,
}
use lago.Utils.Result.{
  Error, key_not_found, record_not_found, errorf, Except, ok, error, Result, success_result,
  failed_result, failed_bool_result, non_retryable, non_capturable, failure,
}
use lago.Cache.Store.{Badger, Codec}

-- How `getJSON` reports an error of the transaction: a missing key is neither captured nor retried.
unfoldable pub lookup_error : {T : Type 0} → Error → Result (Option T)
unfolding failed_result non_capturable non_retryable
lookup_error key_not_found = non_retryable (non_capturable (failed_result none key_not_found))
lookup_error record_not_found = failed_result none record_not_found
lookup_error (errorf text) = failed_result none (errorf text)

module _ (B : Badger) where
  unfoldable pub delete : String → B.Db → Result Bool × B.Db
  unfolding success_result failed_bool_result
  delete key db = elim (B.delete key db) [
    | ok db' ↦ (success_result true, db')
    | error e ↦ (failed_bool_result e, db)
  ]

module _ (B : Badger) {T : Type 0} {stored : T → T} (C : Codec B.Bytes T stored) where
  unfoldable pub set_json : String → T → B.Db → Result Bool × B.Db
  unfolding success_result failed_bool_result
  set_json key value db = elim (C.marshal value) [
    | error e ↦ (failed_bool_result e, db)
    | ok bytes ↦ elim (B.set key bytes db) [
      | ok db' ↦ (success_result true, db')
      | error e ↦ (failed_bool_result e, db)
    ]
  ]

  unfoldable pub delete_with_ttl : ℕ → String → T → ℕ → B.Db → Result Bool × B.Db
  unfolding success_result failed_bool_result
  delete_with_ttl now key value ttl db = elim (C.marshal value) [
    | error e ↦ (failed_bool_result e, db)
    | ok bytes ↦ elim (B.set_entry now key bytes ttl db) [
      | ok db' ↦ (success_result true, db')
      | error e ↦ (failed_bool_result e, db)
    ]
  ]

  -- What the transaction of `getJSON` found, decoded.
  unfoldable pub read_entry : Except B.Bytes → Result (Option T)
  unfolding success_result lookup_error
  read_entry (error e) = lookup_error e
  read_entry (ok bytes) = elim (C.unmarshal bytes) [
    | ok out ↦ success_result (some out)
    | error e ↦ lookup_error e
  ]

  unfoldable pub get_json : ℕ → String → B.Db → Result (Option T)
  unfolding read_entry
  get_json now key db = read_entry (B.get now key db)

  -- The loop of `searchJSON`; it stops at the first value that does not decode.
  unfoldable pub decode_all : List B.Bytes → List T → Except (List T)
  decode_all [] results = ok results
  decode_all (val ∷ rest) results = elim (C.unmarshal val) [
    | ok out ↦ decode_all rest (snoc results out)
    | error e ↦ error e
  ]

  unfoldable pub search_json : ℕ → String → B.Db → Result (List T)
  unfolding decode_all success_result failed_result
  search_json now prefix db = elim (B.iterate now prefix db) [
    | error e ↦ failed_result [] e
    | ok values ↦ elim (decode_all values []) [
      | error e ↦ failed_result [] e
      | ok results ↦ success_result results
    ]
  ]

  -- The loop of `LoadSnapshot`: an item with no key is skipped, one that fails is not counted.
  unfoldable pub load_items : (T → String) → List T → ℕ → B.Db → ℕ × B.Db
  unfolding set_json failure
  load_items key_fn [] count db = (count, db)
  load_items key_fn (item ∷ rest) count db =
      let skip = load_items key_fn rest count db in
      let (res, db') = set_json (key_fn item) item db in
      let next = load_items key_fn rest (if failure res then count else count + 1) db' in
      if str_eq (key_fn item) "" then skip else next

  unfoldable pub load_snapshot : Except (List T) → (T → String) → B.Db → Result ℕ × B.Db
  unfolding load_items success_result failed_result
  load_snapshot fetched key_fn db = elim fetched [
    | error e ↦ (failed_result 0 e, db)
    | ok list ↦ let (count, db') = load_items key_fn list 0 db in (success_result count, db')
  ]
