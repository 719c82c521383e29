-- ===== src/Cache/Subscriptions.antt =====
-- events-processor/cache/subscriptions.go: the keys of subscriptions, their reads and writes, and
-- their consumer. A row with no organization has no key.
use lago.Prelude.{
  ℕ, ◌*◌, String, cat, join, Bool, Option, none, some, List, [], ◌∷◌, ◌≡◌, refl, is_some,
}
use lago.Utils.Result.{
  Error, errorf, Except, ok, error, Result, to_except, failed_result, failed_bool_result,
}
use native.Mathlib.Omega.{arith}
use lago.Utils.NullTime.{time_of, unix_milli, unix_milli-stored_time}
use lago.Models.Tables.{Subscription, stored_subscription}
use lago.Cache.Store.{Badger, Codec}
use lago.Cache.Json.{delete_with_ttl, set_json, get_json, load_snapshot}
use lago.Cache.Consumer.{ConsumerConfig, IsLawful}

unfoldable pub build_subscription_key : String → String → String → String
build_subscription_key organization_id external_id id =
    join ":" ("sub" ∷ organization_id ∷ external_id ∷ id ∷ [])

no_organization : Subscription → Error
no_organization sub = errorf (cat "subscription " (cat sub.id " has nil OrganizationID"))

unfoldable pub subscription_key : Subscription → Except String
unfolding no_organization
subscription_key sub = elim sub.organization_id [
  | none ↦ error (no_organization sub)
  | some organization_id ↦ ok (build_subscription_key organization_id sub.external_id sub.id)
]

-- The key that the snapshot and the consumer use: empty where there is none.
unfoldable pub key_or_empty : Subscription → String
unfolding subscription_key
key_or_empty sub = elim (subscription_key sub) [ ok key ↦ key | error e ↦ "" ]

-- 30 days, in seconds
abbrev pub termination_ttl : ℕ
termination_ttl = 30 * 24 * 3600

module _ (B : Badger) (C : Codec B.Bytes Subscription stored_subscription) where
  unfoldable pub set_subscription : Subscription → B.Db → Result Bool × B.Db
  unfolding subscription_key
  set_subscription sub db = elim (subscription_key sub) [
    | error e ↦ (failed_bool_result e, db)
    | ok key ↦ set_json B C key sub db
  ]

  unfoldable pub get_subscription :
      ℕ → String → String → String → B.Db → Result (Option Subscription)
  get_subscription now organization_id external_id id =
      get_json B C now (build_subscription_key organization_id external_id id)

  unfoldable pub delete_subscription : ℕ → Subscription → B.Db → Result Bool × B.Db
  unfolding subscription_key
  delete_subscription now sub db = elim (subscription_key sub) [
    | error e ↦ (failed_bool_result e, db)
    | ok key ↦ delete_with_ttl B C now key sub termination_ttl db
  ]

  -- `fetched` is what `models.GetAllSubscriptions` returned.
  unfoldable pub load_subscriptions_snapshot : Result (List Subscription) → B.Db → Result ℕ × B.Db
  unfolding key_or_empty
  load_subscriptions_snapshot fetched = load_snapshot B C (to_except fetched) key_or_empty

  unfoldable pub get_cached : ℕ → Subscription → B.Db → Result (Option Subscription)
  unfolding no_organization get_subscription failed_result
  get_cached now sub db = elim sub.organization_id [
    | none ↦ failed_result none (no_organization sub)
    | some organization_id ↦ get_subscription now organization_id sub.external_id sub.id db
  ]

  unfoldable pub subscriptions_consumer : String → ConsumerConfig B.Db Subscription
  unfolding key_or_empty get_cached set_subscription delete_subscription
  subscriptions_consumer topic_prefix = record {
    topic = cat topic_prefix ".public.subscriptions";
    model_name = "subscriptions";
    is_deleted = λ sub. is_some sub.terminated_at;
    get_key = key_or_empty;
    get_id = λ sub. sub.id;
    get_updated_at = λ sub. unix_milli (time_of sub.updated_at);
    get_cached = get_cached;
    set_cache = set_subscription;
    delete = delete_subscription;
  }

  -- For a row with an organization, reads and writes go to the key of the row, which JSON keeps.
  pub subscriptions_consumer-IsLawful :
      (topic_prefix : String) (sub : Subscription) (organization_id : String)
      → sub.organization_id ≡ some organization_id
      → IsLawful B C (subscriptions_consumer topic_prefix) sub
  unfolding subscriptions_consumer stored_subscription
  subscriptions_consumer-IsLawful topic_prefix sub organization_id h = record {
    get_cached-eq = λ now db. ground arith;
    set_cache-eq = λ db. ground arith;
    key-stored = refl;
    id-stored = refl;
    updated_at-stored = unix_milli-stored_time sub.updated_at;
  }

  pub consumer_delete-eq :
      (topic_prefix : String) (now : ℕ) (sub : Subscription) (organization_id : String) (db : B.Db)
      → sub.organization_id ≡ some organization_id
      → (subscriptions_consumer topic_prefix).delete now sub db
        ≡ delete_with_ttl B C now (key_or_empty sub) sub termination_ttl db
  unfolding subscriptions_consumer
  consumer_delete-eq topic_prefix now sub organization_id db h = ground arith
