-- ===== src/Cache/Search/Fetching.antt =====
-- The search in the cache and the query of the database, models/subscriptions.go, side by side.
use lago.Prelude.{
  ℕ, String, str_eq, true, false, List, Option, none, some, In, ◌≡◌, ◌↔◌, ◌⊎◌, inl, inr, refl, sym,
  ap, ◌∙◌, false≢true, arith,
}
use lago.Utils.Result.{
  key_not_found, record_not_found, Except, ok, error, Result, success_result, failed_result,
  non_retryable, non_capturable,
}
use lago.Utils.NullTime.{Time}
use lago.Models.Tables.{Subscription, stored_subscription}
use lago.Models.Fetch.{Database, failed_row_result, fetch_subscription}
use lago.Cache.Store.{Badger, Codec}
use lago.Cache.Json.{search_json}
use lago.Cache.Search.{is_valid, search_prefix, search_subscriptions}
use lago.Cache.Search.Order.{ComesFirst}
use lago.Cache.Search.Database.{IsMilli, query_conditions, is_valid-query_conditions}
use lago.Cache.Search.Lookup.{search_subscriptions-first}

-- What the query answers for the rows of one organization and one external identifier: a row that
-- meets the conditions and comes first in the order asked for, or, where there is none, no row.
abbrev pub Answers : Time → List Subscription → Except Subscription → Type 0
Answers timestamp rows (error e) = ⊥
Answers timestamp rows (ok sub) =
    (In sub rows
      × (str_eq sub.id "" ≡ false)
      × (query_conditions timestamp sub ≡ true)
      × ((c : Subscription) → In c rows → query_conditions timestamp c ≡ true → ComesFirst sub c))
    ⊎ ((str_eq sub.id "" ≡ true)
        × ((c : Subscription) → In c rows → query_conditions timestamp c ≡ false))

-- No two rows that meet the conditions share their place in the order asked for.
abbrev pub NoTies : Time → List Subscription → Type 0
NoTies timestamp rows =
    (a b : Subscription)
    → In a rows
    → In b rows
    → query_conditions timestamp a ≡ true
    → query_conditions timestamp b ≡ true
    → ComesFirst a b
    → ComesFirst b a
    → a ≡ b

-- Both find the same subscription, or neither finds one, and both failures are neither retried nor
-- captured.
abbrev pub Agree : Result (Option Subscription) → Result (Option Subscription) → Type 0
Agree cached fetched =
    ((b : Subscription) × (cached ≡ success_result (some b)) × (fetched ≡ success_result (some b)))
    ⊎ ((cached ≡ non_retryable (non_capturable (failed_result none key_not_found)))
        × (fetched ≡ non_retryable (non_capturable (failed_result none record_not_found))))

module _ (B : Badger) (C : Codec B.Bytes Subscription stored_subscription) (D : Database) where
  found :
      (org external : String) (timestamp : Time) (sub : Subscription)
      → D.find_subscription org external timestamp ≡ ok sub
      → str_eq sub.id "" ≡ false
      → fetch_subscription D org external timestamp ≡ success_result (some sub)
  unfolding fetch_subscription
  found org external timestamp sub e f = ground arith

  missing :
      (org external : String) (timestamp : Time) (sub : Subscription)
      → D.find_subscription org external timestamp ≡ ok sub
      → str_eq sub.id "" ≡ true
      → fetch_subscription D org external timestamp
        ≡ non_retryable (non_capturable (failed_result none record_not_found))
  unfolding fetch_subscription failed_row_result
  missing org external timestamp sub e f = rw (fetch_subscription, e) (rw f refl)

  -- Where the cache holds the rows of the table, the event and the starts of the subscriptions are at
  -- whole milliseconds, and no two rows that meet the conditions of the query share both their end
  -- and their start, the cache and the database answer the same subscription for an event, or both
  -- miss it with an error that is neither retried nor captured.
  pub search_subscriptions-fetch_subscription :
      (now : ℕ) (org external : String) (timestamp : Time) (db : B.Db)
      (subs rows : List Subscription) (sub : Subscription)
      → search_json B C now (search_prefix org external) db ≡ success_result subs
      → ((c : Subscription) → In c subs ↔ In c rows)
      → D.find_subscription org external timestamp ≡ ok sub
      → Answers timestamp rows (ok sub)
      → NoTies timestamp rows
      → IsMilli timestamp
      → ((c : Subscription) (s : Time) → In c rows → c.started_at ≡ some s → IsMilli s)
      → Agree
          (search_subscriptions B C now org external timestamp db)
          (fetch_subscription D org external timestamp)
  unfolding failed_result non_retryable non_capturable
  search_subscriptions-fetch_subscription now org external timestamp db subs rows sub read same
        asked answers distinct whole starts =
      elim (search_subscriptions-first B C now org external timestamp db subs read) [
        | inl (b, e, m, v, first) ↦ elim answers [
          | inl (mr, id, q, first') ↦
              let mb = (same b).0 m in
              let qb = sym (agrees b mb) ∙ v in
              let tie =
                distinct b sub mb mr qb q (first sub ((same sub).1 mr) (agrees sub mr ∙ q))
                  (first' b mb qb) in
              inl (
                sub,
                e ∙ ap (λ x. success_result (some x)) tie,
                found org external timestamp sub asked id,
              )
          | inr (id, no_row) ↦
              let mb = (same b).0 m in
              absurd (false≢true (sym (no_row b mb) ∙ sym (agrees b mb) ∙ v))
        ]
        | inr (e, invalid) ↦ elim answers [
          | inl (mr, id, q, first') ↦
              absurd (false≢true (sym (invalid sub ((same sub).1 mr)) ∙ agrees sub mr ∙ q))
          | inr (id, no_row) ↦ inr (e, missing org external timestamp sub asked id)
        ]
      ]
    where
      agrees : (c : Subscription) → In c rows → is_valid timestamp c ≡ query_conditions timestamp c
      agrees c m = is_valid-query_conditions timestamp c whole (λ s h. starts c s m h)
