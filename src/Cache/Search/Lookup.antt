-- ===== src/Cache/Search/Lookup.antt =====
-- What `SearchSubscriptions` answers, on every branch.
use lago.Prelude.{
  ℕ, String, true, false, List, [], ◌∷◌, subst, snoc, In-snoc, false≢true, none, some, ◌≡◌, ◌⊎◌,
  inl, inr, refl, In, sym, ap, ◌∙◌,
}
use lago.Utils.Result.{
  key_not_found, non_retryable, non_capturable, Except-cases, ok-injective, is_ok, Error, ok,
  Result, success_result, failed_result, success,
}
use lago.Utils.NullTime.{Time}
use lago.Models.Tables.{Subscription, stored_subscription}
use lago.Cache.Store.{Badger, Codec}
use lago.Cache.Json.{search_json, decode_all}
use lago.Cache.Search.{is_valid, search_prefix, search_result, select_match, search_subscriptions}
use lago.Cache.Search.Order.{ComesFirst, best_match-first}

module _ (B : Badger) (C : Codec B.Bytes Subscription stored_subscription) where
  -- Where the store can be read, the answer is a valid subscription under the prefix that comes
  -- first in the order of the database, or, when none there is valid, the error of a missing key,
  -- which is neither retried nor captured.
  pub search_subscriptions-first :
      (now : ℕ) (organization_id external_id : String) (timestamp : Time) (db : B.Db)
      (subs : List Subscription)
      → search_json B C now (search_prefix organization_id external_id) db ≡ success_result subs
      → ((b : Subscription) × (search_subscriptions B C now organization_id external_id timestamp db
            ≡ success_result (some b))
          × In b subs
          × (is_valid timestamp b ≡ true)
          × ((c : Subscription) → In c subs → is_valid timestamp c ≡ true → ComesFirst b c))
        ⊎ ((search_subscriptions B C now organization_id external_id timestamp db ≡ record {
          value = none;
          err = some key_not_found;
          details = none;
          retryable = false;
          capture = false;
        })
            × ((c : Subscription) → In c subs → is_valid timestamp c ≡ false))
  unfolding search_subscriptions success_result search_result failed_result non_retryable
      non_capturable
  search_subscriptions-first now organization_id external_id timestamp db subs read =
      elim (best_match-first timestamp subs) [
        | inl (b, e, m, v, first) ↦
            inl (b, ap (select_match timestamp) read ∙ ap search_result e, m, v, first)
        | inr (e, all) ↦ inr (ap (select_match timestamp) read ∙ ap search_result e, all)
      ]

  -- Where the store cannot be read, the answer is the store's error, to be captured and retried.
  pub search_subscriptions_failed :
      (now : ℕ) (organization_id external_id : String) (timestamp : Time) (db : B.Db) (e : Error)
      → search_json B C now (search_prefix organization_id external_id) db ≡ failed_result [] e
      → search_subscriptions B C now organization_id external_id timestamp db ≡ failed_result none e
  unfolding search_subscriptions failed_result
  search_subscriptions_failed now organization_id external_id timestamp db e read =
      ap (select_match timestamp) read

  decode_all-In :
      (values : List B.Bytes) (seen results : List Subscription) (sub : Subscription)
      → decode_all B C values seen ≡ ok results
      → In sub results
      → In sub seen ⊎ ((b : B.Bytes) × In b values × (C.unmarshal b ≡ ok sub))
  unfolding decode_all
  decode_all-In [] seen results sub e m = inl (subst (In sub) (sym (ok-injective e)) m)
  decode_all-In (v ∷ values) seen results sub e m = elim (Except-cases (C.unmarshal v)) [
    | inl (er, u) ↦ absurd (false≢true (ap is_ok (rw (u, decode_all) at e)))
    | inr (x, u) ↦
        elim (decode_all-In values (snoc seen x) results sub (rw (u, decode_all) at e) m) [
          | inr (b, n, d) ↦ inr (b, inr n, d)
          | inl n ↦ elim (In-snoc seen x sub n) [
            | inl old ↦ inl old
            | inr eq ↦ inr (v, inl refl, u ∙ ap ok eq)
          ]
        ]
  ]

  pub search_json-In :
      (now : ℕ) (prefix : String) (db : B.Db) (subs : List Subscription) (sub : Subscription)
      → search_json B C now prefix db ≡ success_result subs
      → In sub subs
      → (values : List B.Bytes) × (b : B.Bytes) × (B.iterate now prefix db ≡ ok values)
        × In b values
        × (C.unmarshal b ≡ ok sub)
  unfolding search_json success_result failed_result success
  search_json-In now prefix db subs sub e m = elim (Except-cases (B.iterate now prefix db)) [
    | inl (er, i) ↦ absurd (false≢true (ap success (rw (i, search_json) at e)))
    | inr (values, i) ↦ elim (Except-cases (decode_all B C values [])) [
      | inl (er, d) ↦
          absurd (false≢true (ap success (rw (d, search_json) at (rw (i, search_json) at e))))
      | inr (results, d) ↦
          let same =
            ap (λ (r : Result (List Subscription)). r.value)
              (rw (d, search_json) at (rw (i, search_json) at e)) in
          elim (decode_all-In values [] results sub d (subst (In sub) (sym same) m)) [
            | inl n ↦ elim n [ ]
            | inr (b, n, u) ↦ (values, b, i, n, u)
          ]
    ]
  ]
