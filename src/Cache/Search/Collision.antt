-- ===== src/Cache/Search/Collision.antt =====
-- What a search answers where an external identifier extends the one that is asked for by a colon.
use lago.Prelude.{
  ℕ, String, cat, str_eq, eq_refl, starts_with, true, List, [], ◌∷◌, some, snoc, ◌≡◌, In, inl, inr,
  refl, sym, ap, ◌∙◌, subst, Bool-cases, false≢true,
}
use lago.Utils.Result.{
  Except-cases, is_ok, ok, ok-injective, Result, success_result, failed_result, success,
}
use lago.Utils.NullTime.{Time}
use lago.Models.Tables.{Subscription, stored_subscription}
use lago.Cache.Store.{Badger, Laws, Codec}
use lago.Cache.Json.{search_json, decode_all}
use lago.Cache.Subscriptions.{build_subscription_key}
use lago.Cache.Search.{is_valid, search_prefix, search_subscriptions}
use lago.Cache.Search.Keys.{search_prefix_collision}
use lago.Cache.Search.Lookup.{search_subscriptions-first, search_json-In}

snoc-here : {A : Type 0} (xs : List A) (x : A) → In x (snoc xs x)
snoc-here [] x = inl refl
snoc-here (y ∷ xs) x = inr (snoc-here xs x)

snoc-there : {A : Type 0} (xs : List A) (x y : A) → In y xs → In y (snoc xs x)
snoc-there [] x y m = elim m [ ]
snoc-there (z ∷ xs) x y (inl e) = inl e
snoc-there (z ∷ xs) x y (inr m) = inr (snoc-there xs x y m)

module _ (B : Badger) (C : Codec B.Bytes Subscription stored_subscription) where
  decode_all-seen :
      (values : List B.Bytes) (seen results : List Subscription) (sub : Subscription)
      → decode_all B C values seen ≡ ok results
      → In sub seen
      → In sub results
  unfolding decode_all
  decode_all-seen [] seen results sub e m = subst (In sub) (ok-injective e) m
  decode_all-seen (v ∷ values) seen results sub e m = elim (Except-cases (C.unmarshal v)) [
    | inl (er, u) ↦ absurd (false≢true (ap is_ok (rw (u, decode_all) at e)))
    | inr (x, u) ↦
        decode_all-seen values (snoc seen x) results sub (rw (u, decode_all) at e)
          (snoc-there seen x sub m)
  ]

  -- Each value that decodes is among the results.
  decode_all-all :
      (values : List B.Bytes) (seen results : List Subscription) (b : B.Bytes) (sub : Subscription)
      → decode_all B C values seen ≡ ok results
      → In b values
      → C.unmarshal b ≡ ok sub
      → In sub results
  unfolding decode_all
  decode_all-all [] seen results b sub e m u = elim m [ ]
  decode_all-all (v ∷ values) seen results b sub e m u = elim (Except-cases (C.unmarshal v)) [
    | inl (er, f) ↦ absurd (false≢true (ap is_ok (rw (f, decode_all) at e)))
    | inr (x, f) ↦ elim m [
      | inr n ↦ decode_all-all values (snoc seen x) results b sub (rw (f, decode_all) at e) n u
      | inl same ↦
          let eq : x ≡ sub = ok-injective (sym f ∙ ap C.unmarshal same ∙ u) in
          decode_all-seen values (snoc seen x) results sub (rw (f, decode_all) at e)
            (subst (λ y. In y (snoc seen x)) eq (snoc-here seen x))
    ]
  ]

module _ (B : Badger) (L : Laws B) (C : Codec B.Bytes Subscription stored_subscription) where
  -- What lies under a prefix is among the rows that are read for it.
  search_json-all :
      (now : ℕ) (prefix k : String) (db : B.Db) (subs : List Subscription) (bytes : B.Bytes)
      (sub : Subscription)
      → search_json B C now prefix db ≡ success_result subs
      → starts_with k prefix ≡ true
      → B.get now k db ≡ ok bytes
      → C.unmarshal bytes ≡ ok sub
      → In sub subs
  unfolding search_json success_result failed_result success
  search_json-all now prefix k db subs bytes sub e t g u =
      elim (Except-cases (B.iterate now prefix db)) [
        | inl (er, i) ↦ absurd (false≢true (ap success (rw (i, search_json) at e)))
        | inr (values, i) ↦ elim (Except-cases (decode_all B C values [])) [
          | inl (er, d) ↦
              absurd (false≢true (ap success (rw (d, search_json) at (rw (i, search_json) at e))))
          | inr (results, d) ↦
              let same =
                ap (λ (r : Result (List Subscription)). r.value)
                  (rw (d, search_json) at (rw (i, search_json) at e)) in
              let m = (L.iterate-get now prefix db values bytes i).1 (k, t, g) in
              subst (In sub) same (decode_all-all B C values [] results bytes sub d m u)
        ]
      ]

  -- Where the store holds nothing under the prefix of a search, and then takes a subscription whose
  -- external identifier extends the one that is asked for by a colon and a text, the search answers
  -- with that subscription for every event that it is valid for: the program hands out the
  -- subscription of one customer for the events of another.
  pub search_subscriptions-collision :
      (now : ℕ) (org external suffix : String) (timestamp : Time) (sub : Subscription)
      (bytes : B.Bytes) (db db' : B.Db) (subs : List Subscription)
      → sub.external_id ≡ cat external (cat ":" suffix)
      → C.marshal sub ≡ ok bytes
      → B.set (build_subscription_key org sub.external_id sub.id) bytes db ≡ ok db'
      → ((k : String) (v : B.Bytes)
          → starts_with k (search_prefix org external) ≡ true
          → B.get now k db ≡ ok v
          → ⊥)
      → search_json B C now (search_prefix org external) db' ≡ success_result subs
      → is_valid timestamp (stored_subscription sub) ≡ true
      → search_subscriptions B C now org external timestamp db'
        ≡ success_result (some (stored_subscription sub))
  search_subscriptions-collision now org external suffix timestamp sub bytes db db' subs extends m
        set bare read valid =
      let prefix = search_prefix org external in
      let key = build_subscription_key org sub.external_id sub.id in
      let meets : starts_with key prefix ≡ true =
        subst (λ x. starts_with (build_subscription_key org x sub.id) prefix ≡ true) (sym extends)
          (search_prefix_collision org external suffix sub.id) in
      let law = λ (j : String). L.get-set now key j bytes db db' set in
      let decoded = C.unmarshal-marshal sub bytes m in
      let own : B.get now key db' ≡ ok bytes = law key ∙ rw eq_refl refl in
      elim (search_subscriptions-first B C now org external timestamp db' subs read) [
        | inr (e, invalid) ↦
            let among = search_json-all now prefix key db' subs bytes _ read meets own decoded in
            absurd (false≢true (sym (invalid (stored_subscription sub) among) ∙ valid))
        | inl (b, e, n, v, first) ↦
            let (values, other, it, mo, u) = search_json-In B C now prefix db' subs b read n in
            let (k, starts, got) = (L.iterate-get now prefix db' values other it).0 mo in
            elim (Bool-cases (str_eq key k)) [
              | inr miss ↦ absurd (bare k other starts (rw miss at (sym (law k) ∙ got)))
              | inl hit ↦
                  let same : bytes ≡ other = ok-injective (rw hit at (sym (law k) ∙ got)) in
                  let eq : stored_subscription sub ≡ b =
                    ok-injective (sym decoded ∙ ap C.unmarshal same ∙ u) in
                  e ∙ ap (λ x. success_result (some x)) (sym eq)
            ]
      ]
