-- ===== src/Cache/Search/Customer.antt =====
-- Whose subscription a search answers with.
use lago.Prelude.{
  ℕ, String, join, lacks, str_eq, eq_iff, starts_with, starts_with_iff, true, List, Option, some,
  ◌≡◌, In, sym, ap, ◌∙◌, subst, Bool-cases, false≢true, inl, inr, arith,
}
use Prim.Native.String.{◌++◌}
use text.Mathlib.TextLemmas.{append_assoc, nil-append}
use lago.Utils.Result.{ok, ok-injective, Result, success_result, success}
use lago.Utils.NullTime.{Time}
use lago.Models.Tables.{Subscription, stored_subscription}
use lago.Cache.Store.{Badger, Laws, Codec}
use lago.Cache.Json.{search_json, set_json}
use lago.Cache.Writes.{set_json-cases}
use lago.Cache.Subscriptions.{build_subscription_key, subscription_key, set_subscription}
use lago.Cache.Search.{search_prefix, search_result, search_subscriptions}
use lago.Cache.Search.Keys.{search_prefix_exact}
use lago.Cache.Search.Lookup.{search_subscriptions-first, search_json-In}

-- A subscription whose organization and external identifier hold no colon, at its own key.
pub record IsOwnKey (k : String) (sub : Subscription) : Type 0 where
  pub organization : String
  pub has_organization : sub.organization_id ≡ some organization
  pub key : k ≡ build_subscription_key organization sub.external_id sub.id
  pub plain_organization : lacks b':' organization ≡ true
  pub plain_external : lacks b':' sub.external_id ≡ true

module _ (B : Badger) (L : Laws B) (C : Codec B.Bytes Subscription stored_subscription) where
  -- Each subscription of the store lies at its own key.
  pub record IsKeyed (now : ℕ) (db : B.Db) : Type 0 where
    pub own :
        (k : String) (bytes : B.Bytes) (sub : Subscription)
        → B.get now k db ≡ ok bytes
        → C.unmarshal bytes ≡ ok sub
        → starts_with k "sub:" ≡ true
        → IsOwnKey k sub

  prefix_sub :
      (k organization_id external_id : String)
      → starts_with k (search_prefix organization_id external_id) ≡ true
      → starts_with k "sub:" ≡ true
  unfolding search_prefix join
  prefix_sub k organization_id external_id h =
      let (rest, e) = (starts_with_iff _ _).0 h in
      (starts_with_iff _ _).1 (
        organization_id ++ (":" ++ (external_id ++ (":" ++ rest))),
        append_assoc "sub" ":" _ ∙ (simp (append_assoc, nil-append) at e),
      )

  found_customer :
      (now : ℕ) (organization_id external_id : String) (db : B.Db) (subs : List Subscription)
      (b : Subscription)
      → IsKeyed now db
      → lacks b':' organization_id ≡ true
      → lacks b':' external_id ≡ true
      → search_json B C now (search_prefix organization_id external_id) db ≡ success_result subs
      → In b subs
      → (b.organization_id ≡ some organization_id) × (b.external_id ≡ external_id)
  found_customer now organization_id external_id db subs b keyed ho he read m =
      let prefix = search_prefix organization_id external_id in
      let (values, bytes, it, mb, u) = search_json-In B C now prefix db subs b read m in
      let (k, starts, got) = (L.iterate-get now prefix db values bytes it).0 mb in
      let own = keyed.own k bytes b got u (prefix_sub k organization_id external_id starts) in
      let same =
        search_prefix_exact own.organization organization_id b.external_id external_id b.id
          own.plain_organization ho own.plain_external he
          (subst (λ x. starts_with x prefix ≡ true) own.key starts) in
      (own.has_organization ∙ ap some same.0, same.1)

  -- The subscription that a search answers with is one of the organization and the external
  -- identifier that were asked for, if no identifier asked for or stored holds a colon.
  pub search_subscriptions-customer :
      (now : ℕ) (organization_id external_id : String) (timestamp : Time) (db : B.Db)
      (subs : List Subscription) (b : Subscription)
      → IsKeyed now db
      → lacks b':' organization_id ≡ true
      → lacks b':' external_id ≡ true
      → search_json B C now (search_prefix organization_id external_id) db ≡ success_result subs
      → search_subscriptions B C now organization_id external_id timestamp db
        ≡ success_result (some b)
      → (b.organization_id ≡ some organization_id) × (b.external_id ≡ external_id)
  unfolding success_result search_result success
  search_subscriptions-customer now organization_id external_id timestamp db subs b keyed ho he read
        answer =
      elim (search_subscriptions-first B C now organization_id external_id timestamp db subs read) [
        | inl (c, e, m, v, first) ↦
            let same : c ≡ b =
              cc (ap (λ (r : Result (Option Subscription)). r.value) (sym e ∙ answer)) in
            found_customer now organization_id external_id db subs b keyed ho he read
              (subst (λ x. In x subs) same m)
        | inr (e, all) ↦ absurd (false≢true (ap success (sym e ∙ answer)))
      ]

  set_subscription-eq :
      (organization_id : String) (sub : Subscription) (db : B.Db)
      → sub.organization_id ≡ some organization_id
      → set_subscription B C sub db
        ≡ set_json B C (build_subscription_key organization_id sub.external_id sub.id) sub db
  unfolding set_subscription
  set_subscription-eq organization_id sub db h = ground arith

  own_stored :
      (k : String) (sub s : Subscription) (organization_id : String)
      → stored_subscription sub ≡ s
      → build_subscription_key organization_id sub.external_id sub.id ≡ k
      → sub.organization_id ≡ some organization_id
      → lacks b':' organization_id ≡ true
      → lacks b':' sub.external_id ≡ true
      → IsOwnKey k s
  unfolding stored_subscription
  own_stored k sub s organization_id same hit org ho he = subst (IsOwnKey k) same (record {
    organization = organization_id;
    has_organization = org;
    key = sym hit;
    plain_organization = ho;
    plain_external = he;
  })

  written-IsKeyed :
      (now : ℕ) (sub : Subscription) (organization_id : String) (db db' : B.Db) (bytes : B.Bytes)
      → IsKeyed now db
      → sub.organization_id ≡ some organization_id
      → lacks b':' organization_id ≡ true
      → lacks b':' sub.external_id ≡ true
      → C.marshal sub ≡ ok bytes
      → B.set (build_subscription_key organization_id sub.external_id sub.id) bytes db ≡ ok db'
      → IsKeyed now db'
  written-IsKeyed now sub organization_id db db' bytes keyed org ho he m set = record {
    own = λ k b s got u st.
        let key = build_subscription_key organization_id sub.external_id sub.id in
        let law = sym (L.get-set now key k bytes db db' set) ∙ got in
        elim (Bool-cases (str_eq key k)) [
          | inr miss ↦ keyed.own k b s (rw miss at law) u st
          | inl hit ↦
              let same_bytes : bytes ≡ b = ok-injective (rw hit at law) in
              let same : stored_subscription sub ≡ s =
                ok-injective
                  (sym (C.unmarshal-marshal sub bytes m) ∙ ap C.unmarshal same_bytes ∙ u) in
              own_stored k sub s organization_id same ((eq_iff _ _).0 hit) org ho he
        ];
  }

  -- Storing a subscription whose identifiers hold no colon keeps each one at its own key.
  pub set_subscription-IsKeyed :
      (now : ℕ) (sub : Subscription) (organization_id : String) (db : B.Db)
      → IsKeyed now db
      → sub.organization_id ≡ some organization_id
      → lacks b':' organization_id ≡ true
      → lacks b':' sub.external_id ≡ true
      → IsKeyed now (set_subscription B C sub db).1
  unfolding set_subscription subscription_key
  set_subscription-IsKeyed now sub organization_id db keyed org ho he =
      rw (set_subscription-eq organization_id sub db org)
        (elim (set_json-cases B C (build_subscription_key organization_id sub.external_id sub.id)
          sub db) [
            | inl (e, f) ↦ rw f keyed
            | inr (bytes, db', m, s, f) ↦
                rw f (written-IsKeyed now sub organization_id db db' bytes keyed org ho he m s)
          ])
