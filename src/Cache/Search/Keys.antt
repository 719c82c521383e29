-- ===== src/Cache/Search/Keys.antt =====
-- Which subscriptions the prefix of a search meets.
use lago.Prelude.{
  String, cat, join, lacks, split_unique, starts_with, starts_with_iff, true, ◌≡◌, refl, sym,
}
use text.Mathlib.TextLemmas.{append_assoc, nil-append}
use lago.Cache.Subscriptions.{build_subscription_key}
use lago.Cache.Search.{search_prefix}

-- The prefix of a search meets the key of a subscription only if both are of one organization and
-- one external identifier, provided that none of the identifiers holds a colon.
pub search_prefix_exact :
    (org org' external external' id : String)
    → lacks b':' org ≡ true
    → lacks b':' org' ≡ true
    → lacks b':' external ≡ true
    → lacks b':' external' ≡ true
    → starts_with (build_subscription_key org external id) (search_prefix org' external') ≡ true
    → (org ≡ org') × (external ≡ external')
unfolding build_subscription_key search_prefix join
search_prefix_exact org org' external external' id ho ho' he he' h =
    let (rest, e) = (starts_with_iff _ _).0 h in
    let whole = simp append_assoc at e in
    let behind_sub = split_unique "sub" "sub" _ _ refl refl whole in
    let behind_org = split_unique org' org _ _ ho' ho behind_sub.1 in
    let behind_external = split_unique external' external _ _ he' he behind_org.1 in
    (sym behind_org.0, sym behind_external.0)

-- An external identifier that extends another by a colon and a text is met by the search for the
-- other: the program hands out the subscription of one customer for the events of another.
pub search_prefix_collision :
    (org external suffix id : String)
    → starts_with
        (build_subscription_key org (cat external (cat ":" suffix)) id)
        (search_prefix org external)
      ≡ true
unfolding build_subscription_key search_prefix join
search_prefix_collision org external suffix id =
    (starts_with_iff _ _).1 (cat suffix (cat ":" id), simp (append_assoc, nil-append))
