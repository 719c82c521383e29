-- ===== src/Processor/Enrichment/PerCharge.antt =====
-- An event is enriched once for each charge that its metric has in the plan.
use lago.Prelude.{
  ℕ, suc, ◌+◌, String, str_eq, eq_iff, Bool, false, ◌&&◌, List, [], ◌∷◌, Option, none, some, snoc,
  In, In-single, In-snoc, ◌==◌, ◌≡◌, refl, sym, ap, ◌∙◌, inl, inr, Bool-cases, contains, arith,
  if◌then◌else◌,
}
use lago.Utils.Result.{returns, success_result}
use lago.Utils.Time.{Numbers}
use lago.Models.Event.{Properties}
use lago.Models.EnrichedEvent.{EnrichedEvent}
use lago.Models.FlatFilter.{FlatFilter, matching_filter, to_default_filter}
use lago.Models.FlatFilter.Matching.{matching_filter-IsBest}
use lago.Processor.Enrichment.{
  with_filter, append_to, index_by_charge, enrich_charges, enrich_with_filters,
  enrich_with_pricing_group_keys, set_target_wallet,
}

abbrev pub charge_ids : List FlatFilter → List String
charge_ids [] = []
charge_ids (f ∷ rest) = f.charge_id ∷ charge_ids rest

abbrev pub is_of_charge : String → Option String → Bool
is_of_charge c none = false
is_of_charge c (some id) = str_eq id c

-- How many of the events are for the charge.
abbrev pub events_of : {N : Numbers} → String → List (EnrichedEvent N) → ℕ
events_of c [] = 0
events_of c (ev ∷ rest) =
    if is_of_charge c ev.charge_id then suc (events_of c rest) else events_of c rest

abbrev pub groups_of : String → List (String × List FlatFilter) → ℕ
groups_of c [] = 0
groups_of c ((id, fs) ∷ rest) = if str_eq id c then suc (groups_of c rest) else groups_of c rest

-- Each group has a filter, and only those of its charge.
abbrev pub IsIndex : List (String × List FlatFilter) → Type 0
IsIndex [] = Unit
IsIndex ((id, []) ∷ rest) = ⊥
IsIndex ((id, f ∷ fs) ∷ rest) = ((g : FlatFilter) → In g (f ∷ fs) → g.charge_id ≡ id) × IsIndex rest

groups_of-append_to :
    (c : String) (f : FlatFilter) (m : List (String × List FlatFilter))
    → groups_of c (append_to f m)
      ≡ (if str_eq f.charge_id c && groups_of c m == 0 then 1 else groups_of c m)
unfolding append_to
groups_of-append_to c f [] = ground arith
groups_of-append_to c f ((id, fs) ∷ rest) =
    ground (
      arith,
      eq_iff id c,
      eq_iff f.charge_id c,
      eq_iff id f.charge_id,
      groups_of-append_to c f rest,
    )

groups_of-index_by_charge :
    (c : String) (fs : List FlatFilter) (m : List (String × List FlatFilter))
    → groups_of c (index_by_charge fs m)
      ≡ (if groups_of c m == 0 && contains (charge_ids fs) c then 1 else groups_of c m)
unfolding index_by_charge contains
groups_of-index_by_charge c [] m = ground arith
groups_of-index_by_charge c (f ∷ fs) m =
    ground (arith, groups_of-index_by_charge c fs (append_to f m), groups_of-append_to c f m)

snoc_own :
    (id : String) (f g : FlatFilter) (gs : List FlatFilter)
    → ((k : FlatFilter) → In k (g ∷ gs) → k.charge_id ≡ id)
    → f.charge_id ≡ id
    → (k : FlatFilter) → In k (snoc (g ∷ gs) f)
    → k.charge_id ≡ id
snoc_own id f g gs own e k m = elim (In-snoc (g ∷ gs) f k m) [
  | inl n ↦ own k n
  | inr same ↦ ap (λ x. x.charge_id) (sym same) ∙ e
]

IsIndex-append_to :
    (f : FlatFilter) (m : List (String × List FlatFilter)) → IsIndex m → IsIndex (append_to f m)
unfolding append_to
IsIndex-append_to f [] h = ((λ g n. ap (λ x. x.charge_id) (sym (In-single f g n))), tt)
IsIndex-append_to f ((id, []) ∷ rest) h = elim h [ ]
IsIndex-append_to f ((id, g ∷ gs) ∷ rest) (own, others) =
    elim (Bool-cases (str_eq id f.charge_id)) [
      | inl t ↦ rw t (snoc_own id f g gs own (sym ((eq_iff id f.charge_id).0 t)), others)
      | inr n ↦ rw n (own, IsIndex-append_to f rest others)
    ]

IsIndex-index_by_charge :
    (fs : List FlatFilter) (m : List (String × List FlatFilter))
    → IsIndex m
    → IsIndex (index_by_charge fs m)
unfolding index_by_charge
IsIndex-index_by_charge [] m h = h
IsIndex-index_by_charge (f ∷ fs) m h =
    IsIndex-index_by_charge fs (append_to f m) (IsIndex-append_to f m h)

default_charge : (f : FlatFilter) → (to_default_filter f).charge_id ≡ f.charge_id
unfolding to_default_filter
default_charge f = refl

matching_filter-charge :
    (id : String) (f : FlatFilter) (fs : List FlatFilter) (properties : Properties)
    → ((g : FlatFilter) → In g (f ∷ fs) → g.charge_id ≡ id)
    → (g : FlatFilter) × (matching_filter (f ∷ fs) properties ≡ returns g) × (g.charge_id ≡ id)
unfolding to_default_filter
matching_filter-charge id f fs properties own = elim (matching_filter-IsBest f fs properties) [
  | inl (g, e, (m, taken, best)) ↦ (g, e, own g m)
  | inr (e, none_matches) ↦ (to_default_filter f, e, default_charge f ∙ own f (inl refl))
]

module _ (N : Numbers) where
  with_filter-charge :
      (ev : EnrichedEvent N) (f : FlatFilter) → (with_filter N ev f).charge_id ≡ some f.charge_id
  unfolding with_filter enrich_with_pricing_group_keys set_target_wallet
  with_filter-charge ev f = ground arith

  events_of-snoc :
      (c : String) (events : List (EnrichedEvent N)) (ev : EnrichedEvent N)
      → events_of c (snoc events ev)
        ≡ (if is_of_charge c ev.charge_id then suc (events_of c events) else events_of c events)
  events_of-snoc c [] ev = refl
  events_of-snoc c (e ∷ events) ev = ground (arith, events_of-snoc c events ev)

  abbrev Enriches :
      EnrichedEvent N → List (String × List FlatFilter) → List (EnrichedEvent N) → Type 0
  Enriches ev m events =
      (out : List (EnrichedEvent N)) × (enrich_charges N ev m events ≡ returns out)
      × ((c : String) → events_of c out ≡ groups_of c m + events_of c events)

  enrich_charges-total :
      (ev : EnrichedEvent N) (m : List (String × List FlatFilter)) (events : List (EnrichedEvent N))
      → IsIndex m
      → Enriches ev m events
  unfolding enrich_charges
  enrich_charges-total ev [] events h = (events, refl, λ c. omega arith)
  enrich_charges-total ev ((id, []) ∷ rest) events h = elim h [ ]
  enrich_charges-total ev ((id, f ∷ fs) ∷ rest) events (own, others) =
      let (g, e, same) = matching_filter-charge id f fs ev.properties own in
      let (out, returned, counts) =
        enrich_charges-total ev rest (snoc events (with_filter N ev g)) others in
      let of_charge = with_filter-charge ev g ∙ ap some same in
      (
        out,
        rw (enrich_charges, e) returned,
        λ c. counts c ∙ rw (events_of-snoc c events (with_filter N ev g), of_charge) (ground arith),
      )

  -- The filters of a metric and a plan give the event, where there are any, exactly one enriched
  -- copy for each charge among them and none for another charge; no lookup in an empty group
  -- panics.
  pub enrich_with_filters-one_per_charge :
      (ev : EnrichedEvent N) (f : FlatFilter) (rest : List FlatFilter)
      → (events : List (EnrichedEvent N)) × (enrich_with_filters N ev (f ∷ rest)
          ≡ returns (success_result events))
        × ((c : String)
            → events_of c events ≡ (if contains (charge_ids (f ∷ rest)) c then 1 else 0))
  unfolding enrich_with_filters
  enrich_with_filters-one_per_charge ev f rest =
      let m = index_by_charge (f ∷ rest) [] in
      let (events, returned, counts) =
        enrich_charges-total ev m [] (IsIndex-index_by_charge (f ∷ rest) [] tt) in
      (
        events,
        rw (enrich_with_filters, returned) refl,
        λ c. counts c ∙ omega (arith) ∙ groups_of-index_by_charge c (f ∷ rest) [],
      )
