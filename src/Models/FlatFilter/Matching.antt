-- ===== src/Models/FlatFilter/Matching.antt =====
-- The filter that an event falls under matches it, with the most properties.
use lago.Prelude.{
  ℕ, ◌≤◌, ◌<◌, String, true, false, List, [], ◌∷◌, none, some, ltb, length, contains, keep, keep-In,
  In-keep, List-cases, keep_nothing, In-single, In, ◌≡◌, ◌↔◌, ◌⊎◌, inl, inr, refl, sym, ap, ◌∙◌,
  subst, Bool-cases, Option-cases, false≢true, arith,
}
use lago.Utils.Result.{returns}
use lago.Models.Event.{Properties, PropertyValue, property, sprint_property}
use lago.Models.FlatFilter.{
  FlatFilter, FlatFilterValues, keys, matches_all, to_default_filter, selects, best_or_default,
  take_heavier, best_filter, matching_filter,
}

-- How many properties a filter asks for.
abbrev pub weight : FlatFilter → ℕ
weight ff = length (keys ff.filters)

-- The property of the key is not null, and its text is one of the values.
abbrev pub Holds : Properties → String → List String → Type 0
Holds properties key values =
    ((value : PropertyValue) × (property properties key ≡ some value))
    × (contains values (sprint_property properties key) ≡ true)

-- Each key of the map holds for the event.
abbrev pub Satisfies : Properties → FlatFilterValues → Type 0
Satisfies properties values =
    (key : String) (accepted : List String)
    → In (key, accepted) values
    → Holds properties key accepted

Holds-entry :
    (properties : Properties) (rest : FlatFilterValues) (k : String) (vs : List String)
    (key : String) (accepted : List String)
    → Holds properties k vs
    → (In (key, accepted) rest → Holds properties key accepted)
    → In (key, accepted) ((k, vs) ∷ rest)
    → Holds properties key accepted
Holds-entry properties rest k vs key accepted here there (inr m) = there m
Holds-entry properties rest k vs key accepted here there (inl e) =
    subst (λ (entry : String × List String). Holds properties entry.0 entry.1) e here

matches_all_sound :
    (values : FlatFilterValues) (properties : Properties)
    → matches_all values properties ≡ true
    → Satisfies properties values
unfolding matches_all
matches_all_sound [] properties h key accepted m = elim m [ ]
matches_all_sound ((k, vs) ∷ rest) properties h key accepted m =
    elim (Option-cases (property properties k)) [
      | inl e ↦ absurd (false≢true (rw (e, matches_all) at h))
      | inr (value, e) ↦ elim (Bool-cases (contains vs (sprint_property properties k))) [
        | inr f ↦ absurd (false≢true (rw (f, matches_all) at (rw (e, matches_all) at h)))
        | inl c ↦
            Holds-entry properties rest k vs key accepted ((value, e), c)
              (matches_all_sound rest properties (rw (c, matches_all) at (rw (e, matches_all) at h))
                key accepted)
              m
      ]
    ]

matches_all_complete :
    (values : FlatFilterValues) (properties : Properties)
    → Satisfies properties values
    → matches_all values properties ≡ true
unfolding matches_all
matches_all_complete [] properties h = refl
matches_all_complete ((k, vs) ∷ rest) properties h =
    let ((value, e), c) = h k vs (inl refl) in
    let others = matches_all_complete rest properties (λ key accepted m. h key accepted (inr m)) in
    rw (e, matches_all) (rw (c, matches_all) others)

take_heavier-cases :
    (f best : FlatFilter)
    → ((take_heavier f best ≡ best) ⊎ (take_heavier f best ≡ f))
      × (weight best ≤ weight (take_heavier f best))
      × (weight f ≤ weight (take_heavier f best))
unfolding take_heavier
take_heavier-cases f best = elim (Bool-cases (ltb (weight best) (weight f))) [
  | inl t ↦ (inr (rw t), ground arith, ground arith)
  | inr n ↦ (inl (rw n), ground arith, ground arith)
]

best_filter-In : (fs : List FlatFilter) (best : FlatFilter) → In (best_filter fs best) (best ∷ fs)
unfolding best_filter
best_filter-In [] best = inl refl
best_filter-In (f ∷ fs) best = elim (best_filter-In fs (take_heavier f best)) [
  | inr m ↦ inr (inr m)
  | inl e ↦ elim (take_heavier-cases f best).0 [
    | inl old ↦ inl (sym old ∙ e)
    | inr new ↦ inr (inl (sym new ∙ e))
  ]
]

best_filter-le :
    (fs : List FlatFilter) (best g : FlatFilter)
    → In g (best ∷ fs)
    → weight g ≤ weight (best_filter fs best)
unfolding best_filter
best_filter-le [] best g (inl e) = omega (arith, ap weight e)
best_filter-le [] best g (inr m) = elim m [ ]
best_filter-le (f ∷ fs) best g (inr (inr m)) = best_filter-le fs (take_heavier f best) g (inr m)
best_filter-le (f ∷ fs) best g (inr (inl e)) = omega (
  arith,
  ap weight e,
  take_heavier-cases f best,
  best_filter-le fs (take_heavier f best) (take_heavier f best) (inl refl),
)
best_filter-le (f ∷ fs) best g (inl e) = omega (
  arith,
  ap weight e,
  take_heavier-cases f best,
  best_filter-le fs (take_heavier f best) (take_heavier f best) (inl refl),
)

-- What the filter that is taken has to be, among all the filters of a charge.
abbrev pub IsBest : Properties → List FlatFilter → FlatFilter → Type 0
IsBest properties filters f =
    In f filters
    × (selects properties f ≡ true)
    × ((g : FlatFilter) → In g filters → selects properties g ≡ true → weight g ≤ weight f)

pub matching_filter-IsBest :
    (first : FlatFilter) (rest : List FlatFilter) (properties : Properties)
    → ((f : FlatFilter) × (matching_filter (first ∷ rest) properties ≡ returns f)
        × IsBest properties (first ∷ rest) f)
      ⊎ ((matching_filter (first ∷ rest) properties
            ≡ returns (record first {
              charge_filter_id = none;
              charge_filter_updated_at = none;
              filters = none;
            }))
          × ((g : FlatFilter) → In g (first ∷ rest) → selects properties g ≡ false))
unfolding matching_filter best_or_default to_default_filter
matching_filter-IsBest first [] properties = elim (Bool-cases (selects properties first)) [
  | inl t ↦
      inl (first, rw t, (inl refl, t, λ g m h. omega (arith, ap weight (In-single first g m))))
  | inr f ↦ inr (rw f, λ g m. subst (λ x. selects properties x ≡ false) (In-single first g m) f)
]
matching_filter-IsBest first (second ∷ rest) properties =
    elim (List-cases (keep (selects properties) (first ∷ second ∷ rest))) [
      | inl e ↦ inr (
        ap (best_or_default first) e,
        λ g. keep_nothing (selects properties) (first ∷ second ∷ rest) g e,
      )
      | inr (best, others, e) ↦
          let all = first ∷ second ∷ rest in
          let own =
            keep-In (selects properties) all (best_filter others best)
              (subst (In (best_filter others best)) (sym e) (best_filter-In others best)) in
          inl (
            best_filter others best,
            ap (best_or_default first) e,
            (
              own.0,
              own.1,
              λ g m t.
                  best_filter-le others best g
                    (subst (In g) e (In-keep (selects properties) all g m t)),
            ),
          )
    ]

selects-eq :
    (properties : Properties) (ff : FlatFilter) (values : FlatFilterValues)
    → ff.filters ≡ some values
    → 0 < length values
    → selects properties ff ≡ matches_all values properties
unfolding selects
selects-eq properties ff values e h = ground arith

-- A filter with values is taken for an event exactly if each of its keys is a property of the
-- event, not null, whose text is one of the values of the key.
pub selects-Satisfies :
    (properties : Properties) (ff : FlatFilter) (values : FlatFilterValues)
    → ff.filters ≡ some values
    → 0 < length values
    → (selects properties ff ≡ true) ↔ Satisfies properties values
selects-Satisfies properties ff values e h =
    let same = selects-eq properties ff values e h in
    (
      λ t. matches_all_sound values properties (sym same ∙ t),
      λ s. same ∙ matches_all_complete values properties s,
    )
