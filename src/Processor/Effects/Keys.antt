-- ===== src/Processor/Effects/Keys.antt =====
-- Whose cached charge expires: the keys of different charges, subscriptions or versions differ.
use Prim.Native.Char.{Char, code}
use Prim.Native.String.{String}
use lago.Prelude.{
  ℕ, String, cat, lacks, lacks_whole, split_at_unique, char-append, true, false≢true, List, [], ◌∷◌,
  Option, none, some, ◌≡◌, refl, sym, ap, ◌∙◌, inl, inr, Option-cases,
}
use lago.Utils.NullTime.{Time}
use lago.Models.FlatFilter.{FlatFilter}
use lago.Processor.Effects.{join_parts, filter_parts, expire_key}

-- Each part lacks the separator.
abbrev AllLack : ℕ → List String → Type 0
AllLack b [] = Unit
AllLack b (x ∷ xs) = (lacks b x ≡ true) × AllLack b xs

cons≢nil : {x : String} {xs : List String} → x ∷ xs ≡ [] → ⊥
cons≢nil h = cc

module _ (c : Char) where
  joined :
      (x y : String) (rest : List String)
      → join_parts (String.◌∷◌ c "") (x ∷ y ∷ rest)
        ≡ cat x (String.◌∷◌ c (join_parts (String.◌∷◌ c "") (y ∷ rest)))
  unfolding join_parts
  joined x y rest = ap (cat x) (char-append c _)

  -- A list of parts that lack the separator is not one part.
  one_part :
      (x y z : String) (rest : List String)
      → lacks (code c) x ≡ true
      → x ≡ join_parts (String.◌∷◌ c "") (y ∷ z ∷ rest)
      → ⊥
  one_part x y z rest plain e =
      false≢true (sym (lacks_whole c y _) ∙ ap (lacks (code c)) (sym (e ∙ joined y z rest)) ∙ plain)

  -- Joining at a separator that the parts lack can be undone.
  join_parts_injective :
      (x y : String) (xs ys : List String)
      → AllLack (code c) (x ∷ xs)
      → AllLack (code c) (y ∷ ys)
      → join_parts (String.◌∷◌ c "") (x ∷ xs) ≡ join_parts (String.◌∷◌ c "") (y ∷ ys)
      → (x ≡ y) × (xs ≡ ys)
  unfolding join_parts
  join_parts_injective x y [] [] (hx, hxs) (hy, hys) e = (e, refl)
  join_parts_injective x y [] (z ∷ ys) (hx, hxs) (hy, hys) e = absurd (one_part x y z ys hx e)
  join_parts_injective x y (z ∷ xs) [] (hx, hxs) (hy, hys) e = absurd (one_part y x z xs hy (sym e))
  join_parts_injective x y (z ∷ xs) (w ∷ ys) (hx, hxs) (hy, hys) e =
      let cut = split_at_unique c x y _ _ hx hy (sym (joined x z xs) ∙ e ∙ joined y w ys) in
      let rest = join_parts_injective z w xs ys hxs hys cut.1 in (cut.0, λ i. rest.0 i ∷ rest.1 i)

-- The two identifiers of a cached charge have no slash.
abbrev pub IsPlain : FlatFilter → String → Type 0
IsPlain ff sub_id =
    (lacks b'/' ff.charge_id ≡ true)
    × (lacks b'/' sub_id ≡ true)
    × ((id : String) → ff.charge_filter_id ≡ some id → lacks b'/' id ≡ true)

module _ (rfc3339 : Time → String) (no_slash : (t : Time) → lacks b'/' (rfc3339 t) ≡ true) where
  filter_parts-AllLack :
      (ff : FlatFilter) (id : Option String) (at : Option Time)
      → ((i : String) → id ≡ some i → lacks b'/' i ≡ true)
      → AllLack b'/' (
          filter_parts rfc3339 (record ff { charge_filter_id = id; charge_filter_updated_at = at }))
  unfolding filter_parts
  filter_parts-AllLack ff none at h = tt
  filter_parts-AllLack ff (some i) none h = tt
  filter_parts-AllLack ff (some i) (some t) h = (h i refl, (no_slash t, tt))

  -- A filter with an identifier and a date is the filter of the other, with the same date.
  abbrev pub HasFilterOf : FlatFilter → FlatFilter → Type 0
  HasFilterOf ff gg =
      (id : String) (at : Time)
      → ff.charge_filter_id ≡ some id
      → ff.charge_filter_updated_at ≡ some at
      → (gg.charge_filter_id ≡ some id)
        × ((then : Time) × (gg.charge_filter_updated_at ≡ some then) × (rfc3339 at ≡ rfc3339 then))

  filter_parts-HasFilterOf :
      (ff gg : FlatFilter) → filter_parts rfc3339 ff ≡ filter_parts rfc3339 gg → HasFilterOf ff gg
  unfolding filter_parts
  filter_parts-HasFilterOf ff gg same id at f a =
      let mine : id ∷ rfc3339 at ∷ [] ≡ filter_parts rfc3339 gg = sym (rw (f, a) refl) ∙ same in
      elim (Option-cases gg.charge_filter_id) [
        | inl missing ↦ absurd (cons≢nil (rw (missing, filter_parts) at mine))
        | inr (i, g) ↦ elim (Option-cases gg.charge_filter_updated_at) [
          | inl missing ↦ absurd (cons≢nil (rw missing at (rw (g, filter_parts) at mine)))
          | inr (t, u) ↦
              let both : id ∷ rfc3339 at ∷ [] ≡ i ∷ rfc3339 t ∷ [] =
                rw u at (rw (g, filter_parts) at mine) in
              (cc, (t, u, cc))
        ]
      ]

  -- The parts of the key behind the first.
  abbrev behind : FlatFilter → String → List String
  behind ff sub = "1" ∷ ff.charge_id ∷ sub ∷ rfc3339 ff.charge_updated_at ∷ filter_parts rfc3339 ff

  -- Where no identifier has a slash, nor a date, two events whose cached charges expire under one key
  -- have the same charge, with the same date of its last change, and the same subscription. If one
  -- has a filter with an identifier and a date of its last change, the other has the same filter with
  -- the same date; a filter that lacks one of the two counts as none. So no event makes the cached
  -- charge of another subscription, charge or such filter expire.
  pub expire_key_injective :
      (ff gg : FlatFilter) (sub other : String)
      → IsPlain ff sub
      → IsPlain gg other
      → expire_key rfc3339 ff sub ≡ expire_key rfc3339 gg other
      → (ff.charge_id ≡ gg.charge_id)
        × (sub ≡ other)
        × (rfc3339 ff.charge_updated_at ≡ rfc3339 gg.charge_updated_at)
        × HasFilterOf ff gg
        × HasFilterOf gg ff
  unfolding expire_key
  expire_key_injective ff gg sub other (cf, sf, pf) (cg, sg, pg) e =
      let rest : behind ff sub ≡ behind gg other =
        (join_parts_injective "/" "charge-usage" "charge-usage" (behind ff sub) (behind gg other)
          (
            refl,
            (refl, (cf, (sf, (no_slash ff.charge_updated_at, filter_parts-AllLack ff _ _ pf)))),
          )
          (
            refl,
            (refl, (cg, (sg, (no_slash gg.charge_updated_at, filter_parts-AllLack gg _ _ pg)))),
          )
          e).1 in
      let same : filter_parts rfc3339 ff ≡ filter_parts rfc3339 gg = cc in
      (cc, cc, cc, filter_parts-HasFilterOf ff gg same, filter_parts-HasFilterOf gg ff (sym same))
