-- ===== src/Kafka/Safety.antt =====
-- A commit never passes a record of the batch that was not processed, and passes all that it can.
use lago.Prelude.{
  ℕ, ◌≤◌, ◌<◌, ◌≡◌, ◌⊎◌, inl, inr, refl, sym, ap, ◌∙◌, List, [], ◌∷◌, ◌++◌, true, false, ◌&&◌,
  Option, none, some, ltb, In, Bool-cases, arith, false≢true,
}
use lago.Kafka.Decimal.{Bytes, decimal, name_inj}
use lago.Kafka.Commit.{
  Record, bytes_eq, record_key, processed_map, is_processed, max_int64, Scan, scan_start,
  scan_record, min_unprocessed, better_record, max_below, find_max_commitable_record,
}

-- The record was handed back as processed: one with its key and its offset is in the list.
abbrev pub Processed : List Record → Record → Type 0
Processed ps u = (p : Record) × In p ps × (p.key ≡ u.key) × (p.offset ≡ u.offset)

bytes_eq→eq : (s t : Bytes) → bytes_eq s t ≡ true → s ≡ t
unfolding bytes_eq
bytes_eq→eq [] [] h = refl
bytes_eq→eq [] (d ∷ t) h = cc
bytes_eq→eq (c ∷ s) [] h = cc
bytes_eq→eq (c ∷ s) (d ∷ t) h = ground (arith, bytes_eq→eq s t)

bytes_eq_refl : (s : Bytes) → bytes_eq s s ≡ true
unfolding bytes_eq
bytes_eq_refl [] = refl
bytes_eq_refl (c ∷ s) = ground (arith, bytes_eq_refl s)

same_record : (p u : Record) → record_key p ≡ record_key u → (p.key ≡ u.key) × (p.offset ≡ u.offset)
unfolding record_key
same_record p u e = name_inj p.key u.key p.offset u.offset e

weaken : (ps : List Record) (u q : Record) → Processed ps u → Processed (q ∷ ps) u
weaken ps u q (p, m, k, o) = (p, inr m, k, o)

is_processed_sound :
    (ps : List Record) (u : Record)
    → is_processed (processed_map ps) (record_key u) ≡ true
    → Processed ps u
unfolding is_processed processed_map
is_processed_sound [] u h = absurd (false≢true h)
is_processed_sound (p ∷ ps) u h = elim (Bool-cases (bytes_eq (record_key p) (record_key u))) [
  | inl hit ↦ let same = same_record p u (bytes_eq→eq _ _ hit) in (p, inl refl, same.0, same.1)
  | inr miss ↦ weaken ps u p (is_processed_sound ps u (rw miss at h))
]

is_processed_complete :
    (ps : List Record) (u : Record)
    → Processed ps u
    → is_processed (processed_map ps) (record_key u) ≡ true
unfolding is_processed processed_map record_key
is_processed_complete [] u (p, m, k, o) = elim m [ ]
is_processed_complete (q ∷ ps) u (p, inl e, k, o) = ground (
  arith,
  bytes_eq_refl (u.key ++ (45 ∷ decimal u.offset)),
  ap (λ (x : Record). x.key ++ (45 ∷ decimal x.offset)) e,
  ap (λ (x : Bytes). x ++ (45 ∷ decimal p.offset)) k,
  ap (λ (x : ℕ). u.key ++ (45 ∷ decimal x)) o,
)
is_processed_complete (q ∷ ps) u (p, inr m, k, o) =
    ground (arith, is_processed_complete ps u (p, m, k, o))

module _ (done : List Bytes) where
  scan_record-found :
      (r : Record) (s : Scan)
      → is_processed done (record_key r) ≡ false
      → ((scan_record done r s).found ≡ true) × ((scan_record done r s).lowest ≤ r.offset)
  unfolding scan_record
  scan_record-found r s h = ground arith

  scan_record-le :
      (r : Record) (s : Scan)
      → s.found ≡ true
      → ((scan_record done r s).found ≡ true) × ((scan_record done r s).lowest ≤ s.lowest)
  unfolding scan_record
  scan_record-le r s h = ground arith

  -- Once the scan has a record, the bound never rises.
  min_unprocessed-le_start :
      (rs : List Record) (s : Scan) → s.found ≡ true → (min_unprocessed done rs s).lowest ≤ s.lowest
  unfolding min_unprocessed
  min_unprocessed-le_start [] s h = omega arith
  min_unprocessed-le_start (r ∷ rs) s h =
      let step = scan_record-le r s h in
      omega (arith, step.1, min_unprocessed-le_start rs (scan_record done r s) step.0)

  -- The scan ends at or below each record that is not marked.
  min_unprocessed-le :
      (rs : List Record) (s : Scan) (u : Record)
      → In u rs
      → is_processed done (record_key u) ≡ false
      → (min_unprocessed done rs s).lowest ≤ u.offset
  unfolding min_unprocessed
  min_unprocessed-le [] s u m h = elim m [ ]
  min_unprocessed-le (r ∷ rs) s u (inr m) h = min_unprocessed-le rs (scan_record done r s) u m h
  min_unprocessed-le (r ∷ rs) s u (inl e) h =
      let step = scan_record-found r s (rw e h) in
      omega (
        arith,
        min_unprocessed-le_start rs (scan_record done r s) step.0,
        step.1,
        ap (λ (x : Record). x.offset) e,
      )

  scan_record_origin :
      (r : Record) (s : Scan)
      → ((scan_record done r s).lowest ≡ s.lowest)
        ⊎ ((is_processed done (record_key r) ≡ false) × (r.offset ≡ (scan_record done r s).lowest))
  unfolding scan_record
  scan_record_origin r s = ground arith

  -- What the scan ends at is its start, or the offset of a record that is not marked.
  min_unprocessed_origin :
      (rs : List Record) (s : Scan)
      → ((min_unprocessed done rs s).lowest ≡ s.lowest)
        ⊎ ((u : Record) × In u rs
            × (is_processed done (record_key u) ≡ false)
            × (u.offset ≡ (min_unprocessed done rs s).lowest))
  unfolding min_unprocessed
  min_unprocessed_origin [] s = inl refl
  min_unprocessed_origin (r ∷ rs) s = elim (min_unprocessed_origin rs (scan_record done r s)) [
    | inr (u, m, h, o) ↦ inr (u, inr m, h, o)
    | inl e ↦ elim (scan_record_origin r s) [
      | inl start ↦ inl (e ∙ start)
      | inr (h, o) ↦ inr (r, inl refl, h, o ∙ sym e)
    ]
  ]

pub max_below_sound :
    (bound : ℕ) (ps : List Record) (best : Option Record) (r : Record)
    → max_below bound ps best ≡ some r
    → ((best ≡ some r) ⊎ (In r ps × (r.offset < bound)))
unfolding max_below better_record
max_below_sound bound [] best r e = inl e
max_below_sound bound (p ∷ ps) none r e =
    elim (max_below_sound bound ps (better_record bound p none) r e) [
      | inl h ↦ ground arith
      | inr (m, lt) ↦ inr (inr m, lt)
    ]
max_below_sound bound (p ∷ ps) (some b) r e =
    elim (max_below_sound bound ps (better_record bound p (some b)) r e) [
      | inl h ↦ ground arith
      | inr (m, lt) ↦ inr (inr m, lt)
    ]

abbrev pub Kept : ℕ → Option Record → Type 0
Kept n best = (m : Record) × (best ≡ some m) × (n ≤ m.offset)

better_record-keeps : (bound : ℕ) (p b : Record) → Kept b.offset (better_record bound p (some b))
unfolding better_record
better_record-keeps bound p b = elim (Bool-cases (ltb p.offset bound && ltb b.offset p.offset)) [
  | inl t ↦ (p, ground arith, ground arith)
  | inr f ↦ (b, ground arith, omega arith)
]

better_record-takes :
    (bound : ℕ) (p : Record) (best : Option Record)
    → p.offset < bound
    → Kept p.offset (better_record bound p best)
unfolding better_record
better_record-takes bound p none h = (p, ground arith, omega arith)
better_record-takes bound p (some b) h = elim (Bool-cases (ltb b.offset p.offset)) [
  | inl t ↦ (p, ground arith, omega arith)
  | inr f ↦ (b, ground arith, ground arith)
]

max_below-keeps :
    (bound n : ℕ) (ps : List Record) (best : Option Record)
    → Kept n best
    → Kept n (max_below bound ps best)
unfolding max_below
max_below-keeps bound n [] best k = k
max_below-keeps bound n (p ∷ ps) best (m, e, le) =
    max_below-keeps bound n ps (better_record bound p best)
      (let (m', e', le') = better_record-keeps bound p m in (m', rw e e', omega arith))

-- The loop ends at or above each record below the bound.
pub max_below_complete :
    (bound : ℕ) (ps : List Record) (best : Option Record) (p : Record)
    → In p ps
    → p.offset < bound
    → Kept p.offset (max_below bound ps best)
unfolding max_below
max_below_complete bound [] best p m h = elim m [ ]
max_below_complete bound (q ∷ ps) best p (inr m) h =
    max_below_complete bound ps (better_record bound q best) p m h
max_below_complete bound (q ∷ ps) best p (inl e) h =
    max_below-keeps bound p.offset ps (better_record bound q best)
      (rw e (better_record-takes bound p best h))

-- The record that a partial commit names was processed, and every record of the batch up to its
-- offset was processed too: the commit passes no record of its batch that has to be consumed again.
pub find_max_commitable_record_sound :
    (processed records : List Record) (r : Record)
    → find_max_commitable_record processed records ≡ some r
    → In r processed × ((u : Record) → In u records → u.offset ≤ r.offset → Processed processed u)
unfolding find_max_commitable_record
find_max_commitable_record_sound processed records r e =
    elim (max_below_sound _ processed none r e) [
      | inl none_some ↦ ground arith
      | inr (m, lt) ↦ (
        m,
        λ u mu le. elim (Bool-cases (is_processed (processed_map processed) (record_key u))) [
          | inl yes_ ↦ is_processed_sound processed u yes_
          | inr no_ ↦ absurd (omega (arith, min_unprocessed-le _ records _ u mu no_))
        ],
      )
    ]

-- Where a processed record has an offset below the largest `int64`, and each record of the batch
-- that was not processed comes after it, a partial commit names a record, and its offset is not
-- below that of the processed one: the commit goes as far as it may.
pub find_max_commitable_record_complete :
    (processed records : List Record) (p : Record)
    → In p processed
    → p.offset < max_int64
    → ((u : Record) → In u records → ¬ Processed processed u → p.offset < u.offset)
    → (r : Record) × (find_max_commitable_record processed records ≡ some r) × (p.offset ≤ r.offset)
unfolding find_max_commitable_record
find_max_commitable_record_complete processed records p m small above =
    max_below_complete _ processed none p m
      (elim (min_unprocessed_origin (processed_map processed) records scan_start) [
        | inl e ↦ rw e small
        | inr (u, mu, h, o) ↦
            omega
              (arith, above u mu (λ pu. false≢true (sym h ∙ is_processed_complete processed u pu)))
      ])
