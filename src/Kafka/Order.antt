-- ===== src/Kafka/Order.antt =====
-- events-processor/config/kafka/consumer.go: the commit of a batch and the order in which its records
-- were processed.
use lago.Prelude.{
  none≢some, some-injective, ℕ, ◌≤◌, ◌<◌, ◌≡◌, inl, inr, refl, sym, ap, ◌∙◌, List, [], ◌∷◌, none,
  some, In, length, Option-cases, arith, suc,
}
use mathlib.Core.List.{Permᴰ}
use mathlib.Core.List.Permᴰ
use lago.Kafka.Decimal.{Bytes}
use lago.Kafka.Commit.{
  Record, record_key, processed_map, is_processed, Scan, scan_start, scan_record, min_unprocessed,
  max_below, find_max_commitable_record, commitable_records,
}
use lago.Kafka.Safety.{max_below_sound, max_below_complete}

module _ {A : Type 0} where
  pub In-Permᴰ : {xs ys : List A} (c : A) → Permᴰ xs ys → In c xs → In c ys
  In-Permᴰ c Permᴰ.nil m = m
  In-Permᴰ c (Permᴰ.cons e d) (inl f) = inl (sym e ∙ f)
  In-Permᴰ c (Permᴰ.cons e d) (inr m) = inr (In-Permᴰ c d m)
  In-Permᴰ c (Permᴰ.swap e f) (inl h) = inr (inl (sym e ∙ h))
  In-Permᴰ c (Permᴰ.swap e f) (inr (inl h)) = inl (sym f ∙ h)
  In-Permᴰ c (Permᴰ.swap e f) (inr (inr m)) = inr (inr m)
  In-Permᴰ c (Permᴰ.trans d e) m = In-Permᴰ c e (In-Permᴰ c d m)

  pub length-Permᴰ : {xs ys : List A} → Permᴰ xs ys → length xs ≡ length ys
  length-Permᴰ Permᴰ.nil = refl
  length-Permᴰ (Permᴰ.cons e d) = ap suc (length-Permᴰ d)
  length-Permᴰ (Permᴰ.swap e f) = refl
  length-Permᴰ (Permᴰ.trans d e) = length-Permᴰ d ∙ length-Permᴰ e

-- The map of the processed records does not know their order.
is_processed-Permᴰ :
    (k : Bytes) {ps qs : List Record}
    → Permᴰ ps qs
    → is_processed (processed_map ps) k ≡ is_processed (processed_map qs) k
unfolding is_processed processed_map
is_processed-Permᴰ k Permᴰ.nil = refl
is_processed-Permᴰ k (Permᴰ.cons e d) = rw (e, is_processed-Permᴰ k d) refl
is_processed-Permᴰ k (Permᴰ.swap e f) = rw (e, f) (ground arith)
is_processed-Permᴰ k (Permᴰ.trans d e) = is_processed-Permᴰ k d ∙ is_processed-Permᴰ k e

module _ (done done' : List Bytes)
    (same : (k : Bytes) → is_processed done k ≡ is_processed done' k) where
  min_unprocessed_same :
      (rs : List Record) (s : Scan) → min_unprocessed done rs s ≡ min_unprocessed done' rs s
  unfolding min_unprocessed scan_record
  min_unprocessed_same [] s = refl
  min_unprocessed_same (r ∷ rs) s = rw (same (record_key r)) (min_unprocessed_same rs _)

-- The records of a batch differ in their offsets.
abbrev pub Distinct : List Record → Type 0
Distinct records = (p q : Record) → In p records → In q records → p.offset ≡ q.offset → p ≡ q

module _ (records : List Record) (distinct : Distinct records) (bound : ℕ) where
  -- What the loop ends at is one of the records, below the bound.
  max_below_found :
      (ps : List Record) (r : Record)
      → max_below bound ps none ≡ some r
      → In r ps × (r.offset < bound)
  max_below_found ps r e = elim (max_below_sound bound ps none r e) [
    | inl h ↦ absurd (none≢some h)
    | inr found ↦ found
  ]

  -- One with another list of the same records finds one that is at least as high.
  max_below_above :
      {ps qs : List Record} (r : Record)
      → Permᴰ ps qs
      → max_below bound ps none ≡ some r
      → (q : Record) × (max_below bound qs none ≡ some q) × (r.offset ≤ q.offset)
  max_below_above {ps} {qs} r d e =
      let found = max_below_found ps r e in
      max_below_complete bound qs none r (In-Permᴰ r d found.0) found.1

  max_below-Permᴰ :
      {ps qs : List Record}
      → Permᴰ ps qs
      → ((p : Record) → In p ps → In p records)
      → max_below bound ps none ≡ max_below bound qs none
  max_below-Permᴰ {ps} {qs} d within = elim (Option-cases (max_below bound ps none)) [
    | inl e ↦ elim (Option-cases (max_below bound qs none)) [
      | inl f ↦ e ∙ sym f
      | inr (q, f) ↦
          let (p, g, le) = max_below_above q (Permᴰ.symm d) f in absurd (none≢some (sym e ∙ g))
    ]
    | inr (p, e) ↦
        let (q, f, le) = max_below_above p d e in
        let (p', g, ge) = max_below_above q (Permᴰ.symm d) f in
        let same : p' ≡ p = some-injective (sym g ∙ e) in
        e
        ∙ ap some (
            distinct p q (within p (max_below_found ps p e).0)
              (within q (In-Permᴰ q (Permᴰ.symm d) (max_below_found qs q f).0))
              (omega (arith, ap (λ (x : Record). x.offset) same)))
        ∙ sym f
  ]

find_max_commitable_record-Permᴰ :
    {ps qs : List Record} (records : List Record)
    → Permᴰ ps qs
    → Distinct records
    → ((p : Record) → In p ps → In p records)
    → find_max_commitable_record ps records ≡ find_max_commitable_record qs records
unfolding find_max_commitable_record
find_max_commitable_record-Permᴰ {ps} {qs} records d distinct within =
    ap (λ (scan : Scan). max_below scan.lowest ps none)
      (min_unprocessed_same (processed_map ps) (processed_map qs) (λ k. is_processed-Permᴰ k d)
        records scan_start)
    ∙ max_below-Permᴰ records distinct _ d within

-- What is committed for a batch does not depend on the order in which its goroutines mark their
-- records as processed, where the offsets of the batch differ and only its records are marked.
pub commitable_records-Permᴰ :
    {ps qs : List Record} (records : List Record)
    → Permᴰ ps qs
    → Distinct records
    → ((p : Record) → In p ps → In p records)
    → commitable_records ps records ≡ commitable_records qs records
unfolding commitable_records
commitable_records-Permᴰ {ps} {qs} records d distinct within =
    rw (length-Permᴰ d, find_max_commitable_record-Permᴰ records d distinct within) refl
