-- ===== src/Kafka/Partition/Commits.antt =====
-- Which records the commits of a partition pass.
use lago.Prelude.{
  ℕ, suc, ◌+◌, ◌≤◌, ◌<◌, List, [], ◌∷◌, Bool, true, false, none, some, In, keep, length, ◌==◌, ◌≡◌,
  ◌⊎◌, inl, inr, refl, ap, Bool-cases, Option-cases, In-keep, In-single, arith,
}
use lago.Utils.Result.{ok, Except-cases}
use lago.Kafka.Commit.{Record, find_max_commitable_record, commitable_records}
use lago.Kafka.Safety.{Processed, find_max_commitable_record_sound}
use lago.Kafka.Partition.{Client, commit_or_report, process_records_and_commit, consume_batches}

length-keep-le : (p : Record → Bool) (rs : List Record) → length (keep p rs) ≤ length rs
length-keep-le p [] = omega arith
length-keep-le p (r ∷ rs) = ground (arith, length-keep-le p rs)

-- A filter that keeps as many records as there are keeps each of them.
keeps_all :
    (p : Record → Bool) (rs : List Record) (u : Record)
    → length (keep p rs) ≡ length rs
    → In u rs
    → p u ≡ true
keeps_all p [] u e m = elim m [ ]
keeps_all p (r ∷ rs) u e m = elim (Bool-cases (p r)) [
  | inr f ↦ absurd (omega (arith, length-keep-le p rs, lost f))
  | inl t ↦ elim m [ inl same ↦ rw (← same) t | inr n ↦ keeps_all p rs u (ground arith) n ]
]
  where
    lost : p r ≡ false → length (keep p rs) ≡ suc (length rs)
    lost f = rw f at e

equal_lengths : (m n : ℕ) → m == n ≡ true → m ≡ n
equal_lengths m n h = ground arith

module _ (client : Client) where
  -- A commit of some records, or its failure.
  commit-cases :
      (records : List Record) (position : ℕ)
      → (commit_or_report client (some records) position ≡ position)
        ⊎ ((r : Record) × In r records
            × (commit_or_report client (some records) position ≡ r.offset + 1))
  unfolding commit_or_report
  commit-cases records position = elim (Except-cases (client.commit records position)) [
    | inl (e, f) ↦ inl (rw (commit_or_report, f) refl)
    | inr (after, f) ↦ elim (client.commit-last records position after f) [
      | inl same ↦ inl (rw (commit_or_report, f) same)
      | inr (r, m, o) ↦ inr (r, m, rw (commit_or_report, f) o)
    ]
  ]

  module _ (process : List Record → List Record) (records : List Record) (position : ℕ) where
    after : ℕ
    after = process_records_and_commit client process records position

    skipped :
        length (process records) == length records ≡ false
        → find_max_commitable_record (process records) records ≡ none
        → after ≡ position
    unfolding after process_records_and_commit commitable_records commit_or_report
    skipped f n = ground arith

    partial :
        (r : Record)
        → length (process records) == length records ≡ false
        → find_max_commitable_record (process records) records ≡ some r
        → after ≡ commit_or_report client (some (r ∷ [])) position
    unfolding after process_records_and_commit commitable_records
    partial r f n = ground arith

    passed_partly :
        (u r : Record)
        → length (process records) == length records ≡ false
        → find_max_commitable_record (process records) records ≡ some r
        → In u records
        → position ≤ u.offset
        → u.offset < after
        → Processed (process records) u
    passed_partly u r f n m low high = elim (commit-cases (r ∷ []) position) [
      | inl e ↦ absurd (omega (arith, e, partial r f n))
      | inr (q, mq, e) ↦
          (find_max_commitable_record_sound (process records) records r n).1 u m
            (omega (arith, e, partial r f n, ap (λ (x : Record). x.offset) (In-single r q mq)))
    ]

  whole_batch :
      (process : List Record → List Record) (records : List Record) (position moved : ℕ)
      → length (process records) ≡ length records
      → client.commit records position ≡ ok moved
      → process_records_and_commit client process records position ≡ moved
  unfolding process_records_and_commit commitable_records commit_or_report
  whole_batch process records position moved e c = ground arith

  -- A position that a batch moves passes only records that were processed: each record of the batch
  -- between the old position and the new one came back from `process`, which keeps some of the
  -- records of the batch in their order.
  pub process_records_and_commit-Processed :
      (process : List Record → List Record) (done : Record → Bool) (records : List Record)
      (position : ℕ) (u : Record)
      → process records ≡ keep done records
      → In u records
      → position ≤ u.offset
      → u.offset < process_records_and_commit client process records position
      → Processed (process records) u
  unfolding after
  process_records_and_commit-Processed process done records position u e m low high =
      elim (Bool-cases (length (process records) == length records)) [
        | inl t ↦
            let full : length (keep done records) ≡ length records =
              omega
                (arith, ap length e, equal_lengths (length (process records)) (length records) t) in
            (u, rw e (In-keep done records u m (keeps_all done records u full m)), refl, refl)
        | inr f ↦ elim (Option-cases (find_max_commitable_record (process records) records)) [
          | inl n ↦ absurd (omega (arith, skipped process records position f n))
          | inr (r, n) ↦ passed_partly process records position u r f n m low high
        ]
      ]

  -- Where a batch is processed whole and its commit succeeds, the position passes every offset below
  -- one of its records, also that of a record that an earlier batch left unprocessed.
  pub consume_batches-passes :
      (process : List Record → List Record) (batch rest : List Record) (position moved : ℕ)
      (left r : Record)
      → length (process rest) ≡ length rest
      → client.commit rest (process_records_and_commit client process batch position) ≡ ok moved
      → In left batch
      → ¬ Processed (process batch) left
      → In r rest
      → left.offset < r.offset
      → left.offset < consume_batches client process (batch ∷ rest ∷ []) position
  unfolding consume_batches
  consume_batches-passes process batch rest position moved left r whole c ml unprocessed mr lt =
      let committed =
        whole_batch process rest (process_records_and_commit client process batch position) moved
          whole c in
      rw committed (omega (arith, client.commit-above rest _ moved c r mr))
