-- ===== src/Tests/Kafka.antt =====
-- Batches of two records, the second of which was processed, or the first.
use lago.Prelude.{[], ◌∷◌, In, some, ◌≡◌, refl, inl, inr, ◌≤◌, ◌<◌, ap, arith}
use lago.Kafka.Decimal.{decimal}
use lago.Kafka.Commit.{Record, find_max_commitable_record}
use lago.Kafka.Safety.{
  Processed, find_max_commitable_record_sound, find_max_commitable_record_complete,
}

abbrev first : Record
first = record { key = 97 ∷ []; offset = 4; value = [] }

abbrev second : Record
second = record { key = 98 ∷ []; offset = 5; value = [] }

commits_first : find_max_commitable_record (first ∷ []) (first ∷ second ∷ []) ≡ some first
unfolding find_max_commitable_record decimal
commits_first = refl

find_max_commitable_record_sound_example :
    In first (first ∷ [])
    × ((u : Record)
        → In u (first ∷ second ∷ [])
        → u.offset ≤ first.offset
        → Processed (first ∷ []) u)
find_max_commitable_record_sound_example =
    find_max_commitable_record_sound (first ∷ []) (first ∷ second ∷ []) first commits_first

unprocessed_after :
    (u : Record) → In u (first ∷ second ∷ []) → ¬ Processed (first ∷ []) u → first.offset < u.offset
unprocessed_after u (inl e) h =
    absurd (h (first, inl refl, ap (λ r. r.key) e, ap (λ r. r.offset) e))
unprocessed_after u (inr (inl e)) h = omega (arith, ap (λ r. r.offset) e)
unprocessed_after u (inr (inr m)) h = elim m [ ]

find_max_commitable_record_complete_example :
    (r : Record) × (find_max_commitable_record (first ∷ []) (first ∷ second ∷ []) ≡ some r)
    × (4 ≤ r.offset)
find_max_commitable_record_complete_example =
    find_max_commitable_record_complete (first ∷ []) (first ∷ second ∷ []) first (inl refl)
      (omega arith) unprocessed_after
