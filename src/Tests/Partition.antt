-- ===== src/Tests/Partition.antt =====
-- A partition whose client commits the position behind the highest of the records.
use lago.Prelude.{
  ℕ, ◌+◌, ◌≤◌, ◌<◌, ltb, Bool, true, false, List, [], ◌∷◌, In, keep, ◌==◌, ◌≡◌, refl, ap, ◌⊎◌, inl,
  inr, Bool-cases, if◌then◌else◌, arith,
}
use lago.Utils.Result.{ok, ok-injective}
use lago.Kafka.Commit.{Record, find_max_commitable_record}
use lago.Kafka.Decimal.{decimal}
use lago.Kafka.Safety.{Processed}
use lago.Kafka.Partition.{Client, process_records_and_commit}
use lago.Kafka.Partition.Commits.{process_records_and_commit-Processed}

-- The position behind the records, or the one that there is, if that is further.
abbrev behind : List Record → ℕ → ℕ
behind [] position = position
behind (r ∷ rs) position =
    behind rs (if ltb position (r.offset + 1) then r.offset + 1 else position)

higher : (p n : ℕ) → (p ≤ (if ltb p n then n else p)) × (n ≤ (if ltb p n then n else p))
higher p n = ground arith

behind_keeps : (rs : List Record) (p : ℕ) → p ≤ behind rs p
behind_keeps [] p = omega arith
behind_keeps (r ∷ rs) p = omega (
  arith,
  higher p (r.offset + 1),
  behind_keeps rs (if ltb p (r.offset + 1) then r.offset + 1 else p),
)

behind-above : (rs : List Record) (p : ℕ) (r : Record) → In r rs → r.offset < behind rs p
behind-above [] p r m = elim m [ ]
behind-above (x ∷ rs) p r (inl e) = omega (
  arith,
  higher p (x.offset + 1),
  behind_keeps rs (if ltb p (x.offset + 1) then x.offset + 1 else p),
  ap (λ (y : Record). y.offset) e,
)
behind-above (x ∷ rs) p r (inr m) =
    behind-above rs (if ltb p (x.offset + 1) then x.offset + 1 else p) r m

abbrev Last : List Record → ℕ → ℕ → Type 0
Last rs p q = (q ≡ p) ⊎ ((r : Record) × In r rs × (q ≡ r.offset + 1))

wider : (x : Record) (rs : List Record) (p q : ℕ) → Last rs p q → Last (x ∷ rs) p q
wider x rs p q (inl e) = inl e
wider x rs p q (inr (r, m, e)) = inr (r, inr m, e)

moved_first :
    (x : Record) (rs : List Record) (p q : ℕ) → Last rs (x.offset + 1) q → Last (x ∷ rs) p q
moved_first x rs p q (inl e) = inr (x, inl refl, e)
moved_first x rs p q (inr (r, m, e)) = inr (r, inr m, e)

behind-Last : (rs : List Record) (p : ℕ) → Last rs p (behind rs p)
behind-Last [] p = inl refl
behind-Last (x ∷ rs) p = elim (Bool-cases (ltb p (x.offset + 1))) [
  | inl t ↦ rw t (moved_first x rs p (behind rs (x.offset + 1)) (behind-Last rs (x.offset + 1)))
  | inr f ↦ rw f (wider x rs p (behind rs p) (behind-Last rs p))
]

abbrev client : Client
client = record {
  commit = λ records position. ok (behind records position);
  commit-above =
      λ records position after e r m. rw (← ok-injective e) (behind-above records position r m);
  commit-last = λ records position after e. rw (← ok-injective e) (behind-Last records position);
}

abbrev first : Record
first = record { key = 97 ∷ []; offset = 4; value = [] }

abbrev second : Record
second = record { key = 98 ∷ []; offset = 5; value = [] }

abbrev third : Record
third = record { key = 99 ∷ []; offset = 6; value = [] }

-- Every record but the one at offset 5 is processed.
abbrev done : Record → Bool
done r = elim (r.offset == 5) [ true ↦ false | false ↦ true ]

first_committed : process_records_and_commit client (keep done) (first ∷ second ∷ []) 0 ≡ 5
unfolding process_records_and_commit find_max_commitable_record decimal
first_committed = refl

process_records_and_commit-Processed_example : Processed (keep done (first ∷ second ∷ [])) first
process_records_and_commit-Processed_example =
    process_records_and_commit-Processed client (keep done) done (first ∷ second ∷ []) 0 first refl
      (inl refl) (omega arith) (omega (arith, first_committed))

second-Unprocessed : ¬ Processed (keep done (first ∷ second ∷ [])) second
second-Unprocessed (r, inl e, k, o) = omega (arith, ap (λ (y : Record). y.offset) e)
second-Unprocessed (r, inr m, k, o) = elim m [ ]
