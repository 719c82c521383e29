-- ===== src/Kafka/Partition.antt =====
-- events-processor/config/kafka/consumer.go, `processRecordsAndCommit`: the batches of a partition,
-- one after the other, and the position that the client commits for it.
pub mod Commits
use lago.Prelude.{
  ℕ, suc, ◌+◌, ◌≤◌, ◌<◌, List, [], ◌∷◌, Bool, true, false, Option, none, some, In, keep, length,
  ◌==◌, ◌≡◌, ◌⊎◌, inl, inr, refl, sym, ap, ◌∙◌, subst, Bool-cases, Option-cases, keep-In, In-keep,
  In-single, arith, if◌then◌else◌,
}
use lago.Utils.Result.{Except, ok, error, Error}
use lago.Kafka.Commit.{Record, find_max_commitable_record, commitable_records}
use lago.Kafka.Safety.{Processed, find_max_commitable_record_sound}

-- `CommitRecords` of the client: it commits the position behind the last of the records that it is
-- given, which are of one partition, and nothing where there are none.
pub record Client : Type 0 where
  pub commit : List Record → ℕ → Except ℕ
  pub commit-above :
      (records : List Record) (position after : ℕ)
      → commit records position ≡ ok after
      → (r : Record) → In r records
      → r.offset < after
  pub commit-last :
      (records : List Record) (position after : ℕ)
      → commit records position ≡ ok after
      → (after ≡ position) ⊎ ((r : Record) × In r records × (after ≡ r.offset + 1))

module _ (client : Client) where
  -- A commit that fails is only reported.
  unfoldable pub commit_or_report : Option (List Record) → ℕ → ℕ
  commit_or_report none position = position
  commit_or_report (some records) position = elim (client.commit records position) [
    | ok after ↦ after
    | error e ↦ position
  ]

  unfoldable pub process_records_and_commit : (List Record → List Record) → List Record → ℕ → ℕ
  unfolding commit_or_report commitable_records
  process_records_and_commit process records position =
      commit_or_report (commitable_records (process records) records) position

  -- The batches that a partition consumer receives.
  unfoldable pub consume_batches : (List Record → List Record) → List (List Record) → ℕ → ℕ
  unfolding process_records_and_commit
  consume_batches process [] position = position
  consume_batches process (records ∷ batches) position =
      consume_batches process batches (process_records_and_commit process records position)
