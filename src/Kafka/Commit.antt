-- ===== src/Kafka/Commit.antt =====
-- events-processor/config/kafka/consumer.go: the record up to which a batch is committed.
use lago.Prelude.{
  ℕ, ◌-◌, ◌^◌, List, [], ◌∷◌, ◌++◌, Bool, true, false, ◌&&◌, ◌||◌, not, Option, none, some, ltb,
  ◌==◌, if◌then◌else◌, length,
}
use lago.Kafka.Decimal.{Bytes, decimal}

-- `kgo.Record`: the fields that the consumer reads.
pub record Record : Type 0 where
  pub key : Bytes
  pub offset : ℕ
  pub value : Bytes

unfoldable pub bytes_eq : Bytes → Bytes → Bool
bytes_eq [] [] = true
bytes_eq [] (d ∷ t) = false
bytes_eq (c ∷ s) [] = false
bytes_eq (c ∷ s) (d ∷ t) = c == d && bytes_eq s t

-- `fmt.Sprintf("%s-%d", string(record.Key), record.Offset)`
unfoldable pub record_key : Record → Bytes
record_key r = r.key ++ (45 ∷ decimal r.offset)

-- The keys that `processedMap` holds, all with the value `true`.
unfoldable pub processed_map : List Record → List Bytes
unfolding record_key
processed_map [] = []
processed_map (r ∷ rs) = record_key r ∷ processed_map rs

unfoldable pub is_processed : List Bytes → Bytes → Bool
unfolding bytes_eq
is_processed [] k = false
is_processed (j ∷ js) k = bytes_eq j k || is_processed js k

abbrev pub max_int64 : ℕ
max_int64 = 2 ^ 63 - 1

-- `minUnprocessedOffset` and `foundUnprocessed`
pub record Scan : Type 0 where
  pub lowest : ℕ
  pub found : Bool

abbrev pub scan_start : Scan
scan_start = record { lowest = max_int64; found = false }

unfoldable pub scan_record : List Bytes → Record → Scan → Scan
unfolding record_key is_processed
scan_record done r s =
    if is_processed done (record_key r)
    then s
    else if not s.found || ltb r.offset s.lowest
    then record { lowest = r.offset; found = true }
    else s

unfoldable pub min_unprocessed : List Bytes → List Record → Scan → Scan
unfolding scan_record
min_unprocessed done [] s = s
min_unprocessed done (r ∷ rs) s = min_unprocessed done rs (scan_record done r s)

-- The last loop: a processed record below the bound, with the highest offset so far.
unfoldable pub better_record : ℕ → Record → Option Record → Option Record
better_record bound r none = if ltb r.offset bound then some r else none
better_record bound r (some m) =
    if ltb r.offset bound && ltb m.offset r.offset then some r else some m

unfoldable pub max_below : ℕ → List Record → Option Record → Option Record
unfolding better_record
max_below bound [] best = best
max_below bound (r ∷ rs) best = max_below bound rs (better_record bound r best)

unfoldable pub find_max_commitable_record : List Record → List Record → Option Record
unfolding processed_map min_unprocessed max_below
find_max_commitable_record processed records =
    let scan = min_unprocessed (processed_map processed) records scan_start in
    max_below scan.lowest processed none

-- What `processRecordsAndCommit` hands to `CommitRecords`; `none` where it skips the commit.
unfoldable pub commitable_records : List Record → List Record → Option (List Record)
unfolding find_max_commitable_record
commitable_records processed records =
    if length processed == length records
    then some records
    else elim (find_max_commitable_record processed records) [
      | none ↦ none
      | some r ↦ some (r ∷ [])
    ]
