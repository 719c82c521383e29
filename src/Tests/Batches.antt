-- ===== src/Tests/Batches.antt =====
-- A batch of three records whose goroutines take turns in another order than that of the records.
use lago.Prelude.{
  ℕ, keep, not, List, [], ◌∷◌, true, false, In, inl, inr, ◌≡◌, refl, sym, ap, ◌∙◌, ◌==◌,
  if◌then◌else◌,
}
use lago.Utils.Result.{Except, ok, returns}
use lago.Utils.Time.{Timestamp}
use lago.Models.Event.{Event}
use lago.Kafka.Commit.{Record, commitable_records}
use lago.Kafka.Order.{Distinct}
use lago.Processor.Effects.{Effect, produce_to_dead_letter_queue}
use lago.Processor.Batch.{process_events}
use lago.Processor.Enrichment.{failed_as}
use lago.Processor.Batch.Schedule.{Goroutine, Batch, started, send, finish, Run, start, next, spawn}
use lago.Processor.Batch.Accounting.{is_left_over}
use mathlib.Core.List.{Perm}
use lago.Processor.Batch.Schedule.Order.{Run-processed, Run-commitable_records}
use lago.Processor.Batch.Schedule.View.{view, process_batch, Run-process_batch}
use lago.Tests.Fixtures.{naturals}
use lago.Tests.Processor.{event, outside, failing, letters, failed_processing}

abbrev at_offset : ℕ → Record
at_offset n = record { key = []; offset = n; value = [] }

-- The event at offset 4 was received just now.
abbrev decode : Record → Except (Event (Timestamp naturals))
decode rec = ok (if rec.offset == 4 then record event { ingested_at = 50000000000000 } else event)

abbrev batch : List Record
batch = at_offset 3 ∷ at_offset 4 ∷ at_offset 5 ∷ []

abbrev goroutine : ℕ → List (Effect naturals) → Goroutine (Effect naturals)
goroutine n pending = record { rec = at_offset n; pending = pending; done = true }

abbrev left : Goroutine (Effect naturals)
left = record { rec = at_offset 4; pending = []; done = false }

abbrev goroutines : List (Goroutine (Effect naturals))
goroutines = goroutine 3 letters ∷ left ∷ goroutine 5 letters ∷ []

spawned : spawn naturals outside failing decode 50000000000000 batch ≡ returns goroutines
unfolding spawn failing failed_as
spawned = refl

abbrev letter : Effect naturals
letter = produce_to_dead_letter_queue naturals event failed_processing.0

in_order :
    process_events naturals outside failing decode 50000000000000 batch
    ≡ returns (at_offset 3 ∷ at_offset 5 ∷ [], letter ∷ letter ∷ [])
unfolding process_events failing failed_as
in_order = refl

-- The last record is done first, then the one that is left, then the first.
abbrev ended : Batch (Effect naturals)
ended = record {
  running = [];
  processed = at_offset 5 ∷ at_offset 3 ∷ [];
  sent = letter ∷ letter ∷ [];
}

turns : Run (started goroutines) 5 ended
turns =
    next
      (next
        (next
          (next
            (next start (
              send (goroutine 3 letters ∷ left ∷ []) (goroutine 5 letters) [] [] letter [] refl
                refl))
            (finish (goroutine 3 letters ∷ left ∷ []) (goroutine 5 []) [] refl refl))
          (finish (goroutine 3 letters ∷ []) left [] refl refl))
        (send [] (goroutine 3 letters) [] [] letter [] refl refl))
      (finish [] (goroutine 3 []) [] refl refl)

Run-process_batch_example :
    process_batch naturals outside failing decode 50000000000000 batch
    ≡ returns (view naturals ended)
Run-process_batch_example =
    Run-process_batch naturals outside failing decode 50000000000000 batch goroutines 5 ended
      spawned turns refl

In-batch : (p : Record) → In p batch → p ≡ at_offset p.offset
In-batch p (inl e) = sym e ∙ ap (λ (r : Record). at_offset r.offset) e
In-batch p (inr (inl e)) = sym e ∙ ap (λ (r : Record). at_offset r.offset) e
In-batch p (inr (inr (inl e))) = sym e ∙ ap (λ (r : Record). at_offset r.offset) e
In-batch p (inr (inr (inr m))) = elim m [ ]

batch-Distinct : Distinct batch
batch-Distinct p q m n e = In-batch p m ∙ ap at_offset e ∙ sym (In-batch q n)

Run-commitable_records_example :
    commitable_records (at_offset 5 ∷ at_offset 3 ∷ []) batch
    ≡ commitable_records (at_offset 3 ∷ at_offset 5 ∷ []) batch
Run-commitable_records_example =
    Run-commitable_records naturals outside failing decode 50000000000000 batch
      (at_offset 3 ∷ at_offset 5 ∷ []) (letter ∷ letter ∷ []) goroutines 5 ended in_order
      batch-Distinct spawned turns refl

Run-processed_example :
    Perm
      (keep (λ rec. not (is_left_over naturals outside failing decode 50000000000000 rec)) batch)
      (at_offset 5 ∷ at_offset 3 ∷ [])
Run-processed_example =
    Run-processed naturals outside failing decode 50000000000000 batch goroutines 5 ended spawned
      turns refl
