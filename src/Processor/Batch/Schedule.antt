-- ===== src/Processor/Batch/Schedule.antt =====
-- events-processor/processors/events_processor/processor.go, `ProcessEvents`: the goroutines of a
-- batch, which send their messages and lock the mutex in any order. What a goroutine finds out about
-- its record is `process_record` of the parent. The append under the mutex is one step, and so is a
-- send: that a lock is given back and that a send returns is taken for granted here.
pub mod Totals
pub mod Order
pub mod View
use lago.Prelude.{ℕ, suc, ◌+◌, length, snoc, List, [], ◌∷◌, ◌++◌, Bool, ◌≡◌, if◌then◌else◌}
use lago.Utils.Result.{Except, Outcome, returns, panics}
use lago.Utils.NullTime.{Time}
use lago.Utils.Time.{Numbers, Timestamp}
use lago.Models.Event.{Event}
use lago.Kafka.Commit.{Record}
use lago.Processor.EnrichEvent.{Enriched}
use lago.Processor.Effects.{Effect, Outside}
use lago.Processor.Batch.{process_record}

-- A goroutine of the group: the messages that it has yet to send, and whether it then marks its
-- record as processed.
pub record Goroutine (E : Type 0) : Type 0 where
  pub rec : Record
  pub pending : List E
  pub done : Bool

-- The goroutines that `g.Wait` waits for, `processedRecords`, and the messages in the order in which
-- they were sent.
pub record Batch (E : Type 0) : Type 0 where
  pub running : List (Goroutine E)
  pub processed : List Record
  pub sent : List E

module _ {E : Type 0} where
  abbrev pub started : List (Goroutine E) → Batch E
  started gs = record { running = gs; processed = []; sent = [] }

  -- What a goroutine appends to `processedRecords`.
  abbrev pub marked : Goroutine E → List Record
  marked g = if g.done then g.rec ∷ [] else []

  -- A step of one of the goroutines: it sends one of its messages, or returns once it has sent them
  -- all. The messages of a goroutine go in any order, which is more than the code allows.
  pub data Step (s : Batch E) : Batch E → Type 0 where
    send :
        (before : List (Goroutine E)) (g : Goroutine E) (after : List (Goroutine E))
        (earlier : List E) (message : E) (later : List E)
        → s.running ≡ before ++ g ∷ after
        → g.pending ≡ earlier ++ message ∷ later
        → Step s (record {
          running = before ++ record g { pending = earlier ++ later } ∷ after;
          processed = s.processed;
          sent = snoc s.sent message;
        })
    finish :
        (before : List (Goroutine E)) (g : Goroutine E) (after : List (Goroutine E))
        → s.running ≡ before ++ g ∷ after
        → g.pending ≡ []
        → Step s (record {
          running = before ++ after;
          processed = s.processed ++ marked g;
          sent = s.sent;
        })

  -- The steps of a run, counted.
  pub data Run (s : Batch E) : ℕ → Batch E → Type 0 where
    start : Run s 0 s
    next : {n : ℕ} {t u : Batch E} → Run s n t → Step t u → Run s (suc n) u

  -- The steps that goroutines have ahead of them.
  unfoldable pub work : List (Goroutine E) → ℕ
  work [] = 0
  work (g ∷ gs) = suc (length g.pending) + work gs

module _ (N : Numbers) (out : Outside N) (enrich : Event (Timestamp N) → Outcome (Enriched N))
    (decode : Record → Except (Event (Timestamp N))) (now : Time) where
  -- The loop that starts a goroutine for each record.
  unfoldable pub spawn : List Record → Outcome (List (Goroutine (Effect N)))
  unfolding process_record
  spawn [] = returns []
  spawn (rec ∷ rest) =
      let others = spawn rest in
      elim (process_record N out enrich decode now rec) [
        | panics e ↦ panics e
        | returns (done, effects) ↦ elim others [
          | panics e ↦ panics e
          | returns gs ↦ returns (record { rec = rec; pending = effects; done = done } ∷ gs)
        ]
      ]
