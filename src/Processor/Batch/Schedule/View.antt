-- ===== src/Processor/Batch/Schedule/View.antt =====
-- A batch as its environment sees it: which records are processed and which messages are sent, with
-- no order among them.
use lago.Prelude.{ℕ, List, [], ◌≡◌, sym, ◌∙◌}
use mathlib.Core.List.{Perm}
use mathlib.Core.Quot
use mathlib.Core.Quot.{Quot}
use lago.Utils.Result.{Except, Outcome, returns, panics}
use lago.Utils.NullTime.{Time}
use lago.Utils.Time.{Numbers, Timestamp}
use lago.Models.Event.{Event}
use lago.Kafka.Commit.{Record}
use lago.Processor.EnrichEvent.{Enriched}
use lago.Processor.Effects.{Effect, Outside}
use lago.Processor.Batch.{process_events}
use lago.Processor.Batch.Schedule.{Goroutine, Batch, started, Run, spawn}
use lago.Processor.Batch.Schedule.Order.{Run-process_events}

-- A list without its order.
abbrev pub Bag : Type 0 → Type 0
Bag A = Quot (Perm {A = A})

abbrev pub bag : {A : Type 0} → List A → Bag A
bag xs = Quot.mk xs

module _ (N : Numbers) where
  -- The processed records and the sent messages.
  abbrev pub View : Type 0
  View = Bag Record × Bag (Effect N)

  abbrev pub view : Batch (Effect N) → View
  view s = (bag s.processed, bag s.sent)

  abbrev view_of : List Record × List (Effect N) → View
  view_of (processed, sent) = (bag processed, bag sent)

  module _ (out : Outside N) (enrich : Event (Timestamp N) → Outcome (Enriched N))
      (decode : Record → Except (Event (Timestamp N))) (now : Time) where
    -- What a batch is meant to do, in one step.
    abbrev pub process_batch : List Record → Outcome View
    process_batch records = elim (process_events N out enrich decode now records) [
      | panics e ↦ panics e
      | returns both ↦ returns (view_of both)
    ]

    -- However the goroutines of a batch take turns, they end in what the batch is meant to do: the
    -- records that they mark as processed and the messages that they send are those of
    -- `process_events`, each as often, and only their order is theirs. (Where no event panics.)
    pub Run-process_batch :
        (records : List Record) (gs : List (Goroutine (Effect N))) (n : ℕ) (s : Batch (Effect N))
        → spawn N out enrich decode now records ≡ returns gs
        → Run (started gs) n s
        → s.running ≡ []
        → process_batch records ≡ returns (view s)
    Run-process_batch records gs n s goes run waited =
        let (processed, sent, h, p, q) =
          Run-process_events N out enrich decode now records gs n s goes run waited in
        rw (h, process_batch) (λ i. returns (Quot.sound p i, Quot.sound q i))

    -- So two complete runs of one batch cannot be told apart.
    pub Run-same_view :
        (records : List Record) (gs : List (Goroutine (Effect N))) (m n : ℕ)
        (s t : Batch (Effect N))
        → spawn N out enrich decode now records ≡ returns gs
        → Run (started gs) m s
        → Run (started gs) n t
        → s.running ≡ []
        → t.running ≡ []
        → view s ≡ view t
    Run-same_view records gs m n s t goes run turn waited ended =
        let both : returns (view s) ≡ returns (view t) =
          sym (Run-process_batch records gs m s goes run waited)
          ∙ Run-process_batch records gs n t goes turn ended in
        cc
