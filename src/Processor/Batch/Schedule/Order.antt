-- ===== src/Processor/Batch/Schedule/Order.antt =====
-- The goroutines of a batch against `process_events`, which takes its records one after the other.
use lago.Prelude.{
  ℕ, List, [], ◌∷◌, not, keep, keep-In, In, ◌≡◌, inl, inr, refl, sym, ◌∙◌, subst, Bool-cases,
}
use mathlib.Core.List.{Perm, Permᴰ, append-nil}
use lago.Utils.Result.{returns-injective, Except, Outcome, Outcome-cases, panics≢returns, returns}
use lago.Utils.NullTime.{Time}
use lago.Utils.Time.{Numbers, Timestamp}
use lago.Models.Event.{Event}
use lago.Kafka.Commit.{Record, commitable_records}
use lago.Kafka.Order.{Distinct, commitable_records-Permᴰ}
use lago.Processor.EnrichEvent.{Enriched}
use lago.Processor.Effects.{Effect, Outside}
use lago.Processor.Batch.{process_record, process_events}
use lago.Processor.Batch.Accounting.{is_left_over, returned_first, process_events-processed}
use lago.Processor.Batch.Schedule.{Goroutine, Batch, started, marked, Run, spawn}
use lago.Processor.Batch.Schedule.Totals.{gather, pending_of, Run-all_marked, Run-all_sent}

module _ (N : Numbers) (out : Outside N) (enrich : Event (Timestamp N) → Outcome (Enriched N))
    (decode : Record → Except (Event (Timestamp N))) (now : Time) where
  -- What `process_events` returns is what the goroutines have before them.
  process_events-spawn :
      (records : List Record) (gs : List (Goroutine (Effect N)))
      → spawn N out enrich decode now records ≡ returns gs
      → process_events N out enrich decode now records
        ≡ returns (gather marked gs, gather pending_of gs)
  unfolding spawn process_events
  process_events-spawn [] gs h = rw (← returns-injective h) refl
  process_events-spawn (rec ∷ rest) gs h =
      elim (Outcome-cases (process_record N out enrich decode now rec)) [
        | inl (e, p) ↦ panics≢returns (rw (p, spawn) at h)
        | inr ((done, own), p) ↦ elim (Outcome-cases (spawn N out enrich decode now rest)) [
          | inl (e, q) ↦ panics≢returns (rw q at (rw (p, spawn) at h))
          | inr (others, q) ↦
              rw (p, process_events, process_events-spawn rest others q)
                (rw (← returns-injective (rw q at (rw (p, spawn) at h)))
                  (elim (Bool-cases done) [ inl t ↦ rw t refl | inr f ↦ rw f refl ]))
        ]
      ]

  module _ (records : List Record) (gs : List (Goroutine (Effect N)))
      (goes : spawn N out enrich decode now records ≡ returns gs) (n : ℕ) (s : Batch (Effect N))
      (run : Run (started gs) n s) (waited : s.running ≡ []) where
    processed-Permᴰ : Permᴰ (gather marked gs) s.processed
    processed-Permᴰ =
        subst (Permᴰ (gather marked gs)) (rw waited (append-nil s.processed)) (Run-all_marked run)

    sent-Permᴰ : Permᴰ (gather pending_of gs) s.sent
    sent-Permᴰ =
        subst (Permᴰ (gather pending_of gs)) (rw waited (append-nil s.sent)) (Run-all_sent run)

  -- Whatever the order in which the goroutines of a batch take turns: once they have all returned, the
  -- records that they marked as processed and the messages that they sent are those of
  -- `process_events`, which takes one record after the other, in some order. None is missing, and none
  -- is there twice. (Where no event of the batch panics.)
  pub Run-process_events :
      (records : List Record) (gs : List (Goroutine (Effect N))) (n : ℕ) (s : Batch (Effect N))
      → spawn N out enrich decode now records ≡ returns gs
      → Run (started gs) n s
      → s.running ≡ []
      → (processed : List Record) × (sent : List (Effect N)) × (process_events N out enrich decode
            now records
          ≡ returns (processed, sent))
        × Perm processed s.processed
        × Perm sent s.sent
  Run-process_events records gs n s goes run waited = (
    gather marked gs,
    gather pending_of gs,
    process_events-spawn records gs goes,
    ∣ processed-Permᴰ records gs goes n s run waited ∣₁,
    ∣ sent-Permᴰ records gs goes n s run waited ∣₁,
  )

  -- However the goroutines of a batch take turns: once they have all returned, the records that they
  -- marked as processed are, each as often as in the batch and in some order, exactly those whose
  -- event does not fail with an error worth another try less than twelve hours after it was received.
  -- (Where no event of the batch panics.)
  pub Run-processed :
      (records : List Record) (gs : List (Goroutine (Effect N))) (n : ℕ) (s : Batch (Effect N))
      → spawn N out enrich decode now records ≡ returns gs
      → Run (started gs) n s
      → s.running ≡ []
      → Perm (keep (λ rec. not (is_left_over N out enrich decode now rec)) records) s.processed
  Run-processed records gs n s goes run waited =
      let (processed, sent, h, p, q) = Run-process_events records gs n s goes run waited in
      subst (λ x. Perm x s.processed)
        (process_events-processed N out enrich decode now records processed sent h) p

  marked_within :
      (records processed : List Record) (sent : List (Effect N))
      → process_events N out enrich decode now records ≡ returns (processed, sent)
      → (p : Record) → In p processed
      → In p records
  marked_within records processed sent h p m =
      (keep-In (λ rec. not (is_left_over N out enrich decode now rec)) records p
        (subst (In p) (process_events-processed N out enrich decode now records processed sent h)
          m)).0

  -- Where the offsets of a batch differ, what is committed for it is the same for every order in which
  -- its goroutines take turns: what `process_events` returns leads to that commit too.
  pub Run-commitable_records :
      (records processed : List Record) (sent : List (Effect N)) (gs : List (Goroutine (Effect N)))
      (n : ℕ) (s : Batch (Effect N))
      → process_events N out enrich decode now records ≡ returns (processed, sent)
      → Distinct records
      → spawn N out enrich decode now records ≡ returns gs
      → Run (started gs) n s
      → s.running ≡ []
      → commitable_records s.processed records ≡ commitable_records processed records
  Run-commitable_records records processed sent gs n s h distinct goes run waited =
      let same : processed ≡ gather marked gs =
        returned_first (sym h ∙ process_events-spawn records gs goes) in
      let moved : Permᴰ processed s.processed =
        subst (λ l. Permᴰ l s.processed) (sym same)
          (processed-Permᴰ records gs goes n s run waited) in
      sym (commitable_records-Permᴰ records moved distinct (marked_within records processed sent h))
