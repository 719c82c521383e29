-- ===== src/Kafka/Group/Draining.antt =====
-- What holds of the consumers that `gracefulShutdown` found in the map, in every later state.
use lago.Prelude.{
  ℕ, ◌<◌, ◌≤◌, Bool, true, false, List, ◌≡◌, ◌⊎◌, inl, inr, refl, sym, subst, ap, ◌∙◌, Option-cases,
  arith,
}
use lago.Kafka.Group.{
  TopicPartition, Phase, waiting, returned, busy, is_returned, Shutdown, panicked, serving,
  draining, closed, ConsumerGroup, set_phase, lose, lose_consumer, Step, assign_next, lose_next,
  quit_consumer, cancel_consumer, finish_batch, send, shut_down, close_client, Reach, start, later,
}

-- A consumer in use keeps its channel closed, and its goroutine does not start again.
record Lasts (s t : ConsumerGroup) : Type 0 where
  grows : s.next ≤ t.next
  quit : (i : ℕ) → i < s.next → (s.heap i).quit ≡ true → (t.heap i).quit ≡ true
  ended :
      (i : ℕ)
      → i < s.next
      → is_returned (s.heap i).phase ≡ true
      → is_returned (t.heap i).phase ≡ true

phase-Lasts :
    (s : ConsumerGroup) (i : ℕ) (p : Phase)
    → is_returned (s.heap i).phase ≡ false
    → Lasts s (set_phase i p s)
phase-Lasts s i p running = record {
  grows = omega arith;
  quit = λ j l h. ground arith;
  ended = λ j l h. ground arith;
}

lose-Lasts :
    (s : ConsumerGroup) (tp : TopicPartition) (rest : List TopicPartition) (ids : List ℕ)
    → Lasts s (lose tp rest ids s)
lose-Lasts s tp rest ids = elim (Option-cases (s.consumers tp)) [
  | inl free ↦
      let panics : lose tp rest ids s ≡ record s { callback = panicked } = rw (free, lose) refl in
      subst (Lasts s) (sym panics)
        (record { grows = omega arith; quit = λ j l h. h; ended = λ j l h. h })
  | inr (i, held) ↦
      let loses : lose tp rest ids s ≡ lose_consumer tp i rest ids s = rw (held, lose) refl in
      subst (Lasts s) (sym loses) (record {
        grows = omega arith;
        quit = λ j l h. ground arith;
        ended = λ j l h. ground arith;
      })
]

Step-Lasts : {s t : ConsumerGroup} → Step s t → Lasts s t
Step-Lasts {s} (assign_next tp rest e free) = record {
  grows = omega arith;
  quit = λ i l h. ground arith;
  ended = λ i l h. ground arith;
}
Step-Lasts {s} (quit_consumer i w q) = phase-Lasts s i returned (ground arith)
Step-Lasts {s} (cancel_consumer i w c) = phase-Lasts s i returned (ground arith)
Step-Lasts {s} (finish_batch i records w) = phase-Lasts s i waiting (ground arith)
Step-Lasts {s} (send tp i records rest e held w) =
    let moved = phase-Lasts s i (busy records) (ground arith) in
    record { grows = moved.grows; quit = moved.quit; ended = moved.ended }
Step-Lasts {s} (shut_down e c) = record {
  grows = omega arith;
  quit = λ i l h. ground arith;
  ended = λ i l h. ground arith;
}
Step-Lasts {s} (lose_next tp rest ids e given) =
    let lasts = lose-Lasts s tp rest ids in
    record { grows = lasts.grows; quit = lasts.quit; ended = lasts.ended }
Step-Lasts {s} st = record { grows = omega arith; quit = λ i l h. h; ended = λ i l h. h }

-- `gracefulShutdown` waits, or the consumers that it waited for have returned.
abbrev pub Stage : (ℕ → Bool) → ConsumerGroup → Type 0
Stage awaited t =
    (t.shutdown ≡ draining awaited)
    ⊎ ((i : ℕ) → awaited i ≡ true → is_returned (t.heap i).phase ≡ true)

awaited_by : Shutdown → (ℕ → Bool) → ℕ → Bool
awaited_by (draining awaited) other = awaited
awaited_by serving other = other
awaited_by closed other = other

lose_shutdown :
    (s : ConsumerGroup) (tp : TopicPartition) (rest : List TopicPartition) (ids : List ℕ)
    → (lose tp rest ids s).shutdown ≡ s.shutdown
lose_shutdown s tp rest ids = elim (Option-cases (s.consumers tp)) [
  | inl free ↦ rw (free, lose) refl
  | inr (i, held) ↦ rw (held, lose) refl
]

Step-waits :
    {s t : ConsumerGroup} (awaited : ℕ → Bool)
    → Step s t
    → s.shutdown ≡ draining awaited
    → Stage awaited t
unfolding awaited_by
Step-waits {s} awaited (shut_down e c) h = ground arith
Step-waits {s} awaited (lose_next tp rest ids e given) h = inl (lose_shutdown s tp rest ids ∙ h)
Step-waits {s} awaited (close_client w e all ok) h =
    let same : w ≡ awaited = ap (λ x. awaited_by x w) (sym e ∙ h) in
    inr (λ i m. all i (ap (λ f. f i) same ∙ m))
Step-waits awaited st h = inl h

-- What holds since `s`, when the shutdown began, of the consumers that were awaited then.
pub record Drained (s : ConsumerGroup) (awaited : ℕ → Bool) (t : ConsumerGroup) : Type 0 where
  pub grows : s.next ≤ t.next
  pub quit : (i : ℕ) → awaited i ≡ true → (t.heap i).quit ≡ true
  pub stage : Stage awaited t

pub Reach-Drained :
    (s : ConsumerGroup) (awaited : ℕ → Bool) {t u : ConsumerGroup}
    → ((i : ℕ) → awaited i ≡ true → i < s.next)
    → Reach t u
    → Drained s awaited t
    → Drained s awaited u
Reach-Drained s awaited used start d = d
Reach-Drained s awaited used (later r st) d =
    let before = Reach-Drained s awaited used r d in
    let lasts = Step-Lasts st in
    record {
      grows = omega (arith, before.grows, lasts.grows);
      quit = λ i m. lasts.quit i (omega (arith, before.grows, used i m)) (before.quit i m);
      stage = elim before.stage [
        | inl h ↦ Step-waits awaited st h
        | inr all ↦ inr (λ i m. lasts.ended i (omega (arith, before.grows, used i m)) (all i m))
      ];
    }
