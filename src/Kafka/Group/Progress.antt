-- ===== src/Kafka/Group/Progress.antt =====
-- What the invariant says of the goroutines: each partition has one, and none waits forever.
use lago.Prelude.{
  none≢some, some-injective, ℕ, true, false, List, ◌∷◌, some, In, ◌≡◌, ◌⊎◌, inl, inr, refl, sym, ap,
  ◌∙◌, Option-cases, arith,
}
use lago.Kafka.Commit.{Record}
use lago.Kafka.Group.{
  TopicPartition, Phase, waiting, returned, busy, is_returned, sending, losing, ConsumerGroup, Step,
  quit_consumer, finish_batch, send, skip, skip_canceled, set_phase, new_group, Reach,
}
use lago.Kafka.Group.Invariant.{is_panicked}
use lago.Kafka.Group.Invariant.Reached.{Reach-Inv}

pub Phase-cases :
    (p : Phase) → (p ≡ waiting) ⊎ ((records : List Record) × (p ≡ busy records)) ⊎ (p ≡ returned)
Phase-cases waiting = inl refl
Phase-cases (busy records) = inr (inl (records, refl))
Phase-cases returned = inr (inr refl)

-- At any time, a partition has at most one goroutine that has not returned: two consumers never
-- work on the records of one partition, also across a rebalance.
pub Reach-one_goroutine :
    (s : ConsumerGroup)
    → Reach new_group s
    → (i j : ℕ) → is_returned (s.heap i).phase ≡ false
    → is_returned (s.heap j).phase ≡ false
    → (s.heap i).owner ≡ (s.heap j).owner
    → i ≡ j
Reach-one_goroutine s r i j hi hj same =
    let inv = Reach-Inv r in
    elim (inv.live i hi) [
      | inl a ↦ elim (inv.live j hj) [
        | inl b ↦ some-injective (sym a ∙ ap s.consumers same ∙ b)
        | inr b ↦ absurd (none≢some (sym (inv.gone j b).0 ∙ ap s.consumers (sym same) ∙ a))
      ]
      | inr a ↦ elim (inv.live j hj) [
        | inl b ↦ absurd (none≢some (sym (inv.gone i a).0 ∙ ap s.consumers same ∙ b))
        | inr b ↦ inv.single i j a b same
      ]
    ]

-- The client never has `lost` look for a consumer that the map does not hold: no callback ends the
-- process with a nil consumer.
pub Reach-not_panicked : (s : ConsumerGroup) → Reach new_group s → is_panicked s.callback ≡ false
Reach-not_panicked s r = (Reach-Inv r).calm

-- The goroutine works on a batch, and its next step is to end it and to wait for another.
abbrev pub EndsBatch : ConsumerGroup → ℕ → Type 0
EndsBatch s i =
    (records : List Record) × ((s.heap i).phase ≡ busy records) × Step s (set_phase i waiting s)

-- The goroutine waits for a batch, and its next step is to return.
abbrev pub Returns : ConsumerGroup → ℕ → Type 0
Returns s i = ((s.heap i).phase ≡ waiting) × Step s (set_phase i returned s)

-- The poll loop never waits for a goroutine that is gone: where it has records to send, it takes a
-- step itself that leaves the rest to send, or the goroutine of the partition is at work on an
-- earlier batch, which it can end.
pub Reach-send_proceeds :
    (s : ConsumerGroup) (tp : TopicPartition) (records : List Record)
    (rest : List (TopicPartition × List Record))
    → Reach new_group s
    → s.poll ≡ sending ((tp, records) ∷ rest)
    → ((t : ConsumerGroup) × Step s t × (t.poll ≡ sending rest))
      ⊎ ((i : ℕ) × (s.consumers tp ≡ some i) × EndsBatch s i)
Reach-send_proceeds s tp records rest r e = elim (Option-cases (s.consumers tp)) [
  | inl free ↦ inl (_, skip tp records rest e free, refl)
  | inr (i, owned) ↦ elim (Phase-cases (s.heap i).phase) [
    | inl w ↦ inl (_, send tp i records rest e owned w, refl)
    | inr (inl (batch, b)) ↦ inr (i, owned, (batch, b, finish_batch i batch b))
    | inr (inr d) ↦
        let canceled = (Reach-Inv r).lasts tp i owned (ground arith) in
        inl (_, skip_canceled tp records rest e canceled, refl)
  ]
]

-- `lost` never waits for a goroutine that does not end: each one that it waits for has returned, is
-- at work on a batch, which it can end, or waits for a batch and can return instead.
pub Reach-lost_proceeds :
    (s : ConsumerGroup) (tps : List TopicPartition) (ids : List ℕ)
    → Reach new_group s
    → s.callback ≡ losing tps ids
    → (i : ℕ) → In i ids
    → (is_returned (s.heap i).phase ≡ true) ⊎ EndsBatch s i ⊎ Returns s i
Reach-lost_proceeds s tps ids r e i m = elim (Phase-cases (s.heap i).phase) [
  | inl w ↦ inr (inr (w, quit_consumer i w ((Reach-Inv r).gone i (rw e m)).1))
  | inr (inl (batch, b)) ↦ inr (inl (batch, b, finish_batch i batch b))
  | inr (inr d) ↦ inl (ground arith)
]
