-- ===== src/Tests/Group.antt =====
-- A consumer group that is assigned a partition, is sent a batch, loses the partition or ends.
use lago.Prelude.{ℕ, true, false, List, [], ◌∷◌, some, ◌≡◌, refl, ◌⊎◌, inl}
use lago.Kafka.Commit.{Record}
use lago.Kafka.Group.{
  TopicPartition, tp_eq, is_returned, sending, losing, idle, assigning, ConsumerGroup, assign, lose,
  drain, set_granted, Step, cancel, assign_start, assign_next, assign_end, lose_start, lose_next,
  fetch, new_group, Reach, start, later, set_phase, busy, send,
}
use lago.Kafka.Group.Invariant.{is_panicked}
use lago.Kafka.Group.Progress.{
  EndsBatch, Returns, Reach-not_panicked, Reach-one_goroutine, Reach-send_proceeds,
  Reach-lost_proceeds,
}
use lago.Kafka.Group.Closing.{is_closed, Reach-closes, Reach-never_closed}

abbrev partition_zero : TopicPartition
partition_zero = record { topic = "raw"; partition = 0 }

abbrev batch : List Record
batch = record { key = []; offset = 3; value = [] } ∷ []

abbrev assigned : ConsumerGroup
assigned =
    record (assign partition_zero []
      (record new_group { callback = assigning (partition_zero ∷ []) })) {
        callback = idle;
        granted = set_granted partition_zero true new_group.granted;
      }

to_assigned : Reach new_group assigned
to_assigned =
    later
      (later (later start (assign_start (partition_zero ∷ []) refl refl))
        (assign_next partition_zero [] refl refl))
      (assign_end refl)

abbrev fetched : ConsumerGroup
fetched = record assigned { poll = sending ((partition_zero, batch) ∷ []); allowed = false }

to_fetched : Reach new_group fetched
to_fetched = later to_assigned (fetch ((partition_zero, batch) ∷ []) refl refl)

abbrev at_work : ConsumerGroup
at_work = set_phase 0 (busy batch) (record fetched { poll = sending [] })

to_work : Reach new_group at_work
unfolding tp_eq
to_work = later to_fetched (send partition_zero 0 batch [] refl refl refl)

abbrev losing_one : ConsumerGroup
losing_one =
    record (lose partition_zero [] []
      (record assigned { callback = losing (partition_zero ∷ []) [] })) {
        granted = set_granted partition_zero false assigned.granted;
      }

to_losing : Reach new_group losing_one
unfolding tp_eq
to_losing =
    later (later to_assigned (lose_start (partition_zero ∷ []) refl refl))
      (lose_next partition_zero [] [] refl refl)

abbrev canceled_group : ConsumerGroup
canceled_group = record assigned { canceled = true }

to_canceled : Reach new_group canceled_group
to_canceled = later to_assigned cancel

abbrev zeroth : ℕ
zeroth = 0

Reach-one_goroutine_example : zeroth ≡ zeroth
Reach-one_goroutine_example = Reach-one_goroutine at_work to_work zeroth zeroth refl refl refl

Reach-send_proceeds_example :
    ((t : ConsumerGroup) × Step fetched t × (t.poll ≡ sending []))
    ⊎ ((i : ℕ) × (fetched.consumers partition_zero ≡ some i) × EndsBatch fetched i)
Reach-send_proceeds_example = Reach-send_proceeds fetched partition_zero batch [] to_fetched refl

Reach-lost_proceeds_example :
    (is_returned (losing_one.heap 0).phase ≡ true) ⊎ EndsBatch losing_one 0 ⊎ Returns losing_one 0
unfolding tp_eq
Reach-lost_proceeds_example = Reach-lost_proceeds losing_one [] (0 ∷ []) to_losing refl 0 (inl refl)

Reach-closes_example :
    Step canceled_group (drain canceled_group)
    × ((t : ConsumerGroup) × Reach (drain canceled_group) t
        × (is_closed t.shutdown ≡ true)
        × ((i : ℕ) → is_returned (t.heap i).phase ≡ true))
    × ((t : ConsumerGroup) (tp : TopicPartition) (i : ℕ)
        → Reach (drain canceled_group) t
        → canceled_group.consumers tp ≡ some i
        → ((t.heap i).quit ≡ true)
          × (is_closed t.shutdown ≡ true → is_returned (t.heap i).phase ≡ true))
Reach-closes_example = Reach-closes canceled_group to_canceled refl refl refl

Reach-never_closed_example :
    (t : ConsumerGroup) × Step canceled_group t
    × ((u : ConsumerGroup) → Reach t u → is_closed u.shutdown ≡ false)
Reach-never_closed_example = Reach-never_closed canceled_group refl refl refl refl

Reach-not_panicked_example : is_panicked losing_one.callback ≡ false
Reach-not_panicked_example = Reach-not_panicked losing_one to_losing
