-- ===== src/Kafka/Group/Invariant/Reached.antt =====
-- The invariant holds in every state that the steps of a group reach.
use lago.Prelude.{
  none≢some, false≢true, true, false, [], none, is_some, subst, ◌≡◌, inl, inr, refl, sym, ap, ◌∙◌,
  Option-cases, arith,
}
use lago.Kafka.Group.{
  TopicPartition, waiting, returned, busy, polling, sending, stopped, closed, idle, assigning,
  losing, ConsumerGroup, Step, cancel, assign_start, assign_next, assign_end, lose_start, lose_next,
  lose_end, set_granted, quit_consumer, cancel_consumer, finish_batch, stop_poll, client_closed,
  fetch, abort_poll, send, skip, skip_canceled, allow_rebalance, shut_down, close_client, new_group,
  Reach, start, later,
}
use lago.Kafka.Group.Invariant.{awaited, Inv, set_phase-Inv, moved, assign-Inv, drain-Inv}
use lago.Kafka.Group.Invariant.Losing.{lose-held, lose-Inv, lost-Inv}

granted_none :
    (s : ConsumerGroup)
    → Inv s
    → (tp : TopicPartition) → s.granted tp ≡ false
    → s.consumers tp ≡ none
granted_none s inv tp free = elim (Option-cases (s.consumers tp)) [
  | inl e ↦ e
  | inr (i, owned) ↦ absurd (false≢true (sym free ∙ inv.held tp ∙ ap is_some owned))
]

-- Every step keeps the invariant.
pub Step-Inv : {s t : ConsumerGroup} → Step s t → Inv s → Inv t
Step-Inv {s} cancel inv = record {
  own = inv.own;
  fresh = inv.fresh;
  live = inv.live;
  gone = inv.gone;
  single = inv.single;
  lasts = λ tp i h q. refl;
  held = inv.held;
  calm = inv.calm;
}
Step-Inv {s} (assign_start tps ok e) inv =
    moved s inv s.poll s.allowed (assigning tps) s.shutdown (sym (ap awaited e)) refl
Step-Inv {s} (assign_next tp rest e free) inv =
    assign-Inv s inv tp rest e (granted_none s inv tp free)
Step-Inv {s} (assign_end e) inv =
    moved s inv s.poll s.allowed idle s.shutdown (sym (ap awaited e)) refl
Step-Inv {s} (lose_start tps ok e) inv =
    moved s inv s.poll s.allowed (losing tps []) s.shutdown (sym (ap awaited e)) refl
Step-Inv {s} (lose_next tp rest ids e given) inv = elim (Option-cases (s.consumers tp)) [
  | inl free ↦ absurd (false≢true (sym (ap is_some free) ∙ sym (inv.held tp) ∙ given))
  | inr (i, owned) ↦
      subst (λ x. Inv (record x { granted = set_granted tp false s.granted }))
        (sym (lose-held s inv tp i rest ids owned)) (lose-Inv s inv tp i rest ids e owned)
]
Step-Inv {s} (lose_end ids e all) inv = lost-Inv s inv ids e all
Step-Inv {s} (quit_consumer i w q) inv =
    set_phase-Inv s inv i returned (ground arith) (λ r. ground arith)
Step-Inv {s} (cancel_consumer i w c) inv =
    set_phase-Inv s inv i returned (ground arith) (λ r. ground arith)
Step-Inv {s} (finish_batch i records w) inv =
    set_phase-Inv s inv i waiting (ground arith) (λ r. ground arith)
Step-Inv {s} (send tp i records rest e held w) inv =
    moved _ (set_phase-Inv s inv i (busy records) (ground arith) (λ r. ground arith)) (sending rest)
      s.allowed s.callback s.shutdown refl inv.calm
Step-Inv {s} (shut_down e c) inv = drain-Inv s inv c
Step-Inv {s} (stop_poll e c) inv = moved s inv stopped s.allowed s.callback s.shutdown refl inv.calm
Step-Inv {s} (client_closed e c) inv =
    moved s inv stopped s.allowed s.callback s.shutdown refl inv.calm
Step-Inv {s} (fetch fetches e c) inv =
    moved s inv (sending fetches) false s.callback s.shutdown refl inv.calm
Step-Inv {s} (abort_poll e c k) inv = moved s inv stopped false s.callback s.shutdown refl inv.calm
Step-Inv {s} (skip tp records rest e c) inv =
    moved s inv (sending rest) s.allowed s.callback s.shutdown refl inv.calm
Step-Inv {s} (skip_canceled tp records rest e c) inv =
    moved s inv (sending rest) s.allowed s.callback s.shutdown refl inv.calm
Step-Inv {s} (allow_rebalance e) inv = moved s inv polling true s.callback s.shutdown refl inv.calm
Step-Inv {s} (close_client w e all ok) inv =
    moved s inv s.poll s.allowed s.callback closed refl inv.calm

new_group-Inv : Inv new_group
new_group-Inv = record {
  own = λ tp i h. absurd (none≢some h);
  fresh = λ i le. refl;
  live = λ i h. cc;
  gone = λ i m. elim m [ ];
  single = λ i j m n e. elim m [ ];
  lasts = λ tp i h q. absurd (none≢some h);
  held = λ tp. refl;
  calm = refl;
}

pub Reach-Inv : {s : ConsumerGroup} → Reach new_group s → Inv s
Reach-Inv start = new_group-Inv
Reach-Inv (later r st) = Step-Inv st (Reach-Inv r)
