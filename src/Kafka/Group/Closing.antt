-- ===== src/Kafka/Group/Closing.antt =====
-- How `Start` ends.
use lago.Prelude.{
  ltb, ◌==◌, subst, ℕ, zero, suc, ◌<◌, Bool, true, false, some, Option-cases, ◌≡◌, inl, inr, refl,
  Bool-cases, arith, ◌&&◌, not,
}
use lago.Kafka.Group.{
  TopicPartition, waiting, returned, is_returned, PollLoop, stopped, sending, polling, idle,
  Shutdown, serving, draining, closed, ConsumerGroup, Step, cancel, cancel_consumer, finish_batch,
  fetch, abort_poll, send, skip, skip_canceled, allow_rebalance, shut_down, close_client, set_phase,
  drain, is_held, new_group, Reach, start, later,
}
use lago.Kafka.Group.Invariant.Reached.{Reach-Inv}
use lago.Kafka.Group.Draining.{Stage, Reach-Drained}
use lago.Kafka.Group.Progress.{Phase-cases}

abbrev pub is_stopped : PollLoop → Bool
is_stopped polling = false
is_stopped (sending fetches) = false
is_stopped stopped = true

abbrev pub is_closed : Shutdown → Bool
is_closed serving = false
is_closed (draining awaited) = false
is_closed closed = true

-- The poll loop has returned, rebalances are not allowed, and the client is not closed.
abbrev pub is_stuck : ConsumerGroup → Bool
is_stuck s = is_stopped s.poll && not s.allowed && not (is_closed s.shutdown)

Step-stuck : {s t : ConsumerGroup} → Step s t → is_stuck s ≡ true → is_stuck t ≡ true
Step-stuck cancel h = ground arith
Step-stuck (fetch fetches p c) h = ground arith
Step-stuck (send tp i records rest p o w) h = ground arith
Step-stuck (skip tp records rest p o) h = ground arith
Step-stuck (skip_canceled tp records rest p c) h = ground arith
Step-stuck (allow_rebalance p) h = ground arith
Step-stuck (shut_down e c) h = ground arith
Step-stuck (close_client awaited e all a) h = ground arith
Step-stuck st h = ground arith

Reach-stuck : {s t : ConsumerGroup} → Reach s t → is_stuck s ≡ true → is_stuck t ≡ true
Reach-stuck start h = h
Reach-stuck (later r st) h = Step-stuck st (Reach-stuck r h)

-- If the context is canceled while the loop polls, the loop may return without allowing rebalances
-- again, and then the client, which waits for that, is never closed: `Start` does not return.
pub Reach-never_closed :
    (s : ConsumerGroup)
    → s.poll ≡ polling
    → s.callback ≡ idle
    → s.canceled ≡ true
    → is_closed s.shutdown ≡ false
    → (t : ConsumerGroup) × Step s t
      × ((u : ConsumerGroup) → Reach t u → is_closed u.shutdown ≡ false)
Reach-never_closed s p cb c open_client =
    (_, abort_poll p cb c, λ u r. let h = Reach-stuck r (ground arith) in ground arith)

-- The state of a group that ends: the context is canceled, and rebalances are allowed.
record Ending (s t : ConsumerGroup) : Type 0 where
  reached : Reach s t
  canceled : t.canceled ≡ true
  allowed : t.allowed ≡ true
  next : t.next ≡ s.next
  shutdown : t.shutdown ≡ s.shutdown

extend : {s t u : ConsumerGroup} → Reach s t → Reach t u → Reach s u
extend r start = r
extend r (later q st) = later (extend r q) st

-- A goroutine can end, and the others stay as they were.
end_consumer :
    (s t : ConsumerGroup) (i : ℕ)
    → Ending s t
    → (u : ConsumerGroup) × Ending s u
      × (is_returned (u.heap i).phase ≡ true)
      × ((j : ℕ) → is_returned (t.heap j).phase ≡ true → is_returned (u.heap j).phase ≡ true)
end_consumer s t i e = elim (Phase-cases (t.heap i).phase) [
  | inl w ↦ (
    set_phase i returned t,
    record {
      reached = later e.reached (cancel_consumer i w e.canceled);
      canceled = e.canceled;
      allowed = e.allowed;
      next = e.next;
      shutdown = e.shutdown;
    },
    ground arith,
    λ j h. ground arith,
  )
  | inr (inl (batch, b)) ↦ (
    set_phase i returned (set_phase i waiting t),
    record {
      reached =
          later (later e.reached (finish_batch i batch b))
            (cancel_consumer i (ground arith) e.canceled);
      canceled = e.canceled;
      allowed = e.allowed;
      next = e.next;
      shutdown = e.shutdown;
    },
    ground arith,
    λ j h. ground arith,
  )
  | inr (inr d) ↦ (t, e, ground arith, λ j h. h)
]

end_consumers :
    (n : ℕ) (s : ConsumerGroup)
    → s.canceled ≡ true
    → s.allowed ≡ true
    → (u : ConsumerGroup) × Ending s u × ((i : ℕ) → i < n → is_returned (u.heap i).phase ≡ true)
end_consumers zero s c a = (
  s,
  record { reached = start; canceled = c; allowed = a; next = refl; shutdown = refl },
  λ i h. elim h [ ],
)
end_consumers (suc n) s c a =
    let (t, e, below) = end_consumers n s c a in
    let (u, f, here, kept) = end_consumer s t n e in
    (
      u,
      f,
      λ i h. elim (Bool-cases (i == n)) [
        | inl same ↦
            let same' : n ≡ i = ground arith in
            subst (λ x. is_returned (u.heap x).phase ≡ true) same' here
        | inr differs ↦ kept i (below i (ground arith))
      ],
    )

held-used : (s : ConsumerGroup) → Reach new_group s → (i : ℕ) → is_held s i ≡ true → i < s.next
held-used s r i m = elim (Option-cases (s.consumers (s.heap i).owner)) [
  | inl free ↦ ground arith
  | inr (j, held) ↦ let inv = Reach-Inv r in ground (arith, inv.own (s.heap i).owner j held)
]

held-held :
    (s : ConsumerGroup)
    → Reach new_group s
    → (tp : TopicPartition) (i : ℕ) → s.consumers tp ≡ some i
    → is_held s i ≡ true
held-held s r tp i held = rw (is_held, ((Reach-Inv r).own tp i held).0, held) (ground arith)

closed_after :
    (awaited : ℕ → Bool) (t : ConsumerGroup)
    → Stage awaited t
    → is_closed t.shutdown ≡ true
    → (i : ℕ) → awaited i ≡ true
    → is_returned (t.heap i).phase ≡ true
closed_after awaited t (inl waits) h i m = ground arith
closed_after awaited t (inr all) h i m = all i m

-- A group whose context is canceled, that `Start` serves and whose rebalances are allowed, can begin
-- its shutdown and always end: the goroutines of its consumers return, whatever they are working
-- on, and then the client is closed. In every state after that beginning the channels of the
-- consumers that the map held then are closed, and where the client is closed they have returned.
pub Reach-closes :
    (s : ConsumerGroup)
    → Reach new_group s
    → s.canceled ≡ true
    → s.allowed ≡ true
    → s.shutdown ≡ serving
    → Step s (drain s)
      × ((t : ConsumerGroup) × Reach (drain s) t
          × (is_closed t.shutdown ≡ true)
          × ((i : ℕ) → is_returned (t.heap i).phase ≡ true))
      × ((t : ConsumerGroup) (tp : TopicPartition) (i : ℕ)
          → Reach (drain s) t
          → s.consumers tp ≡ some i
          → ((t.heap i).quit ≡ true)
            × (is_closed t.shutdown ≡ true → is_returned (t.heap i).phase ≡ true))
Reach-closes s r c a serves =
    let drained : Step s (drain s) = shut_down serves c in
    let (t, e, below) = end_consumers s.next (drain s) c a in
    let inv = Reach-Inv (extend (later r drained) e.reached) in
    let all = λ (i : ℕ).
      elim (Bool-cases (ltb i s.next)) as (λ x. is_returned (t.heap i).phase ≡ true) [
        | inl l ↦ below i (ground arith)
        | inr l ↦ inv.fresh i (ground (arith, e.next))
      ] in
    (
      drained,
      (
        _,
        later e.reached (close_client (is_held s) e.shutdown (λ i h. all i) e.allowed),
        refl,
        all,
      ),
      λ t tp i q held.
          let mine = held-held s r tp i held in
          let d =
            Reach-Drained s (is_held s) (held-used s r) q
              (record { grows = omega arith; quit = λ j m. rw m refl; stage = inl refl }) in
          (d.quit i mine, λ h. closed_after (is_held s) t d.stage h i mine),
    )
