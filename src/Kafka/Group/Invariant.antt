-- ===== src/Kafka/Group/Invariant.antt =====
-- What holds in every state of a consumer group that its steps reach.
pub mod Losing
pub mod Reached
use lago.Prelude.{
  none≢some, false≢true, ℕ, ◌≤◌, ◌<◌, eq_iff, Bool, true, false, ◌||◌, List, [], ◌∷◌, Option, none,
  is_some, some, In, ◌==◌, ◌≡◌, ◌⊎◌, inl, inr, refl, sym, ap, ◌∙◌, subst, Bool-cases, arith,
}
use lago.Kafka.Group.{
  TopicPartition, tp_eq, Phase, waiting, returned, busy, is_returned, PollLoop, polling, sending,
  stopped, Shutdown, closed, Callback, idle, panicked, close_quit_channel, assigning, losing,
  ConsumerGroup, set_consumer, set_granted, set_heap, set_phase, assign, lose, drain, Step, cancel,
  assign_start, assign_next, assign_end, lose_start, lose_next, lose_end, quit_consumer,
  cancel_consumer, finish_batch, stop_poll, client_closed, fetch, abort_poll, send, skip,
  skip_canceled, allow_rebalance, shut_down, close_client, new_group, Reach, start, later,
}

tp_eq_sound : (a b : TopicPartition) → tp_eq a b ≡ true → a ≡ b
unfolding tp_eq
tp_eq_sound a b h =
    let t : a.topic ≡ b.topic = (eq_iff a.topic b.topic).0 (ground arith) in
    let p : a.partition ≡ b.partition = ground arith in λ i. record { topic = t i; partition = p i }

tp_eq_self : (a : TopicPartition) → tp_eq a a ≡ true
unfolding tp_eq
tp_eq_self a = ground (arith, eq_iff a.topic a.topic)

-- The consumers that the callback waits for.
abbrev pub awaited : Callback → List ℕ
awaited idle = []
awaited panicked = []
awaited (assigning tps) = []
awaited (losing tps ids) = ids

abbrev pub is_panicked : Callback → Bool
is_panicked idle = false
is_panicked panicked = true
is_panicked (assigning tps) = false
is_panicked (losing tps ids) = false

-- The map holds a consumer for each partition that the client has given and not taken back, so no
-- callback meets a nil one. The consumers of the map are those of their partitions, a goroutine that has not returned belongs
-- to one of the map or to one that a callback waits for, and a consumer of the map only ends when
-- the context is canceled.
pub record Inv (s : ConsumerGroup) : Type 0 where
  pub own :
      (tp : TopicPartition) (i : ℕ)
      → s.consumers tp ≡ some i
      → ((s.heap i).owner ≡ tp) × (i < s.next)
  pub fresh : (i : ℕ) → s.next ≤ i → is_returned (s.heap i).phase ≡ true
  pub live :
      (i : ℕ)
      → is_returned (s.heap i).phase ≡ false
      → (s.consumers (s.heap i).owner ≡ some i) ⊎ In i (awaited s.callback)
  pub gone :
      (i : ℕ)
      → In i (awaited s.callback)
      → (s.consumers (s.heap i).owner ≡ none) × ((s.heap i).quit ≡ true) × (i < s.next)
  pub single :
      (i j : ℕ)
      → In i (awaited s.callback)
      → In j (awaited s.callback)
      → (s.heap i).owner ≡ (s.heap j).owner
      → i ≡ j
  pub lasts :
      (tp : TopicPartition) (i : ℕ)
      → s.consumers tp ≡ some i
      → ((s.heap i).quit || is_returned (s.heap i).phase) ≡ true
      → s.canceled ≡ true
  pub held : (tp : TopicPartition) → s.granted tp ≡ is_some (s.consumers tp)
  pub calm : is_panicked s.callback ≡ false

module _ (s : ConsumerGroup) (inv : Inv s) where
  -- A consumer whose goroutine has not returned moves on; it may only end if it was told to.
  set_phase-Inv :
      (i : ℕ) (p : Phase)
      → is_returned (s.heap i).phase ≡ false
      → (is_returned p ≡ true → ((s.heap i).quit || s.canceled) ≡ true)
      → Inv (set_phase i p s)
  set_phase-Inv i p running told = record {
    own = λ tp j h. ground (arith, inv.own tp j h);
    fresh = λ j le. ground (arith, inv.fresh j, inv.fresh i);
    live = λ j h. ground (arith, inv.live j, inv.live i running);
    gone = λ j m. ground (arith, inv.gone j m);
    single = λ j k m n e. inv.single j k m n (ground arith);
    lasts = λ tp j h q. ground (arith, inv.lasts tp j h, told);
    held = inv.held;
    calm = inv.calm;
  }

  -- What the other goroutines note of themselves does not matter.
  moved :
      (poll : PollLoop) (allowed : Bool) (callback : Callback) (shutdown : Shutdown)
      → awaited callback ≡ awaited s.callback
      → is_panicked callback ≡ false
      → Inv (record s { poll = poll; allowed = allowed; callback = callback; shutdown = shutdown })
  moved poll allowed callback shutdown e c = record {
    own = inv.own;
    fresh = inv.fresh;
    live = λ i h. rw e (inv.live i h);
    gone = λ i m. inv.gone i (rw e at m);
    single = λ i j m n same. inv.single i j (rw e at m) (rw e at n) same;
    lasts = inv.lasts;
    held = inv.held;
    calm = c;
  }

  map_hit :
      (tp q : TopicPartition) (v : Option ℕ) (i : ℕ)
      → set_consumer tp v s.consumers q ≡ some i
      → ((q ≡ tp) × (v ≡ some i)) ⊎ (s.consumers q ≡ some i)
  map_hit tp q v i h = elim (Bool-cases (tp_eq tp q)) [
    | inl t ↦ inl (sym (tp_eq_sound tp q t), rw t at h)
    | inr f ↦ inr (rw f at h)
  ]

  map_keeps :
      (tp q : TopicPartition) (v : Option ℕ) (i : ℕ)
      → s.consumers q ≡ some i
      → tp_eq tp q ≡ false
      → set_consumer tp v s.consumers q ≡ some i
  map_keeps tp q v i e f = rw f e

  free_differs :
      (tp : TopicPartition) (i : ℕ)
      → s.consumers tp ≡ none
      → s.consumers (s.heap i).owner ≡ some i
      → tp_eq tp (s.heap i).owner ≡ false
  free_differs tp i free e = elim (Bool-cases (tp_eq tp (s.heap i).owner)) [
    | inr f ↦ f
    | inl t ↦ absurd (none≢some (sym free ∙ ap s.consumers (tp_eq_sound tp (s.heap i).owner t) ∙ e))
  ]

  map_empty :
      (tp q : TopicPartition) → s.consumers q ≡ none → set_consumer tp none s.consumers q ≡ none
  map_empty tp q e = elim (Bool-cases (tp_eq tp q)) [ inl t ↦ rw t refl | inr f ↦ rw f e ]

  granted_held :
      (tp : TopicPartition) (v : Option ℕ) (q : TopicPartition)
      → set_granted tp (is_some v) s.granted q ≡ is_some (set_consumer tp v s.consumers q)
  granted_held tp v q = elim (Bool-cases (tp_eq tp q)) [
    | inl t ↦ rw (t, is_some) refl
    | inr f ↦ rw (f, is_some) (inv.held q)
  ]

  assign-Inv :
      (tp : TopicPartition) (rest : List TopicPartition)
      → s.callback ≡ assigning (tp ∷ rest)
      → s.consumers tp ≡ none
      → Inv (record (assign tp rest s) { granted = set_granted tp true s.granted })
  assign-Inv tp rest cb free = record {
    own = λ q i h. elim (map_hit tp q (some s.next) i h) [
      | inl (e, f) ↦ ground arith
      | inr old ↦ ground (arith, inv.own q i old)
    ];
    fresh = λ i le. ground (arith, inv.fresh i);
    live = λ i h. elim (Bool-cases (s.next == i)) [
      | inl t ↦ inl (ground (arith, tp_eq_self tp))
      | inr f ↦ elim (inv.live i (rw f at h)) [
        | inl e ↦ inl (rw f (map_keeps tp _ (some s.next) i e (free_differs tp i free e)))
        | inr m ↦ elim (rw cb at m) [ ]
      ]
    ];
    gone = λ i m. elim m [ ];
    single = λ i j m n e. elim m [ ];
    lasts = λ q i h r. elim (map_hit tp q (some s.next) i h) [
      | inl (e, f) ↦ ground arith
      | inr old ↦ ground (arith, inv.own q i old, inv.lasts q i old)
    ];
    held = granted_held tp (some s.next);
    calm = refl;
  }

  drain-Inv : s.canceled ≡ true → Inv (drain s)
  drain-Inv c = record {
    own = λ tp i h. ground (arith, inv.own tp i h);
    fresh = λ i le. ground (arith, inv.fresh i le);
    live = λ i h. ground (arith, inv.live i);
    gone = λ i m. ground (arith, inv.gone i m);
    single = λ i j m n e. inv.single i j m n (ground arith);
    lasts = λ tp i h q. c;
    held = inv.held;
    calm = inv.calm;
  }
