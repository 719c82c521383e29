-- ===== src/Kafka/Group/Invariant/Losing.antt =====
-- The callback `lost` keeps the invariant: it takes a partition away from its consumer and waits.
use lago.Prelude.{
  none≢some, some-injective, false≢true, ℕ, ◌<◌, false, true, ◌||◌, List, [], ◌∷◌, none, some, In,
  ◌≡◌, inl, inr, refl, sym, ap, ◌∙◌, subst, Bool-cases, arith,
}
use lago.Kafka.Group.{
  TopicPartition, tp_eq, is_returned, idle, close_quit_channel, losing, ConsumerGroup, set_consumer,
  set_heap, lose, lose_consumer, set_granted,
}
use lago.Kafka.Group.Invariant.{
  tp_eq_sound, tp_eq_self, awaited, Inv, granted_held, map_hit, map_keeps, map_empty,
}

module _ (s : ConsumerGroup) (inv : Inv s) where
  pub lose-held :
      (tp : TopicPartition) (i : ℕ) (rest : List TopicPartition) (ids : List ℕ)
      → s.consumers tp ≡ some i
      → lose tp rest ids s ≡ lose_consumer tp i rest ids s
  lose-held tp i rest ids held = rw (held, lose) refl

  owner_kept :
      (i j : ℕ) → (set_heap i (close_quit_channel (s.heap i)) s.heap j).owner ≡ (s.heap j).owner
  owner_kept i j = ground arith

  clash :
      (tp : TopicPartition) (i : ℕ)
      → s.consumers tp ≡ some i
      → (k : ℕ) → In k (awaited s.callback)
      → (s.heap k).owner ≡ (s.heap i).owner
      → ⊥
  clash tp i held k m e =
      none≢some (sym (inv.gone k m).0 ∙ ap s.consumers (e ∙ (inv.own tp i held).0) ∙ held)

  lost_gone :
      (tp : TopicPartition) (i : ℕ) (rest : List TopicPartition) (ids : List ℕ)
      → s.consumers tp ≡ some i
      → (j : ℕ) → i ≡ j
      → let t = lose_consumer tp i rest ids s in
        (t.consumers (t.heap j).owner ≡ none) × ((t.heap j).quit ≡ true) × (j < s.next)
  lost_gone tp i rest ids held j e =
      let mine = inv.own tp i held in
      subst
        (λ x.
          let t = lose_consumer tp i rest ids s in
          (t.consumers (t.heap x).owner ≡ none) × ((t.heap x).quit ≡ true) × (x < s.next))
        e (rw (owner_kept i i, mine.0, tp_eq_self tp) refl, ground arith, mine.1)

  lost_lasts :
      (tp : TopicPartition) (i : ℕ) (rest : List TopicPartition) (ids : List ℕ)
      → s.consumers tp ≡ some i
      → (q : TopicPartition) (j : ℕ) → set_consumer tp none s.consumers q ≡ some j
      → s.consumers q ≡ some j
      → (((lose_consumer tp i rest ids s).heap j).quit
          || is_returned ((lose_consumer tp i rest ids s).heap j).phase)
        ≡ true
      → s.canceled ≡ true
  lost_lasts tp i rest ids held q j h old r = elim (Bool-cases (tp_eq tp q)) [
    | inl t ↦ absurd (none≢some (rw t at h))
    | inr f ↦ ground (arith, inv.own q j old, inv.own tp i held, tp_eq_self tp, inv.lasts q j old)
  ]

  pub lose-Inv :
      (tp : TopicPartition) (i : ℕ) (rest : List TopicPartition) (ids : List ℕ)
      → s.callback ≡ losing (tp ∷ rest) ids
      → s.consumers tp ≡ some i
      → Inv (record (lose_consumer tp i rest ids s) { granted = set_granted tp false s.granted })
  lose-Inv tp i rest ids cb held = record {
    own = λ q j h. elim (map_hit s inv tp q none j h) [
      | inl (e, f) ↦ absurd (none≢some f)
      | inr old ↦ ground (arith, inv.own q j old)
    ];
    fresh = λ j le. ground (arith, inv.fresh j le);
    live = λ j h. elim (inv.live j (ground arith)) [
      | inl e ↦ elim (Bool-cases (tp_eq tp (s.heap j).owner)) [
        | inl t ↦ inr (
            inl
              (some-injective (sym held ∙ ap s.consumers (tp_eq_sound tp (s.heap j).owner t) ∙ e)))
        | inr f ↦ inl (rw (owner_kept i j) (map_keeps s inv tp (s.heap j).owner none j e f))
      ]
      | inr m ↦ inr (inr (rw cb at m))
    ];
    gone = λ j m. elim m [
      | inl e ↦ lost_gone tp i rest ids held j e
      | inr n ↦
          let old = inv.gone j (rw cb n) in
          (rw (owner_kept i j) (map_empty s inv tp (s.heap j).owner old.0), ground arith, old.2)
    ];
    single = λ j k m n e.
        let same = sym (owner_kept i j) ∙ e ∙ owner_kept i k in
        elim m [
          | inl a ↦ elim n [
            | inl b ↦ sym a ∙ b
            | inr b ↦
                absurd (clash tp i held k (rw cb b) (sym same ∙ ap (λ x. (s.heap x).owner) (sym a)))
          ]
          | inr a ↦ elim n [
            | inl b ↦
                absurd (clash tp i held j (rw cb a) (same ∙ ap (λ x. (s.heap x).owner) (sym b)))
            | inr b ↦ inv.single j k (rw cb a) (rw cb b) same
          ]
        ];
    lasts = λ q j h r. elim (map_hit s inv tp q none j h) [
      | inl (e, f) ↦ absurd (none≢some f)
      | inr old ↦ lost_lasts tp i rest ids held q j h old r
    ];
    held = granted_held s inv tp none;
    calm = refl;
  }

  -- `lost` returns once the goroutines that it waits for have returned.
  pub lost-Inv :
      (ids : List ℕ)
      → s.callback ≡ losing [] ids
      → ((i : ℕ) → In i ids → is_returned (s.heap i).phase ≡ true)
      → Inv (record s { callback = idle })
  lost-Inv ids e all = record {
    own = inv.own;
    fresh = inv.fresh;
    live = λ i h. elim (inv.live i h) [
      | inl held ↦ inl held
      | inr m ↦ absurd (false≢true (sym h ∙ all i (rw e at m)))
    ];
    gone = λ i m. elim m [ ];
    single = λ i j m n same. elim m [ ];
    lasts = inv.lasts;
    held = inv.held;
    calm = refl;
  }
