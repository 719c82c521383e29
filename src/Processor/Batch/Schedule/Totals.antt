-- ===== src/Processor/Batch/Schedule/Totals.antt =====
-- What the steps of a batch keep: nothing is lost and nothing is done twice.
use lago.Prelude.{
  ℕ, suc, ◌+◌, length, snoc, List, [], ◌∷◌, ◌++◌, ◌≡◌, ◌⊎◌, inl, inr, sym, ap, subst, List-cases,
  length-append, arith,
}
use mathlib.Core.List.{Permᴰ, append_assoc}
use mathlib.Core.List.Permᴰ
use lago.Kafka.Commit.{Record}
use lago.Processor.Batch.Schedule.{
  Goroutine, Batch, started, marked, Step, send, finish, Run, start, next, work,
}

module _ {A B : Type 0} (f : A → List B) where
  abbrev pub gather : List A → List B
  gather [] = []
  gather (x ∷ xs) = f x ++ gather xs

  -- The share of one element may be taken first.
  gather-middle :
      (before : List A) (x : A) (after : List A)
      → Permᴰ (gather (before ++ x ∷ after)) (f x ++ gather (before ++ after))
  gather-middle [] x after = Permᴰ.refl _
  gather-middle (y ∷ before) x after =
      let rest = gather (before ++ after) in
      Permᴰ.trans (Permᴰ.append_left (f y) (gather-middle before x after)) (
        subst (λ l. Permᴰ l (f x ++ (f y ++ rest))) (append_assoc (f y) (f x) rest)
          (subst (Permᴰ ((f y ++ f x) ++ rest)) (append_assoc (f x) (f y) rest)
            (Permᴰ.append_right rest (Permᴰ.append_comm (f y) (f x)))))

  -- Where an element hands its share over, the whole stays.
  hands_over :
      (acc : List B) (before : List A) (x : A) (after : List A)
      → Permᴰ (acc ++ gather (before ++ x ∷ after)) ((acc ++ f x) ++ gather (before ++ after))
  hands_over acc before x after =
      subst (Permᴰ (acc ++ gather (before ++ x ∷ after)))
        (sym (append_assoc acc (f x) (gather (before ++ after))))
        (Permᴰ.append_left acc (gather-middle before x after))

  replaced :
      (acc acc' : List B) (before : List A) (x x' : A) (after : List A)
      → Permᴰ (acc ++ f x) (acc' ++ f x')
      → Permᴰ (acc ++ gather (before ++ x ∷ after)) (acc' ++ gather (before ++ x' ∷ after))
  replaced acc acc' before x x' after d = Permᴰ.trans (hands_over acc before x after) (
      Permᴰ.trans (Permᴰ.append_right (gather (before ++ after)) d)
        (Permᴰ.symm (hands_over acc' before x' after)))

module _ {E : Type 0} where
  abbrev pub pending_of : Goroutine E → List E
  pending_of g = g.pending

  -- The records marked so far and those that the goroutines still mark.
  abbrev pub all_marked : Batch E → List Record
  all_marked s = s.processed ++ gather marked s.running

  -- The messages sent so far and those that the goroutines still send.
  abbrev pub all_sent : Batch E → List E
  all_sent s = s.sent ++ gather pending_of s.running

  Step-all_marked : {s t : Batch E} → Step s t → Permᴰ (all_marked s) (all_marked t)
  Step-all_marked {s} (send before g after earlier message later e p) = rw e (
      replaced marked s.processed s.processed before g (record g { pending = earlier ++ later })
        after (Permᴰ.refl _))
  Step-all_marked {s} (finish before g after e p) =
      rw e (hands_over marked s.processed before g after)

  -- The message moves from behind those before it to the end of what was sent.
  message_moves :
      (acc earlier : List E) (message : E) (later : List E)
      → Permᴰ (acc ++ (earlier ++ message ∷ later)) (snoc acc message ++ (earlier ++ later))
  message_moves acc earlier message later =
      subst (Permᴰ (acc ++ (earlier ++ message ∷ later)))
        (sym (append_assoc acc (message ∷ []) (earlier ++ later)))
        (Permᴰ.append_left acc (Permᴰ.middle message earlier later))

  Step-all_sent : {s t : Batch E} → Step s t → Permᴰ (all_sent s) (all_sent t)
  Step-all_sent {s} (send before g after earlier message later e p) = rw e (
      replaced pending_of s.sent (snoc s.sent message) before g
        (record g { pending = earlier ++ later }) after
        (rw p (message_moves s.sent earlier message later)))
  Step-all_sent {s} (finish before g after e p) = rw e (
      Permᴰ.trans (hands_over pending_of s.sent before g after)
        (rw p (Permᴰ.append_right _ (Permᴰ.append-nil s.sent))))

  pub Run-all_marked :
      {s : Batch E} {n : ℕ} {t : Batch E} → Run s n t → Permᴰ (all_marked s) (all_marked t)
  Run-all_marked start = Permᴰ.refl _
  Run-all_marked (next run step) = Permᴰ.trans (Run-all_marked run) (Step-all_marked step)

  pub Run-all_sent :
      {s : Batch E} {n : ℕ} {t : Batch E} → Run s n t → Permᴰ (all_sent s) (all_sent t)
  Run-all_sent start = Permᴰ.refl _
  Run-all_sent (next run step) = Permᴰ.trans (Run-all_sent run) (Step-all_sent step)

  work-append : (gs hs : List (Goroutine E)) → work (gs ++ hs) ≡ work gs + work hs
  unfolding work
  work-append [] hs = omega arith
  work-append (g ∷ gs) hs = omega (arith, work-append gs hs)

  -- A step is taken off the work that is left.
  Step-work : {s t : Batch E} → Step s t → work s.running ≡ suc (work t.running)
  unfolding work
  Step-work {s} (send before g after earlier message later e p) =
      let g' : Goroutine E = record g { pending = earlier ++ later } in
      omega (
        arith,
        ap work e,
        work-append before (g ∷ after),
        work-append before (g' ∷ after),
        ap length p,
        length-append earlier (message ∷ later),
        length-append earlier later,
      )
  Step-work {s} (finish before g after e p) =
      omega
        (arith, ap work e, work-append before (g ∷ after), work-append before after, ap length p)

  Run-work : {s : Batch E} {n : ℕ} {t : Batch E} → Run s n t → work s.running ≡ n + work t.running
  Run-work start = omega arith
  Run-work (next run step) = omega (arith, Run-work run, Step-work step)

  Step-exists : (s : Batch E) → (s.running ≡ []) ⊎ ((t : Batch E) × Step s t)
  Step-exists s = elim (List-cases s.running) [
    | inl none_left ↦ inl none_left
    | inr (g, rest, e) ↦ elim (List-cases g.pending) [
      | inl p ↦ inr (_, finish [] g rest e p)
      | inr (message, later, p) ↦ inr (_, send [] g rest [] message later e p)
    ]
  ]

  -- However the goroutines of a batch take turns, each step is one of a number that is known when they
  -- start: one for each message and one for each record. And while a goroutine has not returned, one
  -- of them can go on: `g.Wait` returns after as many steps, in every order.
  pub Run-ends :
      (gs : List (Goroutine E)) (n : ℕ) (s : Batch E)
      → Run (started gs) n s
      → (work gs ≡ n + work s.running) × ((s.running ≡ []) ⊎ ((t : Batch E) × Step s t))
  Run-ends gs n s run = (Run-work run, Step-exists s)
