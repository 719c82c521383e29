-- ===== src/Cache/Search/Order.antt =====
-- The best match is the first row of the order that the database is asked for.
use lago.Prelude.{
  ◌≤◌, ◌<◌, true, false, List, [], ◌∷◌, none, some, ◌≡◌, ◌⊎◌, inl, inr, refl, In, keep, keep-In,
  In-keep, List-cases, keep_nothing, Bool-cases, false≢true, arith, subst, sym, ap, ◌∙◌,
}
use lago.Utils.NullTime.{Time, NullTime}
use lago.Models.Tables.{Subscription}
use lago.Cache.Search.{is_active, is_valid, starts_later, replaces, better, best_match}

-- The row of the first pair of times comes no later than that of the second under
-- `ORDER BY terminated_at DESC NULLS FIRST, started_at DESC`.
abbrev pub Precedes : NullTime → Time → NullTime → Time → Type 0
Precedes none s none t = t ≤ s
Precedes none s (some u) t = Unit {0}
Precedes (some v) s none t = ⊥
Precedes (some v) s (some u) t = (u < v) ⊎ ((u ≡ v) × (t ≤ s))

-- The same for two subscriptions that have started.
abbrev pub ComesFirst : Subscription → Subscription → Type 0
ComesFirst a b =
    (s t : Time)
    → a.started_at ≡ some s
    → b.started_at ≡ some t
    → Precedes a.terminated_at s b.terminated_at t

abbrev Started : Subscription → Type 0
Started a = (s : Time) × (a.started_at ≡ some s)

Precedes-refl : (v : NullTime) (s : Time) → Precedes v s v s
Precedes-refl none s = omega arith
Precedes-refl (some v) s = inr (refl, omega arith)

Precedes-trans :
    (u v w : NullTime) (r s t : Time) → Precedes u r v s → Precedes v s w t → Precedes u r w t
Precedes-trans none none none r s t h k = omega arith
Precedes-trans none v (some w) r s t h k = tt
Precedes-trans none (some v) none r s t h k = absurd k
Precedes-trans (some u) none w r s t h k = absurd h
Precedes-trans (some u) (some v) none r s t h k = absurd k
Precedes-trans (some u) (some v) (some w) r s t h k = ground arith

-- A round keeps or takes the one of the two that comes first.
replaces-true :
    (sub best : NullTime) (s t : Time)
    → replaces sub best (starts_later (some s) (some t)) ≡ true
    → Precedes sub s best t
unfolding replaces starts_later
replaces-true none none s t h = ground arith
replaces-true none (some b) s t h = tt
replaces-true (some a) none s t h = absurd (false≢true h)
replaces-true (some a) (some b) s t h = ground arith

replaces-false :
    (sub best : NullTime) (s t : Time)
    → replaces sub best (starts_later (some s) (some t)) ≡ false
    → Precedes best t sub s
unfolding replaces starts_later
replaces-false none none s t h = ground arith
replaces-false none (some b) s t h = cc
replaces-false (some a) none s t h = tt
replaces-false (some a) (some b) s t h = ground arith

same_start : {v : NullTime} {s t : Time} → v ≡ some s → v ≡ some t → s ≡ t
same_start e f = cc

pub ComesFirst-refl : (a : Subscription) → ComesFirst a a
ComesFirst-refl a s t e f =
    subst (λ v. Precedes a.terminated_at s a.terminated_at v) (same_start e f)
      (Precedes-refl a.terminated_at s)

ComesFirst-trans :
    (a b c : Subscription) → Started b → ComesFirst a b → ComesFirst b c → ComesFirst a c
ComesFirst-trans a b c (t, e) h k r s ea ec =
    Precedes-trans a.terminated_at b.terminated_at c.terminated_at r t s (h r t ea e) (k t s e ec)

-- One round leaves one of the two, which comes before both.
better-first :
    (sub best : Subscription)
    → Started sub
    → Started best
    → (b : Subscription) × (better sub (some best) ≡ some b)
      × ((b ≡ best) ⊎ (b ≡ sub))
      × ComesFirst b best
      × ComesFirst b sub
unfolding better
better-first sub best (s, es) (t, et) =
    elim (Bool-cases (
      replaces sub.terminated_at best.terminated_at
        (starts_later sub.started_at best.started_at))) [
          | inl yes_ ↦ (
            sub,
            rw yes_,
            inr refl,
            λ u v eu ev.
                replaces-true sub.terminated_at best.terminated_at u v (rw (eu, ev) at yes_),
            ComesFirst-refl sub,
          )
          | inr no_ ↦ (
            best,
            rw no_,
            inl refl,
            ComesFirst-refl best,
            λ u v eu ev.
                replaces-false sub.terminated_at best.terminated_at v u (rw (ev, eu) at no_),
          )
        ]

before_each :
    (b d sub : Subscription) (subs : List Subscription)
    → Started d
    → ComesFirst b d
    → ComesFirst d sub
    → ((c : Subscription) → In c subs → ComesFirst b c)
    → (c : Subscription) → In c (sub ∷ subs)
    → ComesFirst b c
before_each b d sub subs sd bd ds rest c (inr m) = rest c m
before_each b d sub subs sd bd ds rest c (inl e) =
    subst (ComesFirst b) e (ComesFirst-trans b d sub sd bd ds)

merge_origin :
    {b d a sub : Subscription} (subs : List Subscription)
    → (b ≡ d) ⊎ In b subs
    → (d ≡ a) ⊎ (d ≡ sub)
    → (b ≡ a) ⊎ In b (sub ∷ subs)
merge_origin subs (inr m) o = inr (inr m)
merge_origin subs (inl e) (inl o) = inl (e ∙ o)
merge_origin subs (inl e) (inr o) = inr (inl (sym (e ∙ o)))

origin-Started :
    {d a sub : Subscription} → Started a → Started sub → (d ≡ a) ⊎ (d ≡ sub) → Started d
origin-Started (s, e) (t, f) (inl o) = (s, ap (λ x. x.started_at) o ∙ e)
origin-Started (s, e) (t, f) (inr o) = (t, ap (λ x. x.started_at) o ∙ f)

chosen : (b x : Subscription) (rest : List Subscription) → (b ≡ x) ⊎ In b rest → In b (x ∷ rest)
chosen b x rest (inl e) = inl (sym e)
chosen b x rest (inr m) = inr m

first_of_all :
    (b x : Subscription) (rest : List Subscription)
    → ComesFirst b x
    → ((c : Subscription) → In c rest → ComesFirst b c)
    → (c : Subscription) → In c (x ∷ rest)
    → ComesFirst b c
first_of_all b x rest bx before c (inl e) = subst (ComesFirst b) e bx
first_of_all b x rest bx before c (inr m) = before c m

best_match-from :
    (subs : List Subscription) (a : Subscription)
    → Started a
    → ((c : Subscription) → In c subs → Started c)
    → (b : Subscription) × (best_match subs (some a) ≡ some b)
      × ((b ≡ a) ⊎ In b subs)
      × ComesFirst b a
      × ((c : Subscription) → In c subs → ComesFirst b c)
unfolding best_match
best_match-from [] a sa all = (a, refl, inl refl, ComesFirst-refl a, λ c m. elim m [ ])
best_match-from (sub ∷ subs) a sa all =
    let (d, ed, origin, da, ds) = better-first sub a (all sub (inl refl)) sa in
    let sd : Started d = origin-Started sa (all sub (inl refl)) origin in
    let (b, e, o, bd, rest) = best_match-from subs d sd (λ c m. all c (inr m)) in
    (
      b,
      ap (best_match subs) ed ∙ e,
      merge_origin subs o origin,
      ComesFirst-trans b d a sd bd da,
      before_each b d sub subs sd bd ds rest,
    )

active_started :
    (started terminated : NullTime) (timestamp : Time)
    → is_active started terminated timestamp ≡ true
    → (s : Time) × (started ≡ some s)
unfolding is_active
active_started none terminated timestamp h = absurd (false≢true h)
active_started (some s) terminated timestamp h = (s, refl)

valid-Started : (timestamp : Time) (c : Subscription) → is_valid timestamp c ≡ true → Started c
unfolding is_valid
valid-Started timestamp c h = active_started c.started_at c.terminated_at timestamp h

-- The best match of the valid ones: one of them, which comes first; none only if none is valid.
pub best_match-first :
    (timestamp : Time) (subs : List Subscription)
    → ((b : Subscription) × (best_match (keep (is_valid timestamp) subs) none ≡ some b)
        × In b subs
        × (is_valid timestamp b ≡ true)
        × ((c : Subscription) → In c subs → is_valid timestamp c ≡ true → ComesFirst b c))
      ⊎ ((best_match (keep (is_valid timestamp) subs) none ≡ none)
          × ((c : Subscription) → In c subs → is_valid timestamp c ≡ false))
unfolding best_match
best_match-first timestamp subs =
    let valid = is_valid timestamp in
    elim (List-cases (keep valid subs)) [
      | inl e ↦ inr (rw e, λ c m. keep_nothing valid subs c e m)
      | inr (x, rest, e) ↦
          let kept : (c : Subscription) → In c (x ∷ rest) → In c subs × (valid c ≡ true) =
            λ c m. keep-In valid subs c (subst (In c) (sym e) m) in
          let (b, eb, origin, bx, before) =
            best_match-from rest x (valid-Started timestamp x (kept x (inl refl)).1)
              (λ c m. valid-Started timestamp c (kept c (inr m)).1) in
          let own = kept b (chosen b x rest origin) in
          inl (
            b,
            rw e eb,
            own.0,
            own.1,
            λ c m t. first_of_all b x rest bx before c (subst (In c) e (In-keep valid subs c m t)),
          )
    ]
