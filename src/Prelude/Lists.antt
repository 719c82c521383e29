-- ===== src/Prelude/Lists.antt =====
-- Lists measured by native numbers, membership and quantifiers by recursion.
use Prim.Native.Nat.{ℕ, suc, ◌+◌}
use mathlib.Core.Path.{◌≡◌, refl, subst}
use mathlib.Core.Logic.{◌⊎◌, inl, inr}
use mathlib.Core.Bool.{Bool, true, false}
use mathlib.Core.List.{List, [], ◌∷◌, ◌++◌}
use native.Mathlib.Omega.{arith}
use lago.Prelude.Tests.{if◌then◌else◌, Bool-cases}

module _ {ℓ} {A : Type ℓ} where
  abbrev pub length : List A → ℕ
  length [] = 0
  length (x ∷ xs) = suc (length xs)

  pub length-append : (xs ys : List A) → length (xs ++ ys) ≡ length xs + length ys
  length-append [] ys = omega arith
  length-append (x ∷ xs) ys = omega (arith, length-append xs ys)

  -- `append` to a slice: the new element goes to the end.
  abbrev pub snoc : List A → A → List A
  snoc xs x = xs ++ x ∷ []

  -- The loop that keeps the elements which pass a test.
  abbrev pub keep : (A → Bool) → List A → List A
  keep p [] = []
  keep p (x ∷ xs) = if p x then x ∷ keep p xs else keep p xs

module _ {A : Type 0} where
  -- Membership that can be matched.
  abbrev pub In : A → List A → Type 0
  In a [] = ⊥
  In a (x ∷ xs) = (x ≡ a) ⊎ In a xs

  pub In-keep : (p : A → Bool) (xs : List A) (c : A) → In c xs → p c ≡ true → In c (keep p xs)
  In-keep p [] c m h = elim m [ ]
  In-keep p (x ∷ xs) c (inl e) h = rw (e, h) (inl refl)
  In-keep p (x ∷ xs) c (inr m) h = elim (Bool-cases (p x)) [
    | inl t ↦ rw t (inr (In-keep p xs c m h))
    | inr f ↦ rw f (In-keep p xs c m h)
  ]

  kept_head :
      (p : A → Bool) (xs : List A) (x c : A)
      → p x ≡ true
      → (In c (keep p xs) → In c xs × (p c ≡ true))
      → (x ≡ c) ⊎ In c (keep p xs)
      → In c (x ∷ xs) × (p c ≡ true)
  kept_head p xs x c t rest (inl e) = (inl e, rw (← e) t)
  kept_head p xs x c t rest (inr m) = (inr (rest m).0, (rest m).1)

  pub keep-In : (p : A → Bool) (xs : List A) (c : A) → In c (keep p xs) → In c xs × (p c ≡ true)
  keep-In p [] c m = elim m [ ]
  keep-In p (x ∷ xs) c m = elim (Bool-cases (p x)) [
    | inl t ↦ kept_head p xs x c t (keep-In p xs c) (rw t at m)
    | inr f ↦ let rest = keep-In p xs c (rw f at m) in (inr rest.0, rest.1)
  ]

  pub List-cases : (xs : List A) → (xs ≡ []) ⊎ ((x : A) × (rest : List A) × (xs ≡ x ∷ rest))
  List-cases [] = inl refl
  List-cases (x ∷ rest) = inr (x, rest, refl)

  pub In-snoc : (xs : List A) (y c : A) → In c (snoc xs y) → In c xs ⊎ (y ≡ c)
  In-snoc [] y c (inl e) = inr e
  In-snoc [] y c (inr m) = elim m [ ]
  In-snoc (x ∷ xs) y c (inl e) = inl (inl e)
  In-snoc (x ∷ xs) y c (inr m) = elim (In-snoc xs y c m) [ inl n ↦ inl (inr n) | inr e ↦ inr e ]

  pub keep_nothing : (p : A → Bool) (xs : List A) (c : A) → keep p xs ≡ [] → In c xs → p c ≡ false
  keep_nothing p xs c e m = elim (Bool-cases (p c)) [
    | inr f ↦ f
    | inl t ↦ elim (subst (In c) e (In-keep p xs c m t)) [ ]
  ]

  pub In-single : (x c : A) → In c (x ∷ []) → x ≡ c
  In-single x c (inl e) = e
  In-single x c (inr m) = elim m [ ]

  pub snoc-last : (xs : List A) (y : A) → In y (snoc xs y)
  snoc-last [] y = inl refl
  snoc-last (x ∷ xs) y = inr (snoc-last xs y)

  pub snoc-old : (xs : List A) (y c : A) → In c xs → In c (snoc xs y)
  snoc-old [] y c m = elim m [ ]
  snoc-old (x ∷ xs) y c (inl e) = inl e
  snoc-old (x ∷ xs) y c (inr m) = inr (snoc-old xs y c m)

  pub In-append_left : (xs ys : List A) (c : A) → In c xs → In c (xs ++ ys)
  In-append_left [] ys c m = elim m [ ]
  In-append_left (x ∷ xs) ys c (inl e) = inl e
  In-append_left (x ∷ xs) ys c (inr m) = inr (In-append_left xs ys c m)

  pub In-append_right : (xs ys : List A) (c : A) → In c ys → In c (xs ++ ys)
  In-append_right [] ys c m = m
  In-append_right (x ∷ xs) ys c m = inr (In-append_right xs ys c m)
