-- ===== src/Prelude/Texts.antt =====
-- Texts: what the program builds of them by `fmt.Sprintf` and `strings.Join`.
use Prim.Native.Nat.{ℕ}
use Prim.Native.Char.{Char, code}
use Prim.Native.String.{String, ◌++◌}
use mathlib.Core.Path.{◌≡◌, refl, ap, sym, ◌∙◌}
use mathlib.Core.Bool.{Bool, true, false, ◌&&◌, not}
use mathlib.Core.List.{List, [], ◌∷◌}
use native.Mathlib.Omega.{arith}
use text.Mathlib.TextLemmas.{nil-append, cons-append, head-eq_of_cons-eq, tail-eq_of_cons-eq}
use lago.Prelude.Tests.{◌==◌}

-- `s + t` on Go strings
abbrev pub cat : String → String → String
cat s t = s ++ t

-- `strings.Join(parts, sep)`; with `":"` it is also `fmt.Sprintf("%s:%s…", parts...)`.
unfoldable pub join : String → List String → String
join sep [] = ""
join sep (p ∷ []) = p
join sep (p ∷ q ∷ rest) = p ++ (sep ++ join sep (q ∷ rest))

-- No character of the text has this code.
abbrev pub lacks : ℕ → String → Bool
lacks b String.[] = true
lacks b (String.◌∷◌ c s) = not (code c == b) && lacks b s

and_right : (a b : Bool) → (a && b) ≡ true → b ≡ true
and_right a b h = ground arith

and_false : (a b : Bool) → b ≡ false → (a && b) ≡ false
and_false a b h = ground arith

self : (n : ℕ) (b : Bool) → (not (n == n) && b) ≡ false
self n b = ground arith

ruleset cons_form = (cons-append, nil-append)

-- A character is none of a text that lacks it.
clash : (c d : Char) (b : String) → lacks (code c) (String.◌∷◌ d b) ≡ true → c ≡ d → ⊥
clash c d b h e = ground (arith, ap code e, h)

-- The first place of a character splits a text in one way.
pub split_at_unique :
    (c : Char) (a b x y : String)
    → lacks (code c) a ≡ true
    → lacks (code c) b ≡ true
    → a ++ String.◌∷◌ c x ≡ b ++ String.◌∷◌ c y
    → (a ≡ b) × (x ≡ y)
split_at_unique c String.[] String.[] x y ha hb e = (refl, tail-eq_of_cons-eq (simp cons_form at e))
split_at_unique c String.[] (String.◌∷◌ d b) x y ha hb e =
    absurd (clash c d b hb (head-eq_of_cons-eq (simp cons_form at e)))
split_at_unique c (String.◌∷◌ d a) String.[] x y ha hb e =
    absurd (clash c d a ha (sym (head-eq_of_cons-eq (simp cons_form at e))))
split_at_unique c (String.◌∷◌ d a) (String.◌∷◌ f b) x y ha hb e =
    let e' = simp cons-append at e in
    let rest : (a ≡ b) × (x ≡ y) =
      split_at_unique c a b x y (and_right _ _ ha) (and_right _ _ hb) (tail-eq_of_cons-eq e') in
    let head = head-eq_of_cons-eq e' in (λ i. String.◌∷◌ (head i) (rest.0 i), rest.1)

-- A text of one character in front of another.
pub char-append : (c : Char) (x : String) → String.◌∷◌ c "" ++ x ≡ String.◌∷◌ c x
char-append c x = cons-append c "" x ∙ ap (String.◌∷◌ c) (nil-append x)

-- A text behind which the character comes is none that lacks it.
pub lacks_whole : (c : Char) (a x : String) → lacks (code c) (a ++ String.◌∷◌ c x) ≡ false
lacks_whole c String.[] x = rw (nil-append (String.◌∷◌ c x)) (self (code c) (lacks (code c) x))
lacks_whole c (String.◌∷◌ d a) x =
    rw (cons-append d a (String.◌∷◌ c x)) (and_false _ _ (lacks_whole c a x))

-- The first colon splits a text in one way.
pub split_unique :
    (a b x y : String)
    → lacks b':' a ≡ true
    → lacks b':' b ≡ true
    → a ++ (":" ++ x) ≡ b ++ (":" ++ y)
    → (a ≡ b) × (x ≡ y)
split_unique a b x y ha hb e =
    split_at_unique ":" a b x y ha hb
      (ap (λ s. a ++ s) (sym (char-append ":" x)) ∙ e ∙ ap (λ s. b ++ s) (char-append ":" y))
