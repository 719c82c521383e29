-- ===== src/Utils/Strings/Splitting.antt =====
-- Cutting a text at a separator undoes joining at it, and trimming leaves a plain text alone.
use lago.Prelude.{ℕ, Bool, true, not, ◌&&◌, List, [], ◌∷◌, ◌++◌, ◌==◌, ◌≡◌, refl, ap, ◌∙◌, arith}
use lago.Utils.Strings.{Runes, trim_left, trim_right, trim, split}

-- No character of the text is one of those.
abbrev pub none_of : (ℕ → Bool) → Runes → Bool
none_of p [] = true
none_of p (c ∷ s) = not (p c) && none_of p s

-- `strings.Join` with one character
abbrev pub join_with : ℕ → List Runes → Runes
join_with sep [] = []
join_with sep (x ∷ []) = x
join_with sep (x ∷ y ∷ rest) = x ++ (sep ∷ join_with sep (y ∷ rest))

trim_left_id : (cut : ℕ → Bool) (s : Runes) → none_of cut s ≡ true → trim_left cut s ≡ s
unfolding trim_left
trim_left_id cut [] h = refl
trim_left_id cut (c ∷ s) h = ground arith

trim_right_id : (cut : ℕ → Bool) (s : Runes) → none_of cut s ≡ true → trim_right cut s ≡ s
unfolding trim_right
trim_right_id cut [] h = refl
trim_right_id cut (c ∷ []) h = ground arith
trim_right_id cut (c ∷ d ∷ s) h = rw (trim_right_id cut (d ∷ s) (ground arith)) refl

pub trim_id : (cut : ℕ → Bool) (s : Runes) → none_of cut s ≡ true → trim cut s ≡ s
unfolding trim
trim_id cut s h = rw (trim_left_id cut s h) (trim_right_id cut s h)

pub split_plain : (sep : ℕ) (s : Runes) → none_of (λ c. c == sep) s ≡ true → split sep s ≡ s ∷ []
unfolding split
split_plain sep [] h = refl
split_plain sep (c ∷ s) h = ground (arith, split_plain sep s)

pub split-append :
    (sep : ℕ) (s t : Runes)
    → none_of (λ c. c == sep) s ≡ true
    → split sep (s ++ (sep ∷ t)) ≡ s ∷ split sep t
unfolding split
split-append sep [] t h = ground arith
split-append sep (c ∷ s) t h = ground (arith, split-append sep s t)

-- Each text of the list has no such character.
abbrev pub all_none_of : (ℕ → Bool) → List Runes → Bool
all_none_of p [] = true
all_none_of p (x ∷ xs) = none_of p x && all_none_of p xs

pub split-join_with :
    (sep : ℕ) (x : Runes) (xs : List Runes)
    → all_none_of (λ c. c == sep) (x ∷ xs) ≡ true
    → split sep (join_with sep (x ∷ xs)) ≡ x ∷ xs
split-join_with sep x [] h = split_plain sep x (ground arith)
split-join_with sep x (y ∷ ys) h =
    split-append sep x (join_with sep (y ∷ ys)) (ground arith)
    ∙ ap (λ parts. x ∷ parts) (split-join_with sep y ys (ground arith))

-- A character that is cut is taken off the end and off the front.
trim_right-append :
    (cut : ℕ → Bool) (s : Runes) (d : ℕ)
    → cut d ≡ true
    → none_of cut s ≡ true
    → trim_right cut (s ++ (d ∷ [])) ≡ s
unfolding trim_right
trim_right-append cut [] d hd h = ground arith
trim_right-append cut (c ∷ []) d hd h = rw (trim_right-append cut [] d hd refl) (ground arith)
trim_right-append cut (c ∷ e ∷ s) d hd h =
    rw (trim_right-append cut (e ∷ s) d hd (ground arith)) refl

pub trim-append :
    (cut : ℕ → Bool) (c : ℕ) (s : Runes) (d : ℕ)
    → cut d ≡ true
    → none_of cut (c ∷ s) ≡ true
    → trim cut ((c ∷ s) ++ (d ∷ [])) ≡ c ∷ s
unfolding trim trim_left
trim-append cut c s d hd h =
    let kept : trim_left cut ((c ∷ s) ++ (d ∷ [])) ≡ (c ∷ s) ++ (d ∷ []) = ground arith in
    rw kept (trim_right-append cut (c ∷ s) d hd h)

pub trim-cons : (cut : ℕ → Bool) (d : ℕ) (s : Runes) → cut d ≡ true → trim cut (d ∷ s) ≡ trim cut s
unfolding trim trim_left
trim-cons cut d s hd = ground arith
