-- ===== src/Utils/Strings/Arrays.antt =====
-- What `parsePostgresArray` reads.
use lago.Prelude.{
  ℕ, Bool, true, false, not, ◌&&◌, ◌||◌, List, [], ◌∷◌, ◌++◌, ◌==◌, ◌≡◌, refl, ap, ◌∙◌, arith,
}
use lago.Utils.Strings.{
  Runes, parse_trimmed, comma, quote, open_brace, close_brace, is_space, trim, trim_space,
  trim_prefix, trim_suffix, split, is_empty, clean_parts, is_braces, parse_postgres_array,
}
use lago.Utils.Strings.Splitting.{none_of, join_with, all_none_of, trim_id, split-join_with}

-- A character that Postgres writes around the elements, or that a cleaned element may lose.
abbrev pub is_special : ℕ → Bool
is_special c = is_space c || c == comma || c == quote

-- An element with at least one character and none of those, as Postgres writes it without quotes.
abbrev pub is_plain : Runes → Bool
is_plain x = not (is_empty x) && none_of is_special x

abbrev pub all_plain : List Runes → Bool
all_plain [] = true
all_plain (x ∷ xs) = is_plain x && all_plain xs

-- How Postgres writes an array of such elements.
abbrev pub print_array : List Runes → Runes
print_array xs = open_brace ∷ (join_with comma xs ++ (close_brace ∷ []))

pub implies_none_of :
    (p q : ℕ → Bool)
    → ((c : ℕ) → q c ≡ true → p c ≡ true)
    → (s : Runes) → none_of p s ≡ true
    → none_of q s ≡ true
implies_none_of p q imp [] h = refl
implies_none_of p q imp (c ∷ s) h = ground (arith, imp c, implies_none_of p q imp s)

pub space_special : (c : ℕ) → is_space c ≡ true → is_special c ≡ true
space_special c h = rw h refl

pub comma_special : (c : ℕ) → (c == comma) ≡ true → is_special c ≡ true
comma_special c h = ground arith

pub quote_special : (c : ℕ) → (c == quote) ≡ true → is_special c ≡ true
quote_special c h = ground arith

pub none_of-append :
    (p : ℕ → Bool) (s t : Runes)
    → none_of p s ≡ true
    → none_of p t ≡ true
    → none_of p (s ++ t) ≡ true
none_of-append p [] t hs ht = ht
none_of-append p (c ∷ s) t hs ht = ground (arith, none_of-append p s t)

pub comma_space : is_space comma ≡ false
unfolding is_space
comma_space = refl

pub open_brace_space : is_space open_brace ≡ false
unfolding is_space
open_brace_space = refl

pub close_brace_space : is_space close_brace ≡ false
unfolding is_space
close_brace_space = refl

none_of-join_with :
    (xs : List Runes) → all_plain xs ≡ true → none_of is_space (join_with comma xs) ≡ true
none_of-join_with [] h = refl
none_of-join_with (x ∷ []) h = implies_none_of is_special is_space space_special x (ground arith)
none_of-join_with (x ∷ y ∷ rest) h =
    none_of-append is_space x (comma ∷ join_with comma (y ∷ rest))
      (implies_none_of is_special is_space space_special x (ground arith))
      (ground (arith, comma_space, none_of-join_with (y ∷ rest)))

none_of-print_array :
    (xs : List Runes) → all_plain xs ≡ true → none_of is_space (print_array xs) ≡ true
none_of-print_array xs h =
    let inner =
      none_of-append is_space (join_with comma xs) (close_brace ∷ []) (none_of-join_with xs h)
        (ground (arith, close_brace_space)) in
    ground (arith, open_brace_space, inner)

not_braces :
    (s : Runes) → is_empty s ≡ false → is_braces (open_brace ∷ (s ++ (close_brace ∷ []))) ≡ false
not_braces [] h = cc
not_braces (c ∷ []) h = refl
not_braces (c ∷ d ∷ s) h = refl

trim_suffix-append : (p : ℕ) (s : Runes) → trim_suffix p (s ++ (p ∷ [])) ≡ s
unfolding trim_suffix
trim_suffix-append p [] = ground arith
trim_suffix-append p (c ∷ []) = ap (λ t. c ∷ t) (trim_suffix-append p [])
trim_suffix-append p (c ∷ d ∷ s) = ap (λ t. c ∷ t) (trim_suffix-append p (d ∷ s))

join_with-filled :
    (x : Runes) (xs : List Runes) → is_plain x ≡ true → is_empty (join_with comma (x ∷ xs)) ≡ false
join_with-filled [] xs h = cc
join_with-filled (c ∷ x) [] h = refl
join_with-filled (c ∷ x) (y ∷ xs) h = refl

all_no_commas : (xs : List Runes) → all_plain xs ≡ true → all_none_of (λ c. c == comma) xs ≡ true
all_no_commas [] h = refl
all_no_commas (x ∷ xs) h =
    ground (arith, implies_none_of is_special (λ c. c == comma) comma_special x, all_no_commas xs)

clean_plain : (x : Runes) → is_plain x ≡ true → trim (λ c. c == quote) (trim_space x) ≡ x
unfolding trim_space
clean_plain x h =
    rw (trim_id is_space x (implies_none_of is_special is_space space_special x (ground arith))) (
      trim_id (λ c. c == quote) x
        (implies_none_of is_special (λ c. c == quote) quote_special x (ground arith)))

clean_parts_id : (xs : List Runes) → all_plain xs ≡ true → clean_parts xs ≡ xs
unfolding clean_parts
clean_parts_id [] h = refl
clean_parts_id (x ∷ xs) h =
    rw (clean_parts, clean_plain x (ground arith)) (ground (arith, clean_parts_id xs))

trim_prefix-cons : (p : ℕ) (s : Runes) → trim_prefix p (p ∷ s) ≡ s
unfolding trim_prefix
trim_prefix-cons p s = ground arith

-- The parts of a printed array, where it is not empty.
pub parse_trimmed-parts :
    (s : Runes)
    → is_empty s ≡ false
    → parse_trimmed (open_brace ∷ (s ++ (close_brace ∷ []))) ≡ clean_parts (split comma s)
unfolding parse_trimmed
parse_trimmed-parts s h =
    rw
      (
        parse_trimmed,
        not_braces s h,
        trim_prefix-cons open_brace (s ++ (close_brace ∷ [])),
        trim_suffix-append close_brace s,
      )
      refl

parse_trimmed-print_array :
    (xs : List Runes) → all_plain xs ≡ true → parse_trimmed (print_array xs) ≡ xs
unfolding parse_trimmed
parse_trimmed-print_array [] h = refl
parse_trimmed-print_array (x ∷ xs) h =
    parse_trimmed-parts (join_with comma (x ∷ xs)) (join_with-filled x xs (ground arith))
    ∙ ap clean_parts (split-join_with comma x xs (all_no_commas (x ∷ xs) h))
    ∙ clean_parts_id (x ∷ xs) h

-- Reading an array that was written without quotes gives its elements back, if none is empty and
-- none holds a space, a comma or a quote.
pub parse_postgres_array-print_array :
    (xs : List Runes) → all_plain xs ≡ true → parse_postgres_array (print_array xs) ≡ xs
unfolding parse_postgres_array trim_space
parse_postgres_array-print_array xs h =
    ap parse_trimmed (trim_id is_space (print_array xs) (none_of-print_array xs h))
    ∙ parse_trimmed-print_array xs h
