-- ===== src/Utils/Strings/Quoted.antt =====
-- What `parsePostgresArray` makes of an element between quotes.
use lago.Prelude.{true, false, [], ◌∷◌, ◌++◌, ◌==◌, ◌≡◌, refl, ap, ◌∙◌, arith}
use mathlib.Core.List.{append_assoc}
use lago.Utils.Strings.{
  Runes, parse_trimmed, comma, quote, open_brace, close_brace, is_space, trim, trim_space, split,
  clean_parts, parse_postgres_array,
}
use lago.Utils.Strings.Splitting.{
  split_plain, split-append, none_of, trim_id, trim-append, trim-cons,
}
use lago.Utils.Strings.Arrays.{
  is_special, is_plain, implies_none_of, space_special, comma_special, quote_special,
  none_of-append, comma_space, open_brace_space, close_brace_space, parse_trimmed-parts,
}

-- How Postgres writes an array of one element that holds a comma: between quotes.
abbrev pub print_quoted : Runes → Runes
print_quoted x = open_brace ∷ ((quote ∷ (x ++ (quote ∷ []))) ++ (close_brace ∷ []))

quote_space : is_space quote ≡ false
unfolding is_space
quote_space = refl

-- The two parts of the quoted element, cleaned.
clean_quoted :
    (a b : Runes)
    → is_plain a ≡ true
    → is_plain b ≡ true
    → clean_parts ((quote ∷ a) ∷ (b ++ (quote ∷ [])) ∷ []) ≡ a ∷ b ∷ []
unfolding clean_parts trim_space
clean_quoted a [] ha hb = cc
clean_quoted a (c ∷ b) ha hb =
    let spaces : none_of is_space (c ∷ b) ≡ true =
      implies_none_of is_special is_space space_special (c ∷ b) (ground arith) in
    let quotes : none_of (λ d. d == quote) (c ∷ b) ≡ true =
      implies_none_of is_special (λ d. d == quote) quote_special (c ∷ b) (ground arith) in
    let first : trim is_space (quote ∷ a) ≡ quote ∷ a =
      trim_id is_space (quote ∷ a)
        (ground (arith, quote_space, implies_none_of is_special is_space space_special a)) in
    let second : trim is_space ((c ∷ b) ++ (quote ∷ [])) ≡ (c ∷ b) ++ (quote ∷ []) =
      trim_id is_space ((c ∷ b) ++ (quote ∷ []))
        (none_of-append is_space (c ∷ b) (quote ∷ []) spaces (ground (arith, quote_space))) in
    let unquoted : trim (λ d. d == quote) (quote ∷ a) ≡ a =
      trim-cons (λ d. d == quote) quote a refl
      ∙ trim_id (λ d. d == quote) a
          (implies_none_of is_special (λ d. d == quote) quote_special a (ground arith)) in
    rw (clean_parts, first, unquoted, second, trim-append (λ d. d == quote) c b quote refl quotes)
      (ground arith)

-- What stands between the braces, in the order in which it is cut.
quoted_inner :
    (a b : Runes)
    → quote ∷ ((a ++ (comma ∷ b)) ++ (quote ∷ [])) ≡ (quote ∷ a) ++ (comma ∷ (b ++ (quote ∷ [])))
quoted_inner a b = ap (λ s. quote ∷ s) (append_assoc a (comma ∷ b) (quote ∷ []))

quoted_parts :
    (a b : Runes)
    → is_plain a ≡ true
    → is_plain b ≡ true
    → split comma (quote ∷ ((a ++ (comma ∷ b)) ++ (quote ∷ [])))
      ≡ (quote ∷ a) ∷ (b ++ (quote ∷ [])) ∷ []
quoted_parts a b ha hb =
    let commas : (x : Runes) → is_plain x ≡ true → none_of (λ c. c == comma) x ≡ true =
      λ x h. implies_none_of is_special (λ c. c == comma) comma_special x (ground arith) in
    ap (split comma) (quoted_inner a b)
    ∙ split-append comma (quote ∷ a) (b ++ (quote ∷ [])) (ground (arith, commas a ha))
    ∙ ap (λ parts. (quote ∷ a) ∷ parts)
        (split_plain comma (b ++ (quote ∷ []))
          (none_of-append (λ c. c == comma) b (quote ∷ []) (commas b hb) refl))

quoted_spaces :
    (a b : Runes)
    → is_plain a ≡ true
    → is_plain b ≡ true
    → none_of is_space (print_quoted (a ++ (comma ∷ b))) ≡ true
quoted_spaces a b ha hb =
    let plain : (x : Runes) → is_plain x ≡ true → none_of is_space x ≡ true =
      λ x h. implies_none_of is_special is_space space_special x (ground arith) in
    let inner =
      none_of-append is_space a (comma ∷ b) (plain a ha)
        (ground (arith, comma_space, plain b hb)) in
    let quoted =
      none_of-append is_space (a ++ (comma ∷ b)) (quote ∷ []) inner (ground (arith, quote_space)) in
    let all =
      none_of-append is_space (quote ∷ ((a ++ (comma ∷ b)) ++ (quote ∷ []))) (close_brace ∷ [])
        (ground (arith, quote_space, quoted)) (ground (arith, close_brace_space)) in
    ground (arith, open_brace_space, all)

-- An array of one quoted element that is two texts with a comma between them, neither of them empty
-- nor with a space, a comma or a quote, is read as these two elements: the quotes do not keep it
-- together.
pub parse_postgres_array-print_quoted :
    (a b : Runes)
    → is_plain a ≡ true
    → is_plain b ≡ true
    → parse_postgres_array (print_quoted (a ++ (comma ∷ b))) ≡ a ∷ b ∷ []
unfolding parse_postgres_array trim_space
parse_postgres_array-print_quoted a b ha hb =
    ap parse_trimmed (trim_id is_space (print_quoted (a ++ (comma ∷ b))) (quoted_spaces a b ha hb))
    ∙ parse_trimmed-parts (quote ∷ ((a ++ (comma ∷ b)) ++ (quote ∷ []))) refl
    ∙ ap clean_parts (quoted_parts a b ha hb)
    ∙ clean_quoted a b ha hb
