-- ===== src/Utils/Strings.antt =====
-- events-processor/utils/string.go: reading a column of texts. A text is the list of its code
-- points here, since the code walks it.
pub mod Splitting
pub mod Arrays
pub mod Quoted
use Prim.Native.Char.{code}
use Prim.Native.String.{String}
use lago.Prelude.{
  ℕ, Bool, true, false, not, ◌&&◌, ◌||◌, List, [], ◌∷◌, Option, none, some, leb, ◌==◌,
  if◌then◌else◌,
}
use lago.Utils.Result.{Error, errorf, Except, ok, error}

abbrev pub Runes : Type 0
Runes = List ℕ

-- `[]rune(s)`
unfoldable pub runes : String → Runes
runes String.[] = []
runes (String.◌∷◌ c s) = code c ∷ runes s

-- `unicode.IsSpace`
unfoldable pub is_space : ℕ → Bool
is_space c =
    (leb 9 c && leb c 13)
    || c == 32
    || c == 0x85
    || c == 0xa0
    || c == 0x1680
    || (leb 0x2000 c && leb c 0x200a)
    || c == 0x2028
    || c == 0x2029
    || c == 0x202f
    || c == 0x205f
    || c == 0x3000

abbrev pub comma : ℕ
comma = 44

abbrev pub quote : ℕ
quote = 34

abbrev pub open_brace : ℕ
open_brace = 123

abbrev pub close_brace : ℕ
close_brace = 125

-- `strings.TrimLeftFunc`, `strings.TrimRightFunc` and both
unfoldable pub trim_left : (ℕ → Bool) → Runes → Runes
trim_left cut [] = []
trim_left cut (c ∷ s) = if cut c then trim_left cut s else c ∷ s

abbrev pub add_kept : (ℕ → Bool) → ℕ → Runes → Runes
add_kept cut c [] = if cut c then [] else c ∷ []
add_kept cut c (d ∷ s) = c ∷ d ∷ s

unfoldable pub trim_right : (ℕ → Bool) → Runes → Runes
trim_right cut [] = []
trim_right cut (c ∷ s) = add_kept cut c (trim_right cut s)

unfoldable pub trim : (ℕ → Bool) → Runes → Runes
unfolding trim_left trim_right
trim cut s = trim_right cut (trim_left cut s)

-- `strings.TrimSpace`
unfoldable pub trim_space : Runes → Runes
unfolding trim is_space
trim_space s = trim is_space s

-- `strings.TrimPrefix` and `strings.TrimSuffix`, for one character
unfoldable pub trim_prefix : ℕ → Runes → Runes
trim_prefix p [] = []
trim_prefix p (c ∷ s) = if c == p then s else c ∷ s

unfoldable pub trim_suffix : ℕ → Runes → Runes
trim_suffix p [] = []
trim_suffix p (c ∷ []) = if c == p then [] else c ∷ []
trim_suffix p (c ∷ d ∷ s) = c ∷ trim_suffix p (d ∷ s)

abbrev pub add_to_first : ℕ → List Runes → List Runes
add_to_first c [] = (c ∷ []) ∷ []
add_to_first c (part ∷ parts) = (c ∷ part) ∷ parts

-- `strings.Split`, for a separator of one character
unfoldable pub split : ℕ → Runes → List Runes
split sep [] = [] ∷ []
split sep (c ∷ s) = let parts = split sep s in if c == sep then [] ∷ parts else add_to_first c parts

abbrev pub is_empty : Runes → Bool
is_empty [] = true
is_empty (c ∷ s) = false

-- The loop over the parts: a part that is empty once it is cleaned is left out.
unfoldable pub clean_parts : List Runes → List Runes
unfolding trim_space trim
clean_parts [] = []
clean_parts (part ∷ parts) =
    let cleaned = trim (λ c. c == quote) (trim_space part) in
    if is_empty cleaned then clean_parts parts else cleaned ∷ clean_parts parts

abbrev pub is_braces : Runes → Bool
is_braces (c ∷ d ∷ []) = c == open_brace && d == close_brace
is_braces s = false

-- Behind the first trimming.
unfoldable pub parse_trimmed : Runes → List Runes
unfolding trim_prefix trim_suffix split clean_parts
parse_trimmed s =
    if is_braces s || is_empty s
    then []
    else clean_parts (split comma (trim_suffix close_brace (trim_prefix open_brace s)))

unfoldable pub parse_postgres_array : Runes → List Runes
unfolding trim_space parse_trimmed
parse_postgres_array text = parse_trimmed (trim_space text)

-- The values that the driver hands to `Scan`.
pub data Column : Type 0 where
  null other : Column
  bytes string : Runes → Column

-- `decode` is `json.Unmarshal` at a slice of strings.
unfoldable pub scan : (Runes → Except (List Runes)) → Column → Except (List Runes)
unfolding parse_postgres_array
scan decode null = ok []
scan decode other = error (errorf "failed to unmarshal StringArray value")
scan decode (string v) = ok (parse_postgres_array v)
scan decode (bytes v) = elim (decode v) [ ok arr ↦ ok arr | error e ↦ ok (parse_postgres_array v) ]
