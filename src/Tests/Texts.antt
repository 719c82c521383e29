-- ===== src/Tests/Texts.antt =====
-- Arrays of Postgres, and times in JSON.
use lago.Prelude.{ℕ, true, ap, ◌-◌, ◌+◌, ◌*◌, ◌/◌, ◌==◌, arith, [], ◌∷◌, ◌++◌, ◌≡◌, refl}
use lago.Utils.Result.{Except, ok, error, errorf}
use lago.Utils.NullTime.{Time}
use lago.Utils.CustomTime.{Layout, Laws, is_null}
use lago.Utils.Strings.{Runes, quote, comma, is_space, parse_postgres_array}
use lago.Utils.Strings.Splitting.{none_of}
use lago.Utils.Strings.Arrays.{print_array, parse_postgres_array-print_array}
use lago.Utils.Strings.Quoted.{print_quoted, parse_postgres_array-print_quoted}

abbrev eu : Runes
eu = 101 ∷ 117 ∷ []

abbrev us : Runes
us = 117 ∷ 115 ∷ []

parse_postgres_array-print_array_example :
    parse_postgres_array (print_array (eu ∷ us ∷ [])) ≡ eu ∷ us ∷ []
unfolding is_space
parse_postgres_array-print_array_example = parse_postgres_array-print_array (eu ∷ us ∷ []) refl

parse_postgres_array-print_quoted_example :
    parse_postgres_array (print_quoted (eu ++ (comma ∷ us))) ≡ eu ∷ us ∷ []
unfolding is_space
parse_postgres_array-print_quoted_example = parse_postgres_array-print_quoted eu us refl refl

-- A layout that writes the seconds of a time as one character.
abbrev read_seconds : Runes → Except Time
read_seconds [] = error (errorf "cannot parse")
read_seconds (c ∷ s) = ok ((c - 1000) * 1000000000)

abbrev seconds : Layout
seconds = record {
  parse = read_seconds;
  format = λ t. (t / 1000000000 + 1000) ∷ [];
  text = λ s. "";
}

seconds_unquoted : (n : ℕ) → none_of (λ c. c == quote) ((n + 1000) ∷ []) ≡ true
seconds_unquoted n = ground arith

seconds_read : (n : ℕ) → ok ((n + 1000 - 1000) * 1000000000) ≡ ok (n * 1000000000)
seconds_read n = ap ok (omega arith)

seconds-Laws : Laws seconds
unfolding is_null
seconds-Laws = record {
  format-filled = λ t. (t / 1000000000 + 1000, [], refl);
  format-unquoted = λ t. seconds_unquoted (t / 1000000000);
  format-not_null = λ t. refl;
  parse-format = λ t lt. seconds_read (t / 1000000000);
}
