-- ===== src/Utils/Env.antt =====
-- events-processor/utils/env.go: reading the environment. A variable that is not set is empty.
use lago.Prelude.{
  ℕ, String, str_eq, Bool, true, false, ◌||◌, List, [], ◌∷◌, Option, none, some, map, ◌≡◌, refl, ap,
  sym, ◌∙◌, if◌then◌else◌, ◌==◌, arith,
}
use lago.Utils.Result.{Error, Except, ok, error}
use lago.Utils.Strings.{Runes, comma, is_empty, is_space, trim_space, split}
use lago.Utils.Strings.Splitting.{join_with, all_none_of, trim_id, split-join_with}

-- `os.Getenv`
abbrev pub Env : Type 0
Env = String → String

-- `atoi` is `strconv.Atoi`, at a type of integers.
unfoldable pub get_env_as_int :
    {I : Type 0} → (String → Except I) → Env → String → I → I × Option Error
get_env_as_int atoi env key default =
    if str_eq (env key) ""
    then (default, none)
    else elim (atoi (env key)) [ error e ↦ (default, some e) | ok value ↦ (value, none) ]

-- `strconv.ParseBool`
unfoldable pub parse_bool : String → Option Bool
parse_bool s =
    if str_eq s "1"
      || str_eq s "t"
      || str_eq s "T"
      || str_eq s "TRUE"
      || str_eq s "true"
      || str_eq s "True"
    then some true
    else if str_eq s "0"
        || str_eq s "f"
        || str_eq s "F"
        || str_eq s "FALSE"
        || str_eq s "false"
        || str_eq s "False"
    then some false
    else none

unfoldable pub get_env_as_bool : Env → String → Bool → Bool
unfolding parse_bool
get_env_as_bool env key default = elim (parse_bool (env key)) [
  | none ↦ default
  | some value ↦ value
]

unfoldable pub get_env_or_default : Env → String → String → String
get_env_or_default env key default = if str_eq (env key) "" then default else env key

unfoldable pub parse_brokers_env : Runes → List Runes
unfolding split trim_space
parse_brokers_env brokers = if is_empty brokers then [] else map trim_space (split comma brokers)

-- What the consumers of the cache, cache/consumer.go, hand to `kgo.SeedBrokers`.
abbrev pub cache_seed_brokers : Runes → List Runes
cache_seed_brokers brokers = brokers ∷ []

map_trim_id : (xs : List Runes) → all_none_of is_space xs ≡ true → map trim_space xs ≡ xs
unfolding trim_space
map_trim_id [] h = refl
map_trim_id (x ∷ xs) h = rw (trim_id is_space x (ground arith), map_trim_id xs (ground arith)) refl

join_with-filled :
    (c : ℕ) (x : Runes) (xs : List Runes) → is_empty (join_with comma ((c ∷ x) ∷ xs)) ≡ false
join_with-filled c x [] = refl
join_with-filled c x (y ∷ xs) = refl

-- The brokers are read back from a list of them that is written with commas, if none of them holds a
-- comma or a space and the first is not empty.
pub parse_brokers_env-join_with :
    (c : ℕ) (x : Runes) (xs : List Runes)
    → all_none_of (λ d. d == comma) ((c ∷ x) ∷ xs) ≡ true
    → all_none_of is_space ((c ∷ x) ∷ xs) ≡ true
    → parse_brokers_env (join_with comma ((c ∷ x) ∷ xs)) ≡ (c ∷ x) ∷ xs
unfolding parse_brokers_env
parse_brokers_env-join_with c x xs commas spaces =
    rw (parse_brokers_env, join_with-filled c x xs)
      (ap (map trim_space) (split-join_with comma (c ∷ x) xs commas)
        ∙ map_trim_id ((c ∷ x) ∷ xs) spaces)

single_list : {A : Type 0} {x y z : A} {zs : List A} → x ∷ y ∷ zs ≡ z ∷ [] → ⊥
single_list h = cc

-- The consumers of the cache do not read the list of brokers: for several brokers they are handed
-- one address, which is the whole list.
pub cache_seed_brokers-differ :
    (c : ℕ) (x y : Runes) (rest : List Runes)
    → all_none_of (λ d. d == comma) ((c ∷ x) ∷ y ∷ rest) ≡ true
    → all_none_of is_space ((c ∷ x) ∷ y ∷ rest) ≡ true
    → ¬ (
        parse_brokers_env (join_with comma ((c ∷ x) ∷ y ∷ rest))
        ≡ cache_seed_brokers (join_with comma ((c ∷ x) ∷ y ∷ rest)))
cache_seed_brokers-differ c x y rest commas spaces e =
    single_list (sym (parse_brokers_env-join_with c x (y ∷ rest) commas spaces) ∙ e)
