-- ===== src/Processor/Effects/Flagging.antt =====
-- events-processor/models/stores.go, `FlagStore.Flag`: what the sorted set of the subscriptions to
-- refresh holds after a sequence of flags.
use Prim.Native.String.{String}
use lago.Prelude.{
  ℕ, ◌+◌, ◌*◌, ◌/◌, ◌≤◌, ◌<◌, String, str_eq, eq_iff, cat, lacks, split_at_unique, char-append,
  true, false≢true, ◌&&◌, List, [], ◌∷◌, Option, none, some, In, inl, inr, ◌≡◌, refl, sym, ap, ◌∙◌,
  ◌==◌, Bool-cases, if◌then◌else◌, arith,
}
use lago.Utils.Time.{Numbers}
use lago.Processor.Effects.{
  Effect, produced, dead_letter, flagged, expired, Outside, flag_member, flag,
}

-- A sorted set of redis: `ZADD` of a member sets its score.
pub record SortedSet : Type 1 where
  pub Set : Type 0
  pub zadd : ℕ → String → Set → Set
  pub zscore : String → Set → Option ℕ
  pub zscore-zadd :
      (score : ℕ) (m j : String) (set : Set)
      → zscore j (zadd score m set) ≡ (if str_eq m j then some score else zscore j set)

module _ (N : Numbers) (out : Outside N) (R : SortedSet) where
  unfoldable pub store_effects : List (Effect N) → R.Set → R.Set
  store_effects [] set = set
  store_effects (flagged score member ∷ rest) set = store_effects rest (R.zadd score member set)
  store_effects (produced topic key ev ∷ rest) set = store_effects rest set
  store_effects (dead_letter failed ∷ rest) set = store_effects rest set
  store_effects (expired key ∷ rest) set = store_effects rest set

  -- Flags one after the other, each with the value and the time in seconds.
  unfoldable pub flag_all : List (String × ℕ) → R.Set → R.Set
  unfolding store_effects flag
  flag_all [] set = set
  flag_all ((value, now) ∷ flags) set =
      flag_all flags (store_effects (flag N (record out { unix_now = now }) value).1 set)

  -- The last time at which the value was flagged in the window.
  abbrev pub last_flag : String → ℕ → List (String × ℕ) → Option ℕ → Option ℕ
  last_flag value window [] last = last
  last_flag value window ((v, now) ∷ flags) last =
      last_flag value window flags (if str_eq v value && now / 10 == window then some now else last)

  -- The values have no bar, and numbers differ as they are printed.
  pub record Plain (flags : List (String × ℕ)) : Type 0 where
    pub no_bar : (value : String) (now : ℕ) → In (value, now) flags → lacks b'|' value ≡ true
    pub printed : (m n : ℕ) → out.print_number m ≡ out.print_number n → m ≡ n
    pub added : (now : ℕ) (member : String) → out.zadd now member ≡ none

  flag_one :
      (value : String) (now : ℕ) (set : R.Set)
      → ((at : ℕ) (member : String) → out.zadd at member ≡ none)
      → store_effects (flag N (record out { unix_now = now }) value).1 set
        ≡ R.zadd now (flag_member N out now value) set
  unfolding flag store_effects flag_member
  flag_one value now set added = rw (added now _, flag) refl

  members_differ :
      (v w : String) (now at : ℕ)
      → lacks b'|' v ≡ true
      → lacks b'|' w ≡ true
      → ((m n : ℕ) → out.print_number m ≡ out.print_number n → m ≡ n)
      → flag_member N out now v ≡ flag_member N out at w
      → (v ≡ w) × (now / 10 ≡ at / 10)
  unfolding flag_member
  members_differ v w now at pv pw printed e =
      let cut =
        split_at_unique "|" v w _ _ pv pw
          (ap (cat v) (sym (char-append "|" _)) ∙ e ∙ ap (cat w) (char-append "|" _)) in
      (cut.0, omega (arith, printed _ _ cut.1))

  same_member :
      (v w : String) (now at : ℕ)
      → lacks b'|' v ≡ true
      → lacks b'|' w ≡ true
      → ((m n : ℕ) → out.print_number m ≡ out.print_number n → m ≡ n)
      → str_eq (flag_member N out now v) (flag_member N out at w)
        ≡ (str_eq v w && now / 10 == at / 10)
  unfolding flag_member
  same_member v w now at pv pw printed =
      elim (Bool-cases (str_eq (flag_member N out now v) (flag_member N out at w))) [
        | inl t ↦
            let same = members_differ v w now at pv pw printed ((eq_iff _ _).0 t) in
            t ∙ sym (ground (arith, (eq_iff v w).1 same.0, same.1))
        | inr f ↦ elim (Bool-cases (str_eq v w && now / 10 == at / 10)) [
          | inr g ↦ f ∙ sym g
          | inl g ↦
              let values : v ≡ w = (eq_iff v w).0 (ground (arith, g)) in
              let windows : now / 10 ≡ at / 10 = ground (arith, g) in
              let members : flag_member N out now v ≡ flag_member N out at w =
                ap (λ x. cat x (cat "|" (out.print_number (now / 10 * 10)))) values
                ∙ ap (λ (n : ℕ). cat w (cat "|" (out.print_number (n * 10)))) windows in
              absurd (false≢true (sym f ∙ (eq_iff _ _).1 members))
        ]
      ]

  rest-Plain :
      (v : String) (now : ℕ) (flags : List (String × ℕ)) → Plain ((v, now) ∷ flags) → Plain flags
  rest-Plain v now flags plain = record {
    no_bar = λ value at m. plain.no_bar value at (inr m);
    printed = plain.printed;
    added = plain.added;
  }

  zscore-last_flag :
      (flags : List (String × ℕ)) (value : String) (at : ℕ) (set : R.Set) (last : Option ℕ)
      → Plain flags
      → lacks b'|' value ≡ true
      → R.zscore (flag_member N out at value) set ≡ last
      → R.zscore (flag_member N out at value) (flag_all flags set)
        ≡ last_flag value (at / 10) flags last
  unfolding flag_all
  zscore-last_flag [] value at set last plain bare h = h
  zscore-last_flag ((v, now) ∷ flags) value at set last plain bare h =
      zscore-last_flag flags value at _ _ (rest-Plain v now flags plain) bare (
        ap (R.zscore (flag_member N out at value)) (flag_one v now set plain.added)
        ∙ R.zscore-zadd now (flag_member N out now v) (flag_member N out at value) set
        ∙ rw (same_member v value now at (plain.no_bar v now (inl refl)) bare plain.printed, h)
            refl)

  last_flag-window :
      (flags : List (String × ℕ)) (value : String) (window : ℕ) (last : Option ℕ) (score : ℕ)
      → ((s : ℕ) → last ≡ some s → s / 10 ≡ window)
      → last_flag value window flags last ≡ some score
      → score / 10 ≡ window
  last_flag-window [] value window last score h e = h score e
  last_flag-window ((v, now) ∷ flags) value window last score h e =
      last_flag-window flags value window _ score
        (λ s k. elim (Bool-cases (str_eq v value && now / 10 == window)) [
          | inl t ↦ let found : some now ≡ some s = rw t at k in ground (arith, t, found)
          | inr f ↦ h s (rw f at k)
        ])
        e

  -- After a sequence of flags that redis takes, of values without a bar, the member of a value and a
  -- window of ten seconds has the last time at which the value was flagged in that window for its
  -- score, or the score that it had before if there was none.
  pub flag_all-last_flag :
      (flags : List (String × ℕ)) (value : String) (at : ℕ) (set : R.Set)
      → Plain flags
      → lacks b'|' value ≡ true
      → R.zscore (flag_member N out at value) (flag_all flags set)
        ≡ last_flag value (at / 10) flags (R.zscore (flag_member N out at value) set)
  flag_all-last_flag flags value at set plain bare =
      zscore-last_flag flags value at set _ plain bare refl

  -- After a sequence of flags of values without a bar, added as redis adds members, a member that was
  -- not there before and is there now has a score within its own window of ten seconds, however long
  -- its value is flagged: no flag of a later window puts it off.
  pub flag_all-window :
      (flags : List (String × ℕ)) (value : String) (at : ℕ) (set : R.Set) (score : ℕ)
      → Plain flags
      → lacks b'|' value ≡ true
      → R.zscore (flag_member N out at value) set ≡ none
      → R.zscore (flag_member N out at value) (flag_all flags set) ≡ some score
      → (at / 10 * 10 ≤ score) × (score < at / 10 * 10 + 10)
  flag_all-window flags value at set score plain bare fresh e =
      let window =
        last_flag-window flags value (at / 10) none score (λ s k. cc)
          (sym (zscore-last_flag flags value at set none plain bare fresh) ∙ e) in
      (omega (arith, window), omega (arith, window))
