-- ===== src/Utils/CustomTime.antt =====
-- events-processor/utils/time.go: `CustomTime`, a time in JSON without a zone and in whole seconds, or
-- a timestamp. Texts are lists of code points, since the code trims them.
use lago.Prelude.{
  ℕ, String, Bool, true, false, ◌==◌, [], ◌∷◌, ◌++◌, none, some, ◌≡◌, refl, subst, ◌∙◌, Bool-cases,
  inl, inr, ◌<◌, ◌*◌, ◌/◌, if◌then◌else◌,
}
use lago.Utils.Result.{Except, ok, error}
use lago.Utils.NullTime.{Time}
use lago.Utils.Time.{Numbers, ts_string, to_time}
use lago.Utils.Strings.{Runes, quote, trim, trim_left, trim_right, is_empty}
use lago.Utils.Strings.Splitting.{none_of, trim-append, trim-cons}

-- `time.Parse` and `Format` with the layout 2006-01-02T15:04:05, and the Go string of a text.
pub record Layout : Type 0 where
  pub parse : Runes → Except Time
  pub format : Time → Runes
  pub text : Runes → String

abbrev pub null_text : Runes
null_text = 110 ∷ 117 ∷ 108 ∷ 108 ∷ []

unfoldable pub is_null : Runes → Bool
is_null (a ∷ b ∷ c ∷ d ∷ []) =
    if a == 110 then (if b == 117 then (if c == 108 then d == 108 else false) else false) else false
is_null s = false

module _ (N : Numbers) (layout : Layout) where
  -- A text that is no time in the layout may be a timestamp; the error is the first one.
  unfoldable pub read_text : Runes → Except Time
  unfolding to_time
  read_text s = elim (layout.parse s) [
    | ok t ↦ ok t
    | error e ↦
        let timestamp = to_time N (ts_string (layout.text s)) in
        elim timestamp.err [ some f ↦ error e | none ↦ ok timestamp.value ]
  ]

  -- The value before, which null and the empty text leave as it was.
  unfoldable pub unmarshal_custom : Runes → Time → Except Time
  unfolding read_text trim is_null
  unmarshal_custom b before =
      let s = trim (λ c. c == quote) b in
      if is_null s then ok before else if is_empty s then ok before else read_text s

  -- The zero time is null.
  unfoldable pub marshal_custom : Time → Runes
  marshal_custom t = if t == 0 then null_text else quote ∷ (layout.format t ++ (quote ∷ []))

  unfoldable pub custom_string : Time → Runes
  custom_string t = layout.format t

-- The first nanosecond of the year 10000, from which on the layout has too many digits.
abbrev pub last_time : ℕ
last_time = 315537897600 * 1000000000

-- What the documentation of the layout says: up to the year 9999 a time has a text of digits, dashes,
-- colons and a T, from which the time is read back without what is below the second.
pub record Laws (layout : Layout) : Type 0 where
  pub format-filled : (t : Time) → (c : ℕ) × (s : Runes) × (layout.format t ≡ c ∷ s)
  pub format-unquoted : (t : Time) → none_of (λ c. c == quote) (layout.format t) ≡ true
  pub format-not_null : (t : Time) → is_null (layout.format t) ≡ false
  pub parse-format :
      (t : Time) → t < last_time → layout.parse (layout.format t) ≡ ok (t / 1000000000 * 1000000000)

module _ (N : Numbers) (layout : Layout) (laws : Laws layout) where
  unquoted :
      (t : Time)
      → trim (λ c. c == quote) (quote ∷ (layout.format t ++ (quote ∷ []))) ≡ layout.format t
  unquoted t =
      let (c, s, e) = laws.format-filled t in
      let plain : none_of (λ d. d == quote) (c ∷ s) ≡ true =
        subst (λ x. none_of (λ d. d == quote) x ≡ true) e (laws.format-unquoted t) in
      trim-cons (λ d. d == quote) quote (layout.format t ++ (quote ∷ [])) refl
      ∙ rw e (trim-append (λ d. d == quote) c s quote refl plain)

  filled : (t : Time) → is_empty (layout.format t) ≡ false
  filled t = let (c, s, e) = laws.format-filled t in rw e refl

  -- A time before the year 10000 that is not the zero time is read back from its JSON in whole
  -- seconds; the zero time is null there, which leaves the value that was read into as it was.
  pub unmarshal_custom-marshal_custom :
      (t before : Time)
      → t < last_time
      → unmarshal_custom N layout (marshal_custom N layout t) before
        ≡ ok (if t == 0 then before else t / 1000000000 * 1000000000)
  unfolding unmarshal_custom marshal_custom read_text trim trim_left trim_right is_null
  unmarshal_custom-marshal_custom t before lt = elim (Bool-cases (t == 0)) [
    | inl z ↦ rw (marshal_custom, z) refl
    | inr z ↦
        rw (marshal_custom, z, unmarshal_custom, unquoted t, laws.format-not_null t, filled t)
          (rw (read_text, laws.parse-format t lt) refl)
  ]
