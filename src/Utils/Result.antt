-- ===== src/Utils/Result.antt =====
-- events-processor/utils/result.go. `value` holds Go's zero value of its type where the call failed.
use lago.Prelude.{String, Bool, true, false, Option, none, some, ◌≡◌, refl, ◌⊎◌, inl, inr}

-- The two sentinel errors that the code compares with, and errors that only carry a text.
pub data Error : Type 0 where
  key_not_found record_not_found : Error
  errorf : String → Error

unfoldable pub error_text : Error → String
error_text key_not_found = "Key not found"
error_text record_not_found = "record not found"
error_text (errorf text) = text

-- A Go result `(A, error)` whose value is only read where the error is nil.
pub data Except {ℓ} (A : Type ℓ) : Type ℓ where
  ok : A → Except A
  error : Error → Except A

pub record ErrorDetails : Type 0 where
  pub code : String
  pub message : String

pub record Result {ℓ} (A : Type ℓ) : Type ℓ where
  pub value : A
  pub err : Option Error
  pub details : Option ErrorDetails
  pub retryable : Bool
  pub capture : Bool

-- What a call that may panic ends in.
pub data Outcome {ℓ} (A : Type ℓ) : Type ℓ where
  returns : A → Outcome A
  panics : Error → Outcome A

module _ {ℓ} {A : Type ℓ} where
  unfoldable pub success : Result A → Bool
  success r = elim r.err [ none ↦ true | some e ↦ false ]

  unfoldable pub failure : Result A → Bool
  failure r = elim r.err [ none ↦ false | some e ↦ true ]

  -- `if res.Failure() { return nil, res.Error() }; return res.Value(), nil`
  unfoldable pub to_except : Result A → Except A
  to_except r = elim r.err [ none ↦ ok r.value | some e ↦ error e ]

  unfoldable pub value_or_panic : Result A → Outcome A
  value_or_panic r = elim r.err [ none ↦ returns r.value | some e ↦ panics e ]

  unfoldable pub error_msg : Result A → String
  unfolding error_text
  error_msg r = elim r.err [ none ↦ "" | some e ↦ error_text e ]

  unfoldable pub add_error_details : Result A → String → String → Result A
  add_error_details r code message = record r {
    details = some (record { code = code; message = message });
  }

  unfoldable pub non_retryable : Result A → Result A
  non_retryable r = record r { retryable = false }

  unfoldable pub non_capturable : Result A → Result A
  non_capturable r = record r { capture = false }

  unfoldable pub error_code : Result A → String
  error_code r = elim r.details [ none ↦ "" | some d ↦ d.code ]

  unfoldable pub error_message : Result A → String
  error_message r = elim r.details [ none ↦ "" | some d ↦ d.message ]

  unfoldable pub success_result : A → Result A
  success_result value = record {
    value = value;
    err = none;
    details = none;
    retryable = false;
    capture = false;
  }

  -- The first argument is the zero value of the type.
  unfoldable pub failed_result : A → Error → Result A
  failed_result zero_value e = record {
    value = zero_value;
    err = some e;
    details = none;
    retryable = true;
    capture = true;
  }

unfoldable pub failed_bool_result : Error → Result Bool
failed_bool_result e = record {
  value = false;
  err = some e;
  details = none;
  retryable = true;
  capture = true;
}

pub Except-cases {ℓ} :
    {A : Type ℓ} (r : Except A) → ((e : Error) × (r ≡ error e)) ⊎ ((a : A) × (r ≡ ok a))
Except-cases (error e) = inl (e, refl)
Except-cases (ok a) = inr (a, refl)

pub ok-injective {ℓ} : {A : Type ℓ} {a b : A} → ok a ≡ ok b → a ≡ b
ok-injective e = cc

pub Outcome-cases {ℓ} :
    {A : Type ℓ} (o : Outcome A) → ((e : Error) × (o ≡ panics e)) ⊎ ((a : A) × (o ≡ returns a))
Outcome-cases (panics e) = inl (e, refl)
Outcome-cases (returns a) = inr (a, refl)

pub error≢ok {ℓ} : {A : Type ℓ} {e : Error} {a : A} → error e ≡ ok a → ⊥
error≢ok h = cc

pub returns-injective {ℓ} : {A : Type ℓ} {a b : A} → returns a ≡ returns b → a ≡ b
returns-injective h = cc

pub panics≢returns {ℓ} : {P : Type 0} {A : Type ℓ} {e : Error} {a : A} → panics e ≡ returns a → P
panics≢returns h = cc

abbrev pub is_ok {ℓ} : {A : Type ℓ} → Except A → Bool
is_ok (ok a) = true
is_ok (error e) = false
