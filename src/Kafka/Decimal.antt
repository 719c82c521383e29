-- ===== src/Kafka/Decimal.antt =====
-- The texts of `fmt.Sprintf("%s-%d", …)` that name a record: an offset in decimal digits, and how
-- a text ends in one.
use lago.Prelude.{
  ℕ, zero, suc, subst, ◌+◌, ◌-◌, ◌*◌, ◌/◌, ◌%◌, ◌<◌, ◌≡◌, refl, sym, ap, ◌∙◌, List, [], ◌∷◌, ◌++◌,
  ltb, if◌then◌else◌, arith,
}

abbrev pub Bytes : Type 0
Bytes = List ℕ

-- The last digit is written first; `n` rounds are enough.
unfoldable pub emit : ℕ → ℕ → Bytes → Bytes
emit zero n out = out
emit (suc fuel) n out =
    let rest = emit fuel (n / 10) ((48 + n % 10) ∷ out) in if ltb n 10 then (48 + n) ∷ out else rest

unfoldable pub decimal : ℕ → Bytes
unfolding emit
decimal n = emit (suc n) n []

-- The number that digits stand for, behind those already read.
read : ℕ → Bytes → ℕ
read v [] = v
read v (c ∷ s) = read (v * 10 + (c - 48)) s

read-emit : (fuel n : ℕ) (out : Bytes) → n < fuel → read 0 (emit fuel n out) ≡ read n out
unfolding emit read
read-emit zero n out h = absurd (omega arith)
read-emit (suc fuel) n out h = ground (arith, read-emit fuel (n / 10) ((48 + n % 10) ∷ out))

pub decimal_inj : (m n : ℕ) → decimal m ≡ decimal n → m ≡ n
unfolding decimal read
decimal_inj m n e =
    sym (read-emit (suc m) m [] (omega arith))
    ∙ ap (read 0) e
    ∙ read-emit (suc n) n [] (omega arith)

abbrev Digits : Bytes → Type 0
Digits [] = Unit
Digits (c ∷ s) = (45 < c) × Digits s

emit-Digits : (fuel n : ℕ) (out : Bytes) → Digits out → Digits (emit fuel n out)
unfolding emit
emit-Digits zero n out h = h
emit-Digits (suc fuel) n out h = ground (arith, emit-Digits fuel (n / 10) ((48 + n % 10) ∷ out))

decimal-Digits : (n : ℕ) → Digits (decimal n)
unfolding decimal
decimal-Digits n = emit-Digits (suc n) n [] tt

no_dash : (k d : Bytes) → Digits (k ++ (45 ∷ d)) → ⊥
no_dash [] d h = omega arith
no_dash (c ∷ k) d h = no_dash k d h.1

-- The last dash splits a text in one way.
split_unique :
    (a b x y : Bytes) → Digits x → Digits y → a ++ (45 ∷ x) ≡ b ++ (45 ∷ y) → (a ≡ b) × (x ≡ y)
split_unique [] [] x y hx hy e = (refl, ground arith)
split_unique [] (d ∷ b) x y hx hy e = absurd (no_dash b y (subst Digits (ground arith) hx))
split_unique (c ∷ a) [] x y hx hy e = absurd (no_dash a x (subst Digits (ground arith) hy))
split_unique (c ∷ a) (d ∷ b) x y hx hy e =
    let rest = split_unique a b x y hx hy (ground arith) in (ground arith, rest.1)

-- A key and an offset are told apart by the text that names them.
pub name_inj :
    (k l : Bytes) (m n : ℕ) → k ++ (45 ∷ decimal m) ≡ l ++ (45 ∷ decimal n) → (k ≡ l) × (m ≡ n)
name_inj k l m n e =
    let parts = split_unique k l (decimal m) (decimal n) (decimal-Digits m) (decimal-Digits n) e in
    (parts.0, decimal_inj m n parts.1)
