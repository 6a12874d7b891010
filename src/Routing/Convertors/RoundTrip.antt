-- ===== src/Routing/Convertors/RoundTrip.antt =====
-- An integer in a path is read back as it was printed.
use rustlette.Prelude.{
  is_nil, ℕ, zero, suc, ◌+◌, ◌-◌, ◌*◌, ◌/◌, ◌%◌, ◌<◌, ◌≡◌, refl, ap, subst, sym, ◌∙◌, true, false,
  Option, some, [], ◌∷◌, Text, arith, all, ◌==◌, Bool-cases, inl, inr,
}
use rustlette.Prelude.Decimal.{str, digits}
use rustlette.Routing.Convertors.{
  integer_convertor, int_value, is_digit, is_number, accepts, convert, to_string, value_from,
}

digits-last :
    (fuel n : ℕ) (out : Text) → (n / 10 == 0) ≡ true → digits (suc fuel) n out ≡ (48 + n % 10) ∷ out
unfolding digits
digits-last fuel n out h = rw (digits, h) refl

digits-more :
    (fuel n : ℕ) (out : Text)
    → (n / 10 == 0) ≡ false
    → digits (suc fuel) n out ≡ digits fuel (n / 10) ((48 + n % 10) ∷ out)
unfolding digits
digits-more fuel n out h = rw (digits, h) refl

value_from-digits :
    (fuel n : ℕ) (out : Text) → n < fuel → value_from 0 (digits fuel n out) ≡ value_from n out
unfolding value_from digits
value_from-digits zero n out h = absurd (omega arith)
value_from-digits (suc fuel) n out h = elim (Bool-cases (n / 10 == 0)) [
  | inl last ↦
      let below : n / 10 ≡ 0 = ground arith in
      let same : 0 * 10 + (48 + n % 10 - 48) ≡ n = omega arith in
      ap (λ s. value_from 0 s) (digits-last fuel n out last) ∙ ap (λ m. value_from m out) same
  | inr more ↦
      let positive : 0 < n / 10 = ground arith in
      let same : n / 10 * 10 + (48 + n % 10 - 48) ≡ n = omega arith in
      ap (λ s. value_from 0 s) (digits-more fuel n out more)
      ∙ value_from-digits fuel (n / 10) ((48 + n % 10) ∷ out) (omega arith)
      ∙ ap (λ m. value_from m out) same
]

is_digit-last : (n : ℕ) → is_digit (48 + n % 10) ≡ true
unfolding is_digit
is_digit-last n = let small : n % 10 < 10 = omega arith in ground arith

is_number-digits :
    (fuel n : ℕ) (out : Text) → all is_digit out ≡ true → is_number (digits (suc fuel) n out) ≡ true
unfolding is_number digits is_nil
is_number-digits zero n out h = elim (Bool-cases (n / 10 == 0)) [
  | inl last ↦ rw (digits-last 0 n out last, is_digit-last n) h
  | inr more ↦ rw (digits-more 0 n out more, is_digit-last n) h
]
is_number-digits (suc fuel) n out h = elim (Bool-cases (n / 10 == 0)) [
  | inl last ↦ rw (digits-last (suc fuel) n out last, is_digit-last n) h
  | inr more ↦
      rw (digits-more (suc fuel) n out more)
        (is_number-digits fuel (n / 10) ((48 + n % 10) ∷ out) (rw (is_digit-last n) h))
]

pub is_number-str : (n : ℕ) → is_number (str n) ≡ true
unfolding str
is_number-str n =
    let e : n + 1 ≡ suc n = omega arith in
    subst (λ f. is_number (digits f n []) ≡ true) (sym e) (is_number-digits n n [] refl)

pub value_from-str : (n : ℕ) → value_from 0 (str n) ≡ n
unfolding str value_from
value_from-str n = value_from-digits (n + 1) n [] (omega arith)

-- What the convertor of integers prints matches its own expression, and is converted back to the
-- integer.
pub convert-to_string :
    (float_text : Text → Option Text) (n : ℕ)
    → (s : Text) × (to_string float_text integer_convertor (int_value n) ≡ some s)
      × (accepts integer_convertor s ≡ true)
      × (convert integer_convertor s ≡ int_value n)
unfolding to_string accepts convert str
convert-to_string float_text n =
    (str n, refl, is_number-str n, ap (λ m. int_value m) (value_from-str n))
