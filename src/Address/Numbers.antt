-- ===== src/Address/Numbers.antt =====
-- The digits of a number, read back.
use ppq_enclave_proxy.Prelude.{
  ℕ, zero, suc, ◌+◌, ◌-◌, ◌*◌, ◌/◌, ◌%◌, ◌<◌, ◌≡◌, refl, sym, ap, ◌∙◌, Text, [], ◌∷◌, ◌==◌,
  Bool-cases, inl, inr, arith, true, false, is_digit,
}
use ppq_enclave_proxy.LineBuffer.Agree.{all_units}
use ppq_enclave_proxy.Address.{digit, digits_from, number_text}

-- The value of the digits after a number.
abbrev pub value : ℕ → Text → ℕ
value a [] = a
value a (c ∷ s) = value (a * 10 + (c - b'0')) s

digits_from_last :
    (fuel n : ℕ) (s : Text) → (n / 10 == 0) ≡ true → digits_from (suc fuel) 10 n s ≡ digit n ∷ s
unfolding digits_from
digits_from_last fuel n s h = rw (h, digits_from) refl

digits_from_more :
    (fuel n : ℕ) (s : Text)
    → (n / 10 == 0) ≡ false
    → digits_from (suc fuel) 10 n s ≡ digits_from fuel 10 (n / 10) (digit (n % 10) ∷ s)
unfolding digits_from
digits_from_more fuel n s h = rw (h, digits_from) refl

value-digits_from :
    (fuel n : ℕ) (s : Text) → n < fuel → value 0 (digits_from fuel 10 n s) ≡ value n s
value-digits_from zero n s h = absurd (omega arith)
value-digits_from (suc fuel) n s h = elim (Bool-cases (n / 10 == 0)) [
  | inl last ↦
      let same : 0 * 10 + (digit n - b'0') ≡ n = ground arith in
      rw (digits_from_last fuel n s last) (ap (λ (m : ℕ). value m s) same)
  | inr more ↦
      let same : n / 10 * 10 + (digit (n % 10) - b'0') ≡ n = ground arith in
      let less : n / 10 < fuel = ground arith in
      rw (digits_from_more fuel n s more)
        (value-digits_from fuel (n / 10) (digit (n % 10) ∷ s) less ∙ ap (λ (m : ℕ). value m s) same)
]

-- The digits of a number stand for it.
pub value-number_text : (n : ℕ) → value 0 (number_text 10 n) ≡ n
unfolding number_text
value-number_text n = value-digits_from (suc n) n [] (omega arith)

-- Numbers with the same digits are the same.
pub number_text_inj : (m n : ℕ) → number_text 10 m ≡ number_text 10 n → m ≡ n
unfolding number_text
number_text_inj m n h =
    sym (value-number_text m) ∙ ap (λ (s : Text). value 0 s) h ∙ value-number_text n

-- Digits, and at least one.
abbrev pub IsNumber : Text → Type 0
IsNumber [] = ⊥
IsNumber (d ∷ ds) = all_units is_digit (d ∷ ds) ≡ true

digits_from-IsNumber :
    (fuel n : ℕ) (s : Text) → all_units is_digit s ≡ true → IsNumber (digits_from (suc fuel) 10 n s)
unfolding digits_from
digits_from-IsNumber zero n s h = elim (Bool-cases (n / 10 == 0)) [
  | inl last ↦
      let low : is_digit (digit n) ≡ true = ground arith in rw (digits_from_last 0 n s last, low) h
  | inr more ↦
      let low : is_digit (digit (n % 10)) ≡ true = ground arith in
      rw (digits_from_more 0 n s more, digits_from, low) h
]
digits_from-IsNumber (suc fuel) n s h = elim (Bool-cases (n / 10 == 0)) [
  | inl last ↦
      let low : is_digit (digit n) ≡ true = ground arith in
      rw (digits_from_last (suc fuel) n s last, low) h
  | inr more ↦
      let low : is_digit (digit (n % 10)) ≡ true = ground arith in
      rw (digits_from_more (suc fuel) n s more)
        (digits_from-IsNumber fuel (n / 10) (digit (n % 10) ∷ s) (rw low h))
]

pub number_text-IsNumber : (n : ℕ) → IsNumber (number_text 10 n)
unfolding number_text
number_text-IsNumber n = digits_from-IsNumber n n [] refl
