-- ===== src/Python/Decimal/RoundTrip.antt =====
-- The digits of a number read back as the number.
use Prim.Native.Nat.{◌/◌, ◌%◌}
use alert2ir.Prelude.{
  ℕ, zero, suc, ◌+◌, ◌*◌, ◌≤◌, ◌<◌, String, true, ltb, ◌≡◌, refl, ◌∙◌, arith, inl, inr, Bool-cases,
}
use alert2ir.Python.Text.{codes, all_of}
use alert2ir.Python.Pattern.{is_digit, is_decimal, decimal_from, decimal_value}
use alert2ir.Python.Decimal.{push, digits_before, decimal_text}

-- a text that starts with a digit, and goes on with digits if `rest` does
record Pushed (n : ℕ) (rest : String) : Type 0 where
  value :
      (acc : ℕ) → decimal_from acc (codes (push n rest)) ≡ decimal_from (acc * 10 + n) (codes rest)
  digits : all_of is_digit (codes (push n rest)) ≡ all_of is_digit (codes rest)
  decimal : is_decimal (codes (push n rest)) ≡ all_of is_digit (codes rest)

push-Pushed : (n : ℕ) (rest : String) → n < 10 → Pushed n rest
unfolding decimal_from is_decimal
push-Pushed zero rest below = record { value = λ acc. refl; digits = refl; decimal = refl }
push-Pushed (suc zero) rest below = record { value = λ acc. refl; digits = refl; decimal = refl }
push-Pushed (suc (suc zero)) rest below = record {
  value = λ acc. refl;
  digits = refl;
  decimal = refl;
}
push-Pushed (suc (suc (suc zero))) rest below = record {
  value = λ acc. refl;
  digits = refl;
  decimal = refl;
}
push-Pushed (suc (suc (suc (suc zero)))) rest below = record {
  value = λ acc. refl;
  digits = refl;
  decimal = refl;
}
push-Pushed (suc (suc (suc (suc (suc zero))))) rest below = record {
  value = λ acc. refl;
  digits = refl;
  decimal = refl;
}
push-Pushed (suc (suc (suc (suc (suc (suc zero)))))) rest below = record {
  value = λ acc. refl;
  digits = refl;
  decimal = refl;
}
push-Pushed (suc (suc (suc (suc (suc (suc (suc zero))))))) rest below = record {
  value = λ acc. refl;
  digits = refl;
  decimal = refl;
}
push-Pushed (suc (suc (suc (suc (suc (suc (suc (suc zero)))))))) rest below = record {
  value = λ acc. refl;
  digits = refl;
  decimal = refl;
}
push-Pushed (suc (suc (suc (suc (suc (suc (suc (suc (suc zero))))))))) rest below = record {
  value = λ acc. refl;
  digits = refl;
  decimal = refl;
}
push-Pushed (suc (suc (suc (suc (suc (suc (suc (suc (suc (suc n)))))))))) rest below =
    absurd (omega (arith, below))

digits_before-value :
    (fuel n : ℕ) (rest : String)
    → n ≤ fuel
    → decimal_value (codes (digits_before fuel n rest)) ≡ decimal_from n (codes rest)
unfolding digits_before decimal_value
digits_before-value zero n rest enough =
    let none_left : n ≡ 0 = omega (arith, enough) in
    rw none_left ((push-Pushed 0 rest (omega arith)).value 0)
digits_before-value (suc fuel) n rest enough = elim (Bool-cases (ltb n 10)) [
  | inl last ↦
      let start : 0 * 10 + n ≡ n = omega arith in
      let pushed = (push-Pushed n rest (ground (arith, last))).value 0 in
      rw (last, digits_before) (rw start at pushed)
  | inr more ↦
      let below : n / 10 ≤ fuel = ground (arith, more, enough) in
      let rest_value = digits_before-value fuel (n / 10) (push (n % 10) rest) below in
      let pushed = (push-Pushed (n % 10) rest (omega arith)).value (n / 10) in
      let whole : (n / 10) * 10 + n % 10 ≡ n = omega arith in
      rw (more, digits_before) (rest_value ∙ (rw whole at pushed))
]

digits_before-decimal :
    (fuel n : ℕ) (rest : String)
    → all_of is_digit (codes rest) ≡ true
    → is_decimal (codes (digits_before fuel n rest)) ≡ true
unfolding digits_before
digits_before-decimal zero n rest digits =
    (push-Pushed (n % 10) rest (omega arith)).decimal ∙ digits
digits_before-decimal (suc fuel) n rest digits = elim (Bool-cases (ltb n 10)) [
  | inl last ↦
      rw (last, digits_before) ((push-Pushed n rest (ground (arith, last))).decimal ∙ digits)
  | inr more ↦
      rw (more, digits_before)
        (digits_before-decimal fuel (n / 10) (push (n % 10) rest)
          ((push-Pushed (n % 10) rest (omega arith)).digits ∙ digits))
]

-- The decimal text of a number reads back as the number: the fuel is enough.
pub decimal_value-text : (n : ℕ) → decimal_value (codes (decimal_text n)) ≡ n
unfolding decimal_text decimal_from
decimal_value-text n = digits_before-value n n "" (omega arith)

pub is_decimal-text : (n : ℕ) → is_decimal (codes (decimal_text n)) ≡ true
unfolding decimal_text
is_decimal-text n = digits_before-decimal n n "" refl
