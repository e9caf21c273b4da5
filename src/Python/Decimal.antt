-- ===== src/Python/Decimal.antt =====
-- str(value) of an int: its decimal digits.
pub mod RoundTrip
use Prim.Native.Nat.{◌/◌, ◌%◌}
use alert2ir.Prelude.{ℕ, zero, suc, String, true, false, ltb}

-- the digit of a number below ten, before a text
abbrev pub push_from : String → ℕ → String → String
push_from String.[] n rest = rest
push_from (String.◌∷◌ c digits) zero rest = String.◌∷◌ c rest
push_from (String.◌∷◌ c digits) (suc n) rest = push_from digits n rest

abbrev pub push : ℕ → String → String
push n rest = push_from "0123456789" n rest

-- the digits of a number before a text, at most one more than the fuel
unfoldable pub digits_before : ℕ → ℕ → String → String
digits_before zero n rest = push (n % 10) rest
digits_before (suc fuel) n rest = elim (ltb n 10) [
  | true ↦ push n rest
  | false ↦ digits_before fuel (n / 10) (push (n % 10) rest)
]

unfoldable pub decimal_text : ℕ → String
unfolding digits_before
decimal_text n = digits_before n n ""
