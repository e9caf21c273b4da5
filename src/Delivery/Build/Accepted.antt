-- ===== src/Delivery/Build/Accepted.antt =====
-- What the checks of the alert action pass, the checks of the gateway pass.
use Prim.Native.String.{◌++◌}
use alert2ir.Prelude.{
  if◌then◌else◌, ℕ, String, Option, none, some, Bool, true, false, not, ◌||◌, ltb, leb, ◌≡◌, refl,
  sym, ◌⊎◌, inl, inr, ◌==◌, string_equality, arith,
}
use alert2ir.Python.Result.{
  Result, ok, ◌>>=◌, raise_exc_if, raise_exc_if-false, bind-ok, check-ok, passed-ok,
}
use alert2ir.Python.Text.{codes, text_length, is_blank}
use alert2ir.Python.Pattern.{is_decimal, decimal_value}
use alert2ir.Python.Decimal.{decimal_text}
use alert2ir.Python.Decimal.RoundTrip.{decimal_value-text, is_decimal-text}
use alert2ir.Python.Library.{Library}
use alert2ir.Python.Json.{text}
use alert2ir.Splunk.Models.{
  bounded_string, optional_string, require_nonblank, check_range, parse_positive_integer,
}
use alert2ir.Delivery.Finding.{
  require_string, string_error, optional_result_value, decimal_integer, row_value,
}

-- a text that is not empty is one character long at least
nonempty-length : (s : String) → (s == "") ≡ false → leb 1 (text_length s) ≡ true
nonempty-length String.[] h = absurd (cc)
nonempty-length (String.◌∷◌ c s) h = ground arith

-- what `require_string` accepts is a bounded string of the gateway
pub require_string-bounded :
    (l : Library) (s : String) (name : String) (maximum : ℕ) (configuration : Bool) (kept : String)
    → require_string l (text s) name maximum configuration ≡ ok kept
    → (kept ≡ s) × (bounded_string maximum (text s) ≡ ok s)
unfolding require_string bounded_string require_nonblank
require_string-bounded l s name maximum configuration kept h =
    let bad = (s == "") || is_blank s || ltb maximum (text_length s) || not (l.is_printable s) in
    let error = string_error configuration (name ++ " is invalid") in
    let passed = raise_exc_if-false bad error (passed-ok (raise_exc_if bad error) (ok s) kept h) in
    let same = check-ok (raise_exc_if bad error) (ok s) kept h in
    let filled : (s == "") ≡ false = ground (arith, passed) in
    let visible : is_blank s ≡ false = ground (arith, passed) in
    let short : leb (text_length s) maximum ≡ true = ground (arith, passed) in
    (cc, rw (nonempty-length s filled, short, visible) refl)

choice-returned :
    (b : Bool) (r : Result (Option String)) (kept : Option String)
    → (if b then ok none else r) ≡ ok kept
    → (none ≡ kept) ⊎ (r ≡ ok kept)
choice-returned true r kept h = inl (cc)
choice-returned false r kept h = inr h

pub optional_result_value-string :
    (l : Library) (v : Option String) (name : String) (maximum : ℕ) (kept : Option String)
    → optional_result_value l v name maximum ≡ ok kept
    → optional_string maximum (row_value kept) ≡ ok kept
unfolding optional_result_value optional_string
optional_result_value-string l none name maximum kept h =
    let same : none ≡ kept = cc in rw (← same) refl
optional_result_value-string l (some s) name maximum kept h =
    let required = require_string l (text s) name maximum false in
    let block : Result (Option String) = required >>= λ t. ok (some t) in
    elim (choice-returned (s == "") block kept h) [
      | inl same ↦ rw (← same) refl
      | inr h1 ↦
          let (t, read, got) = bind-ok required (λ t. ok (some t)) kept h1 in
          let (same, bounded) = require_string-bounded l s name maximum false t read in
          let whole : some s ≡ kept = cc in rw (← whole) (rw bounded refl)
    ]

-- a decimal integer of the action, as the gateway reads it
pub decimal_integer-parsed :
    (l : Library) (v : Option String) (name field_name : String) (maximum : ℕ) (digits : String)
    → decimal_integer l v name maximum ≡ ok digits
    → (n : ℕ) × (digits ≡ decimal_text n)
      × (parse_positive_integer (text digits) field_name maximum ≡ ok n)
unfolding decimal_integer parse_positive_integer check_range
decimal_integer-parsed l v name field_name maximum digits h =
    let (s, read, h1) = bind-ok (require_string l (row_value v) name 32 false) _ digits h in
    let h2 = check-ok (raise_exc_if (not (is_decimal (codes s))) _) _ digits h1 in
    let n = decimal_value (codes s) in
    let passed =
      raise_exc_if-false (ltb n 1 || ltb maximum n) _
        (passed-ok _ (ok (decimal_text n)) digits h2) in
    let got =
      check-ok (raise_exc_if (ltb n 1 || ltb maximum n) _) (ok (decimal_text n)) digits h2 in
    let same : decimal_text n ≡ digits = cc in
    (n, sym same, rw (← same, is_decimal-text n, decimal_value-text n, passed) refl)
