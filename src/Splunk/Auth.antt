-- ===== src/Splunk/Auth.antt =====
-- src/alert2ir/adapters/splunk/auth.py: the HMAC authentication of a request. Bytes are a list of
-- numbers. The epoch of a clock is not before 1970, and the allowed skew is a natural number.
pub mod Exact
use Prim.Native.Char.{code}
use Prim.Native.Nat.{◌/◌}
use Prim.Native.String
use Prim.Native.String.{◌++◌}
use alert2ir.Prelude.{
  ℕ, ◌-◌, ◌+◌, String, Option, none, some, List, [], ◌∷◌, Bool, true, false, not, ◌&&◌, ltb, nat_eq,
  ◌==◌, string_equality, if◌then◌else◌,
}
use alert2ir.Python.Result.{
  Result, ok, err, ◌>>=◌, ◌>>◌, raise_if, raise_exc_if, authentication_error,
}
use alert2ir.Python.DateTime.{DateTime, is_naive, instant}
use alert2ir.Python.Text.{codes, length}
use alert2ir.Python.Pattern.{is_timestamp, is_signature, decimal_value}
use alert2ir.Python.Library.{Library}
use native.Mathlib.Omega.{arith}

abbrev pub join : List ℕ → List ℕ → List ℕ
join [] ys = ys
join (x ∷ xs) ys = x ∷ join xs ys

-- SIGNING_CONTEXT, whose last character is a line feed
abbrev pub signing_context : List ℕ
signing_context = join (codes "alert2ir-splunk-v1") (10 ∷ [])

-- DEFAULT_ALLOWED_SKEW_SECONDS
abbrev pub allowed_skew : ℕ
allowed_skew = 300

unfoldable pub validate_shared_secret : List ℕ → Result (Unit {0})
validate_shared_secret secret =
    raise_if (ltb (length secret) 32) "shared secret must be at least 32 bytes"

-- _parse_timestamp
unfoldable pub parse_timestamp : Option String → Result ℕ
parse_timestamp none = err authentication_error
parse_timestamp (some value) =
    if is_timestamp (codes value)
    then ok (decimal_value (codes value))
    else err authentication_error

-- SIGNING_CONTEXT + timestamp.encode("ascii") + b"\n" + raw_body
abbrev pub signing_bytes : String → List ℕ → List ℕ
signing_bytes timestamp body = join signing_context (join (codes timestamp) (10 ∷ body))

unfoldable pub signing_input : String → List ℕ → Result (List ℕ)
unfolding parse_timestamp
signing_input timestamp body = do
  value ← parse_timestamp (some timestamp)
  ok (signing_bytes timestamp body)

unfoldable pub compute_signature : Library → List ℕ → String → List ℕ → Result String
unfolding validate_shared_secret signing_input
compute_signature l secret timestamp body = do
  validate_shared_secret secret
  message ← signing_input timestamp body
  ok (l.hmac_hex secret message)

-- _SIGNATURE_PATTERN.fullmatch(value), its group
unfoldable pub signature_digits : String → Option String
signature_digits (String.◌∷◌ a (String.◌∷◌ b (String.◌∷◌ c digits))) =
    if nat_eq (code a) 0x76
      && nat_eq (code b) 0x31
      && nat_eq (code c) 0x3d
      && is_signature (codes digits)
    then some digits
    else none
signature_digits _ = none

-- abs(now_epoch - timestamp)
abbrev pub distance : ℕ → ℕ → ℕ
distance a b = (a - b) + (b - a)

-- int(now.timestamp()), of a time in microseconds
unfoldable pub epoch_seconds : DateTime → ℕ
epoch_seconds now = instant now / 1_000_000

-- the tests that follow the format of the signature
unfoldable pub check_digits :
    Library → List ℕ → String → List ℕ → ℕ → ℕ → ℕ → String → Result (Unit {0})
unfolding compute_signature
check_digits l secret timestamp_header body now_epoch timestamp skew digits = do
  raise_exc_if (ltb skew (distance now_epoch timestamp)) authentication_error
  expected ← compute_signature l secret timestamp_header body
  raise_exc_if (not (expected == digits)) authentication_error

unfoldable pub check_signature :
    Library → List ℕ → Option String → List ℕ → ℕ → ℕ → ℕ → Option String → Result (Unit {0})
unfolding check_digits signature_digits
check_signature l secret (some timestamp_header) body now_epoch timestamp skew (some signature) =
    elim (signature_digits signature) [
      | none ↦ err authentication_error
      | some digits ↦ check_digits l secret timestamp_header body now_epoch timestamp skew digits
    ]
check_signature l secret timestamp_header body now_epoch timestamp skew signature =
    err authentication_error

unfoldable pub verify_signature :
    Library → List ℕ → Option String → Option String → List ℕ → DateTime → ℕ → Result (Unit {0})
unfolding parse_timestamp check_signature epoch_seconds
verify_signature l secret timestamp_header signature_header body now skew = do
  raise_if (is_naive now) "authentication clock must be timezone-aware"
  timestamp ← parse_timestamp timestamp_header
  check_signature l secret timestamp_header body (epoch_seconds now) timestamp skew signature_header
