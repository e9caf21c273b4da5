-- ===== src/Delivery/Signature/Accepted.antt =====
-- The gateway accepts what the alert action signs.
use text.Mathlib.TextLemmas.{cons-append, nil-append}
use alert2ir.Prelude.{ℕ, ◌≤◌, String, some, List, ◌≡◌, refl, false, not, arith, ltb, ◌||◌}
use alert2ir.Python.Result.{
  Result, ok, passed-ok, check-ok, raise_exc_if-false, raise_exc_if, action_configuration_error,
  ◌>>◌,
}
use alert2ir.Python.DateTime.{DateTime, is_naive}
use alert2ir.Python.Text.{codes, length}
use alert2ir.Python.Pattern.{is_timestamp, decimal_value}
use alert2ir.Python.Library.{Library, Documented}
use alert2ir.Splunk.Auth.{
  verify_signature, signature_digits, epoch_seconds, distance, signing_bytes,
}
use alert2ir.Splunk.Auth.Exact.{Authentic-verified}
use alert2ir.Delivery.Signature.{signature_header, validate_secret, header_of}

header-digits :
    (l : Library) (secret : List ℕ) (timestamp : String) (body : List ℕ)
    → Documented l
    → signature_digits (header_of l secret timestamp body)
      ≡ some (l.hmac_hex secret (signing_bytes timestamp body))
unfolding signature_digits
header-digits l secret timestamp body d =
    let hex = l.hmac_hex secret (signing_bytes timestamp body) in
    rw (cons-append, cons-append, cons-append, nil-append)
      (rw (d.hex_digest secret (signing_bytes timestamp body)) refl)

-- Where HMAC digests are hexadecimal, a header that the action computes for a body is accepted by
-- the gateway that holds the same secret, while the gateway's clock is aware and within the
-- allowed skew of the action's timestamp.
pub sent-verified :
    (l : Library) (secret : List ℕ) (timestamp header : String) (body : List ℕ) (now : DateTime)
    (skew : ℕ)
    → Documented l
    → signature_header l secret timestamp body ≡ ok header
    → is_naive now ≡ false
    → distance (epoch_seconds now) (decimal_value (codes timestamp)) ≤ skew
    → verify_signature l secret (some timestamp) (some header) body now skew ≡ ok tt
unfolding signature_header validate_secret
sent-verified l secret timestamp header body now skew d h awake near =
    let bad : Result (Unit {0}) =
      raise_exc_if (not (is_timestamp (codes timestamp)))
        (action_configuration_error "authentication timestamp is invalid") in
    let strong =
      passed-ok (validate_secret secret) (bad >> ok (header_of l secret timestamp body)) header h in
    let h1 =
      check-ok (validate_secret secret) (bad >> ok (header_of l secret timestamp body)) header h in
    let well = passed-ok bad (ok (header_of l secret timestamp body)) header h1 in
    let h2 = check-ok bad (ok (header_of l secret timestamp body)) header h1 in
    let same : header_of l secret timestamp body ≡ header = cc in
    let in_range =
      raise_exc_if-false (ltb (length secret) 32 || ltb 4_096 (length secret)) _ strong in
    let formed = raise_exc_if-false (not (is_timestamp (codes timestamp))) _ well in
    Authentic-verified l secret body now skew timestamp header awake (record {
      well_formed = ground (arith, formed);
      fresh = near;
      strong = ground (arith, in_range);
      signed = rw (← same) (header-digits l secret timestamp body d);
    })
