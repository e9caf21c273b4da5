-- ===== src/Splunk/App.antt =====
-- src/alert2ir/adapters/splunk/app.py: `submit_finding`, the route of the gateway. A request is the
-- chunks of its body and the values of the headers that the route reads. The validation of a finding
-- and its canonical form are the parameter `read_finding`, which Splunk/Mapping fills.
pub mod Gate
use mathlib.Core.Option
use Prim.Native.Char.{code}
use alert2ir.Prelude.{
  true, ℕ, ◌+◌, String, Option, none, some, List, [], ◌∷◌, Bool, false, not, ◌||◌, ltb, nat_eq,
  ◌==◌, string_equality, if◌then◌else◌,
}
use alert2ir.Python.Result.{
  Result, ok, err, Exc, value_error, validation_error, type_error, authentication_error,
}
use alert2ir.Python.DateTime.{DateTime}
use alert2ir.Python.Text.{length}
use alert2ir.Python.Pattern.{lower, strip}
use alert2ir.Python.Library.{Library}
use alert2ir.Python.Json.{Value, null, text, integer, boolean, Members, present}
use alert2ir.Core.Models.{CanonicalAlert}
use alert2ir.Splunk.Models.{CanonicalizedFinding}
use alert2ir.Splunk.Auth.{verify_signature, allowed_skew, join}
use alert2ir.Splunk.Client.{
  DeliveryClassification, completed, accepted, permanent_failure, durable_failure,
  transient_failure, DeliveryResult,
}

pub record Request : Type 0 where
  pub chunks : List (List ℕ)
  -- getlist of content-type, x-alert2ir-timestamp and x-alert2ir-signature
  pub content_types : List String
  pub timestamps : List String
  pub signatures : List String

-- the body after `body`, or none where it grows too large
unfoldable pub bounded_body_from : List ℕ → List (List ℕ) → Option (List ℕ)
bounded_body_from body [] = some body
bounded_body_from body (chunk ∷ chunks) =
    let rest = bounded_body_from (join body chunk) chunks in
    if ltb 65_536 (length body + length chunk) then none else rest

unfoldable pub bounded_body : List (List ℕ) → Option (List ℕ)
unfolding bounded_body_from
bounded_body chunks = bounded_body_from [] chunks

unfoldable pub single_header : List String → Option String
single_header (value ∷ []) = some value
single_header _ = none

-- value.partition(";")[0]
unfoldable pub before_semicolon : String → String
before_semicolon String.[] = ""
before_semicolon (String.◌∷◌ c s) =
    let rest = before_semicolon s in if nat_eq (code c) 0x3b then "" else String.◌∷◌ c rest

unfoldable pub is_json : List String → Bool
unfolding before_semicolon
is_json (value ∷ []) = lower (strip (before_semicolon value)) == "application/json"
is_json _ = false

-- the status of a permanent failure
abbrev pub rejection_status : Option ℕ → ℕ
rejection_status (some status) =
    if nat_eq status 400 || nat_eq status 409 || nat_eq status 422 then status else 502
rejection_status none = 502

abbrev pub is_text : String → Option String → Bool
is_text value none = false
is_text value (some other) = other == value

abbrev pub is_number : ℕ → Option ℕ → Bool
is_number value none = false
is_number value (some other) = nat_eq other value

-- the status of a transient failure
abbrev pub transient_status : Option String → Option ℕ → ℕ
transient_status error_code upstream =
    if is_text "upstream_timeout" error_code
    then 504
    else if is_number 503 upstream
    then 503
    else 502

unfoldable pub status_of : DeliveryClassification → Option String → Option ℕ → ℕ
status_of completed error_code upstream = 200
status_of accepted error_code upstream = 202
status_of permanent_failure error_code upstream = rejection_status upstream
status_of durable_failure error_code upstream = 500
status_of transient_failure error_code upstream = transient_status error_code upstream

unfoldable pub adapter_status : DeliveryResult → ℕ
unfolding status_of
adapter_status result = status_of result.classification result.error_code result.upstream_status

abbrev pub classification_text : DeliveryClassification → String
classification_text completed = "completed"
classification_text accepted = "accepted"
classification_text permanent_failure = "permanent_failure"
classification_text durable_failure = "durable_failure"
classification_text transient_failure = "transient_failure"

-- a field, None where it has no value
abbrev pub optional_text : Option String → Value
optional_text none = null
optional_text (some value) = text value

abbrev pub optional_integer : Option ℕ → Value
optional_integer none = null
optional_integer (some n) = integer n

-- the fields of a DeliveryResult
abbrev pub result_fields : Library → DeliveryResult → List (String × Value)
result_fields l result =
    ("classification", text (classification_text result.classification))
    ∷ ("upstream_status", optional_integer result.upstream_status)
    ∷ ("processing_id", optional_text (Option.map l.uuid_text result.processing_id))
    ∷ ("state", optional_text result.state)
    ∷ ("status_url", optional_text result.status_url)
    ∷ ("replayed", boolean result.replayed)
    ∷ ("decision_outcome", optional_text result.decision_outcome)
    ∷ ("error_code", optional_text result.error_code)
    ∷ ("retryable", boolean result.retryable)
    ∷ ("acceptance_unknown", boolean result.acceptance_unknown)
    ∷ []

-- result.model_dump(mode="json", exclude_none=True)
unfoldable pub result_json : Library → DeliveryResult → Members
unfolding present
result_json l result = present (result_fields l result)

-- a JSONResponse
pub data Answer : Type 0 where
  -- _error
  refused : ℕ → String → Answer
  answered : ℕ → DeliveryResult → Answer

-- what the route does: the finding that it submits, if it submits one, and its response or the
-- exception that it leaves to the framework
pub record Served : Type 0 where
  pub submitted : Option CanonicalizedFinding
  pub answer : Result Answer

abbrev pub refuse : ℕ → String → Served
refuse status error = record { submitted = none; answer = ok (refused status error) }

abbrev pub raise : Exc → Served
raise e = record { submitted = none; answer = err e }

-- except (ValidationError, ValueError, TypeError)
abbrev pub is_invalid : Exc → Bool
is_invalid validation_error = true
is_invalid (value_error message) = true
is_invalid type_error = true
is_invalid _ = false

-- except AuthenticationError
abbrev pub is_unauthenticated : Exc → Bool
is_unauthenticated authentication_error = true
is_unauthenticated _ = false

module _ (l : Library) (read_finding : Value → Result CanonicalizedFinding)
    (submit : CanonicalAlert → String → Result DeliveryResult) where
  -- the response to a finding that is submitted
  unfoldable pub submit_canonicalized : CanonicalizedFinding → Served
  unfolding adapter_status
  submit_canonicalized finding = record {
    submitted = some finding;
    answer = elim (submit finding.alert finding.idempotency_key) [
      | ok result ↦ ok (answered (adapter_status result) result)
      | err e ↦ err e
    ];
  }

  unfoldable pub submit_read : Result CanonicalizedFinding → Served
  unfolding submit_canonicalized
  submit_read (ok finding) = submit_canonicalized finding
  submit_read (err e) = if is_invalid e then refuse 422 "invalid_splunk_finding" else raise e

  unfoldable pub submit_json : Option Value → Served
  unfolding submit_read
  submit_json none = refuse 400 "invalid_json"
  submit_json (some decoded) = submit_read (read_finding decoded)

  -- the rest of the route, of the outcome of `verify_signature`
  unfoldable pub submit_verified : Request → List ℕ → Result (Unit {0}) → Served
  unfolding is_json submit_json
  submit_verified request body (err e) =
      if is_unauthenticated e then refuse 401 "authentication_failed" else raise e
  submit_verified request body (ok passed) =
      if not (is_json request.content_types)
      then refuse 415 "unsupported_media_type"
      else submit_json (l.parse_json body)

  unfoldable pub submit_body : List ℕ → DateTime → Request → Option (List ℕ) → Served
  unfolding single_header submit_verified
  submit_body secret now request none = refuse 413 "request_too_large"
  submit_body secret now request (some body) = submit_verified request body (
      verify_signature l secret (single_header request.timestamps)
        (single_header request.signatures) body now allowed_skew)

  unfoldable pub submit_finding : List ℕ → DateTime → Request → Served
  unfolding bounded_body submit_body
  submit_finding secret now request = submit_body secret now request (bounded_body request.chunks)
