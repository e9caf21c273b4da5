-- ===== src/Delivery/Classification.antt =====
-- integrations/splunk/alert2ir_delivery/bin/alert2ir_delivery.py: the classification of the
-- gateway's responses.
pub mod Success
pub mod Replied
use mathlib.Core.Option
use alert2ir.Prelude.{
  ℕ, String, Option, none, some, List, [], ◌∷◌, Bool, true, false, not, ◌&&◌, ◌||◌, ltb, leb,
  nat_eq, ◌==◌, string_equality, if◌then◌else◌,
}
use alert2ir.Python.Result.{
  Result, ok, err, ◌>>=◌, ◌>>◌, raise_exc_if, Exc, action_input_error, connection_failure,
  request_timeout,
}
use alert2ir.Python.Text.{codes, length}
use alert2ir.Python.Pattern.{is_error_code}
use alert2ir.Python.Library.{Library}
use alert2ir.Python.Json.{Value, text, boolean, as_object, hashed_text, is_true}

-- HttpResponse; the program reads no header of it
pub record HttpResponse : Type 0 where
  pub status : ℕ
  pub body : List ℕ

pub record AdapterDisposition : Type 0 where
  pub category : String
  pub retryable : Bool
  pub success : Bool
  pub status : Option ℕ
  pub processing_id : Option String
  pub replayed : Bool
  pub error_code : Option String

unfoldable pub bounded_response_object : Library → HttpResponse → Option (String → Value)
bounded_response_object l response =
    if ltb 65_536 (length response.body)
    then none
    else elim (l.parse_json response.body) [ some value ↦ as_object value | none ↦ none ]

unfoldable pub bounded_processing_id : Library → Value → Option String
bounded_processing_id l (text value) = Option.map l.uuid_text (l.parse_uuid value)
bounded_processing_id l _ = none

unfoldable pub bounded_error_code : Value → Option String
bounded_error_code (text value) = if is_error_code (codes value) then some value else none
bounded_error_code _ = none

-- a disposition without the optional fields
abbrev pub bare_disposition : String → Bool → Bool → Option ℕ → Option String → AdapterDisposition
bare_disposition category retryable success status error_code = record {
  category = category;
  retryable = retryable;
  success = success;
  status = status;
  processing_id = none;
  replayed = false;
  error_code = error_code;
}

unfoldable pub fallback_disposition : ℕ → AdapterDisposition
fallback_disposition status =
    if nat_eq status 200 || nat_eq status 202
    then bare_disposition "success" false true (some status) none
    else if leb 300 status && leb status 499
    then bare_disposition "permanent_failure" false false (some status)
        (some "unexpected_adapter_response")
    else bare_disposition "transient_failure" true false (some status)
        (some "unexpected_adapter_response")

-- an entry of the dict `contracts`
pub record Contract : Type 0 where
  pub statuses : List ℕ
  pub retryable : Bool
  pub category : String
  pub success : Bool

abbrev pub contract : List ℕ → Bool → String → Bool → Contract
contract statuses retryable category success = record {
  statuses = statuses;
  retryable = retryable;
  category = category;
  success = success;
}

unfoldable pub contract_of : String → Option Contract
contract_of classification =
    if classification == "completed"
    then some (contract (200 ∷ []) false "success" true)
    else if classification == "accepted"
    then some (contract (202 ∷ []) false "success" true)
    else if classification == "permanent_failure"
    then some (contract (400 ∷ 409 ∷ 422 ∷ []) false "permanent_failure" false)
    else if classification == "durable_failure"
    then some (contract (500 ∷ []) false "durable_failure" false)
    else if classification == "transient_failure"
    then some (contract (502 ∷ 503 ∷ 504 ∷ []) true "transient_failure" false)
    else none

unfoldable pub contract_at : Option String → Option Contract
unfolding contract_of
contract_at (some classification) = contract_of classification
contract_at none = none

-- contracts.get(classification), which raises TypeError for a list or a dict
unfoldable pub find_contract : Value → Result (Option Contract)
unfolding contract_at
find_contract value = do key ← hashed_text value; ok (contract_at key)

-- status in statuses
abbrev pub is_status : List ℕ → ℕ → Bool
is_status [] status = false
is_status (s ∷ statuses) status = nat_eq s status || is_status statuses status

-- `value is expected`, of a Boolean
abbrev pub is_same_boolean : Value → Bool → Bool
is_same_boolean (boolean true) expected = expected
is_same_boolean (boolean false) expected = not expected
is_same_boolean _ expected = false

-- the end of `classify_adapter_response`, from the contract on
unfoldable pub apply_contract :
    Library → ℕ → (String → Value) → Option Contract → AdapterDisposition
unfolding fallback_disposition bounded_processing_id bounded_error_code
apply_contract l status body none = fallback_disposition status
apply_contract l status body (some c) =
    if not (is_status c.statuses status) || not (is_same_boolean (body "retryable") c.retryable)
    then fallback_disposition status
    else (record {
      category = c.category;
      retryable = c.retryable;
      success = c.success;
      status = some status;
      processing_id = bounded_processing_id l (body "processing_id");
      replayed = is_true (body "replayed");
      error_code = bounded_error_code (body "error_code");
    })

-- the part of `classify_adapter_response` after the test of the status
unfoldable pub classify_body : Library → ℕ → Option (String → Value) → Result AdapterDisposition
unfolding fallback_disposition find_contract apply_contract
classify_body l status none = ok (fallback_disposition status)
classify_body l status (some body) = do
  found ← find_contract (body "classification")
  ok (apply_contract l status body found)

unfoldable pub classify_adapter_response : Library → HttpResponse → Result AdapterDisposition
unfolding bounded_response_object classify_body
classify_adapter_response l response = do
  raise_exc_if (not (leb 100 response.status && leb response.status 599))
      (action_input_error "adapter HTTP status is invalid")
  classify_body l response.status (bounded_response_object l response)

abbrev pub exception_code : Exc → String
exception_code request_timeout = "adapter_timeout"
exception_code e = "adapter_connection_failed"

unfoldable pub transient_exception_disposition : Exc → AdapterDisposition
transient_exception_disposition e =
    bare_disposition "transient_failure" true false none (some (exception_code e))

-- except (ConnectionFailure, RequestTimeout)
abbrev pub is_transient : Exc → Bool
is_transient connection_failure = true
is_transient request_timeout = true
is_transient _ = false

-- the disposition of the call of `transport` in its try statement
unfoldable pub disposition_of : Library → Result HttpResponse → Result AdapterDisposition
unfolding classify_adapter_response transient_exception_disposition
disposition_of l (ok response) = classify_adapter_response l response
disposition_of l (err e) = if is_transient e then ok (transient_exception_disposition e) else err e
