-- ===== src/Splunk/Client/Submit.antt =====
-- src/alert2ir/adapters/splunk/client.py: the classification of a response, and `submit_alert`. The
-- HTTP client is a function from the payload and the key to its reply.
use alert2ir.Prelude.{
  ℕ, String, Option, none, some, List, Bool, true, false, not, ◌&&◌, ◌||◌, leb, nat_eq,
  if◌then◌else◌,
}
use alert2ir.Python.Result.{Result, ok, err, ◌>>=◌, ◌>>◌, raise_if, raise_exc_if, validation_error}
use alert2ir.Python.Optional.{is_some}
use alert2ir.Python.Text.{codes, text_length, all_of, is_visible}
use alert2ir.Python.Pattern.{is_error_code}
use alert2ir.Python.Library.{Library}
use alert2ir.Core.Models.{CanonicalAlert}
use alert2ir.Splunk.Client.{
  DeliveryClassification, completed, accepted, permanent_failure, durable_failure,
  transient_failure, Response, DeliveryResult, Fields, response_fields, is_one_of,
  processing_states, decision_outcomes,
}

-- the constraints of the fields of Alert2IRDeliveryResult: ge=100 and le=599, the Literal of the
-- state, max_length of the URL, the Literal of the outcome, and the pattern of the error code
abbrev pub allows_status : Option ℕ → Bool
allows_status none = true
allows_status (some status) = leb 100 status && leb status 599

abbrev pub allows_member : List String → Option String → Bool
allows_member values none = true
allows_member values (some value) = is_one_of values value

abbrev pub allows_url : Option String → Bool
allows_url none = true
allows_url (some url) = leb (text_length url) 2_048

abbrev pub allows_code : Option String → Bool
allows_code none = true
allows_code (some value) = leb (text_length value) 64 && is_error_code (codes value)

-- the validation of a UUID that is given as a text
unfoldable pub validate_uuid : Library → Option String → Result (Option ℕ)
validate_uuid l none = ok none
validate_uuid l (some value) = elim (l.parse_uuid value) [
  | some u ↦ ok (some u)
  | none ↦ err validation_error
]

abbrev pub allows : Fields → Bool
allows fields =
    allows_status (some fields.upstream_status)
    && allows_member processing_states fields.state
    && allows_url fields.status_url
    && allows_member decision_outcomes fields.decision_outcome
    && allows_code fields.error_code

abbrev pub make_result : DeliveryClassification → Bool → Bool → Fields → Option ℕ → DeliveryResult
make_result classification retryable acceptance_unknown fields id = record {
  classification = classification;
  upstream_status = some fields.upstream_status;
  processing_id = id;
  state = fields.state;
  status_url = fields.status_url;
  replayed = fields.replayed;
  decision_outcome = fields.decision_outcome;
  error_code = fields.error_code;
  retryable = retryable;
  acceptance_unknown = acceptance_unknown;
}

-- Alert2IRDeliveryResult(classification=…, retryable=…, acceptance_unknown=…, **fields)
unfoldable pub delivery_result :
    Library → DeliveryClassification → Bool → Bool → Fields → Result DeliveryResult
unfolding validate_uuid
delivery_result l classification retryable acceptance_unknown fields = do
  raise_exc_if (not (allows fields)) validation_error
  id ← validate_uuid l fields.processing_id
  ok (make_result classification retryable acceptance_unknown fields id)

-- fields["error_code"] = code
abbrev pub with_code : Fields → String → Fields
with_code fields code = record fields { error_code = some code }

-- the branch of status 500
unfoldable pub classify_internal_failure : Library → Fields → Result DeliveryResult
unfolding delivery_result
classify_internal_failure l fields =
    if is_some fields.processing_id || is_some fields.status_url
    then delivery_result l durable_failure false false fields
    else delivery_result l transient_failure true true
        (with_code fields "upstream_internal_failure")

-- the branch of status 503
unfoldable pub classify_unavailable : Library → Fields → Result DeliveryResult
unfolding delivery_result
classify_unavailable l fields =
    delivery_result l transient_failure true false
      (if is_some fields.error_code then fields else with_code fields "upstream_unavailable")

unfoldable pub classify_fields : Library → Fields → Result DeliveryResult
unfolding classify_internal_failure classify_unavailable delivery_result
classify_fields l fields =
    let status = fields.upstream_status in
    if nat_eq status 200
    then delivery_result l completed false false fields
    else if nat_eq status 202
    then delivery_result l accepted false false fields
    else if nat_eq status 400 || nat_eq status 409 || nat_eq status 422
    then delivery_result l permanent_failure false false fields
    else if nat_eq status 500
    then classify_internal_failure l fields
    else if nat_eq status 503
    then classify_unavailable l fields
    else delivery_result l transient_failure true true
        (with_code fields "unexpected_upstream_status")

unfoldable pub classify_response : Library → Response → Result DeliveryResult
unfolding response_fields classify_fields
classify_response l response = do fields ← response_fields l response; classify_fields l fields

-- what `post` gives: a response, TimeoutException, ConnectError, or another RequestError
pub data Reply : Type 0 where
  responded : Response → Reply
  timed_out unconnected transport_failed : Reply

-- a result of an exception of `post`
abbrev pub failed_post : String → Bool → DeliveryResult
failed_post code acceptance_unknown = record {
  classification = transient_failure;
  upstream_status = none;
  processing_id = none;
  state = none;
  status_url = none;
  replayed = false;
  decision_outcome = none;
  error_code = some code;
  retryable = true;
  acceptance_unknown = acceptance_unknown;
}

unfoldable pub result_of_reply : Library → Reply → Result DeliveryResult
unfolding classify_response
result_of_reply l (responded response) = classify_response l response
result_of_reply l timed_out = ok (failed_post "upstream_timeout" true)
result_of_reply l unconnected = ok (failed_post "upstream_connection_failed" false)
result_of_reply l transport_failed = ok (failed_post "upstream_transport_failure" true)

unfoldable pub submit_alert :
    Library → (CanonicalAlert → String → Reply) → CanonicalAlert → String → Result DeliveryResult
unfolding result_of_reply
submit_alert l post alert idempotency_key = do
  raise_if
      (not (
        leb 1 (text_length idempotency_key)
        && leb (text_length idempotency_key) 128
        && all_of is_visible (codes idempotency_key)))
      "idempotency key must be 1-128 visible ASCII characters"
  result_of_reply l (post alert idempotency_key)
