-- ===== src/Tests/Gateway.antt =====
-- The results on the Splunk gateway and on the alert action, at concrete inputs.
use Prim.Native.String.{◌++◌}
use text.Mathlib.TextLemmas.{cons-append, nil-append}
use alert2ir.Prelude.{
  ℕ, zero, suc, String, none, some, List, [], ◌∷◌, true, false, ltb, ◌≡◌, refl, ◌↔◌, if◌then◌else◌,
  ◌≤◌, arith,
}
use alert2ir.Python.Result.{Result, ok, err, connection_failure}
use alert2ir.Python.DateTime.{DateTime, aware, is_naive}
use alert2ir.Python.Text.{codes, length}
use alert2ir.Python.Json.{lookup, Value, object}
use alert2ir.Python.Library.{Library, Documented}
use alert2ir.Python.Pattern.{is_signature, is_timestamp, decimal_value, decimal_from}
use alert2ir.Core.Models.{CanonicalAlert}
use alert2ir.Splunk.Auth.{
  verify_signature, parse_timestamp, check_signature, check_digits, compute_signature,
  validate_shared_secret, signing_input, signature_digits, epoch_seconds, distance,
}
use alert2ir.Splunk.Auth.Exact.{Authentic, verify_exactly}
use alert2ir.Splunk.Client.{Response, DeliveryResult, DeliveryClassification}
use alert2ir.Splunk.Client.Submit.{Reply, responded, submit_alert}
use alert2ir.Splunk.Client.Valid.{Classified, submit_alert-Classified}
use alert2ir.Splunk.Client.{
  bounded_json_object, processing_id, bounded_visible, status_url, keep_member, state,
  decision_outcome, error_code, replayed, response_fields,
}
use alert2ir.Splunk.Client.Submit.{
  result_of_reply, classify_response, classify_fields, delivery_result, validate_uuid,
}
use alert2ir.Python.Pattern.{lower, strip, drop_spaces, drop_last_spaces, translate}
use alert2ir.Python.Text.{is_space}
use alert2ir.Splunk.Models.{CanonicalizedFinding}
use alert2ir.Splunk.App
use alert2ir.Splunk.App.Gate.{joined, bounded_body-joined, Submits, submit_finding-Submits}
use alert2ir.Delivery.Signature.{signature_header, validate_secret}
use alert2ir.Delivery.Signature.Accepted.{sent-verified}
use alert2ir.Delivery.Classification.{HttpResponse, disposition_of, classify_adapter_response}
use alert2ir.Delivery.Classification.Success.{IsDelivered, disposition_of-success}
use alert2ir.Delivery.Deliver.{Job, Environment, DeliveryOutcome, checked, deliver}
use alert2ir.Delivery.Deliver.Conduct.{Conduct, deliver-Conduct}
use alert2ir.Delivery.Deliver.Settled.{Settles, deliver-Settles}
use alert2ir.Delivery.Agreement.{Carries, disposition_for, classified_alike}
use alert2ir.Tests.Data.{quiet_alert}

-- a text of one letter, n times
abbrev pub repeated : ℕ → String
repeated zero = ""
repeated (suc n) = "a" ++ repeated n

pub length-repeated : (n : ℕ) → length (codes (repeated n)) ≡ n
length-repeated zero = refl
length-repeated (suc n) = rw (cons-append, nil-append) (rw (length-repeated n) refl)

abbrev pub digest : String
digest = "0123456789abcdef0123456789abcdef0123456789abcdef0123456789abcdef"

abbrev pub completed_result : DeliveryResult
completed_result = record {
  classification = DeliveryClassification.completed;
  upstream_status = some 200;
  processing_id = none;
  state = none;
  status_url = none;
  replayed = false;
  decision_outcome = none;
  error_code = none;
  retryable = false;
  acceptance_unknown = false;
}

-- a library that decodes every text as the JSON of the result above
abbrev pub silent_library : Library
silent_library = record {
  hmac_hex = λ key message. digest;
  parse_uuid = λ value. some (length (codes value));
  uuid_text = repeated;
  is_printable = λ value. true;
  quote = λ value. value;
  split_url = λ value. ok (record {
    scheme = "https";
    hostname = some "gateway";
    username = none;
    password = none;
    query = "";
    fragment = "";
    path = "/v1/splunk/findings";
  });
  is_absolute = λ value. true;
  parse_json = λ body. none;
  response_json = λ body. none;
}

abbrev pub library : Library
library = record silent_library {
  parse_json = λ body. some (object (App.result_json silent_library completed_result));
}

pub library-Documented : Documented library
unfolding is_signature
library-Documented = record {
  hex_digest = λ key message. refl;
  parse_text = λ u known. rw (length-repeated u) refl;
  printable = λ s visible. refl;
}

abbrev pub thirty_two : List ℕ
thirty_two =
    1 ∷ 2 ∷ 3 ∷ 4 ∷ 5 ∷ 6 ∷ 7 ∷ 8 ∷ 9 ∷ 10 ∷ 11 ∷ 12 ∷ 13 ∷ 14 ∷ 15 ∷ 16 ∷ 17 ∷ 18 ∷ 19 ∷ 20 ∷ 21
    ∷ 22 ∷ 23 ∷ 24 ∷ 25 ∷ 26 ∷ 27 ∷ 28 ∷ 29 ∷ 30 ∷ 31 ∷ 32 ∷ []

abbrev header : String
header = "v1=0123456789abcdef0123456789abcdef0123456789abcdef0123456789abcdef"

abbrev pub clock_time : DateTime
clock_time = aware 110_000_000

abbrev pub body : List ℕ
body = 123 ∷ 125 ∷ []

verify_exactly_example :
    (verify_signature library thirty_two (some "100") (some header) body clock_time 300 ≡ ok tt) ↔ (
      (is_naive clock_time ≡ false)
      × (t : String) × (s : String) × (some "100" ≡ some t)
      × (some header ≡ some s)
      × Authentic library thirty_two t s body clock_time 300)
verify_exactly_example =
    verify_exactly library thirty_two body clock_time 300 (some "100") (some header)

header_signed : signature_header library thirty_two "100" body ≡ ok header
unfolding signature_header validate_secret is_timestamp
header_signed = refl

clock_near : distance (epoch_seconds clock_time) (decimal_value (codes "100")) ≤ 300
unfolding epoch_seconds decimal_value decimal_from
clock_near = omega arith

sent-verified_example :
    verify_signature library thirty_two (some "100") (some header) body clock_time 300 ≡ ok tt
sent-verified_example =
    sent-verified library thirty_two "100" header body clock_time 300 library-Documented
      header_signed refl clock_near

bounded_body-joined_example : App.bounded_body ((1 ∷ 2 ∷ []) ∷ (3 ∷ []) ∷ []) ≡ (
    if ltb 65_536 (length (joined ((1 ∷ 2 ∷ []) ∷ (3 ∷ []) ∷ [])))
    then none
    else some (joined ((1 ∷ 2 ∷ []) ∷ (3 ∷ []) ∷ [])))
bounded_body-joined_example = bounded_body-joined ((1 ∷ 2 ∷ []) ∷ (3 ∷ []) ∷ [])

abbrev finding : CanonicalizedFinding
finding = record { alert = quiet_alert; idempotency_key = "key-1" }

abbrev read_finding : Value → Result CanonicalizedFinding
read_finding value = ok finding

abbrev submit : CanonicalAlert → String → Result DeliveryResult
submit alert key = ok completed_result

abbrev request : App.Request
request = record {
  chunks = body ∷ [];
  content_types = "application/json; charset=utf-8" ∷ [];
  timestamps = "100" ∷ [];
  signatures = header ∷ [];
}

finding_submitted :
    (App.submit_finding library read_finding submit thirty_two clock_time request).submitted
    ≡ some finding
unfolding App.submit_finding App.submit_body App.submit_verified App.submit_json App.submit_read
    App.submit_canonicalized App.bounded_body App.bounded_body_from App.single_header App.is_json
    App.before_semicolon lower strip drop_spaces drop_last_spaces translate is_space
    verify_signature parse_timestamp check_signature check_digits compute_signature
    validate_shared_secret signing_input signature_digits epoch_seconds is_timestamp is_signature
    decimal_value decimal_from
finding_submitted = refl

submit_finding-Submits_example : Submits library read_finding thirty_two clock_time request finding
submit_finding-Submits_example =
    submit_finding-Submits library read_finding submit thirty_two clock_time request finding
      finding_submitted

abbrev response : Response
response = record { status_code = 200; content = []; locations = []; replays = [] }

abbrev post : CanonicalAlert → String → Reply
post alert key = responded response

alert_submitted : submit_alert library post quiet_alert "key-1" ≡ ok completed_result
unfolding submit_alert result_of_reply classify_response classify_fields response_fields
    bounded_json_object processing_id bounded_visible status_url keep_member state decision_outcome
    error_code replayed delivery_result validate_uuid lookup
alert_submitted = refl

submit_alert-Classified_example : Classified library completed_result
submit_alert-Classified_example =
    submit_alert-Classified library post quiet_alert "key-1" completed_result alert_submitted

abbrev pub adapter_response : HttpResponse
adapter_response = record { status = 200; body = body }

response-Carries : Carries library completed_result adapter_response
unfolding App.adapter_status App.status_of App.result_json lookup
response-Carries = record { status = refl; bounded = omega arith; content = refl }

classified_alike_example :
    classify_adapter_response library adapter_response
    ≡ ok (disposition_for library completed_result)
classified_alike_example =
    classified_alike library post quiet_alert "key-1" completed_result adapter_response
      library-Documented alert_submitted response-Carries

response_read :
    disposition_of library (ok adapter_response) ≡ ok (disposition_for library completed_result)
unfolding disposition_of
response_read = classified_alike_example

disposition_of-success_example : IsDelivered (some (App.adapter_status completed_result))
disposition_of-success_example =
    disposition_of-success library (ok adapter_response) (disposition_for library completed_result)
      response_read refl

abbrev pub job : Job
job = record { url = "https://gateway/v1/splunk/findings"; body = body; secret = thirty_two }

-- the first attempt finds no connection, and the second one is answered
abbrev pub environment : Environment
environment = record {
  transport = λ n p. if ltb n 2 then err connection_failure else ok adapter_response;
  clock = λ n. some 100;
}

deliver-Conduct_example : Conduct library job 0 3_000 (deliver library job environment)
deliver-Conduct_example = deliver-Conduct library job environment

abbrev second_outcome : DeliveryOutcome
second_outcome = record {
  success = true;
  attempts = 2;
  category = "success";
  status = some 200;
  processing_id = none;
  replayed = false;
  error_code = none;
}

pub checks_passed : checked job ≡ ok tt
unfolding checked validate_secret
checks_passed = refl

deliver-Settles_example :
    ((deliver library job environment).answer ≡ ok second_outcome)
    ↔ Settles library job environment 1 second_outcome
deliver-Settles_example = deliver-Settles library job environment checks_passed second_outcome
