-- ===== src/Tests/Api.antt =====
-- The results on the HTTP API, at concrete inputs.
use alert2ir.Repository.Acceptance.{new_record}
use alert2ir.Prelude.{string_equality, false}
use alert2ir.Python.Json.{lookup, end, member, object, text}
use alert2ir.Python.Library.{Library, Documented, IsUuid}
use alert2ir.Python.Pattern.{is_signature}
use alert2ir.Splunk.Client.{
  bounded_json_object, processing_id, bounded_visible, status_url, keep_member, state,
  decision_outcome, error_code, replayed, response_fields, Response, DeliveryResult,
  DeliveryClassification,
}
use alert2ir.Splunk.Client.Submit.{
  classify_response, classify_fields, delivery_result, validate_uuid,
}
use alert2ir.Api.Responses.{public_processing_response, response_in}
use alert2ir.Api.Relayed.{Relays, classification_in, classify_response-state}
use alert2ir.Tests.Gateway.{silent_library, repeated, length-repeated}
use alert2ir.Prelude.{none, some, [], ◌∷◌, ◌≡◌, refl}
use alert2ir.Python.Result.{ok}
use alert2ir.Python.Text.{is_blank}
use alert2ir.Api.App
use alert2ir.Api.Schemas.{
  CanonicalAlertRequest, to_domain, from_domain, detection_from_domain, source_from_domain,
  entity_from_domain, evidence_from_domain, each, check_texts,
}
use alert2ir.Api.Schemas.RoundTrip.{from_domain-to_domain}
use alert2ir.Tests.Data.{quiet_alert, loud_alert, accepted_record}

abbrev quiet_request : CanonicalAlertRequest
quiet_request = record {
  detection = record { identifier = "rule-1"; name = none };
  detected_at = quiet_alert.detected_at;
  source = record { source = "splunk"; source_alert_id = some "sid-1" };
  entities = (record { kind = "host"; value = "web-1" }) ∷ [];
  severity = quiet_alert.severity;
  evidence = [];
}

abbrev loud_request : CanonicalAlertRequest
loud_request = record quiet_request { severity = loud_alert.severity }

quiet_requested : from_domain quiet_alert ≡ ok quiet_request
unfolding from_domain detection_from_domain source_from_domain entity_from_domain
    evidence_from_domain each check_texts is_blank
quiet_requested = refl

from_domain-to_domain_example : to_domain quiet_request ≡ ok quiet_alert
from_domain-to_domain_example = from_domain-to_domain quiet_alert quiet_request quiet_requested

abbrev relaying_library : Library
relaying_library = record silent_library {
  response_json = λ bytes. some (object (member "processing_id" (text (repeated 7)) end));
}

relaying-Documented : Documented relaying_library
unfolding is_signature
relaying-Documented = record {
  hex_digest = λ key message. refl;
  parse_text = λ u known. rw (length-repeated u) refl;
  printable = λ s visible. refl;
}

abbrev relayed : Response
relayed = record { status_code = 202; content = []; locations = []; replays = [] }

abbrev relayed_result : DeliveryResult
relayed_result = record {
  classification = DeliveryClassification.accepted;
  upstream_status = some 202;
  processing_id = some 7;
  state = none;
  status_url = none;
  replayed = false;
  decision_outcome = none;
  error_code = none;
  retryable = false;
  acceptance_unknown = false;
}

accepted-Relays : Relays relaying_library accepted_record false relayed
unfolding public_processing_response response_in bounded_json_object new_record lookup
accepted-Relays = record { status = refl; id = refl }

relayed_classified : classify_response relaying_library relayed ≡ ok relayed_result
unfolding classify_response classify_fields response_fields bounded_json_object processing_id
    bounded_visible status_url keep_member state decision_outcome error_code replayed
    delivery_result validate_uuid lookup
relayed_classified = refl

accepted-IsUuid : IsUuid relaying_library accepted_record.processing_id
unfolding new_record
accepted-IsUuid = (repeated 7, rw (length-repeated 7) refl)

classify_response-state_example :
    relayed_result.classification
    ≡ classification_in accepted_record.state accepted_record.error_category
classify_response-state_example =
    classify_response-state relaying_library accepted_record false relayed relayed_result
      relaying-Documented accepted-IsUuid accepted-Relays relayed_classified
