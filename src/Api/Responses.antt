-- ===== src/Api/Responses.antt =====
-- src/alert2ir/api/schemas.py and app.py: the bodies and the headers of the answers. A response model
-- with the fields of a value of the domain is this value.
pub mod Shown
use mathlib.Core.Option
use Prim.Native.String.{◌++◌}
use alert2ir.Prelude.{
  ℕ, String, Option, none, some, List, Bool, false, ◌==◌, string_equality, if◌then◌else◌,
}
use alert2ir.Python.DateTime.{DateTime}
use alert2ir.Python.Library.{Library}
use alert2ir.Core.Models.{Entity}
use alert2ir.Core.Workflow.{Decision, Incident, InvestigationRequest}
use alert2ir.Backends.Base.{Uuid, InvestigationResult}
use alert2ir.Application.States.{ProcessingState}
use alert2ir.Application.Record.{ProcessingRecord}

pub record InvestigationRequestResponse : Type 0 where
  pub desired_outcome : String
  pub required_capabilities : List String
  pub targets : List Entity

pub record AlertProcessingResponse : Type 0 where
  pub processing_id : Uuid
  pub state : ProcessingState
  pub status_url : String
  pub created_at : DateTime
  pub updated_at : DateTime
  pub completed_at : Option DateTime
  pub failed_at : Option DateTime
  pub decision : Option Decision
  pub incident : Option Incident
  pub investigation_request : Option InvestigationRequestResponse
  pub investigation_result : Option InvestigationResult
  pub error_category : Option String
  pub error_detail : Option String

pub record ApiErrorResponse : Type 0 where
  pub code : String
  pub message : String
  pub requested_capabilities : Option (List String)
  pub eligible_backends : Option (List String)
  pub processing_id : Option Uuid
  pub state : Option ProcessingState
  pub status_url : Option String

pub data Content : Type 0 where
  failure : ApiErrorResponse → Content
  shown : AlertProcessingResponse → Content

-- a JSONResponse, with the headers Location and Idempotency-Replayed
pub record Answer : Type 0 where
  pub status : ℕ
  pub content : Content
  pub location : Option String
  pub replayed : Bool

-- ApiErrorResponse(code=…, message=…)
abbrev pub plain_error : String → String → ApiErrorResponse
plain_error code message = record {
  code = code;
  message = message;
  requested_capabilities = none;
  eligible_backends = none;
  processing_id = none;
  state = none;
  status_url = none;
}

-- _error_response, with the header Location or without
abbrev pub error_response : ℕ → ApiErrorResponse → Option String → Bool → Answer
error_response status error location replayed = record {
  status = status;
  content = failure error;
  location = location;
  replayed = replayed;
}

-- the properties decision, incident, investigation_request and result of a record
abbrev pub decision_of : ProcessingRecord → Option Decision
decision_of r = elim (r.completed_result) [
  | some result ↦ some result.decision
  | none ↦ r.planned_decision
]

abbrev pub incident_of : ProcessingRecord → Option Incident
incident_of r = elim (r.completed_result) [
  | some result ↦ result.incident
  | none ↦ r.planned_incident
]

abbrev pub investigation_request_of : ProcessingRecord → Option InvestigationRequest
investigation_request_of r = elim (r.completed_result) [
  | some result ↦ result.investigation_request
  | none ↦ r.planned_request
]

abbrev pub investigation_result_of : ProcessingRecord → Option InvestigationResult
investigation_result_of r = elim (r.completed_result) [
  | some result ↦ result.investigation_result
  | none ↦ none
]

-- InvestigationRequestResponse.from_domain
abbrev pub request_response : InvestigationRequest → InvestigationRequestResponse
request_response q = record {
  desired_outcome = q.desired_outcome;
  required_capabilities = q.required_capabilities;
  targets = q.targets;
}

abbrev pub processing_url : Library → Uuid → String
processing_url l id = "/v1/processings/" ++ l.uuid_text id

-- AlertProcessingResponse.from_application
unfoldable pub from_application : Library → ProcessingRecord → AlertProcessingResponse
from_application l r = record {
  processing_id = r.processing_id;
  state = r.state;
  status_url = processing_url l r.processing_id;
  created_at = r.created_at;
  updated_at = r.updated_at;
  completed_at = r.completed_at;
  failed_at = r.failed_at;
  decision = decision_of r;
  incident = incident_of r;
  investigation_request = Option.map request_response (investigation_request_of r);
  investigation_result = investigation_result_of r;
  error_category = r.error_category;
  error_detail = r.error_detail;
}

-- _DURABLE_CLIENT_FAILURES has one key, of the status 409
abbrev pub is_client_failure : Option String → Bool
is_client_failure none = false
is_client_failure (some category) = category == "unsupported_capability"

-- the error of a durable client failure
abbrev pub client_failure : Library → ProcessingRecord → ApiErrorResponse
client_failure l r = record {
  code = "unsupported_capability";
  message = "no configured backend supports the required capability";
  requested_capabilities = none;
  eligible_backends = none;
  processing_id = some r.processing_id;
  state = some r.state;
  status_url = some (processing_url l r.processing_id);
}

-- JSONResponse(status_code=…, content=public, headers=headers)
abbrev pub public_response : Library → ℕ → ProcessingRecord → Bool → Answer
public_response l status r replayed = record {
  status = status;
  content = shown (from_application l r);
  location = some (processing_url l r.processing_id);
  replayed = replayed;
}

-- the branch of a failed record
unfoldable pub failed_response : Library → ProcessingRecord → Bool → Answer
unfolding from_application
failed_response l r replayed =
    if is_client_failure r.error_category
    then error_response 409 (client_failure l r) (some (processing_url l r.processing_id)) replayed
    else public_response l 500 r replayed

-- by the state of the record
unfoldable pub response_in : ProcessingState → Library → ProcessingRecord → Bool → Answer
unfolding failed_response
response_in ProcessingState.completed l r replayed = public_response l 200 r replayed
response_in ProcessingState.failed l r replayed = failed_response l r replayed
response_in ProcessingState.accepted l r replayed = public_response l 202 r replayed
response_in ProcessingState.planned l r replayed = public_response l 202 r replayed
response_in ProcessingState.submitting l r replayed = public_response l 202 r replayed
response_in ProcessingState.submitted l r replayed = public_response l 202 r replayed
response_in ProcessingState.recovery_required l r replayed = public_response l 202 r replayed

unfoldable pub public_processing_response : Library → ProcessingRecord → Bool → Answer
unfolding response_in
public_processing_response l r replayed = response_in r.state l r replayed
