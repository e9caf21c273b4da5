-- ===== src/Api/App.antt =====
-- src/alert2ir/api/app.py: the routes of alerts and of processings. `attached` stands for the
-- attributes processing_id and processing_state that the processor may set on an error.
pub mod Replay
use mathlib.Core.Option
use Prim.Native.String.{◌++◌}
use alert2ir.Prelude.{
  ℕ, String, Option, none, some, List, [], ◌∷◌, Bool, true, false, not, ◌==◌, string_equality,
  if◌then◌else◌,
}
use alert2ir.Python.Result.{
  Result, ok, err, Exc, idempotency_conflict, persistence_unavailable, unsupported_capabilities,
  ambiguous_backend,
}
use alert2ir.Python.DateTime.{DateTime}
use alert2ir.Python.Library.{Library}
use alert2ir.Core.Models.{CanonicalAlert, Entity}
use alert2ir.Core.Workflow.{Decision, Incident, InvestigationRequest}
use alert2ir.Backends.Base.{Uuid, InvestigationResult}
use alert2ir.Application.Orchestrator.{OrchestrationResult}
use alert2ir.Application.States.{ProcessingState}
use alert2ir.Application.Record.{ProcessingRecord}
use alert2ir.Repository.Acceptance.{is_valid_key}
use alert2ir.Processing.World.{World, Processor}
use alert2ir.Processing.Acceptance.{process, ProcessingOutcome}
use alert2ir.Api.Schemas.{CanonicalAlertRequest, to_domain}
use alert2ir.Api.Responses.{
  InvestigationRequestResponse, AlertProcessingResponse, ApiErrorResponse, Content, Answer,
  plain_error, error_response, decision_of, incident_of, investigation_request_of,
  investigation_result_of, request_response, processing_url, from_application, is_client_failure,
  client_failure, public_response, failed_response, public_processing_response, failure, shown,
}

-- _idempotency_key, of the values of the header: the key, or the answer of an error
pub data KeyResult : Type 0 where
  given : String → KeyResult
  refused : Answer → KeyResult

abbrev pub invalid_key : Answer
invalid_key =
    error_response 400
      (plain_error "invalid_idempotency_key"
        "Idempotency-Key must contain 1-128 visible ASCII characters")
      none false

unfoldable pub idempotency_key : List String → KeyResult
unfolding is_valid_key
idempotency_key [] = refused (
    error_response 400 (plain_error "idempotency_key_required" "Idempotency-Key header is required")
      none false)
idempotency_key (value ∷ []) = if is_valid_key value then given value else refused invalid_key
idempotency_key (value ∷ other ∷ values) = refused invalid_key

-- an error on the selection of a backend, with what the processor attached to it
abbrev pub selection_error :
    Library
    → String
    → String
    → List String
    → Option (List String)
    → Option (Uuid × ProcessingState)
    → ApiErrorResponse
selection_error l code message requested eligible attached = record {
  code = code;
  message = message;
  requested_capabilities = some requested;
  eligible_backends = eligible;
  processing_id = Option.map (λ (id, state). id) attached;
  state = Option.map (λ (id, state). state) attached;
  status_url = Option.map (λ (id, state). processing_url l id) attached;
}

-- the except clauses of `process_alert`; an exception that none of them takes goes on
unfoldable pub answer_error : Library → Exc → Option (Uuid × ProcessingState) → Result Answer
answer_error l (idempotency_conflict id) attached = ok (
    error_response 409
      (plain_error "idempotency_conflict" "idempotency key is already bound to another request")
      none false)
answer_error l (persistence_unavailable message) attached = ok (
    error_response 503
      (plain_error "persistence_failed" "durable processing is temporarily unavailable") none false)
answer_error l (unsupported_capabilities requested) attached = ok (
    error_response 409
      (selection_error l "unsupported_capability"
        "no configured backend supports the required capability" requested none attached)
      (Option.map (λ (id, state). processing_url l id) attached) false)
answer_error l (ambiguous_backend requested eligible) attached = ok (
    error_response 500
      (selection_error l "backend_selection_error" "backend selection was ambiguous" requested
        (some eligible) attached)
      (Option.map (λ (id, state). processing_url l id) attached) false)
answer_error l e attached = err e

-- the answer to what `process` gave
unfoldable pub answer_outcome :
    Library → Option (Uuid × ProcessingState) → Result ProcessingOutcome → Result Answer
unfolding answer_error public_processing_response
answer_outcome l attached (ok outcome) =
    ok (public_processing_response l outcome.outcome_record outcome.replayed)
answer_outcome l attached (err e) = answer_error l e attached

module _ (l : Library) (p : Processor) (attached : Option (Uuid × ProcessingState)) where
  -- with a key that is valid
  unfoldable pub process_keyed : Result CanonicalAlert → String → World → Result Answer × World
  unfolding answer_outcome process
  process_keyed (err e) key w = (err e, w)
  process_keyed (ok alert) key w =
      let (outcome, next) = process p alert key w in (answer_outcome l attached outcome, next)

  -- the rest of the route, of what `_idempotency_key` gave
  unfoldable pub process_with : KeyResult → CanonicalAlertRequest → World → Result Answer × World
  unfolding process_keyed to_domain
  process_with (refused answer) request w = (ok answer, w)
  process_with (given key) request w = process_keyed (to_domain request) key w

  unfoldable pub process_alert : CanonicalAlertRequest → List String → World → Result Answer × World
  unfolding idempotency_key process_with
  process_alert request keys w = process_with (idempotency_key keys) request w

-- get_processing, of what `processor.get` gave
unfoldable pub get_processing : Library → Result (Option ProcessingRecord) → Answer
unfolding from_application
get_processing l (err e) =
    error_response 503
      (plain_error "persistence_failed" "processing status is temporarily unavailable") none false
get_processing l (ok none) =
    error_response 404 (plain_error "processing_not_found" "processing was not found") none false
get_processing l (ok (some r)) = record {
  status = 200;
  content = shown (from_application l r);
  location = none;
  replayed = false;
}
