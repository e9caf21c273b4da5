-- ===== src/Api/Responses/Shown.antt =====
-- What an answer about a record shows of it.
use Prim.Native.String.{◌++◌}
use alert2ir.Prelude.{
  ℕ, ◌≢◌, ==_iff, string_equality, String, Option, none, some, true, false, ◌≡◌, ap, refl,
  Bool-cases, inl, inr,
}
use alert2ir.Python.Library.{Library}
use alert2ir.Application.Orchestrator.{OrchestrationResult}
use alert2ir.Application.States.{ProcessingState}
use alert2ir.Application.Record.{ProcessingRecord}
use alert2ir.Api.Responses.{
  Answer, Content, AlertProcessingResponse, ApiErrorResponse, shown, failure, public_response,
  failed_response, response_in, from_application, is_client_failure,
}

-- what the body of an answer shows of a record
pub record PublicFields (l : Library) (r : ProcessingRecord) (c : AlertProcessingResponse)
    : Type 0 where
  pub id : c.processing_id ≡ r.processing_id
  pub state : c.state ≡ r.state
  pub url : c.status_url ≡ "/v1/processings/" ++ l.uuid_text r.processing_id
  pub created : c.created_at ≡ r.created_at
  pub updated : c.updated_at ≡ r.updated_at
  pub completed : c.completed_at ≡ r.completed_at
  pub failed : c.failed_at ≡ r.failed_at
  pub result :
      (result : OrchestrationResult)
      → r.completed_result ≡ some result
      → (c.decision ≡ some result.decision)
        × (c.incident ≡ result.incident)
        × (c.investigation_result ≡ result.investigation_result)
  pub planned :
      r.completed_result ≡ none
      → (c.decision ≡ r.planned_decision)
        × (c.incident ≡ r.planned_incident)
        × (c.investigation_result ≡ none)
  pub category : c.error_category ≡ r.error_category
  pub detail : c.error_detail ≡ r.error_detail

pub record FailureFields (l : Library) (r : ProcessingRecord) (e : ApiErrorResponse) : Type 0 where
  pub failed : r.state ≡ ProcessingState.failed
  pub category : r.error_category ≡ some "unsupported_capability"
  pub code : e.code ≡ "unsupported_capability"
  pub id : e.processing_id ≡ some r.processing_id
  pub state : e.state ≡ some r.state
  pub url : e.status_url ≡ some ("/v1/processings/" ++ l.uuid_text r.processing_id)

abbrev pub Shows : Library → ProcessingRecord → Content → Type 0
Shows l r (shown c) = PublicFields l r c
Shows l r (failure e) = FailureFields l r e

-- the status of an answer about a record
pub data StatusOf (r : ProcessingRecord) : ℕ → Type 0 where
  completed : r.state ≡ ProcessingState.completed → StatusOf r 200
  unsupported :
      r.state ≡ ProcessingState.failed
      → r.error_category ≡ some "unsupported_capability"
      → StatusOf r 409
  failed :
      r.state ≡ ProcessingState.failed
      → r.error_category ≢ some "unsupported_capability"
      → StatusOf r 500
  pending : r.state ≢ ProcessingState.completed → r.state ≢ ProcessingState.failed → StatusOf r 202

-- an answer that shows the record, marked as replayed
pub record Replay (l : Library) (r : ProcessingRecord) (a : Answer) : Type 0 where
  pub header : a.replayed ≡ true
  pub location : a.location ≡ some ("/v1/processings/" ++ l.uuid_text r.processing_id)
  pub status : StatusOf r a.status
  pub content : Shows l r a.content

-- the answer to a request that is not the one of the key
pub record Conflict (a : Answer) : Type 0 where
  pub status : a.status ≡ 409
  pub error : ApiErrorResponse
  pub content : a.content ≡ failure error
  pub code : error.code ≡ "idempotency_conflict"
  pub no_location : a.location ≡ none
  pub no_replay : a.replayed ≡ false

public_response-PublicFields :
    (l : Library) (r : ProcessingRecord) → PublicFields l r (from_application l r)
unfolding from_application
public_response-PublicFields l r = record {
  id = refl;
  state = refl;
  url = refl;
  created = refl;
  updated = refl;
  completed = refl;
  failed = refl;
  result = λ result e. rw e (refl, refl, refl);
  planned = λ e. rw e (refl, refl, refl);
  category = refl;
  detail = refl;
}

public_response-Replay :
    (l : Library) (r : ProcessingRecord) (status : ℕ)
    → StatusOf r status
    → Replay l r (public_response l status r true)
public_response-Replay l r status h = record {
  header = refl;
  location = refl;
  status = h;
  content = public_response-PublicFields l r;
}

is_client_failure-category :
    (category : Option String)
    → is_client_failure category ≡ true
    → category ≡ some "unsupported_capability"
is_client_failure-category none h = absurd (cc)
is_client_failure-category (some name) h = ap some ((==_iff name "unsupported_capability").0 h)

not_client_failure :
    (category : Option String)
    → is_client_failure category ≡ false
    → category ≢ some "unsupported_capability"
not_client_failure category h e = let wrong : true ≡ false = rw e at h in cc

failed_response-Replay :
    (l : Library) (r : ProcessingRecord)
    → r.state ≡ ProcessingState.failed
    → Replay l r (failed_response l r true)
unfolding failed_response
failed_response-Replay l r e = elim (Bool-cases (is_client_failure r.error_category)) [
  | inl client ↦
      let category = is_client_failure-category r.error_category client in
      rw client (record {
        header = refl;
        location = refl;
        status = unsupported e category;
        content = record {
          failed = e;
          category = category;
          code = refl;
          id = refl;
          state = refl;
          url = refl;
        };
      })
  | inr other ↦
      rw other
        (public_response-Replay l r 500 (failed e (not_client_failure r.error_category other)))
]

pub response_in-Replay :
    (l : Library) (r : ProcessingRecord) (state : ProcessingState)
    → r.state ≡ state
    → Replay l r (response_in state l r true)
unfolding response_in
response_in-Replay l r ProcessingState.completed e = public_response-Replay l r 200 (completed e)
response_in-Replay l r ProcessingState.failed e = failed_response-Replay l r e
response_in-Replay l r ProcessingState.accepted e =
    public_response-Replay l r 202 (pending (λ h. cc) (λ h. cc))
response_in-Replay l r ProcessingState.planned e =
    public_response-Replay l r 202 (pending (λ h. cc) (λ h. cc))
response_in-Replay l r ProcessingState.submitting e =
    public_response-Replay l r 202 (pending (λ h. cc) (λ h. cc))
response_in-Replay l r ProcessingState.submitted e =
    public_response-Replay l r 202 (pending (λ h. cc) (λ h. cc))
response_in-Replay l r ProcessingState.recovery_required e =
    public_response-Replay l r 202 (pending (λ h. cc) (λ h. cc))
