-- ===== src/Backends/Mock.antt =====
-- src/alert2ir/backends/mock.py: the deterministic backend. The text of a UUID is a parameter.
use Prim.Native.String.{◌++◌}
use alert2ir.Prelude.{◌≡◌, refl, false, ℕ, Option, if◌then◌else◌, String, some, List, [], ◌∷◌}
use alert2ir.Python.Result.{
  bind-ok, check-ok, Result, ok, err, ◌>>=◌, ◌>>◌, unsupported_capabilities,
}
use alert2ir.Backends.Router.Selection.{select_unique}
use alert2ir.Python.Text.{is_blank}
use alert2ir.Core.Models.{EvidenceReference, evidence_post_init, require_non_empty}
use alert2ir.Core.Workflow.{InvestigationRequest, require_all_non_empty}
use alert2ir.Backends.Base.{
  status_post_init, Uuid, InvestigationBackend, InvestigationResult, SubmittedOperation,
  OperationStatus, succeeded, instance_of, submitted_post_init, investigation_result_post_init,
}
use alert2ir.Backends.Router.{select, is_subset}

pub record MockBackend : Type 0 where
  pub name : String
  pub capabilities : List String

unfoldable pub mock_post_init : MockBackend → Result (Unit {0})
unfolding require_non_empty require_all_non_empty
mock_post_init m = do
  require_non_empty m.name "name must be non-empty"
  require_all_non_empty m.capabilities "capability must be non-empty"

-- _require_supported
unfoldable pub require_supported : MockBackend → InvestigationRequest → Result (Unit {0})
unfolding is_subset
require_supported m request =
    if is_subset request.required_capabilities m.capabilities
    then ok tt
    else err (unsupported_capabilities request.required_capabilities)

unfoldable pub mock_submit :
    (Uuid → String) → MockBackend → InvestigationRequest → Uuid → Result SubmittedOperation
unfolding require_supported submitted_post_init
mock_submit uuid_text m request operation_key = do
  require_supported m request
  let submitted : SubmittedOperation = record {
    external_operation_id = "mock:" ++ uuid_text operation_key;
  }
  submitted_post_init submitted
  ok submitted

unfoldable pub mock_poll : MockBackend → InvestigationRequest → String → Result OperationStatus
unfolding require_supported require_non_empty status_post_init
mock_poll m request external_operation_id = do
  require_supported m request
  require_non_empty external_operation_id "external_operation_id must be non-empty"
  let status : OperationStatus = record { state = succeeded; remote_state = "completed" }
  status_post_init status
  ok status

-- the evidence of each capability, built in order
unfoldable pub mock_evidence : List String → Result (List EvidenceReference)
unfolding evidence_post_init
mock_evidence [] = ok []
mock_evidence (capability ∷ rest) = do
  let item : EvidenceReference = record {
    reference = "mock:" ++ capability;
    kind = some "mock-result";
  }
  evidence_post_init item
  others ← mock_evidence rest
  ok (item ∷ others)

-- InvestigationResult(…)
unfoldable pub mock_result :
    MockBackend → InvestigationRequest → List EvidenceReference → Result InvestigationResult
unfolding investigation_result_post_init
mock_result m request evidence =
    let result : InvestigationResult = record {
      backend = m.name;
      completed_capabilities = request.required_capabilities;
      evidence = evidence;
    } in
    investigation_result_post_init result >> ok result

unfoldable pub mock_collect :
    MockBackend → InvestigationRequest → String → Result InvestigationResult
unfolding require_supported require_non_empty mock_evidence mock_result
mock_collect m request external_operation_id = do
  require_supported m request
  require_non_empty external_operation_id "external_operation_id must be non-empty"
  evidence ← mock_evidence request.required_capabilities
  mock_result m request evidence

-- the mock as a backend; it ignores its timeouts, and answers alike at every call
abbrev pub backend_of : (Uuid → String) → MockBackend → InvestigationBackend
backend_of uuid_text m = record {
  name = m.name;
  capabilities = m.capabilities;
  submit = λ request key timeout n. mock_submit uuid_text m request key >>= λ s. ok (instance_of s);
  poll = λ request id timeout n. mock_poll m request id >>= λ s. ok (instance_of s);
  collect_result = λ request id n. mock_collect m request id;
}

abbrev pub completed_status : OperationStatus
completed_status = record { state = succeeded; remote_state = "completed" }

collected_names :
    (m : MockBackend) (request : InvestigationRequest) (r : InvestigationResult)
    → (mock_evidence request.required_capabilities >>= mock_result m request) ≡ ok r
    → (r.backend ≡ m.name) × (r.completed_capabilities ≡ request.required_capabilities)
unfolding mock_result
collected_names m request r h =
    let (evidence, gathered, h1) =
      bind-ok (mock_evidence request.required_capabilities) (mock_result m request) r h in
    let result : InvestigationResult = record {
      backend = m.name;
      completed_capabilities = request.required_capabilities;
      evidence = evidence;
    } in
    let same : Result.ok result ≡ ok r =
      check-ok (investigation_result_post_init result) (ok result) r h1 in
    (cc, cc)

-- When the router has selected the mock for a request, a poll of any operation that is not blank
-- reports success, and a result that is collected is the mock's own and names exactly the required
-- capabilities as completed.
pub selected_mock :
    (backends : List InvestigationBackend) (uuid_text : Uuid → String) (m : MockBackend)
    (request : InvestigationRequest) (id : String) (timeout : Option ℕ) (n : ℕ)
    → select backends request ≡ ok (backend_of uuid_text m)
    → is_blank id ≡ false
    → ((backend_of uuid_text m).poll request id timeout n ≡ ok (instance_of completed_status))
      × ((r : InvestigationResult)
          → (backend_of uuid_text m).collect_result request id n ≡ ok r
          → (r.backend ≡ m.name) × (r.completed_capabilities ≡ request.required_capabilities))
unfolding mock_poll mock_collect require_supported require_non_empty status_post_init is_blank
selected_mock backends uuid_text m request id timeout n chosen visible =
    let able = (select_unique backends request (backend_of uuid_text m) chosen).1 in
    (rw (able, visible) refl, λ r h. collected_names m request r (rw (able, visible) at h))
