-- ===== src/Backends/Base.antt =====
-- src/alert2ir/backends/base.py: the values of the backend lifecycle, and a backend as its
-- operations. A backend is an external effect: each operation also takes the ordinal of the call,
-- so that two calls with equal arguments may answer differently.
use alert2ir.Prelude.{ℕ, String, Option, List, ltb}
use alert2ir.Python.Result.{Result, ◌>>◌, raise_if}
use alert2ir.Python.Text.{text_length}
use alert2ir.Core.Models.{EvidenceReference, require_non_empty}
use alert2ir.Core.Workflow.{InvestigationRequest, require_all_non_empty}

abbrev pub Uuid : Type 0
Uuid = ℕ

-- A state outside the enum is possible, since a dataclass does not check its fields' types.
pub data OperationState : Type 0 where
  nonterminal succeeded failed unrecognised : OperationState

pub record SubmittedOperation : Type 0 where
  pub external_operation_id : String

unfoldable pub submitted_post_init : SubmittedOperation → Result (Unit {0})
unfolding require_non_empty
submitted_post_init s = do
  require_non_empty s.external_operation_id "external_operation_id must be non-empty"
  raise_if (ltb 512 (text_length s.external_operation_id))
      "external_operation_id must not exceed 512 characters"

pub record OperationStatus : Type 0 where
  pub state : OperationState
  pub remote_state : String

unfoldable pub status_post_init : OperationStatus → Result (Unit {0})
unfolding require_non_empty
status_post_init s = do
  require_non_empty s.remote_state "remote_state must be non-empty"
  raise_if (ltb 256 (text_length s.remote_state)) "remote_state must not exceed 256 characters"

pub record InvestigationResult : Type 0 where
  pub backend : String
  pub completed_capabilities : List String
  pub evidence : List EvidenceReference

unfoldable pub investigation_result_post_init : InvestigationResult → Result (Unit {0})
unfolding require_non_empty require_all_non_empty
investigation_result_post_init r = do
  require_non_empty r.backend "backend must be non-empty"
  require_all_non_empty r.completed_capabilities "completed capability must be non-empty"

-- What a backend hands back: a value of the class that the protocol names, or some other object.
pub data Returned {ℓ} (A : Type ℓ) : Type ℓ where
  instance_of : A → Returned A
  other_object : Returned A

pub record InvestigationBackend : Type 0 where
  pub name : String
  pub capabilities : List String
  -- request, operation key, timeout in nanoseconds, ordinal of the call
  pub submit : InvestigationRequest → Uuid → Option ℕ → ℕ → Result (Returned SubmittedOperation)
  -- request, external operation, timeout in nanoseconds, ordinal of the call
  pub poll : InvestigationRequest → String → Option ℕ → ℕ → Result (Returned OperationStatus)
  pub collect_result : InvestigationRequest → String → ℕ → Result InvestigationResult
