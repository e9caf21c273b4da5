-- ===== src/Application/Record.antt =====
-- src/alert2ir/application/persistence.py: `ProcessingRecord`, one durable processing, and the
-- checks of its `__post_init__`, in their order.
use Prim.Native.String.{◌++◌}
use mathlib.Core.Bool.{xor}
use alert2ir.Prelude.{ℕ, String, Option, none, some, List, Bool, not, ◌&&◌, ◌||◌, ltb, nat_eq, ◌==◌}
use alert2ir.Python.Result.{Result, ◌>>=◌, ◌>>◌, raise_if}
use alert2ir.Python.DateTime.{DateTime, is_naive, precedes}
use alert2ir.Python.Text.{length, text_length}
use alert2ir.Python.Optional.{is_none, is_some, when_some}
use alert2ir.Core.Models.{CanonicalAlert, source_equality, alert_equality}
use alert2ir.Core.Workflow.{Decision, Incident, InvestigationRequest}
use alert2ir.Backends.Base.{Uuid}
use alert2ir.Application.Orchestrator.{OrchestrationResult}
use alert2ir.Application.States.{ProcessingState, processing_state_value}

pub record ProcessingRecord : Type 0 where
  pub processing_id : Uuid
  pub created_at : DateTime
  pub updated_at : DateTime
  pub alert : CanonicalAlert
  pub state : ProcessingState
  pub idempotency_scope : Option String
  pub idempotency_key : Option String
  pub fingerprint_version : Option ℕ
  pub request_fingerprint : Option (List ℕ)
  pub planned_decision : Option Decision
  pub planned_incident : Option Incident
  pub planned_request : Option InvestigationRequest
  pub selected_backend : Option String
  pub completed_result : Option OrchestrationResult
  pub completed_at : Option DateTime
  pub failed_at : Option DateTime
  pub error_category : Option String
  pub error_detail : Option String

unfoldable pub require_aware : Option DateTime → String → Result (Unit {0})
require_aware value message = raise_if (when_some value is_naive) message

-- not value or len(value) > 256
abbrev pub is_unbounded : String → Bool
is_unbounded value = nat_eq (text_length value) 0 || ltb 256 (text_length value)

unfoldable pub require_bounded_error : Option String → String → Result (Unit {0})
require_bounded_error value message = raise_if (when_some value is_unbounded) message

unfoldable pub times_check : ProcessingRecord → Result (Unit {0})
unfolding require_aware
times_check r = do
  require_aware (some r.created_at) "created_at must be timezone-aware"
  require_aware (some r.updated_at) "updated_at must be timezone-aware"
  require_aware r.completed_at "completed_at must be timezone-aware"
  require_aware r.failed_at "failed_at must be timezone-aware"
  backwards ← precedes r.updated_at r.created_at
  raise_if backwards "updated_at cannot precede created_at"

unfoldable pub key_check : Option String → Option (List ℕ) → Result (Unit {0})
key_check none fingerprint =
    raise_if (is_some fingerprint) "legacy processing cannot contain a fingerprint"
key_check (some key) fingerprint =
    raise_if (is_none fingerprint) "idempotent processing requires a fingerprint"

unfoldable pub identity_check : ProcessingRecord → Result (Unit {0})
unfolding key_check
identity_check r = do
  raise_if (xor (is_none r.idempotency_scope) (is_none r.idempotency_key))
      "idempotency scope and key must be present together"
  raise_if
      (xor (is_none r.fingerprint_version || is_none r.request_fingerprint)
        (is_none r.fingerprint_version && is_none r.request_fingerprint))
      "fingerprint version and digest must be present together"
  key_check r.idempotency_key r.request_fingerprint
  raise_if (when_some r.request_fingerprint λ digest. not (nat_eq (length digest) 32))
      "request fingerprint must contain exactly 32 bytes"
  raise_if (when_some r.fingerprint_version λ version. not (nat_eq version 1))
      "unsupported request fingerprint version"

unfoldable pub error_check : Option String → Option String → Result (Unit {0})
unfolding require_bounded_error
error_check category detail = do
  require_bounded_error category "error_category must contain 1-256 characters"
  require_bounded_error detail "error_detail must contain 1-256 characters"
  raise_if (xor (is_none category) (is_none detail))
      "error category and detail must be present together"

-- any(value is not None for value in planned_values)
abbrev pub has_plan_value : ProcessingRecord → Bool
has_plan_value r =
    is_some r.planned_decision
    || is_some r.planned_incident
    || is_some r.planned_request
    || is_some r.selected_backend

-- any(value is None for value in planned_values)
abbrev pub lacks_plan_value : ProcessingRecord → Bool
lacks_plan_value r =
    is_none r.planned_decision
    || is_none r.planned_incident
    || is_none r.planned_request
    || is_none r.selected_backend

-- the branch of the states that hold a plan and no result
unfoldable pub open_plan_check : ProcessingRecord → Result (Unit {0})
open_plan_check r = do
  raise_if (lacks_plan_value r)
      (processing_state_value r.state ++ " processing requires a complete plan")
  raise_if (is_some r.completed_result)
      (processing_state_value r.state ++ " processing cannot contain a result")

unfoldable pub state_check : ProcessingRecord → Result (Unit {0})
unfolding open_plan_check
state_check r = elim r.state [
  | ProcessingState.accepted ↦ do
    raise_if (has_plan_value r) "accepted processing cannot contain a plan"
    raise_if (is_some r.completed_result) "accepted processing cannot contain a result"
  | ProcessingState.planned ↦ open_plan_check r
  | ProcessingState.submitting ↦ open_plan_check r
  | ProcessingState.submitted ↦ open_plan_check r
  | ProcessingState.recovery_required ↦ open_plan_check r
  | ProcessingState.completed ↦ do
    raise_if (is_none r.completed_result || is_none r.completed_at)
        "completed processing requires result and completed_at"
    raise_if (is_some r.failed_at) "completed processing cannot contain failed_at"
  | ProcessingState.failed ↦ do
    raise_if (is_none r.failed_at || is_none r.error_category)
        "failed processing requires failed_at and error_category"
    raise_if (is_some r.completed_result || is_some r.completed_at)
        "failed processing cannot contain a completed result"
]

unfoldable pub source_check : ProcessingRecord → Result (Unit {0})
source_check r = do
  raise_if (when_some r.planned_decision λ d. not (d.source == r.alert.source))
      "planned decision source must match alert source"
  raise_if
      (is_some r.planned_decision && (when_some r.planned_incident λ i. not (i.alert == r.alert)))
      "planned incident alert must match alert"
  raise_if (when_some r.completed_result λ c. not (c.decision.source == r.alert.source))
      "result decision source must match alert source"
  raise_if (when_some r.completed_result λ c. when_some c.incident λ i. not (i.alert == r.alert))
      "result incident alert must match alert"

-- ProcessingRecord.__post_init__
unfoldable pub record_post_init : ProcessingRecord → Result (Unit {0})
record_post_init r = do
  times_check r
  identity_check r
  error_check r.error_category r.error_detail
  state_check r
  source_check r

-- the properties `decision`, `incident` and `investigation_request` of a record
unfoldable pub record_decision : ProcessingRecord → Option Decision
record_decision r = elim r.completed_result [ some c ↦ some c.decision | none ↦ r.planned_decision ]

unfoldable pub record_incident : ProcessingRecord → Option Incident
record_incident r = elim r.completed_result [ some c ↦ c.incident | none ↦ r.planned_incident ]

unfoldable pub record_request : ProcessingRecord → Option InvestigationRequest
record_request r = elim r.completed_result [
  | some c ↦ c.investigation_request
  | none ↦ r.planned_request
]
