-- ===== src/Application/Attempt.antt =====
-- src/alert2ir/application/persistence.py: `ExecutionAttempt`, one durable execution, and the
-- checks of its `__post_init__`, in their order.
use alert2ir.Prelude.{ℕ, String, Option, some, ◌||◌, ltb}
use alert2ir.Python.Result.{Result, ◌>>◌, raise_if}
use alert2ir.Python.DateTime.{DateTime}
use alert2ir.Python.Text.{text_length, is_blank}
use alert2ir.Python.Optional.{is_none, is_some, when_some}
use alert2ir.Backends.Base.{Uuid}
use alert2ir.Application.States.{ExecutionAttemptState}
use alert2ir.Application.Record.{require_aware, require_bounded_error, error_check}

pub record ExecutionAttempt : Type 0 where
  pub attempt_id : Uuid
  pub processing_id : Uuid
  pub attempt_number : ℕ
  pub operation_key : Uuid
  pub backend : String
  pub state : ExecutionAttemptState
  pub created_at : DateTime
  pub started_at : Option DateTime
  pub submitted_at : Option DateTime
  pub last_polled_at : Option DateTime
  pub completed_at : Option DateTime
  pub failed_at : Option DateTime
  pub external_operation_id : Option String
  pub last_remote_state : Option String
  pub error_category : Option String
  pub error_detail : Option String

unfoldable pub attempt_times_check : ExecutionAttempt → Result (Unit {0})
unfolding require_aware
attempt_times_check a = do
  raise_if (ltb a.attempt_number 1) "attempt_number must be positive"
  raise_if (is_blank a.backend) "backend must be non-empty"
  require_aware (some a.created_at) "created_at must be timezone-aware"
  require_aware a.started_at "started_at must be timezone-aware"
  require_aware a.submitted_at "submitted_at must be timezone-aware"
  require_aware a.last_polled_at "last_polled_at must be timezone-aware"
  require_aware a.completed_at "completed_at must be timezone-aware"
  require_aware a.failed_at "failed_at must be timezone-aware"

unfoldable pub operation_id_check : Option String → Result (Unit {0})
operation_id_check external =
    raise_if (when_some external λ e. is_blank e || ltb 512 (text_length e))
      "external_operation_id must contain 1-512 characters"

unfoldable pub attempt_state_check : ExecutionAttempt → Result (Unit {0})
attempt_state_check a = elim a.state [
  | ExecutionAttemptState.planned ↦
      raise_if
        (is_some a.started_at
          || is_some a.submitted_at
          || is_some a.external_operation_id
          || is_some a.completed_at
          || is_some a.failed_at)
        "planned attempt contains execution fields"
  | ExecutionAttemptState.submitting ↦
      raise_if (is_none a.started_at || is_some a.external_operation_id)
        "submitting attempt requires only a start time"
  | ExecutionAttemptState.submitted ↦ do
    raise_if (is_none a.started_at || is_none a.submitted_at || is_none a.external_operation_id)
        "submitted attempt requires durable operation identity"
    raise_if (is_some a.completed_at || is_some a.failed_at)
        "submitted attempt cannot contain terminal timestamps"
  | ExecutionAttemptState.completed ↦ do
    raise_if
        (is_none a.started_at
          || is_none a.submitted_at
          || is_none a.external_operation_id
          || is_none a.completed_at)
        "completed attempt is missing required fields"
    raise_if (is_some a.failed_at) "completed attempt cannot contain failed_at"
  | ExecutionAttemptState.failed ↦ do
    raise_if (is_none a.failed_at || is_none a.error_category)
        "failed attempt requires failure metadata"
    raise_if (is_some a.completed_at) "failed attempt cannot contain completed_at"
  | ExecutionAttemptState.recovery_required ↦ do
    raise_if (is_none a.started_at || is_none a.error_category)
        "recovery-required attempt requires recovery metadata"
    raise_if (is_some a.completed_at || is_some a.failed_at)
        "recovery-required attempt is nonterminal"
]

-- ExecutionAttempt.__post_init__
unfoldable pub attempt_post_init : ExecutionAttempt → Result (Unit {0})
attempt_post_init a = do
  attempt_times_check a
  require_bounded_error a.last_remote_state "last_remote_state must contain 1-256 characters"
  error_check a.error_category a.error_detail
  operation_id_check a.external_operation_id
  attempt_state_check a
