-- ===== src/Processing/Polling.antt =====
-- src/alert2ir/application/processing.py: `_poll_submitted`, the poll of a known operation.
use alert2ir.Prelude.{ℕ, String, Option, none, some, [], ◌∷◌, string_equality, if◌then◌else◌}
use alert2ir.Python.Result.{Result, ok, err, timeout_error}
use alert2ir.Python.Action.{Action, pure, ◌>>=◌}
use alert2ir.Core.Workflow.{InvestigationRequest}
use alert2ir.Backends.Base.{
  InvestigationBackend, OperationStatus, OperationState, nonterminal, succeeded, failed,
  unrecognised, Returned, instance_of, other_object,
}
use alert2ir.Application.Orchestrator.{OrchestrationResult, backend_for_name}
use alert2ir.Application.States.{ProcessingState, ExecutionAttemptState}
use alert2ir.Application.Record.{ProcessingRecord, record_request}
use alert2ir.Application.Attempt.{ExecutionAttempt}
use alert2ir.Repository.Progress.{record_poll, complete_processing}
use alert2ir.Repository.Failure.{fail_processing, mark_recovery_required}
use alert2ir.Processing.Collected.{collect_outcome}
use alert2ir.Processing.World.{
  Processor, World, in_repository, calling, remaining, expired, reread, or_reread,
}

module _ (p : Processor) (current : ProcessingRecord) (attempt : ExecutionAttempt) where
  -- mark_recovery_required(…) or self._reread(…), from the submitted state
  unfoldable pub poll_recovery : String → String → Action World ProcessingRecord
  poll_recovery category detail = or_reread p current.processing_id (
      mark_recovery_required attempt.attempt_id (ExecutionAttemptState.submitted ∷ []) category
        detail)

  -- a poll that is written down, and the record after it
  unfoldable pub noted_poll : String → Option String → Option String → Action World ProcessingRecord
  noted_poll remote category detail = do
    noted ← in_repository p (record_poll attempt.attempt_id remote category detail)
    reread p current.processing_id

  -- the end of a poll that found success: the collected result is stored, or recovery is due
  unfoldable pub finish : Result OrchestrationResult → Action World ProcessingRecord
  finish (err e) =
      poll_recovery "backend_protocol_error" "backend result could not be collected safely"
  finish (ok result) =
      or_reread p current.processing_id (complete_processing attempt.attempt_id result)

  unfoldable pub collect :
      String → InvestigationBackend → InvestigationRequest → String → Action World ProcessingRecord
  unfolding finish
  collect backend_name backend request external = do
    outcome ← calling (backend.collect_result request external)
    finish (collect_outcome current backend_name request outcome)

  -- the operation succeeded: note the poll, and collect while there is time
  unfoldable pub succeed :
      String
      → InvestigationBackend
      → InvestigationRequest
      → String
      → String
      → Option ℕ
      → Action World ProcessingRecord
  unfolding collect
  succeed backend_name backend request external remote deadline = do
    noted ← in_repository p (record_poll attempt.attempt_id remote none none)
    budget ← remaining p deadline
    if expired budget
        then reread p current.processing_id
        else collect backend_name backend request external

  -- the operation failed: note the poll, and fail the processing
  unfoldable pub fail_operation : String → Action World ProcessingRecord
  fail_operation remote = do
    noted ← in_repository p (record_poll attempt.attempt_id remote none none)
    or_reread p current.processing_id (
        fail_processing current.processing_id (ProcessingState.submitted ∷ [])
          "backend_execution_failed" "known backend operation reached terminal failure"
          (some attempt.attempt_id))

  -- the branches on the reported state
  unfoldable pub settle :
      String
      → InvestigationBackend
      → InvestigationRequest
      → String
      → Option ℕ
      → OperationState
      → String
      → Action World ProcessingRecord
  unfolding succeed fail_operation noted_poll poll_recovery
  settle backend_name backend request external deadline nonterminal remote =
      noted_poll remote none none
  settle backend_name backend request external deadline failed remote = fail_operation remote
  settle backend_name backend request external deadline unrecognised remote =
      poll_recovery "backend_protocol_error" "known backend operation returned an unknown status"
  settle backend_name backend request external deadline succeeded remote =
      succeed backend_name backend request external remote deadline

  -- the branches on the outcome of the poll
  unfoldable pub polled :
      String
      → InvestigationBackend
      → InvestigationRequest
      → String
      → Option ℕ
      → Result (Returned OperationStatus)
      → Action World ProcessingRecord
  unfolding settle noted_poll poll_recovery
  polled backend_name backend request external deadline (ok (instance_of status)) =
      settle backend_name backend request external deadline status.state status.remote_state
  polled backend_name backend request external deadline (ok other_object) =
      poll_recovery "backend_protocol_error"
        "known backend operation status was not safely interpretable"
  polled backend_name backend request external deadline (err timeout_error) =
      noted_poll "timeout" (some "backend_timeout") (some "known backend operation poll timed out")
  polled backend_name backend request external deadline (err e) =
      poll_recovery "backend_protocol_error"
        "known backend operation status was not safely interpretable"

  unfoldable pub poll_backend :
      String
      → InvestigationBackend
      → InvestigationRequest
      → String
      → Option ℕ
      → Action World ProcessingRecord
  unfolding polled
  poll_backend backend_name backend request external deadline = do
    timeout ← remaining p deadline
    if expired timeout then pure current else (do
      outcome ← calling (backend.poll request external timeout)
      polled backend_name backend request external deadline outcome)

  -- backend_for_name, and recovery where no one backend has the name
  unfoldable pub poll_named :
      String
      → InvestigationRequest
      → String
      → Option ℕ
      → Option InvestigationBackend
      → Action World ProcessingRecord
  unfolding poll_backend poll_recovery
  poll_named backend_name request external deadline none =
      poll_recovery "recovery_required" "persisted backend is not configured"
  poll_named backend_name request external deadline (some backend) =
      poll_backend backend_name backend request external deadline

  unfoldable pub poll_known :
      Option InvestigationRequest
      → Option String
      → Option String
      → Option ℕ
      → Action World ProcessingRecord
  unfolding poll_named poll_recovery
  poll_known (some request) (some backend_name) (some external) deadline =
      poll_named backend_name request external deadline
        (backend_for_name p.orchestrator backend_name)
  poll_known _ _ _ deadline =
      poll_recovery "recovery_required" "submitted execution metadata is incomplete"

  -- _poll_submitted
  unfoldable pub poll_submitted : Option ℕ → Action World ProcessingRecord
  unfolding poll_known
  poll_submitted deadline =
      poll_known (record_request current) current.selected_backend attempt.external_operation_id
        deadline
